-- ===== src/Session/Data/Login.antt =====
-- `handleDATA` of cmd/mailscript/proxy.go, and the part of a session that outlives a transaction.
use mailscript.Base.{Result, ok, err, true, arith}
use mailscript.Text.{Bytes}
use mailscript.Delivery.Wire.{DataError, connection_lost, not_crlf, message_too_large}
use mailscript.Delivery.Headers.{strip_header}
use mailscript.Session.State.{
  Proxy, Session, ScriptRun, parse_failed, script_failed, ran, Answers, Input,
}
use mailscript.Session.Deliver.Login.{SameLogin, deliver-SameLogin}
use mailscript.Session.Data.{
  quarantine_header, Processed, count_processed, count_accepted, count_rejected, mark_quarantined,
  answer_delivery, answer_rejection, run_script, process_with_mail_script, finish_data, receive,
}

run_script-SameLogin :
    (p : Proxy) (script : ScriptRun) (s : Session) → SameLogin s (run_script p script s).session
unfolding run_script
run_script-SameLogin p parse_failed s = ground arith
run_script-SameLogin p script_failed s = ground arith
run_script-SameLogin p (ran actions removed added) s = ground arith

finish_data-SameLogin :
    (p : Proxy) (answers : Answers) (r : Processed) → SameLogin r.session (finish_data p answers r)
unfolding finish_data count_processed count_accepted count_rejected mark_quarantined answer_delivery
    answer_rejection
finish_data-SameLogin p answers r = ground (
  arith,
  deliver-SameLogin p answers (mark_quarantined r.quarantined (count_processed true r.session)),
)

SameLogin-trans : (s t u : Session) → SameLogin s t → SameLogin t u → SameLogin s u
SameLogin-trans s t u h k = ground arith

pub receive-SameLogin :
    (p : Proxy) (i : Input) (r : Result DataError Bytes) (s : Session)
    → SameLogin s (receive p i r s)
unfolding receive process_with_mail_script
receive-SameLogin p i (err connection_lost) s = ground arith
receive-SameLogin p i (err not_crlf) s = ground arith
receive-SameLogin p i (err message_too_large) s = ground arith
receive-SameLogin p i (ok message) s =
    let start = record s { message = strip_header message quarantine_header } in
    let run = run_script-SameLogin p i.script start in
    let finish = finish_data-SameLogin p i.answers (run_script p i.script start) in
    SameLogin-trans s (run_script p i.script start).session _
      (SameLogin-trans s start (run_script p i.script start).session (ground arith) run) finish
