-- ===== src/Session/Loop/Accounting.antt =====
-- The counters `ProxyStats` of cmd/mailscript/proxy.go, over the commands of a session.
use mailscript.Base.{
  Result, ok, err, suc, ◌+◌, ◌≡◌, refl, sym, ◌∙◌, subst, Bool, true, false, Option, none, some,
  List, [], ◌∷◌, arith,
}
use mailscript.Text
use mailscript.Text.{Bytes, codes}
use mailscript.Delivery.Headers.{strip_header}
use mailscript.Delivery.Wire.{
  DataError, connection_lost, not_crlf, message_too_large, read_data, WireError,
}
use mailscript.Session.State.{
  Proxy, Session, Stats, UpstreamError, status, other, ScriptRun, parse_failed, script_failed, ran,
  Answers, Input, reset_transaction, write_line,
}
use mailscript.Session.Replies.{upstream_failure}
use mailscript.Session.Auth.{credentials, try_credentials, auth_plain, handle_auth}
use mailscript.Session.Deliver.{deliver}
use mailscript.Session.Data.{
  quarantine_header, Processed, count_processed, count_accepted, count_rejected, mark_quarantined,
  answer_delivery, answer_rejection, run_script, process_with_mail_script, finish_data, receive,
  handle_data,
}
use mailscript.Session.Data.Acknowledgement.{deliver-stats, mark_quarantined-stats}
use mailscript.Session.Loop.{
  handle_helo, handle_ehlo, ehlo_lines, open_mail, handle_mail, add_answered, handle_rcpt,
  handle_rset, handle_starttls, dispatch, handle_parts, handle_line, serve,
}

-- Every message that was processed was accepted or rejected, and none was both.
abbrev pub IsBalanced : Session → Type 0
IsBalanced s = s.stats.processed ≡ s.stats.accepted + s.stats.rejected

run_script-stats :
    (p : Proxy) (script : ScriptRun) (s : Session) → (run_script p script s).session.stats ≡ s.stats
unfolding run_script
run_script-stats p parse_failed s = refl
run_script-stats p script_failed s = refl
run_script-stats p (ran actions removed added) s = refl

answer_delivery-IsBalanced :
    (r : Option UpstreamError × Session) (t : Stats)
    → r.1.stats ≡ t
    → t.processed ≡ suc (t.accepted + t.rejected)
    → IsBalanced (answer_delivery r)
unfolding answer_delivery count_accepted count_rejected
answer_delivery-IsBalanced (none, s) t e h = ground arith
answer_delivery-IsBalanced (some e', s) t e h = ground arith

finish_data-IsBalanced :
    (p : Proxy) (answers : Answers) (r : Processed)
    → IsBalanced r.session
    → IsBalanced (finish_data p answers r)
unfolding finish_data count_processed answer_rejection
finish_data-IsBalanced p answers r b =
    let counted = count_processed true r.session in
    let marked = mark_quarantined r.quarantined counted in
    ground (
      arith,
      answer_delivery-IsBalanced (deliver p answers marked) counted.stats
          (deliver-stats p answers marked ∙ mark_quarantined-stats r.quarantined counted)
          (omega (arith, b)),
    )

receive-IsBalanced :
    (p : Proxy) (i : Input) (r : Result DataError Bytes) (s : Session)
    → IsBalanced s
    → IsBalanced (receive p i r s)
unfolding receive process_with_mail_script
receive-IsBalanced p i (err connection_lost) s b = b
receive-IsBalanced p i (err not_crlf) s b = b
receive-IsBalanced p i (err message_too_large) s b = b
receive-IsBalanced p i (ok raw) s b =
    let start = record s { message = strip_header raw quarantine_header } in
    finish_data-IsBalanced p i.answers (run_script p i.script start) (
      subst (λ (t : Stats). t.processed ≡ t.accepted + t.rejected)
        (sym (run_script-stats p i.script start)) b)

handle_data-IsBalanced :
    (p : Proxy) (i : Input) (s : Session) → IsBalanced s → IsBalanced (handle_data p i s)
unfolding handle_data reset_transaction
handle_data-IsBalanced p i s b = ground (
  arith,
  receive-IsBalanced p i (read_data i.body)
      (write_line (codes "354 End data with <CR><LF>.<CR><LF>") s) b,
)

upstream_failure-stats : (e : UpstreamError) (s : Session) → (upstream_failure e s).stats ≡ s.stats
unfolding upstream_failure
upstream_failure-stats (status code text) s = ground arith
upstream_failure-stats other s = refl

try_credentials-stats :
    (answers : Answers) (c : Option (Bytes × Bytes)) (s : Session)
    → (try_credentials answers c s).stats ≡ s.stats
unfolding try_credentials
try_credentials-stats answers none s = refl
try_credentials-stats answers (some (user, password)) s = ground arith

auth_plain-stats :
    (answers : Answers) (c : Result WireError Bytes) (parts : List Bytes) (s : Session)
    → (auth_plain answers c parts s).stats ≡ s.stats
unfolding auth_plain
auth_plain-stats answers c (_ ∷ _ ∷ encoded ∷ _) s =
    try_credentials-stats answers (credentials encoded) s
auth_plain-stats answers (err e) (_ ∷ _ ∷ []) s = refl
auth_plain-stats answers (err e) (_ ∷ []) s = refl
auth_plain-stats answers (err e) [] s = refl
auth_plain-stats answers (ok line) _ s =
    try_credentials-stats answers (credentials (Text.trim_space line)) (write_line (codes "334 ") s)

handle_auth-stats :
    (p : Proxy) (answers : Answers) (c : Result WireError Bytes) (parts : List Bytes) (s : Session)
    → (handle_auth p answers c parts s).stats ≡ s.stats
unfolding handle_auth
handle_auth-stats p answers c parts s = ground (arith, auth_plain-stats answers c parts s)

handle_helo-stats : (parts : List Bytes) (s : Session) → (handle_helo parts s).stats ≡ s.stats
unfolding handle_helo reset_transaction
handle_helo-stats [] s = refl
handle_helo-stats (_ ∷ []) s = refl
handle_helo-stats (_ ∷ name ∷ _) s = refl

handle_ehlo-stats :
    (p : Proxy) (parts : List Bytes) (s : Session) → (handle_ehlo p parts s).stats ≡ s.stats
unfolding handle_ehlo ehlo_lines reset_transaction
handle_ehlo-stats p [] s = refl
handle_ehlo-stats p (_ ∷ []) s = refl
handle_ehlo-stats p (_ ∷ name ∷ _) s = ground arith

handle_mail-stats :
    (p : Proxy) (answers : Answers) (line : Bytes) (s : Session)
    → (handle_mail p answers line s).stats ≡ s.stats
unfolding handle_mail open_mail reset_transaction
handle_mail-stats p answers line s = grind (arith, upstream_failure-stats)

handle_rcpt-stats :
    (answers : Answers) (line : Bytes) (s : Session) → (handle_rcpt answers line s).stats ≡ s.stats
unfolding handle_rcpt add_answered reset_transaction
handle_rcpt-stats answers line s = grind (arith, upstream_failure-stats)

handle_starttls-stats :
    (p : Proxy) (handshake : Bool) (s : Session) → (handle_starttls p handshake s).stats ≡ s.stats
unfolding handle_starttls reset_transaction
handle_starttls-stats p handshake s = ground arith

handle_parts-IsBalanced :
    (p : Proxy) (i : Input) (line : Bytes) (parts : List Bytes) (s : Session)
    → IsBalanced s
    → IsBalanced (handle_parts p i line parts s)
unfolding handle_parts dispatch handle_rset reset_transaction
handle_parts-IsBalanced p i line [] s b = b
handle_parts-IsBalanced p i line (cmd ∷ rest) s b = ground (
  arith,
  handle_auth-stats p i.answers i.continuation (cmd ∷ rest) s,
  handle_helo-stats (cmd ∷ rest) s,
  handle_ehlo-stats p (cmd ∷ rest) s,
  handle_mail-stats p i.answers line s,
  handle_rcpt-stats i.answers line s,
  handle_starttls-stats p i.handshake s,
  handle_data-IsBalanced p i s b,
)

handle_line-IsBalanced :
    (p : Proxy) (i : Input) (s : Session) → IsBalanced s → IsBalanced (handle_line p i s)
unfolding handle_line
handle_line-IsBalanced p i s b = ground (
  arith,
  handle_parts-IsBalanced p i (Text.trim_space i.line) (Text.fields (Text.trim_space i.line)) s b,
)

-- Over any session, every message that is counted as processed is counted once more, as accepted or
-- as rejected, if that was so before it.
pub serve-IsBalanced :
    (p : Proxy) (inputs : List Input) (s : Session) → IsBalanced s → IsBalanced (serve p inputs s)
unfolding serve
serve-IsBalanced p [] s b = b
serve-IsBalanced p (i ∷ inputs) s b =
    go s.closed (serve-IsBalanced p inputs (handle_line p i s) (handle_line-IsBalanced p i s b))
  where
    go :
        (c : Bool)
        → IsBalanced (serve p inputs (handle_line p i s))
        → (let t : Session = elim c [ true ↦ s | false ↦ serve p inputs (handle_line p i s) ] in
            IsBalanced t)
    go true k = b
    go false k = k
