-- ===== src/Session/Data.antt =====
-- `handleDATA` and `processWithMailScript` of cmd/mailscript/proxy.go.
pub mod Login
pub mod Acknowledgement
use mailscript.Base.{
  ltb, leb, ◌==◌, if◌then◌else◌, length, Result, ok, err, ℕ, ◌+◌, Bool, true, false, not, ◌&&◌,
  ◌||◌, Option, none, some, List, ◌++◌,
}
use mailscript.Text.{Bytes, codes, is_empty, itoa}
use mailscript.Delivery.Policy.{
  Disposition, smtp_reply_text, policy_disposition, unsupported_delivery_action,
}
use mailscript.Delivery.Wire.{DataError, connection_lost, not_crlf, message_too_large, read_data}
use mailscript.Delivery.Headers.{strip_header, prepend_header, apply_header_changes}
use mailscript.Session.State.{
  Proxy, Session, UpstreamError, status, other, ScriptRun, parse_failed, script_failed, ran,
  Answers, Input, write_line, close, reset_transaction,
}
use mailscript.Session.Replies.{client_reply}
use mailscript.Session.Deliver.{deliver}

abbrev pub quarantine_header : Bytes
quarantine_header = codes "X-MailScript-Quarantine"

-- The disposition, once what only a host can do is refused where there is no host.
unfoldable pub disposition_of : Proxy → List Bytes → Disposition
disposition_of p actions =
    let d = policy_disposition actions (p.forward_quarantine || p.has_host_adapter) in
    let action = unsupported_delivery_action actions in
    if d.code == 250 && not (is_empty action) && not p.has_host_adapter
    then record {
      code = 451;
      reason = codes "Delivery action requires a host adapter: " ++ action;
      quarantine = false;
    }
    else d

-- Whether the message is accepted, whether it is quarantined, and the reason.
pub record Processed : Type 0 where
  pub accepted : Bool
  pub quarantined : Bool
  pub reason : Bytes
  pub session : Session

unfoldable pub run_script : Proxy → ScriptRun → Session → Processed
run_script p parse_failed s = record {
  accepted = false;
  quarantined = false;
  reason = codes "Message could not be parsed";
  session = s;
}
run_script p script_failed s = record {
  accepted = false;
  quarantined = false;
  reason = codes "Script execution error";
  session = record s { reply_code = 451 };
}
run_script p (ran actions removed added) s =
    let d = disposition_of p actions in
    record {
      accepted = d.code == 250;
      quarantined = d.quarantine;
      reason = d.reason;
      session = record s {
        message = apply_header_changes s.message removed added;
        actions = actions;
        reply_code = d.code;
      };
    }

-- The client's copy of the quarantine header is taken off before anything else.
unfoldable pub process_with_mail_script : Proxy → ScriptRun → Session → Processed
process_with_mail_script p script s =
    run_script p script (record s { message = strip_header s.message quarantine_header })

unfoldable pub count_processed : Bool → Session → Session
count_processed accepted s = record s {
  stats = record {
    processed = s.stats.processed + 1;
    accepted = s.stats.accepted;
    rejected = if accepted then s.stats.rejected else s.stats.rejected + 1;
    bytes = s.stats.bytes + length s.message;
  };
}

unfoldable pub count_accepted : Session → Session
count_accepted s = record s { stats = record (s.stats) { accepted = s.stats.accepted + 1 } }

unfoldable pub count_rejected : Session → Session
count_rejected s = record s { stats = record (s.stats) { rejected = s.stats.rejected + 1 } }

unfoldable pub mark_quarantined : Bool → Session → Session
mark_quarantined quarantined s =
    if quarantined
    then record s { message = prepend_header s.message quarantine_header (codes "true") }
    else s

-- The reply to a message that the server behind did not take.
unfoldable pub failure_reply : UpstreamError → Bytes
failure_reply (status code text) =
    if leb 400 code && ltb code 600 then client_reply code text else codes "450 Temporary failure"
failure_reply other = codes "450 Temporary failure"

unfoldable pub answer_delivery : Option UpstreamError × Session → Session
answer_delivery (none, s) = write_line (codes "250 OK: Message accepted") (count_accepted s)
answer_delivery (some e, s) = write_line (failure_reply e) (count_rejected s)

abbrev code_or_550 : ℕ → ℕ
code_or_550 code = if code == 0 then 550 else code

unfoldable pub answer_rejection : Bytes → Session → Session
answer_rejection reason s =
    write_line (itoa (code_or_550 s.reply_code) ++ (codes " " ++ smtp_reply_text reason)) s

unfoldable pub finish_data : Proxy → Answers → Processed → Session
finish_data p answers r =
    if r.accepted
    then answer_delivery
        (deliver p answers (mark_quarantined r.quarantined (count_processed true r.session)))
    else answer_rejection r.reason (count_processed false r.session)

-- What is done with the message, or with the failure to read it.
unfoldable pub receive : Proxy → Input → Result DataError Bytes → Session → Session
receive p i (err connection_lost) s = close s
receive p i (err not_crlf) s = close (write_line (codes "550 DATA requires CRLF line endings") s)
receive p i (err message_too_large) s = close (write_line (codes "552 Message too large") s)
receive p i (ok message) s =
    finish_data p i.answers (process_with_mail_script p i.script (record s { message = message }))

-- The transaction is reset on every path behind the first test.
unfoldable pub handle_data : Proxy → Input → Session → Session
handle_data p i s =
    if not s.mail_set || length s.recipients == 0
    then write_line (codes "503 Error: need MAIL command") s
    else reset_transaction (
        receive p i (read_data i.body) (write_line (codes "354 End data with <CR><LF>.<CR><LF>") s))
