-- ===== src/Session/Data/Acknowledgement.antt =====
-- `handleDATA` of cmd/mailscript/proxy.go: what an acknowledged message went through.
use mailscript.Base.{
  ◌==◌, if◌then◌else◌, Bool-cases, Option-cases, length, Result, ok, err, ℕ, ◌≡◌, refl, ap, ◌∙◌,
  ◌≢◌, inl, inr, Bool, true, false, not, ◌||◌, Option, none, some, List, [], arith,
}
use mailscript.Text.{Bytes, codes}
use mailscript.Delivery.Wire.{DataError, connection_lost, not_crlf, message_too_large, read_data}
use mailscript.Delivery.Headers.{strip_header, prepend_header, apply_header_changes}
use mailscript.Session.State.{
  Proxy, Session, Stats, UpstreamError, ScriptRun, parse_failed, script_failed, ran, Answers, Input,
  reset_transaction, write_line,
}
use mailscript.Session.Deliver.{forward_to_upstream, redirected, targets, unique_from, deliver}
use mailscript.Session.Data.{
  quarantine_header, disposition_of, count_processed, count_accepted, count_rejected,
  mark_quarantined, answer_delivery, answer_rejection, run_script, process_with_mail_script,
  finish_data, receive, handle_data,
}

pub forward_to_upstream-stats :
    (answers : Answers) (s : Session) → (forward_to_upstream answers s).1.stats ≡ s.stats
unfolding forward_to_upstream
forward_to_upstream-stats answers s = ground arith

pub deliver-stats :
    (p : Proxy) (answers : Answers) (s : Session) → (deliver p answers s).1.stats ≡ s.stats
unfolding deliver
deliver-stats p answers s =
    let sent = forward_to_upstream-stats answers in
    elim (Option-cases (redirected s.recipients (targets s.actions))) [
      | inl e ↦ rw e (ground (arith, sent s))
      | inr e ↦
          rw e.1
            (ground (arith, sent (record s { upstream = false; recipients = unique_from [] e.0 })))
    ]

-- The message that is handed on: without the client's copy of the quarantine header, changed as the
-- script asks, and marked if it is quarantined.
abbrev pub relayed : Bool → Bytes → List Bytes → List (Bytes × Bytes) → Bytes
relayed quarantined raw removed added =
    let changed = apply_header_changes (strip_header raw quarantine_header) removed added in
    if quarantined then prepend_header changed quarantine_header (codes "true") else changed

-- What an acknowledged message went through.
pub record IsDelivered (p : Proxy) (i : Input) (s : Session) (raw : Bytes) : Type 0 where
  pub actions : List Bytes
  pub removed : List Bytes
  pub added : List (Bytes × Bytes)
  pub script : i.script ≡ ran actions removed added
  pub code : (disposition_of p actions).code ≡ 250
  pub sent : Session
  pub sent_message : sent.message ≡ relayed (disposition_of p actions).quarantine raw removed added
  pub sent_from : sent.from ≡ s.from
  pub sent_recipients : sent.recipients ≡ s.recipients
  pub sent_actions : sent.actions ≡ actions
  pub delivered : (deliver p i.answers sent).0 ≡ none

answer_delivery-accepted :
    (r : Option UpstreamError × Session) (n : ℕ)
    → r.1.stats.accepted ≡ n
    → (answer_delivery r).stats.accepted ≢ n
    → r.0 ≡ none
unfolding answer_delivery count_accepted count_rejected
answer_delivery-accepted (none, s) n e h = refl
answer_delivery-accepted (some e', s) n e h = absurd (h e)

pub mark_quarantined-stats : (b : Bool) (s : Session) → (mark_quarantined b s).stats ≡ s.stats
unfolding mark_quarantined
mark_quarantined-stats b s = ground arith

processed-IsDelivered :
    (p : Proxy) (i : Input) (s : Session) (raw : Bytes) (script : ScriptRun)
    → i.script ≡ script
    → (finish_data p i.answers (
        run_script p script
          (record s { message = strip_header raw quarantine_header }))).stats.accepted
      ≢ s.stats.accepted
    → IsDelivered p i s raw
unfolding finish_data run_script count_processed count_rejected mark_quarantined answer_rejection
processed-IsDelivered p i s raw parse_failed e h = absurd (h refl)
processed-IsDelivered p i s raw script_failed e h = absurd (h refl)
processed-IsDelivered p i s raw (ran actions removed added) e h =
    elim (Bool-cases ((disposition_of p actions).code == 250)) [
      | inr f ↦ absurd ((rw f at h) refl)
      | inl t ↦
          let d = disposition_of p actions in
          let run =
            run_script p (ran actions removed added)
              (record s { message = strip_header raw quarantine_header }) in
          let sent = mark_quarantined d.quarantine (count_processed true run.session) in
          let stats =
            deliver-stats p i.answers sent
            ∙ mark_quarantined-stats d.quarantine (count_processed true run.session) in
          record {
            actions = actions;
            removed = removed;
            added = added;
            script = e;
            code = ground arith;
            sent = sent;
            sent_message = ground arith;
            sent_from = ground arith;
            sent_recipients = ground arith;
            sent_actions = ground arith;
            delivered =
                answer_delivery-accepted (deliver p i.answers sent) s.stats.accepted
                  (ap (λ (x : Stats). x.accepted) stats) (rw t at h);
          }
    ]

received-IsDelivered :
    (p : Proxy) (i : Input) (s : Session) (r : Result DataError Bytes)
    → read_data i.body ≡ r
    → (receive p i r s).stats.accepted ≢ s.stats.accepted
    → (raw : Bytes) × (read_data i.body ≡ ok raw) × IsDelivered p i s raw
unfolding receive process_with_mail_script
received-IsDelivered p i s (err connection_lost) e h = absurd (h refl)
received-IsDelivered p i s (err not_crlf) e h = absurd (h refl)
received-IsDelivered p i s (err message_too_large) e h = absurd (h refl)
received-IsDelivered p i s (ok raw) e h = (raw, e, processed-IsDelivered p i s raw i.script refl h)

IsDelivered-write_line :
    (p : Proxy) (i : Input) (s : Session) (raw msg : Bytes)
    → IsDelivered p i (write_line msg s) raw
    → IsDelivered p i s raw
IsDelivered-write_line p i s raw msg d = record {
  actions = d.actions;
  removed = d.removed;
  added = d.added;
  script = d.script;
  code = d.code;
  sent = d.sent;
  sent_message = d.sent_message;
  sent_from = d.sent_from;
  sent_recipients = d.sent_recipients;
  sent_actions = d.sent_actions;
  delivered = d.delivered;
}

-- A message is counted as accepted only if a transaction with recipients was under way, the whole
-- message was read, the script ran, its actions come to the code 250, and the delivery of the message
-- without the client's copy of the quarantine header, changed as the script asks and marked if it is
-- quarantined, met no error.
pub handle_data-IsDelivered :
    (p : Proxy) (i : Input) (s : Session)
    → (handle_data p i s).stats.accepted ≢ s.stats.accepted
    → (s.mail_set ≡ true)
      × (s.recipients ≢ [])
      × ((raw : Bytes) × (read_data i.body ≡ ok raw) × IsDelivered p i s raw)
unfolding handle_data reset_transaction
handle_data-IsDelivered p i s h = elim (Bool-cases (not s.mail_set || length s.recipients == 0)) [
  | inl e ↦ absurd ((rw e at h) refl)
  | inr e ↦
      let (raw, read, d) =
        received-IsDelivered p i (write_line (codes "354 End data with <CR><LF>.<CR><LF>") s)
          (read_data i.body) refl (rw e at h) in
      (ground arith, ground arith, (raw, read, IsDelivered-write_line p i s raw _ d))
]
