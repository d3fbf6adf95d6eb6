-- ===== src/Session/Deliver.antt =====
-- `deliver` and `forwardToUpstream` of cmd/mailscript/upstream.go.
pub mod Login
pub mod Recipients
use mailscript.Base.{
  ltb, leb, ◌==◌, if◌then◌else◌, any, Result, ok, err, ℕ, ◌+◌, Bool, true, ◌||◌, Option, none, some,
  List, [], ◌∷◌, ◌++◌,
}
use mailscript.Text
use mailscript.Text.{Bytes, codes}
use mailscript.Delivery.Envelope.{validate_envelope}
use mailscript.Delivery.Wire.{
  WireFault, too_large, bare_line_feed, bare_carriage_return, validate_wire_data,
}
use mailscript.Session.State.{Proxy, Session, UpstreamError, status, other, Answers, close_upstream}

unfoldable pub wire_fault_text : WireFault → Bytes
wire_fault_text too_large = codes "message exceeds 50 MiB"
wire_fault_text bare_line_feed = codes "DATA requires CRLF line endings"
wire_fault_text bare_carriage_return = codes "DATA contains a bare carriage return"

abbrev pub is_recipient_code : ℕ → Bool
is_recipient_code code = code == 250 || code == 251 || code == 252

-- Whether the new refusal `code` takes the place of the one that is kept.
abbrev replaces : Option UpstreamError → ℕ → Bool
replaces none code = true
replaces (some (status kept text)) code = leb 500 kept || ltb code 500
replaces (some other) code = true

-- What the recipients of a message that comes with its whole envelope are answered: an error of the
-- connection, or the number of those taken and the refusal to report.
unfoldable pub rcpt_all :
    Answers
    → ℕ
    → Option UpstreamError
    → List Bytes
    → Result UpstreamError (ℕ × Option UpstreamError)
rcpt_all answers accepted rejection [] = ok (accepted, rejection)
rcpt_all answers accepted rejection (rcpt ∷ rest) = elim (answers.rcpt rcpt) [
  | err e ↦ err e
  | ok reply ↦
      let taken = rcpt_all answers (accepted + 1) rejection rest in
      let refused =
        rcpt_all answers accepted
          (if replaces rejection reply.0 then some (status reply.0 reply.1) else rejection) rest in
      if is_recipient_code reply.0 then taken else refused
]

abbrev mixed : UpstreamError
mixed = status 451 (codes "Mixed recipient results; no message delivered")

-- The error of the recipients, if there is one: there is no partial delivery.
unfoldable pub all_or_none : Result UpstreamError (ℕ × Option UpstreamError) → Option UpstreamError
all_or_none (err e) = some e
all_or_none (ok (accepted, none)) = none
all_or_none (ok (accepted, some rejection)) = if ltb 0 accepted then some mixed else some rejection

-- The transaction that handleMAIL opened is used, or a new one is opened with all its recipients.
unfoldable pub open_transaction : Answers → Session → Option UpstreamError
open_transaction answers s = if s.upstream then none else elim answers.begin [
  | some e ↦ some e
  | none ↦ all_or_none (rcpt_all answers 0 none s.recipients)
]

-- DATA, the stuffed message, and the final dot.
unfoldable pub send_message : Answers → Option UpstreamError
send_message answers = elim answers.data_command [
  | some e ↦ some e
  | none ↦ elim answers.write [ some e ↦ some e | none ↦ answers.finish ]
]

-- An envelope error is no upstreamError. On every path the transaction is closed or was not open,
-- but where the message or the envelope is refused first.
unfoldable pub forward_to_upstream : Answers → Session → Option UpstreamError × Session
forward_to_upstream answers s = elim (validate_wire_data s.message) [
  | some fault ↦ (some (status 550 (wire_fault_text fault)), s)
  | none ↦ elim (validate_envelope s.from s.recipients) [
    | some e ↦ (some other, s)
    | none ↦ elim (open_transaction answers s) [
      | some e ↦ (some e, close_upstream s)
      | none ↦ (send_message answers, close_upstream s)
    ]
  ]
]

-- The addresses that the actions send to in place of the recipients, or beside them.
pub data Target : Type 0 where
  replacement copy : Bytes → Target
  nowhere : Target

unfoldable pub target_of : List Bytes → Target
target_of (kind ∷ address ∷ []) =
    if Text.eq kind (codes "redirect") || Text.eq kind (codes "divert_to")
    then replacement address
    else if Text.eq kind (codes "screen_to")
    then copy address
    else nowhere
target_of _ = nowhere

abbrev put_target : Target → List Bytes × List Bytes → List Bytes × List Bytes
put_target (replacement a) (replacements, copies) = (a ∷ replacements, copies)
put_target (copy a) (replacements, copies) = (replacements, a ∷ copies)
put_target nowhere targets = targets

-- The replacements and the copies, in the order of the actions.
unfoldable pub targets : List Bytes → List Bytes × List Bytes
targets [] = ([], [])
targets (action ∷ actions) = put_target (target_of (Text.split_n b':' 2 action)) (targets actions)

-- Each address once, where it stands first; `seen` are those before.
unfoldable pub unique_from : List Bytes → List Bytes → List Bytes
unique_from seen [] = []
unique_from seen (r ∷ rest) =
    let later = unique_from (r ∷ seen) rest in
    let skipped = unique_from seen rest in if any (Text.eq r) seen then skipped else r ∷ later

-- The recipients before doubles are dropped, or none if no action redirects the message.
unfoldable pub redirected : List Bytes → List Bytes × List Bytes → Option (List Bytes)
redirected recipients ([], []) = none
redirected recipients ([], c ∷ copies) = some (recipients ++ (c ∷ copies))
redirected recipients (r ∷ replacements, copies) = some (r ∷ (replacements ++ copies))

unfoldable pub deliver : Proxy → Answers → Session → Option UpstreamError × Session
deliver p answers s =
    if p.has_host_adapter
    then (answers.host, close_upstream s)
    else elim (redirected s.recipients (targets s.actions)) [
      | none ↦ forward_to_upstream answers s
      | some recipients ↦ elim (validate_envelope s.from recipients) [
        | some e ↦ (some other, s)
        | none ↦
            forward_to_upstream answers
              (close_upstream (record s { recipients = unique_from [] recipients }))
      ]
    ]
