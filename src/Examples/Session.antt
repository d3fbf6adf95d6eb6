-- ===== src/Examples/Session.antt =====
-- A session of cmd/mailscript/proxy.go, from the greeting to the acknowledged message.
use mailscript.Base.{
  if◌then◌else◌, length, All, Result, ok, ℕ, ◌≤◌, ◌≡◌, refl, ◌≢◌, ◌↔◌, true, false, none, List, [],
  ◌∷◌, ◌++◌, arith,
}
use mailscript.Text
use mailscript.Text.{Bytes, codes}
use mailscript.Session.State.{Session, Proxy, UpstreamError, ran, Answers, Input, start}
use mailscript.Session.Loop.{serve}
use mailscript.Session.Loop.Invariant.{IsValid, start-IsValid}
use mailscript.Delivery.Envelope.{max_message_size}
use mailscript.Delivery.Envelope.Paths.{IsEnvelopeAddress}
use mailscript.Delivery.Wire.{read_data}
use mailscript.Delivery.Wire.Framing.{IsCrlfText}
use mailscript.Session.Data.{handle_data}
use mailscript.Session.Data.Acknowledgement.{IsDelivered, handle_data-IsDelivered}
use mailscript.Session.Deliver.{forward_to_upstream, unique_from}
use mailscript.Session.Reading.{read_smtp_reply}
use mailscript.Session.Reading.Extent.{IsReply, read_smtp_reply-IsReply}
use mailscript.Session.Deliver.Recipients.{IsTransacted, forward_to_upstream_exact}
use mailscript.Session.Loop.Accounting.{IsBalanced, serve-IsBalanced}
use mailscript.Session.Loop.Preservation.{serve-IsValid}

abbrev relay : Proxy
relay = record {
  submission = false;
  has_tls = false;
  has_upstream = true;
  has_host_adapter = false;
  forward_quarantine = false;
}

-- The server behind takes all but one recipient.
abbrev rcpt_answer : Bytes → Result UpstreamError (ℕ × Bytes)
rcpt_answer address =
    if Text.eq address (codes "bob@example.org")
    then ok (550, codes "550 no such user")
    else ok (250, codes "250 OK")

abbrev answers : Answers
answers = record {
  connect = none;
  begin = none;
  rcpt = rcpt_answer;
  data_command = none;
  write = none;
  finish = none;
  host = none;
}

abbrev command : Bytes → List Bytes → Input
command line body = record {
  line = line;
  continuation = ok [];
  body = body;
  script = ran [] [] [];
  answers = answers;
  handshake = true;
}

abbrev message_lines : List Bytes
message_lines =
    (codes "Subject: x" ++ (b'\r' ∷ b'\n' ∷ []))
    ∷ (b'\r' ∷ b'\n' ∷ [])
    ∷ (b'.' ∷ b'\r' ∷ b'\n' ∷ [])
    ∷ []

abbrev conversation : List Input
conversation =
    command (codes "MAIL FROM:<ann@example.org>") []
    ∷ command (codes "ehlo client.example.org") []
    ∷ command (codes "mail from:<ann@example.org>") []
    ∷ command (codes "RCPT TO:<bob@example.org>") []
    ∷ command (codes "RCPT TO:<eve@example.org>") []
    ∷ command (codes "DATA") message_lines
    ∷ command (codes "QUIT") []
    ∷ []

serve-IsValid_example : IsValid relay (serve relay conversation start)
serve-IsValid_example = serve-IsValid relay conversation start (start-IsValid relay)

serve-IsBalanced_example : IsBalanced (serve relay conversation start)
serve-IsBalanced_example = serve-IsBalanced relay conversation start refl

-- The session before DATA.
abbrev ready : Session
ready = record start {
  helo = codes "c";
  mail_set = true;
  upstream = true;
  from = codes "a@b";
  recipients = codes "c@d" ∷ [];
}

abbrev data_input : Input
data_input = command (codes "DATA") message_lines

data_input-counted : (handle_data relay data_input ready).stats.accepted ≡ 1
unfolding handle_data codes mailscript.Session.State.reset_transaction
    mailscript.Session.Data.receive read_data mailscript.Session.Data.finish_data
    mailscript.Session.Data.process_with_mail_script mailscript.Session.Data.run_script
    mailscript.Session.Data.disposition_of mailscript.Delivery.Policy.policy_disposition
    mailscript.Delivery.Policy.unsupported_delivery_action mailscript.Session.Data.answer_delivery
    mailscript.Session.Deliver.deliver mailscript.Session.Deliver.redirected
    mailscript.Session.Deliver.targets mailscript.Session.Data.mark_quarantined
    mailscript.Delivery.Envelope.validate_envelope mailscript.Delivery.Headers.apply_header_changes
    mailscript.Delivery.Headers.strip_header mailscript.Delivery.Wire.validate_wire_data
    mailscript.Session.Data.count_accepted mailscript.Session.Data.count_processed
    mailscript.Session.Data.count_rejected forward_to_upstream
    mailscript.Session.Deliver.open_transaction mailscript.Session.Deliver.send_message Text.join
    Text.split_after Text.has_suffix Text.trim_suffix Text.eq Text.has_prefix Text.cut
    Text.trim_space Text.equal_fold Text.trim_right mailscript.Delivery.Headers.is_field
data_input-counted = refl

data_input-accepted : (handle_data relay data_input ready).stats.accepted ≢ ready.stats.accepted
data_input-accepted h = omega (arith, h, data_input-counted)

handle_data-IsDelivered_example :
    (ready.mail_set ≡ true)
    × (ready.recipients ≢ [])
    × ((raw : Bytes) × (read_data data_input.body ≡ ok raw)
        × IsDelivered relay data_input ready raw)
handle_data-IsDelivered_example = handle_data-IsDelivered relay data_input ready data_input-accepted

abbrev unopened : Session
unopened = record ready {
  upstream = false;
  recipients = codes "eve@example.org" ∷ codes "bob@example.org" ∷ [];
  message = codes "x";
}

forward_to_upstream_exact_example : ((forward_to_upstream answers unopened).0 ≡ none) ↔ (
    ((length unopened.message ≤ max_message_size) × IsCrlfText unopened.message)
    × (IsEnvelopeAddress true unopened.from
        × (unopened.recipients ≢ [])
        × All (IsEnvelopeAddress false) unopened.recipients)
    × IsTransacted answers unopened
    × ((answers.data_command ≡ none) × (answers.write ≡ none) × (answers.finish ≡ none)))
forward_to_upstream_exact_example = forward_to_upstream_exact answers unopened

abbrev twice_named : List Bytes
twice_named = codes "a@b" ∷ codes "c@d" ∷ codes "a@b" ∷ []

abbrev reply_lines : List Bytes
reply_lines = codes "250-first" ∷ codes "250 last" ∷ codes "354 next" ∷ []

reply_lines-read : read_smtp_reply reply_lines ≡ ok (250, codes "250-first250 last")
unfolding read_smtp_reply codes mailscript.Session.Reading.line_code Text.trim_right
    mailscript.Session.Reading.bad_separator mailscript.Session.Reading.status_code Text.atoi
    mailscript.Session.Reading.continues
reply_lines-read = refl

read_smtp_reply-IsReply_example :
    (200 ≤ 250) × (250 ≤ 599) × IsReply reply_lines [] 250 (codes "250-first250 last")
read_smtp_reply-IsReply_example =
    read_smtp_reply-IsReply reply_lines 250 (codes "250-first250 last") reply_lines-read
