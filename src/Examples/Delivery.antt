-- ===== src/Examples/Delivery.antt =====
-- Policies, envelopes and lines as cmd/mailscript/delivery.go and cmd/mailscript/proxy.go see them.
use mailscript.Base.{
  length, drop, any, All, ok, ◌≤◌, ◌≡◌, refl, ◌≢◌, ◌↔◌, Bool, true, false, ◌&&◌, none, List, [],
  ◌∷◌, ◌++◌, arith,
}
use mailscript.Text
use mailscript.Text.{Bytes, codes}
use mailscript.Delivery.Policy.{policy_disposition}
use mailscript.Delivery.Policy.Verdicts.{asks_quarantine, is_blocking, policy_disposition_exact}
use mailscript.Delivery.Headers.{strip_header}
use mailscript.Delivery.Headers.Stripping.{header_lines, begins_field, strip_header-removes}
use mailscript.Delivery.Policy.Safety.{IsInline, policy_disposition-IsInline}
use mailscript.Delivery.Envelope.{max_message_size, rcpt_to, parse_smtp_path}
use mailscript.Delivery.Envelope.Paths.{
  IsEnvelopeAddress, IsParameter, parse_smtp_path_sound, parse_smtp_path_roundtrip,
}
use mailscript.Delivery.Wire.{
  ReadStatus, line_end, buffer_full, crlf, dot_stuff, read_data, read_wire_line, validate_wire_data,
}
use mailscript.Delivery.Wire.Framing.{IsCrlfText, validate_wire_data_exact}
use mailscript.Delivery.Wire.Transparency.{IsLine, text_of_lines, read_data-dot_stuff}

abbrev spam_actions : List Bytes
spam_actions = codes "add_header:X-Spam:yes" ∷ codes "quarantine" ∷ []

abbrev rejecting : List Bytes
rejecting = codes "reject" ∷ []

abbrev accepting : List Bytes
accepting = codes "accept" ∷ []

policy_disposition_exact_example :
    (any (is_blocking true) spam_actions ≡ false
      → ((policy_disposition spam_actions true).code ≡ 250)
        × ((policy_disposition spam_actions true).quarantine
            ≡ (true && any asks_quarantine spam_actions)))
    × (any (is_blocking true) spam_actions ≡ true
        → (400 ≤ (policy_disposition spam_actions true).code)
          × ((policy_disposition spam_actions true).code ≤ 599)
          × ((policy_disposition spam_actions true).quarantine ≡ false))
policy_disposition_exact_example = policy_disposition_exact spam_actions true

rejecting-code : (policy_disposition rejecting false).code ≢ 250
unfolding policy_disposition codes Text.eq
rejecting-code h = omega (arith, h)

abbrev injected : List Bytes
injected = (codes "smtp_error:550:no" ++ (b'\r' ∷ b'\n' ∷ codes "250 yes")) ∷ []

policy_disposition-IsInline_example : All IsInline (policy_disposition injected false).reason
policy_disposition-IsInline_example = policy_disposition-IsInline injected false

abbrev address : Bytes
address = codes "ann@example.org"

address-IsEnvelopeAddress : (allow_empty : Bool) → IsEnvelopeAddress allow_empty address
unfolding codes
address-IsEnvelopeAddress allow_empty = omega arith

abbrev line : Bytes
line = codes "RCPT TO:" ++ (b'<' ∷ (address ++ (b'>' ∷ [])))

parse_smtp_path_roundtrip_example : parse_smtp_path line rcpt_to false ≡ ok address
unfolding codes Text.to_upper
parse_smtp_path_roundtrip_example =
    parse_smtp_path_roundtrip (codes "RCPT TO:") false address refl
      (address-IsEnvelopeAddress false)

parse_smtp_path_sound_example :
    IsEnvelopeAddress false address
    × ((rest : Bytes) × (Text.trim_space (drop (length rcpt_to) line)
          ≡ b'<' ∷ (address ++ (b'>' ∷ rest)))
        × All (IsParameter rcpt_to) (Text.fields rest))
    × (Text.has_prefix rcpt_to (Text.to_upper line) ≡ true)
parse_smtp_path_sound_example =
    parse_smtp_path_sound line rcpt_to false address parse_smtp_path_roundtrip_example

abbrev body : List Bytes
body = codes "Subject: x" ∷ [] ∷ codes "." ∷ codes "..more" ∷ []

body-IsLine : All IsLine body
unfolding codes
body-IsLine = omega arith

body-fits : length (text_of_lines body) ≤ max_message_size
unfolding codes text_of_lines
body-fits = omega arith

read_data-dot_stuff_example :
    read_data (Text.split_after b'\n' (dot_stuff (text_of_lines body) ++ (b'.' ∷ crlf)))
    ≡ ok (text_of_lines body)
read_data-dot_stuff_example = read_data-dot_stuff body body-IsLine body-fits

abbrev smuggled : Bytes
smuggled = codes "end" ++ (b'\n' ∷ b'.' ∷ b'\r' ∷ b'\n' ∷ [])

validate_wire_data_exact_example :
    (validate_wire_data smuggled ≡ none)
    ↔ ((length smuggled ≤ max_message_size) × IsCrlfText smuggled)
validate_wire_data_exact_example = validate_wire_data_exact smuggled

abbrev line_parts : List (Bytes × ReadStatus)
line_parts = (codes "NO", buffer_full) ∷ (codes "OP" ++ crlf, line_end) ∷ []

line_parts-read : read_wire_line line_parts 8 ≡ ok (codes "NOOP" ++ crlf)
unfolding read_wire_line codes
line_parts-read = refl

-- The field that only the proxy may set, and a continuation of it.
abbrev forged : Bytes
forged =
    codes "Subject: x"
    ++ (b'\n' ∷ codes "x-mailscript-quarantine : true")
    ++ (b'\n' ∷ codes " more")
    ++ (b'\n' ∷ b'\n' ∷ codes "text")

strip_header-removes_example :
    any (begins_field (codes "X-MailScript-Quarantine")) (
      header_lines (Text.split_after b'\n' (strip_header forged (codes "X-MailScript-Quarantine"))))
    ≡ false
strip_header-removes_example = strip_header-removes forged (codes "X-MailScript-Quarantine")
