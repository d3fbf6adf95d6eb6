-- ===== src/Delivery/Envelope.antt =====
-- `validEnvelopeAddress`, `validateEnvelope` and `parseSMTPPath` of cmd/mailscript/delivery.go.
pub mod Paths
use mailscript.Base.{
  ltb, leb, ◌==◌, if◌then◌else◌, length, drop, any, Result, ok, err, ℕ, ◌*◌, Bool, true, false, not,
  ◌&&◌, ◌||◌, Option, none, some, List, [], ◌∷◌,
}
use mailscript.Text
use mailscript.Text.{Bytes, codes}

-- strings.ContainsAny(address, "<>\r\n\x00")
unfoldable pub has_delimiter : Bytes → Bool
has_delimiter address =
    any (λ c. c == b'<' || c == b'>' || c == b'\r' || c == b'\n' || c == 0) address

unfoldable pub valid_envelope_address : Bytes → Bool → Bool
unfolding has_delimiter
valid_envelope_address [] allow_empty = allow_empty
valid_envelope_address (b ∷ address) allow_empty =
    if has_delimiter (b ∷ address)
    then false
    else not (any (λ r. ltb r 32 || r == 127) (b ∷ address))

pub data EnvelopeError : Type 0 where
  bad_sender no_recipient bad_recipient : EnvelopeError

-- The error, if there is one.
unfoldable pub validate_envelope : Bytes → List Bytes → Option EnvelopeError
unfolding valid_envelope_address
validate_envelope from [] =
    if not (valid_envelope_address from true) then some bad_sender else some no_recipient
validate_envelope from (r ∷ to) =
    if not (valid_envelope_address from true)
    then some bad_sender
    else if any (λ rcpt. not (valid_envelope_address rcpt false)) (r ∷ to)
    then some bad_recipient
    else none

pub data PathError : Type 0 where
  invalid_command missing_path unterminated_path invalid_address unsupported_parameter : PathError

abbrev pub mail_from : Bytes
mail_from = codes "MAIL FROM:"

abbrev pub rcpt_to : Bytes
rcpt_to = codes "RCPT TO:"

abbrev pub max_message_size : ℕ
max_message_size = 50 * 1024 * 1024

size_fits : Option ℕ → Bool
size_fits none = false
size_fits (some size) = leb size max_message_size

-- The loop body, for a parameter in capitals: whether it goes on.
unfoldable pub supported_parameter : Bytes → Bytes → Bool
unfolding size_fits
supported_parameter prefix p =
    Text.eq prefix mail_from
      && Text.has_prefix (codes "SIZE=") p
      && size_fits (Text.parse_uint (drop 5 p))
    || Text.eq prefix mail_from
      && (Text.eq p (codes "BODY=8BITMIME") || Text.eq p (codes "BODY=7BIT"))

-- From the text behind the opening bracket: path[1:end] and path[end+1:].
path_parts : Bytes → Option (Bytes × Bytes)
path_parts [] = none
path_parts (c ∷ path) = Text.cut b'>' path

-- The address and the parameters behind it.
read_path : Bytes → Bool → Option (Bytes × Bytes) → Result PathError Bytes
read_path prefix allow_empty none = err unterminated_path
read_path prefix allow_empty (some (address, rest)) =
    if not (valid_envelope_address address allow_empty)
    then err invalid_address
    else if any (λ parameter. not (supported_parameter prefix (Text.to_upper parameter)))
        (Text.fields rest)
    then err unsupported_parameter
    else ok address

unfoldable pub parse_smtp_path : Bytes → Bytes → Bool → Result PathError Bytes
unfolding path_parts read_path
parse_smtp_path line prefix allow_empty =
    let path = Text.trim_space (drop (length prefix) line) in
    if not (Text.has_prefix prefix (Text.to_upper line))
    then err invalid_command
    else if not (Text.has_prefix (b'<' ∷ []) path)
    then err missing_path
    else read_path prefix allow_empty (path_parts path)
