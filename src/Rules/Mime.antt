-- ===== src/Rules/Mime.antt =====
-- `decodeMIME`, `walkMultipart`, `assignTextPart` and `decodeBody` of pkg/rules/message.go. The packages
-- mime, multipart, quotedprintable and crypto are parameters.
pub mod Summary
pub mod Walk
use mailscript.Base.{
  ltb, if◌then◌else◌, length, take, ℕ, zero, suc, ◌*◌, ◌/◌, Bool, true, not, ◌&&◌, ◌||◌, Option,
  none, some, List, [], ◌∷◌, ◌++◌,
}
use mailscript.Text
use mailscript.Text.{Bytes, codes}
use mailscript.Text.Runes.{write_runes}
use mailscript.Text.Base64
use mailscript.Dkim.Fields.{strip_whitespace}
use mailscript.Rules.Address.{MailParser, decode_word}
use mailscript.Rules.Context.{Dict, lookup}

-- MIMEPart
pub record MimePart : Type 0 where
  pub content_type : Bytes
  pub charset : Bytes
  pub disposition : Bytes
  pub filename : Bytes
  pub size : ℕ
  pub depth : ℕ
  pub content : Bytes

pub record Attachment : Type 0 where
  pub filename : Bytes
  pub content_type : Bytes
  pub disposition : Bytes
  pub size : ℕ
  pub sha256 : Bytes
  pub is_inline : Bool

-- The part of MessageContext that the walk fills.
pub record Decoded : Type 0 where
  pub text_body : Bytes
  pub html_body : Bytes
  pub parts : List MimePart
  pub attachments : List Attachment

abbrev pub nothing_decoded : Decoded
nothing_decoded = record { text_body = []; html_body = []; parts = []; attachments = [] }

-- What mime.ParseMediaType returns: on an error it may still return a type.
pub record MediaType : Type 0 where
  pub media_type : Bytes
  pub params : Dict Bytes
  pub failed : Bool

-- A part as multipart.Reader returns it: its header, by name, its body, and whether reading it failed.
pub record RawPart : Type 0 where
  pub header : Bytes → Bytes
  pub body : Bytes
  pub failed : Bool

-- The packages: the parts of a body with that boundary, up to the first error; a decoded text and
-- whether decoding it failed; a hash in hexadecimal.
pub record MimeReader : Type 0 where
  pub mail : MailParser
  pub parse_media_type : Bytes → MediaType
  pub raw_parts : Bytes → Bytes → List RawPart
  pub read_quoted_printable : Bytes → Bytes × Bool
  pub sha256_hex : Bytes → Bytes

abbrev value_or_empty : Option Bytes → Bytes
value_or_empty none = []
value_or_empty (some v) = v

-- params[name]
abbrev pub param : Bytes → Dict Bytes → Bytes
param name params = value_or_empty (lookup name params)

unfoldable pub assign_text_part : Bytes → Bytes → Decoded → Decoded
assign_text_part media_type content d =
    if Text.eq media_type (codes "text/plain")
    then (if Text.is_empty d.text_body then record d { text_body = content } else d)
    else if Text.eq media_type (codes "text/html")
    then (if Text.is_empty d.html_body then record d { html_body = content } else d)
    else d

abbrev decoded_or : Bytes → Option Bytes → Bytes
decoded_or bytes none = bytes
decoded_or bytes (some decoded) = decoded

-- The text, or the longest beginning of it that is made of whole groups; or the data as they are.
unfoldable pub decode_base64 : Bytes → Bytes
unfolding Base64.decode strip_whitespace
decode_base64 bytes =
    let clean = strip_whitespace (write_runes bytes) in
    let n = length clean / 4 * 4 in
    elim (Base64.decode clean) [
      | some decoded ↦ decoded
      | none ↦ if ltb 0 n then decoded_or bytes (Base64.decode (take n clean)) else bytes
    ]

abbrev is_attached : Bytes → Bytes → Bool
is_attached disposition filename =
    Text.eq disposition (codes "attachment") || not (Text.is_empty filename)

abbrev pub is_shown : Bytes → Bytes → Bool
is_shown media_type disposition =
    Text.has_prefix (codes "text/") media_type && not (Text.eq disposition (codes "attachment"))

abbrev or_plain : MediaType → MediaType
or_plain type =
    if type.failed
    then record { media_type = codes "text/plain"; params = []; failed = true }
    else type

abbrev pub is_multipart : Bytes → Bool
is_multipart media_type = Text.has_prefix (codes "multipart/") media_type

abbrev pub max_mime_depth : ℕ
max_mime_depth = 12

module _ (reader : MimeReader) where
  unfoldable pub decode_quoted : Bytes → Bytes
  decode_quoted bytes =
      let (decoded, failed) = reader.read_quoted_printable bytes in
      if failed && Text.is_empty decoded then bytes else decoded

  unfoldable pub decode_body : Bytes → Bytes → Bytes
  unfolding decode_base64 decode_quoted Text.to_lower Text.trim_space
  decode_body bytes given =
      let encoding = Text.to_lower (Text.trim_space given) in
      if Text.eq encoding (codes "base64")
      then decode_base64 bytes
      else if Text.eq encoding (codes "quoted-printable")
      then decode_quoted bytes
      else bytes

  -- The name of a part: the parameter of the disposition, or else that of the type.
  abbrev filename_of : MediaType → MediaType → Bytes
  filename_of disposition type =
      let given = param (codes "filename") disposition.params in
      decode_word reader.mail
        (if Text.is_empty given then param (codes "name") type.params else given)

  -- The part and the attachment of a body that is no multipart.
  abbrev pub part_of : ℕ → MediaType → MediaType → Bytes → MimePart
  part_of depth type disposition decoded = record {
    content_type = type.media_type;
    charset = param (codes "charset") type.params;
    disposition = disposition.media_type;
    filename = filename_of disposition type;
    size = length decoded;
    depth = depth;
    content = if is_shown type.media_type disposition.media_type then decoded else [];
  }

  abbrev pub attachment_of : MimePart → Bytes → Attachment
  attachment_of part decoded = record {
    filename = part.filename;
    content_type = part.content_type;
    disposition = part.disposition;
    size = length decoded;
    sha256 = reader.sha256_hex decoded;
    is_inline = Text.eq part.disposition (codes "inline");
  }

  unfoldable pub show_text : MimePart → Bytes → Decoded → Decoded
  unfolding assign_text_part
  show_text part decoded d =
      if is_shown part.content_type part.disposition
      then assign_text_part part.content_type decoded d
      else d

  unfoldable pub attach : MimePart → Bytes → Decoded → Decoded
  attach part decoded d =
      if is_attached part.disposition part.filename
      then record d { attachments = d.attachments ++ (attachment_of part decoded ∷ []) }
      else d

  unfoldable pub add_part : MimePart → Bytes → Decoded → Decoded
  unfolding show_text attach
  add_part part decoded d =
      let shown = show_text part decoded d in
      attach part decoded (record shown { parts = shown.parts ++ (part ∷ []) })

  -- One turn of the loop of walkMultipart; `nested` walks a body with its boundary.
  unfoldable pub visit_part : (Bytes → Bytes → Decoded → Decoded) → ℕ → RawPart → Decoded → Decoded
  unfolding add_part decode_body
  visit_part nested depth p d =
      let type = or_plain (reader.parse_media_type (p.header (codes "Content-Type"))) in
      let boundary = param (codes "boundary") type.params in
      let decoded = decode_body p.body (p.header (codes "Content-Transfer-Encoding")) in
      let disposition = reader.parse_media_type (p.header (codes "Content-Disposition")) in
      if p.failed && Text.is_empty p.body
      then d
      else if is_multipart type.media_type
      then (if Text.is_empty boundary then d else nested p.body boundary d)
      else add_part (part_of depth type disposition decoded) decoded d

  unfoldable pub visit_parts :
      (Bytes → Bytes → Decoded → Decoded) → ℕ → List RawPart → Decoded → Decoded
  visit_parts nested depth [] d = d
  visit_parts nested depth (p ∷ ps) d = visit_parts nested depth ps (visit_part nested depth p d)

  -- The fuel bounds the nesting.
  unfoldable pub walk_multipart : ℕ → ℕ → Bytes → Bytes → Decoded → Decoded
  unfolding visit_parts
  walk_multipart zero depth body boundary d = d
  walk_multipart (suc fuel) depth body boundary d =
      if ltb max_mime_depth depth
      then d
      else visit_parts (walk_multipart fuel (suc depth)) depth (reader.raw_parts body boundary) d

  -- m.Get, for the three fields that are asked for, is given.
  unfoldable pub decode_mime : Bytes → Bytes → Bytes → Bytes → Decoded
  unfolding walk_multipart add_part decode_body
  decode_mime content_type encoding disposition_field body =
      let type =
        reader.parse_media_type
          (if Text.is_empty content_type then codes "text/plain" else content_type) in
      let boundary = param (codes "boundary") type.params in
      let decoded = decode_body body encoding in
      let disposition = reader.parse_media_type disposition_field in
      if type.failed
      then record nothing_decoded { text_body = body }
      else if not (is_multipart type.media_type)
      then add_part (part_of 0 type disposition decoded) decoded nothing_decoded
      else if Text.is_empty boundary
      then record nothing_decoded { text_body = body }
      else walk_multipart (suc max_mime_depth) 0 body boundary nothing_decoded
