-- ===== src/Rules/Message.antt =====
-- `ParseMessage` of pkg/rules/message.go.
pub mod Parsing
use mailscript.Base.{length, ℕ, Option, some, ◌>>=◌}
use mailscript.Text
use mailscript.Text.{Bytes, codes}
use mailscript.Rules.Fields.{split_message, parse_header_block}
use mailscript.Rules.Context.{Context, new_context, get, set_headers}
use mailscript.Rules.Address.{domain_of}
use mailscript.Rules.Mime.{Decoded, MimeReader, decode_mime}

-- MessageContext as ParseMessage leaves it; its Body is the raw body.
pub record ParsedMessage : Type 0 where
  pub context : Context
  pub raw_header_block : Bytes
  pub raw_body : Bytes
  pub body_size : ℕ
  pub header_size : ℕ
  pub mime_type : Bytes
  pub sender_domain : Bytes
  pub decoded : Decoded

module _ (reader : MimeReader) where
  unfoldable pub parse_message : Bytes → Option ParsedMessage
  unfolding split_message parse_header_block set_headers get domain_of decode_mime
  parse_message raw = do
    let (block, body) = split_message raw
    context ← set_headers (parse_header_block block) new_context
    mime_type ← get (codes "Content-Type") context
    from ← get (codes "From") context
    encoding ← get (codes "Content-Transfer-Encoding") context
    disposition ← get (codes "Content-Disposition") context
    some (record {
      context = context;
      raw_header_block = block;
      raw_body = body;
      body_size = length body;
      header_size = length block;
      mime_type = mime_type;
      sender_domain = domain_of reader.mail from;
      decoded = decode_mime reader mime_type encoding disposition body;
    })
