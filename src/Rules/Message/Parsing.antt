-- ===== src/Rules/Message/Parsing.antt =====
-- `ParseMessage` of pkg/rules/message.go returns for every message, and keeps its bytes.
use mailscript.Base.{
  Bool-cases, Option-cases, length, take, drop, ℕ, suc, ◌+◌, ◌≡◌, refl, ap, subst, inl, inr, some,
  [], ◌∷◌, ◌++◌, arith,
}
use mailscript.Text
use mailscript.Text.{Bytes, codes}
use mailscript.Text.Laws.{has_prefix-drop}
use mailscript.Rules.Fields.{crlf, split_message, parse_header_block}
use mailscript.Rules.Context.{Context, new_context, get}
use mailscript.Rules.Context.Index.{values_of, first_value}
use mailscript.Rules.Context.Accessors.{set_headers-agrees}
use mailscript.Rules.Address.{domain_of}
use mailscript.Rules.Mime.{MimeReader, decode_mime}
use mailscript.Rules.Message.{ParsedMessage, parse_message}

index-found :
    (b : ℕ) (p s : Bytes) (i : ℕ)
    → Text.index (b ∷ p) s ≡ some i
    → s ≡ take i s ++ ((b ∷ p) ++ drop (i + length (b ∷ p)) s)
unfolding Text.index
index-found b p [] i h = cc
index-found b p (c ∷ s) i h = elim (Bool-cases (Text.has_prefix (b ∷ p) (c ∷ s))) [
  | inl e ↦
      let here : 0 ≡ i = ground (arith, e, h) in
      let place : length (b ∷ p) ≡ 0 + length (b ∷ p) = omega arith in
      rw⁻¹ here
        (subst (λ n. c ∷ s ≡ (b ∷ p) ++ drop n (c ∷ s)) place (has_prefix-drop (b ∷ p) (c ∷ s) e))
  | inr e ↦ elim (Option-cases (Text.index (b ∷ p) s)) [
    | inl g ↦ absurd (ground (arith, e, g, h))
    | inr (j, g) ↦
        let there : suc j ≡ i = ground (arith, e, g, h) in
        let place : suc (j + length (b ∷ p)) ≡ suc j + length (b ∷ p) = omega arith in
        rw⁻¹ there (
          subst (λ n. c ∷ s ≡ (c ∷ take j s) ++ ((b ∷ p) ++ drop n (c ∷ s))) place
            (ap (λ r. c ∷ r) (index-found b p s j g)))
  ]
]

-- The ways in which a message falls into a header block and a body.
pub data Parts (raw : Bytes) : Bytes × Bytes → Type 0 where
  at_crlf : (block body : Bytes) → raw ≡ block ++ (crlf ++ (crlf ++ body)) → Parts raw (block, body)
  at_lf : (block body : Bytes) → raw ≡ block ++ (b'\n' ∷ b'\n' ∷ body) → Parts raw (block, body)
  no_body : Parts raw (raw, [])

pub split_message-Parts : (raw : Bytes) → Parts raw (split_message raw)
unfolding split_message
split_message-Parts raw = elim (Option-cases (Text.index (crlf ++ crlf) raw)) [
  | inr (i, e) ↦ rw (e, split_message) (at_crlf _ _ (index-found b'\r' (b'\n' ∷ crlf) raw i e))
  | inl e ↦ elim (Option-cases (Text.index (b'\n' ∷ b'\n' ∷ []) raw)) [
    | inr (i, g) ↦ rw (e, g, split_message) (at_lf _ _ (index-found b'\n' (b'\n' ∷ []) raw i g))
    | inl g ↦ rw (e, g, split_message) no_body
  ]
]

-- The message, by a scan of its fields.
parsed : MimeReader → Bytes → Bytes → Context → ParsedMessage
parsed reader block body context =
    let value : Bytes → Bytes = λ name. first_value (values_of name (parse_header_block block)) in
    record {
      context = context;
      raw_header_block = block;
      raw_body = body;
      body_size = length body;
      header_size = length block;
      mime_type = value (codes "Content-Type");
      sender_domain = domain_of reader.mail (value (codes "From"));
      decoded =
          decode_mime reader (value (codes "Content-Type"))
            (value (codes "Content-Transfer-Encoding")) (value (codes "Content-Disposition")) body;
    }

-- Parsing a message always returns: no index is out of range. The raw header block and the raw body,
-- with the blank line between them, are the message, or all of it is the block; and the type and the
-- sender's domain are those of the first fields Content-Type and From of the block, as they are found
-- by a scan.
pub parse_message_total :
    (reader : MimeReader) (raw : Bytes)
    → (m : ParsedMessage) × (parse_message reader raw ≡ some m)
      × Parts raw (m.raw_header_block, m.raw_body)
      × (m.context.header_list ≡ parse_header_block m.raw_header_block)
      × (m.mime_type ≡ first_value (values_of (codes "Content-Type") m.context.header_list))
      × (m.sender_domain
          ≡ domain_of reader.mail (first_value (values_of (codes "From") m.context.header_list)))
unfolding parse_message parsed
parse_message_total reader raw =
    let (block, body) = split_message raw in
    let (d, e, list, received, agrees) =
      set_headers-agrees (parse_header_block block) new_context in
    let value : (name : Bytes)
        → get name d ≡ some (first_value (values_of name (parse_header_block block))) =
      λ name. (agrees name).0 in
    (
      parsed reader block body d,
      rw
          (
            e,
            value (codes "Content-Type"),
            value (codes "From"),
            value (codes "Content-Transfer-Encoding"),
            value (codes "Content-Disposition"),
          )
          refl,
      split_message-Parts raw,
      list,
      rw list refl,
      rw list refl,
    )
