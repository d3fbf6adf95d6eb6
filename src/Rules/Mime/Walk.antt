-- ===== src/Rules/Mime/Walk.antt =====
-- `walkMultipart` and `decodeMIME` of pkg/rules/message.go: the summary is kept by every part, and the
-- fuel is enough.
use mailscript.Base.{
  ltb, if◌then◌else◌, Bool-cases, length, All, All-append, ℕ, zero, suc, ◌+◌, ◌≤◌, ◌<◌, ◌≡◌, refl,
  sym, ap, ◌∙◌, subst, ◌⊎◌, inl, inr, ◌&&◌, List, [], ◌∷◌, ◌++◌, map, append-nil, arith,
}
use mathlib.Core.List.{map-append}
use mailscript.Text
use mailscript.Text.{Bytes, codes}
use mailscript.Rules.Mime.{
  nothing_decoded, decode_mime, MimePart, Decoded, RawPart, MimeReader, assign_text_part, is_shown,
  is_attached, attachment_of, show_text, attach, add_part, visit_part, visit_parts, max_mime_depth,
  walk_multipart, is_multipart, or_plain, param,
}
use mailscript.Rules.Mime.Summary.{
  IsSummary, IsPartOf, IsShallow, label, attachment_label, first_content, attached_parts, or_later,
  show_text-body, assign_text_part-text, assign_text_part-html, first_content-snoc,
  attached_parts-snoc,
}

assign_text_part-parts :
    (type content : Bytes) (d : Decoded)
    → ((assign_text_part type content d).parts ≡ d.parts)
      × ((assign_text_part type content d).attachments ≡ d.attachments)
unfolding assign_text_part
assign_text_part-parts type content d = elim (Bool-cases (Text.eq type (codes "text/plain"))) [
  | inl e ↦ elim (Bool-cases (Text.is_empty d.text_body)) [
    | inl g ↦ rw (e, g) (refl, refl)
    | inr g ↦ rw (e, g) (refl, refl)
  ]
  | inr e ↦ elim (Bool-cases (Text.eq type (codes "text/html"))) [
    | inl g ↦ elim (Bool-cases (Text.is_empty d.html_body)) [
      | inl k ↦ rw (e, g, k) (refl, refl)
      | inr k ↦ rw (e, g, k) (refl, refl)
    ]
    | inr g ↦ rw (e, g) (refl, refl)
  ]
]

module _ (reader : MimeReader) where
  show_text-parts :
      (p : MimePart) (decoded : Bytes) (d : Decoded)
      → ((show_text reader p decoded d).parts ≡ d.parts)
        × ((show_text reader p decoded d).attachments ≡ d.attachments)
  unfolding show_text
  show_text-parts p decoded d = elim (Bool-cases (is_shown p.content_type p.disposition)) [
    | inl e ↦ rw e (assign_text_part-parts p.content_type decoded d)
    | inr e ↦ rw e (refl, refl)
  ]

  attach-labels :
      (p : MimePart) (decoded : Bytes) (d : Decoded)
      → p.size ≡ length decoded
      → map attachment_label (attach reader p decoded d).attachments
        ≡ map attachment_label d.attachments ++ map label (attached_parts (p ∷ []))
  unfolding attach attached_parts
  attach-labels p decoded d h = elim (Bool-cases (is_attached p.disposition p.filename)) [
    | inl e ↦
        rw (e, map-append attachment_label d.attachments (attachment_of reader p decoded ∷ []), h)
          refl
    | inr e ↦ rw e (sym (append-nil (map attachment_label d.attachments)))
  ]

  attach-rest :
      (p : MimePart) (decoded : Bytes) (d : Decoded)
      → ((attach reader p decoded d).text_body ≡ d.text_body)
        × ((attach reader p decoded d).html_body ≡ d.html_body)
        × ((attach reader p decoded d).parts ≡ d.parts)
  unfolding attach
  attach-rest p decoded d = elim (Bool-cases (is_attached p.disposition p.filename)) [
    | inl e ↦ rw e (refl, refl, refl)
    | inr e ↦ rw e (refl, refl, refl)
  ]

  add_part-IsSummary :
      (p : MimePart) (decoded : Bytes) (d : Decoded)
      → IsPartOf p decoded
      → IsShallow p
      → IsSummary d
      → IsSummary (add_part reader p decoded d)
  unfolding add_part
  add_part-IsSummary p decoded d part low s =
      let shown = show_text reader p decoded d in
      let kept = show_text-parts p decoded d in
      let rest = attach-rest p decoded (record shown { parts = shown.parts ++ (p ∷ []) }) in
      let parts = rest.2 ∙ ap (λ ps. ps ++ (p ∷ [])) kept.0 in
      let one = map label (attached_parts (p ∷ [])) in
      record {
        text =
            rest.0
            ∙ (show_text-body (codes "text/plain") Decoded.text_body assign_text_part-text reader p
                  decoded d part.0
                ∙ (ap (λ t. or_later t (first_content (codes "text/plain") (p ∷ []))) s.text
                    ∙ (sym (first_content-snoc (codes "text/plain") d.parts p)
                        ∙ ap (first_content (codes "text/plain")) (sym parts))));
        html =
            rest.1
            ∙ (show_text-body (codes "text/html") Decoded.html_body assign_text_part-html reader p
                  decoded d part.0
                ∙ (ap (λ t. or_later t (first_content (codes "text/html") (p ∷ []))) s.html
                    ∙ (sym (first_content-snoc (codes "text/html") d.parts p)
                        ∙ ap (first_content (codes "text/html")) (sym parts))));
        attached =
            attach-labels p decoded (record shown { parts = shown.parts ++ (p ∷ []) }) part.1
            ∙ (ap (λ xs. map attachment_label xs ++ one) kept.1
                ∙ (ap (λ ls. ls ++ one) s.attached
                    ∙ (sym (map-append label (attached_parts d.parts) (attached_parts (p ∷ [])))
                        ∙ ap (map label) (
                            sym (attached_parts-snoc d.parts p) ∙ ap attached_parts (sym parts)))));
        shallow =
            subst (All IsShallow) (sym parts)
              (All-append IsShallow d.parts (p ∷ []) s.shallow (low, tt));
      }

  -- A step that keeps the summary.
  abbrev Keeps : (Decoded → Decoded) → Type 0
  Keeps f = (d : Decoded) → IsSummary d → IsSummary (f d)

  visit_part-IsSummary :
      (nested : Bytes → Bytes → Decoded → Decoded) (depth : ℕ) (p : RawPart)
      → ((body boundary : Bytes) → Keeps (nested body boundary))
      → depth ≤ max_mime_depth
      → Keeps (visit_part reader nested depth p)
  unfolding visit_part
  visit_part-IsSummary nested depth p keeps low d s =
      let type = or_plain (reader.parse_media_type (p.header (codes "Content-Type"))) in
      elim (Bool-cases (p.failed && Text.is_empty p.body)) [
        | inl e ↦ rw e s
        | inr e ↦ elim (Bool-cases (is_multipart type.media_type)) [
          | inl g ↦ elim (Bool-cases (Text.is_empty (param (codes "boundary") type.params))) [
            | inl k ↦ rw (e, g, k) s
            | inr k ↦ rw (e, g, k) (keeps p.body (param (codes "boundary") type.params) d s)
          ]
          | inr g ↦ rw (e, g) (add_part-IsSummary _ _ d (refl, refl) low s)
        ]
      ]

  visit_parts-IsSummary :
      (nested : Bytes → Bytes → Decoded → Decoded) (depth : ℕ) (ps : List RawPart)
      → ((body boundary : Bytes) → Keeps (nested body boundary))
      → depth ≤ max_mime_depth
      → Keeps (visit_parts reader nested depth ps)
  unfolding visit_parts
  visit_parts-IsSummary nested depth [] keeps low d s = s
  visit_parts-IsSummary nested depth (p ∷ ps) keeps low d s =
      visit_parts-IsSummary nested depth ps keeps low _
        (visit_part-IsSummary nested depth p keeps low d s)

  walk_multipart-IsSummary :
      (fuel depth : ℕ) (body boundary : Bytes)
      → Keeps (walk_multipart reader fuel depth body boundary)
  unfolding walk_multipart
  walk_multipart-IsSummary zero depth body boundary d s = s
  walk_multipart-IsSummary (suc fuel) depth body boundary d s =
      elim (Bool-cases (ltb max_mime_depth depth)) [
        | inl e ↦ rw e s
        | inr e ↦ rw e (
            visit_parts-IsSummary (walk_multipart reader fuel (suc depth)) depth
              (reader.raw_parts body boundary)
              (λ b c. walk_multipart-IsSummary fuel (suc depth) b c) (ground arith) d s)
      ]

  -- The walk does not depend on the fuel, if there is fuel for the levels that are left up to the
  -- depth of 12.
  pub walk_multipart-fuel :
      (m n depth : ℕ) (body boundary : Bytes) (d : Decoded)
      → max_mime_depth < m + depth
      → max_mime_depth < n + depth
      → walk_multipart reader m depth body boundary d
        ≡ walk_multipart reader n depth body boundary d
  unfolding walk_multipart
  walk_multipart-fuel zero zero depth body boundary d h k = refl
  walk_multipart-fuel zero (suc n) depth body boundary d h k = ground arith
  walk_multipart-fuel (suc m) zero depth body boundary d h k = ground arith
  walk_multipart-fuel (suc m) (suc n) depth body boundary d h k =
      ap
        (λ f.
          if ltb max_mime_depth depth
          then d
          else visit_parts reader f depth (reader.raw_parts body boundary) d)
        (λ i b c e. walk_multipart-fuel m n (suc depth) b c e (omega arith) (omega arith) i)

  -- The decoded message is the body as text alone, or a summary of its parts: the text is the first
  -- content that is not empty of a part of the type text/plain, the HTML that of one of text/html,
  -- the attachments are the parts that are attached or named, in their order, and no part lies deeper
  -- than 12 levels.
  pub decode_mime-IsSummary :
      (content_type encoding disposition body : Bytes)
      → let decoded = decode_mime reader content_type encoding disposition body in
        (decoded ≡ record nothing_decoded { text_body = body }) ⊎ IsSummary decoded
  unfolding decode_mime
  decode_mime-IsSummary content_type encoding disposition body =
      let type =
        reader.parse_media_type
          (if Text.is_empty content_type then codes "text/plain" else content_type) in
      let empty : IsSummary nothing_decoded =
        unfold first_content attached_parts in
        record { text = refl; html = refl; attached = refl; shallow = tt } in
      elim (Bool-cases type.failed) [
        | inl e ↦ inl (rw e refl)
        | inr e ↦ elim (Bool-cases (is_multipart type.media_type)) [
          | inl g ↦ elim (Bool-cases (Text.is_empty (param (codes "boundary") type.params))) [
            | inl k ↦ inl (rw (e, g, k) refl)
            | inr k ↦ inr (
                rw (e, g, k)
                  (walk_multipart-IsSummary (suc max_mime_depth) 0 body
                    (param (codes "boundary") type.params) nothing_decoded empty))
          ]
          | inr g ↦
              inr (
                rw (e, g) (add_part-IsSummary _ _ nothing_decoded (refl, refl) (omega arith) empty))
        ]
      ]
