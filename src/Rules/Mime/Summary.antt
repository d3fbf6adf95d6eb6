-- ===== src/Rules/Mime/Summary.antt =====
-- The walk over the parts of a message in pkg/rules/message.go: what the texts and the attachments are
-- in terms of the list of parts, and how deep the parts are.
use mailscript.Base.{
  if◌then◌else◌, Bool-cases, length, List-cases, All, ℕ, ◌≤◌, ◌≡◌, refl, sym, ap, ◌∙◌, inl, inr,
  false, not, ◌&&◌, ◌||◌, List, [], ◌∷◌, ◌++◌, map,
}
use mailscript.Text
use mailscript.Text.{Bytes, codes}
use mailscript.Text.Laws.{eq→≡}
use mailscript.Rules.Mime.{
  MimePart, Attachment, Decoded, MimeReader, assign_text_part, is_shown, show_text, max_mime_depth,
}

-- The content of the first part of that type whose content is not empty.
unfoldable pub first_content : Bytes → List MimePart → Bytes
first_content type [] = []
first_content type (p ∷ ps) =
    if Text.eq p.content_type type && not (Text.is_empty p.content)
    then p.content
    else first_content type ps

-- The parts that are attached, or have a file name.
unfoldable pub attached_parts : List MimePart → List MimePart
attached_parts [] = []
attached_parts (p ∷ ps) =
    let rest = attached_parts ps in
    if Text.eq p.disposition (codes "attachment") || not (Text.is_empty p.filename)
    then p ∷ rest
    else rest

-- What an attachment says about its part.
abbrev pub label : MimePart → Bytes × Bytes × Bytes × ℕ
label p = (p.filename, p.content_type, p.disposition, p.size)

abbrev pub attachment_label : Attachment → Bytes × Bytes × Bytes × ℕ
attachment_label a = (a.filename, a.content_type, a.disposition, a.size)

abbrev pub IsShallow : MimePart → Type 0
IsShallow p = p.depth ≤ max_mime_depth

pub record IsSummary (d : Decoded) : Type 0 where
  pub text : d.text_body ≡ first_content (codes "text/plain") d.parts
  pub html : d.html_body ≡ first_content (codes "text/html") d.parts
  pub attached : map attachment_label d.attachments ≡ map label (attached_parts d.parts)
  pub shallow : All IsShallow d.parts

pub first_content-snoc :
    (type : Bytes) (ps : List MimePart) (p : MimePart)
    → first_content type (ps ++ (p ∷ [])) ≡ (
        if Text.is_empty (first_content type ps)
        then first_content type (p ∷ [])
        else first_content type ps)
unfolding first_content
first_content-snoc type [] p = refl
first_content-snoc type (q ∷ ps) p = elim (Bool-cases (Text.eq q.content_type type)) [
  | inl e ↦ elim (List-cases q.content) [
    | inl g ↦ rw (e, g) (first_content-snoc type ps p)
    | inr (c, s, g) ↦ rw (e, g) refl
  ]
  | inr e ↦ rw e (first_content-snoc type ps p)
]

pub attached_parts-snoc :
    (ps : List MimePart) (p : MimePart)
    → attached_parts (ps ++ (p ∷ [])) ≡ attached_parts ps ++ attached_parts (p ∷ [])
unfolding attached_parts
attached_parts-snoc [] p = refl
attached_parts-snoc (q ∷ ps) p =
    elim (Bool-cases
      (Text.eq q.disposition (codes "attachment") || not (Text.is_empty q.filename))) [
        | inl e ↦ rw e (ap (λ r. q ∷ r) (attached_parts-snoc ps p))
        | inr e ↦ rw e (attached_parts-snoc ps p)
      ]

-- A part as the walk makes it: its content is shown only if it is a text that is not attached.
abbrev pub IsPartOf : MimePart → Bytes → Type 0
IsPartOf p decoded =
    (p.content ≡ (if is_shown p.content_type p.disposition then decoded else []))
    × (p.size ≡ length decoded)

plain_is_not_html : Text.eq (codes "text/plain") (codes "text/html") ≡ false
unfolding Text.eq codes
plain_is_not_html = refl

pub assign_text_part-text :
    (type content : Bytes) (d : Decoded)
    → (assign_text_part type content d).text_body ≡ (
        if Text.eq type (codes "text/plain") && Text.is_empty d.text_body
        then content
        else d.text_body)
unfolding assign_text_part
assign_text_part-text type content d = elim (Bool-cases (Text.eq type (codes "text/plain"))) [
  | inl e ↦ elim (Bool-cases (Text.is_empty d.text_body)) [
    | inl g ↦ rw (e, g) refl
    | inr g ↦ rw (e, g) refl
  ]
  | inr e ↦ elim (Bool-cases (Text.eq type (codes "text/html"))) [
    | inl g ↦ elim (Bool-cases (Text.is_empty d.html_body)) [
      | inl k ↦ rw (e, g, k) refl
      | inr k ↦ rw (e, g, k) refl
    ]
    | inr g ↦ rw (e, g) refl
  ]
]

pub assign_text_part-html :
    (type content : Bytes) (d : Decoded)
    → (assign_text_part type content d).html_body ≡ (
        if Text.eq type (codes "text/html") && Text.is_empty d.html_body
        then content
        else d.html_body)
unfolding assign_text_part
assign_text_part-html type content d = elim (Bool-cases (Text.eq type (codes "text/plain"))) [
  | inl e ↦
      let other : Text.eq type (codes "text/html") ≡ false =
        ap (λ x. Text.eq x (codes "text/html")) (eq→≡ type (codes "text/plain") e)
        ∙ plain_is_not_html in
      elim (Bool-cases (Text.is_empty d.text_body)) [
        | inl g ↦ rw (e, g, other) refl
        | inr g ↦ rw (e, g, other) refl
      ]
  | inr e ↦ elim (Bool-cases (Text.eq type (codes "text/html"))) [
    | inl g ↦ elim (Bool-cases (Text.is_empty d.html_body)) [
      | inl k ↦ rw (e, g, k) refl
      | inr k ↦ rw (e, g, k) refl
    ]
    | inr g ↦ rw (e, g) refl
  ]
]

-- The text before, or, if it is empty, that of the part.
abbrev pub or_later : Bytes → Bytes → Bytes
or_later text later = if Text.is_empty text then later else text

or_later-nil : (text : Bytes) → or_later text [] ≡ text
or_later-nil [] = refl
or_later-nil (c ∷ s) = refl

or_empty : (s : Bytes) → (if not (Text.is_empty s) then s else []) ≡ s
or_empty [] = refl
or_empty (c ∷ s) = refl

-- One of the two texts, as assignTextPart keeps it.
module _ (type : Bytes) (body : Decoded → Bytes)
    (keeps : (given content : Bytes) (d : Decoded)
      → body (assign_text_part given content d)
        ≡ (if Text.eq given type && Text.is_empty (body d) then content else body d)) where
  first_content-hidden : (p : MimePart) → p.content ≡ [] → first_content type (p ∷ []) ≡ []
  unfolding first_content
  first_content-hidden p h = elim (Bool-cases (Text.eq p.content_type type)) [
    | inl e ↦ rw (e, h) refl
    | inr e ↦ rw e refl
  ]

  first_content-shown :
      (p : MimePart) (decoded text : Bytes)
      → p.content ≡ decoded
      → (if Text.eq p.content_type type && Text.is_empty text then decoded else text)
        ≡ or_later text (first_content type (p ∷ []))
  unfolding first_content
  first_content-shown p decoded text h = elim (Bool-cases (Text.eq p.content_type type)) [
    | inl e ↦ elim (Bool-cases (Text.is_empty text)) [
      | inl g ↦ rw (e, g, h) (sym (or_empty decoded))
      | inr g ↦ rw (e, g) refl
    ]
    | inr e ↦ rw e (sym (or_later-nil text))
  ]

  pub show_text-body :
      (reader : MimeReader) (p : MimePart) (decoded : Bytes) (d : Decoded)
      → p.content ≡ (if is_shown p.content_type p.disposition then decoded else [])
      → body (show_text reader p decoded d) ≡ or_later (body d) (first_content type (p ∷ []))
  unfolding show_text
  show_text-body reader p decoded d h = elim (Bool-cases (is_shown p.content_type p.disposition)) [
    | inl g ↦
        let full : p.content ≡ decoded = h ∙ rw g refl in
        rw (show_text, g)
          (keeps p.content_type decoded d ∙ first_content-shown p decoded (body d) full)
    | inr g ↦
        let hidden : p.content ≡ [] = h ∙ rw g refl in
        rw (show_text, g)
          (sym (or_later-nil (body d))
            ∙ ap (or_later (body d)) (sym (first_content-hidden p hidden)))
  ]
