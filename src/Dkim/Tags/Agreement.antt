-- ===== src/Dkim/Tags/Agreement.antt =====
-- The strict reading of tags in pkg/authverify/dkim.go, beside the lenient one.
use mailscript.Base.{
  Bool-cases, Result-cases, ok-injective, ok, ◌≡◌, refl, sym, ◌∙◌, subst, inl, inr, false, ◌||◌,
  Option, none, some, List, [], ◌∷◌, ◌++◌, arith,
}
use mailscript.Text
use mailscript.Text.{Bytes}
use mailscript.Text.Laws.{eq→≡, eq_comm}
use mailscript.Dkim.Tags.{
  Tags, has_tag, read_tag, read_tags, parse_dkim_tags, read_strict_tag, read_strict_tags,
  parse_strict_dkim_tags,
}

-- No name stands twice, and each is in lower case and not empty.
abbrev pub AreStrict : Tags → Type 0
AreStrict [] = Unit
AreStrict ((name, value) ∷ tags) =
    (Text.to_lower name ≡ name)
    × (Text.is_empty name ≡ false)
    × (has_tag name tags ≡ false)
    × AreStrict tags

has_tag-append :
    (key : Bytes) (tags : Tags) (t : Bytes × Bytes)
    → has_tag key (tags ++ (t ∷ [])) ≡ (has_tag key tags || Text.eq t.0 key)
has_tag-append key [] t = ground arith
has_tag-append key (u ∷ tags) t = ground (arith, has_tag-append key tags t)

append-AreStrict :
    (tags : Tags) (key value : Bytes)
    → AreStrict tags
    → Text.to_lower key ≡ key
    → Text.is_empty key ≡ false
    → has_tag key tags ≡ false
    → AreStrict (tags ++ ((key, value) ∷ []))
append-AreStrict [] key value a l e n = (l, e, refl, tt)
append-AreStrict ((name, v) ∷ tags) key value a l e n = (
  a.0,
  a.1,
  has_tag-append name tags (key, value) ∙ ground (arith, a.2, eq_comm key name),
  append-AreStrict tags key value a.3 l e (ground arith),
)

to_lower-is_empty : (s : Bytes) → Text.is_empty (Text.to_lower s) ≡ Text.is_empty s
unfolding Text.to_lower
to_lower-is_empty [] = refl
to_lower-is_empty (c ∷ s) = refl

-- A part that is read strictly is read in the same way leniently.
read_strict_tag-AreStrict :
    (tags : Tags) (part : Option (Bytes × Bytes)) (tags' : Tags)
    → AreStrict tags
    → read_strict_tag tags part ≡ ok tags'
    → (read_tag tags part ≡ tags') × AreStrict tags'
unfolding read_strict_tag read_tag
read_strict_tag-AreStrict tags none tags' a h =
    let same = ok-injective tags tags' h in (same, subst AreStrict same a)
read_strict_tag-AreStrict tags (some (name, value)) tags' a h =
    let key = Text.trim_space name in
    elim (Bool-cases (Text.is_empty key)) [
      | inl e ↦
          let same : tags ≡ tags' = ok-injective tags tags' (rw e at h) in
          (rw (to_lower-is_empty key, e) same, subst AreStrict same a)
      | inr e ↦ elim (Bool-cases (Text.eq key (Text.to_lower key))) [
        | inr l ↦ absurd (ground arith)
        | inl l ↦ elim (Bool-cases (has_tag key tags)) [
          | inl d ↦ absurd (ground arith)
          | inr d ↦
              let added : Tags = tags ++ ((key, Text.trim_space value) ∷ []) in
              let low : Text.to_lower key ≡ key = sym (eq→≡ key (Text.to_lower key) l) in
              let same : added ≡ tags' = ok-injective added tags' (rw (e, l, d) at h) in
              (
                rw (low, e, d) same,
                subst AreStrict same (append-AreStrict tags key (Text.trim_space value) a low e d),
              )
        ]
      ]
    ]

read_strict_tags-AreStrict :
    (tags : Tags) (parts : List Bytes) (tags' : Tags)
    → AreStrict tags
    → read_strict_tags tags parts ≡ ok tags'
    → (read_tags tags parts ≡ tags') × AreStrict tags'
unfolding read_strict_tags read_tags
read_strict_tags-AreStrict tags [] tags' a h =
    let same = ok-injective tags tags' h in (same, subst AreStrict same a)
read_strict_tags-AreStrict tags (part ∷ parts) tags' a h =
    elim (Result-cases (read_strict_tag tags (Text.cut b'=' part))) [
      | inr e ↦ absurd (ground (arith, e.1))
      | inl e ↦
          let (same, strict) = read_strict_tag-AreStrict tags (Text.cut b'=' part) e.0 a e.1 in
          rw same (read_strict_tags-AreStrict e.0 parts tags' strict (ground (arith, e.1)))
    ]

-- A list that the strict reader takes is read in the same way by the lenient one, and its names are in
-- lower case, not empty, and different from one another, so that the order of the tags does not count.
pub parse_strict_dkim_tags-AreStrict :
    (s : Bytes) (tags : Tags)
    → parse_strict_dkim_tags s ≡ ok tags
    → (parse_dkim_tags s ≡ tags) × AreStrict tags
unfolding parse_strict_dkim_tags parse_dkim_tags
parse_strict_dkim_tags-AreStrict s tags h =
    read_strict_tags-AreStrict [] (Text.split b';' s) tags tt h
