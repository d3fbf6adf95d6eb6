-- ===== src/Dkim/Tags.antt =====
-- `parseDKIMTags` and `parseStrictDKIMTags` of pkg/authverify/dkim.go.
pub mod Agreement
use mailscript.Base.{
  if◌then◌else◌, any, Result, ok, err, Bool, not, ◌||◌, Option, none, some, List, [], ◌∷◌, ◌++◌,
}
use mailscript.Text
use mailscript.Text.{Bytes}

-- The tags in the order in which they were read; the map of the code has one value for each name.
abbrev pub Tags : Type 0
Tags = List (Bytes × Bytes)

abbrev pub has_tag : Bytes → Tags → Bool
has_tag key tags = any (λ (t : Bytes × Bytes). Text.eq t.0 key) tags

-- tags[key]: the empty text, if it is not there
unfoldable pub tag_value : Tags → Bytes → Bytes
tag_value [] key = []
tag_value ((name, value) ∷ tags) key = if Text.eq name key then value else tag_value tags key

-- One part of the list: a part with no equals sign, or with no name, is passed over.
unfoldable pub read_tag : Tags → Option (Bytes × Bytes) → Tags
read_tag tags none = tags
read_tag tags (some (name, value)) =
    let key = Text.to_lower (Text.trim_space name) in
    if Text.is_empty key || has_tag key tags
    then tags
    else tags ++ ((key, Text.trim_space value) ∷ [])

unfoldable pub read_tags : Tags → List Bytes → Tags
read_tags tags [] = tags
read_tags tags (part ∷ parts) = read_tags (read_tag tags (Text.cut b'=' part)) parts

unfoldable pub parse_dkim_tags : Bytes → Tags
unfolding read_tags read_tag
parse_dkim_tags s = read_tags [] (Text.split b';' s)

pub data TagError : Type 0 where
  not_lowercase duplicate : Bytes → TagError

unfoldable pub read_strict_tag : Tags → Option (Bytes × Bytes) → Result TagError Tags
read_strict_tag tags none = ok tags
read_strict_tag tags (some (name, value)) =
    let key = Text.trim_space name in
    if Text.is_empty key
    then ok tags
    else if not (Text.eq key (Text.to_lower key))
    then err (not_lowercase key)
    else if has_tag key tags
    then err (duplicate key)
    else ok (tags ++ ((key, Text.trim_space value) ∷ []))

unfoldable pub read_strict_tags : Tags → List Bytes → Result TagError Tags
read_strict_tags tags [] = ok tags
read_strict_tags tags (part ∷ parts) = elim (read_strict_tag tags (Text.cut b'=' part)) [
  | err e ↦ err e
  | ok tags' ↦ read_strict_tags tags' parts
]

unfoldable pub parse_strict_dkim_tags : Bytes → Result TagError Tags
unfolding read_strict_tags read_strict_tag
parse_strict_dkim_tags s = read_strict_tags [] (Text.split b';' s)
