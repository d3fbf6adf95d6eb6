-- ===== src/Arc/Sets.antt =====
-- `arcSet`, `arcInstance` and the loop of `VerifyARC` of pkg/authverify/arc.go that collects the sets.
use mailscript.Base.{
  ltb, ◌==◌, if◌then◌else◌, Result, ok, err, ℤ, pos, ℕ, ◌+◌, ◌||◌, Option, none, some, List, [],
  ◌∷◌,
}
use mailscript.Text
use mailscript.Text.{Bytes, codes}
use mailscript.Dkim.Fields.{Headers}
use mailscript.Dkim.Tags.{tag_value, parse_dkim_tags}

-- ARC-Authentication-Results, ARC-Message-Signature and ARC-Seal.
pub data ArcField : Type 0 where
  aar ams seal : ArcField

-- The positions of the fields of one instance.
pub record ArcSet : Type 0 where
  pub aar_index : Option ℕ
  pub ams_index : Option ℕ
  pub as_index : Option ℕ

-- The sets by their instances.
abbrev pub ArcSets : Type 0
ArcSets = List (ℕ × ArcSet)

pub data ArcFault : Type 0 where
  bad_instance : Bytes → ArcFault
  duplicate_field : Bytes → ℕ → ArcFault

unfoldable pub arc_field : Bytes → Option ArcField
arc_field name =
    let key = Text.to_lower (Text.trim_space name) in
    if Text.eq key (codes "arc-authentication-results")
    then some aar
    else if Text.eq key (codes "arc-message-signature")
    then some ams
    else if Text.eq key (codes "arc-seal")
    then some seal
    else none

unfoldable pub arc_instance : Bytes → Option ℤ
arc_instance value = Text.atoi (Text.trim_space (tag_value (parse_dkim_tags value) (codes "i")))

-- The instance, if it is one from 1 to 50.
unfoldable pub valid_instance : Option ℤ → Option ℕ
valid_instance (some (pos n)) = if ltb n 1 || ltb 50 n then none else some n
valid_instance _ = none

abbrev pub empty_set : ArcSet
empty_set = record { aar_index = none; ams_index = none; as_index = none }

unfoldable pub find_set : ArcSets → ℕ → Option ArcSet
find_set [] n = none
find_set ((k, set) ∷ sets) n = if k == n then some set else find_set sets n

unfoldable pub put_set : ArcSets → ℕ → ArcSet → ArcSets
put_set [] n set = (n, set) ∷ []
put_set ((k, old) ∷ sets) n set = if k == n then (k, set) ∷ sets else (k, old) ∷ put_set sets n set

unfoldable pub slot_of : ArcField → ArcSet → Option ℕ
slot_of aar set = set.aar_index
slot_of ams set = set.ams_index
slot_of seal set = set.as_index

unfoldable pub fill_slot : ArcField → ℕ → ArcSet → ArcSet
fill_slot aar index set = record set { aar_index = some index }
fill_slot ams index set = record set { ams_index = some index }
fill_slot seal index set = record set { as_index = some index }

abbrev pub or_empty : Option ArcSet → ArcSet
or_empty none = empty_set
or_empty (some set) = set

-- One ARC field at position `index`.
unfoldable pub add_field : ArcSets → ℕ → Bytes × Bytes → ArcField → Result ArcFault ArcSets
add_field sets index h field = elim (valid_instance (arc_instance h.1)) [
  | none ↦ err (bad_instance h.0)
  | some n ↦ elim (slot_of field (or_empty (find_set sets n))) [
    | some taken ↦ err (duplicate_field h.0 n)
    | none ↦ ok (put_set sets n (fill_slot field index (or_empty (find_set sets n))))
  ]
]

-- The loop over the fields, from position `index` on. There is an ARC field exactly if there is a set.
unfoldable pub collect_sets : ArcSets → ℕ → Headers → Result ArcFault ArcSets
collect_sets sets index [] = ok sets
collect_sets sets index (h ∷ headers) = elim (arc_field h.0) [
  | none ↦ collect_sets sets (index + 1) headers
  | some field ↦ elim (add_field sets index h field) [
    | err e ↦ err e
    | ok more ↦ collect_sets more (index + 1) headers
  ]
]
