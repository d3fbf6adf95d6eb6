-- ===== src/Rules/Context/Names.antt =====
-- The map of first values by canonical name of pkg/rules/message.go, and what a scan of it finds.
use mailscript.Base.{
  if◌then◌else◌, Bool-cases, Option-cases, All, ◌≡◌, refl, sym, ap, ◌∙◌, inl, inr, true, false,
  Option, none, some, List, [], ◌∷◌, ◌++◌, arith,
}
use mailscript.Text
use mailscript.Text.{Bytes}
use mailscript.Text.Laws.{eq_refl, eq→≡}
use mailscript.Rules.Fields.{Field}
use mailscript.Rules.Context.{
  Dict, lookup, canonical_header_name, keep_first, record_fields, fold_value,
}

-- The value of the first field whose canonical name is the name, up to case.
unfoldable pub canonical_value : Bytes → List Field → Bytes
canonical_value name [] = []
canonical_value name (f ∷ fs) =
    if Text.equal_fold (canonical_header_name f.name) name then f.value else canonical_value name fs

abbrev or_empty : Option Bytes → Bytes
or_empty none = []
or_empty (some v) = v

abbrev first_some : Option Bytes → Option Bytes → Option Bytes
first_some none p = p
first_some (some v) p = some v

find_fold : Bytes → Dict Bytes → Option Bytes
find_fold name [] = none
find_fold name ((k, v) ∷ d) = if Text.equal_fold k name then some v else find_fold name d

find_canonical : Bytes → List Field → Option Bytes
find_canonical name [] = none
find_canonical name (f ∷ fs) =
    if Text.equal_fold (canonical_header_name f.name) name
    then some f.value
    else find_canonical name fs

fold_value-find_fold :
    (name : Bytes) (d : Dict Bytes) → fold_value name d ≡ or_empty (find_fold name d)
unfolding fold_value find_fold
fold_value-find_fold name [] = refl
fold_value-find_fold name ((k, v) ∷ d) = ground (arith, fold_value-find_fold name d)

canonical_value-find_canonical :
    (name : Bytes) (fs : List Field) → canonical_value name fs ≡ or_empty (find_canonical name fs)
unfolding canonical_value find_canonical
canonical_value-find_canonical name [] = refl
canonical_value-find_canonical name (f ∷ fs) =
    elim (Bool-cases (Text.equal_fold (canonical_header_name f.name) name)) [
      | inl e ↦ rw e refl
      | inr e ↦ rw e (canonical_value-find_canonical name fs)
    ]

find_fold-snoc :
    (name k v : Bytes) (d : Dict Bytes)
    → find_fold name (d ++ ((k, v) ∷ []))
      ≡ first_some (find_fold name d) (if Text.equal_fold k name then some v else none)
unfolding find_fold
find_fold-snoc name k v [] = refl
find_fold-snoc name k v ((j, w) ∷ d) = elim (Bool-cases (Text.equal_fold j name)) [
  | inl e ↦ rw e refl
  | inr e ↦ rw e (find_fold-snoc name k v d)
]

-- A key of the map that is the name, up to case, is found.
find_fold-lookup :
    (name k v : Bytes) (d : Dict Bytes)
    → lookup k d ≡ some v
    → Text.equal_fold k name ≡ true
    → (w : Bytes) × (find_fold name d ≡ some w)
unfolding find_fold lookup
find_fold-lookup name k v [] h e = cc
find_fold-lookup name k v ((j, w) ∷ d) h e = elim (Bool-cases (Text.equal_fold j name)) [
  | inl g ↦ (w, rw g refl)
  | inr g ↦ elim (Bool-cases (Text.eq k j)) [
    | inl same ↦ absurd (
        let wrong : Text.equal_fold k name ≡ false =
          ap (λ x. Text.equal_fold x name) (eq→≡ k j same) ∙ g in
        ground (arith, wrong, e))
    | inr other ↦
        let rest = find_fold-lookup name k v d (ground (arith, h)) e in (rest.0, rw g rest.1)
  ]
]

first_some_assoc :
    (o p q : Option Bytes) → first_some (first_some o p) q ≡ first_some o (first_some p q)
first_some_assoc none p q = refl
first_some_assoc (some v) p q = refl

first_some-found : (o p q : Option Bytes) (w : Bytes) → o ≡ some w → first_some o p ≡ first_some o q
first_some-found o p q w h = rw h refl

find_canonical-cons :
    (name : Bytes) (f : Field) (fs : List Field)
    → find_canonical name (f ∷ fs)
      ≡ first_some
          (if Text.equal_fold (canonical_header_name f.name) name then some f.value else none)
          (find_canonical name fs)
unfolding find_canonical
find_canonical-cons name f fs =
    elim (Bool-cases (Text.equal_fold (canonical_header_name f.name) name)) [
      | inl e ↦ rw e refl
      | inr e ↦ rw e refl
    ]

-- Keeping the first value of a key leaves what a scan finds before the fields that follow.
keep_first-find :
    (name : Bytes) (f : Field) (fs : List Field) (d : Dict Bytes)
    → let key = canonical_header_name f.name in
      first_some (find_fold name (keep_first key f.value (lookup key d) d)) (find_canonical name fs)
      ≡ first_some (find_fold name d) (find_canonical name (f ∷ fs))
keep_first-find name f fs d =
    let key = canonical_header_name f.name in
    elim (Option-cases (lookup key d)) [
      | inl e ↦
          rw (e, find_fold-snoc name key f.value d, find_canonical-cons name f fs)
            (first_some_assoc (find_fold name d) _ (find_canonical name fs))
      | inr (v, e) ↦ elim (Bool-cases (Text.equal_fold key name)) [
        | inl g ↦
            let found = find_fold-lookup name key v d e g in
            rw e (
              first_some-found (find_fold name d) (find_canonical name fs)
                (find_canonical name (f ∷ fs)) found.0 found.1)
        | inr g ↦ rw (e, find_canonical-cons name f fs, g) refl
      ]
    ]

first_some-none : (o : Option Bytes) → first_some o none ≡ o
first_some-none none = refl
first_some-none (some v) = refl

find_fold-record_fields :
    (name : Bytes) (fs : List Field) (d : Dict Bytes)
    → find_fold name (record_fields fs d) ≡ first_some (find_fold name d) (find_canonical name fs)
unfolding record_fields find_canonical
find_fold-record_fields name [] d = sym (first_some-none (find_fold name d))
find_fold-record_fields name (f ∷ fs) d =
    find_fold-record_fields name fs _ ∙ keep_first-find name f fs d

-- A scan of the map that the fields make is a scan of the fields.
pub fold_value-record_fields :
    (name : Bytes) (fs : List Field)
    → fold_value name (record_fields fs []) ≡ canonical_value name fs
unfolding find_canonical canonical_value find_fold
fold_value-record_fields name fs =
    fold_value-find_fold name (record_fields fs [])
    ∙ (ap or_empty (find_fold-record_fields name fs [])
        ∙ sym (canonical_value-find_canonical name fs))

-- Every key of the fields is in the map.
abbrev HasKeys : Dict Bytes → List Field → Type 0
HasKeys d = All (λ f. (v : Bytes) × (lookup (canonical_header_name f.name) d ≡ some v))

lookup-snoc :
    (k j v w : Bytes) (d : Dict Bytes)
    → lookup k d ≡ some v
    → lookup k (d ++ ((j, w) ∷ [])) ≡ some v
unfolding lookup
lookup-snoc k j v w [] h = cc
lookup-snoc k j v w ((l, u) ∷ d) h = elim (Bool-cases (Text.eq k l)) [
  | inl e ↦ rw e (ground (arith, e, h))
  | inr e ↦ rw e (lookup-snoc k j v w d (ground (arith, e, h)))
]

lookup-last :
    (k v : Bytes) (d : Dict Bytes) → lookup k d ≡ none → lookup k (d ++ ((k, v) ∷ [])) ≡ some v
unfolding lookup
lookup-last k v [] h = rw (eq_refl k) refl
lookup-last k v ((l, u) ∷ d) h = elim (Bool-cases (Text.eq k l)) [
  | inl e ↦ ground (arith, e, h)
  | inr e ↦ rw e (lookup-last k v d (ground (arith, e, h)))
]

lookup-keep_first :
    (k v : Bytes) (f : Field) (d : Dict Bytes)
    → lookup k d ≡ some v
    → let key = canonical_header_name f.name in
      lookup k (keep_first key f.value (lookup key d) d) ≡ some v
lookup-keep_first k v f d h = elim (Option-cases (lookup (canonical_header_name f.name) d)) [
  | inl e ↦ rw e (lookup-snoc k (canonical_header_name f.name) v f.value d h)
  | inr (w, e) ↦ rw e h
]

lookup-record_fields :
    (k v : Bytes) (fs : List Field) (d : Dict Bytes)
    → lookup k d ≡ some v
    → lookup k (record_fields fs d) ≡ some v
unfolding record_fields
lookup-record_fields k v [] d h = h
lookup-record_fields k v (f ∷ fs) d h = lookup-record_fields k v fs _ (lookup-keep_first k v f d h)

keep_first-key :
    (f : Field) (d : Dict Bytes)
    → let key = canonical_header_name f.name in
      (v : Bytes) × (lookup key (keep_first key f.value (lookup key d) d) ≡ some v)
keep_first-key f d =
    let key = canonical_header_name f.name in
    elim (Option-cases (lookup key d)) [
      | inl e ↦ (f.value, rw e (lookup-last key f.value d e))
      | inr (w, e) ↦ (w, rw e e)
    ]

record_fields-HasKeys : (fs : List Field) (d : Dict Bytes) → HasKeys (record_fields fs d) fs
unfolding record_fields
record_fields-HasKeys [] d = tt
record_fields-HasKeys (f ∷ fs) d =
    let (v, kept) = keep_first-key f d in
    (
      (v, lookup-record_fields (canonical_header_name f.name) v fs _ kept),
      record_fields-HasKeys fs _,
    )

record_fields-again : (fs : List Field) (d : Dict Bytes) → HasKeys d fs → record_fields fs d ≡ d
unfolding record_fields
record_fields-again [] d h = refl
record_fields-again (f ∷ fs) d h = rw h.0.1 (record_fields-again fs d h.1)

record_fields-append :
    (fs gs : List Field) (d : Dict Bytes)
    → record_fields (fs ++ gs) d ≡ record_fields gs (record_fields fs d)
unfolding record_fields
record_fields-append [] gs d = refl
record_fields-append (f ∷ fs) gs d = record_fields-append fs gs _

-- A map of the first fields is carried on as if it were begun anew.
pub record_fields-more :
    (fs gs : List Field)
    → record_fields (fs ++ gs) (record_fields fs []) ≡ record_fields (fs ++ gs) []
record_fields-more fs gs =
    record_fields-append fs gs (record_fields fs [])
    ∙ (ap (record_fields gs)
          (record_fields-again fs (record_fields fs []) (record_fields-HasKeys fs []))
        ∙ sym (record_fields-append fs gs []))
