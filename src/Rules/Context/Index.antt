-- ===== src/Rules/Context/Index.antt =====
-- The index over the headers of pkg/rules/message.go: what the accessors find through it.
use mailscript.Base.{
  if◌then◌else◌, Bool-cases, Option-cases, some-injective, length, length-append, List-cases, ℕ,
  suc, ◌≡◌, refl, sym, ap, ◌∙◌, subst, ◌⊎◌, inl, inr, Bool, false, Option, none, some, List, [],
  ◌∷◌, ◌++◌, append_assoc, append-nil, arith,
}
use mailscript.Text
use mailscript.Text.{Bytes}
use mailscript.Text.Laws.{eq_refl, eq→≡}
use mailscript.Rules.Fields.{Field}
use mailscript.Rules.Context.Names.{canonical_value}
use mailscript.Rules.Context.{
  record_fields, Context, values_at, value_at, index_fields, Dict, lookup, append_at, singleton,
}

abbrev is_field : Bytes → Field → Bool
is_field name f = Text.eq (Text.to_lower name) (Text.to_lower f.name)

-- The values of the fields of the name, up to case, in their order.
unfoldable pub named_values : Bytes → List Field → List Bytes
named_values name [] = []
named_values name (f ∷ fs) =
    let rest = named_values name fs in if is_field name f then f.value ∷ rest else rest

abbrev pub or_canonical : Bytes → List Field → List Bytes → List Bytes
or_canonical name fs [] = singleton (canonical_value name fs)
or_canonical name fs (v ∷ vs) = v ∷ vs

-- The values of a header, by a scan of the fields.
abbrev pub values_of : Bytes → List Field → List Bytes
values_of name fs = or_canonical name fs (named_values name fs)

abbrev pub first_value : List Bytes → Bytes
first_value [] = []
first_value (v ∷ vs) = v

-- The positions of the fields of a name, from `i` on.
positions : Bytes → ℕ → List Field → List ℕ
positions k i [] = []
positions k i (f ∷ fs) =
    let rest = positions k (suc i) fs in if Text.eq k (Text.to_lower f.name) then i ∷ rest else rest

abbrev extend : Option (List ℕ) → List ℕ → Option (List ℕ)
extend none [] = none
extend none (i ∷ is) = some (i ∷ is)
extend (some js) is = some (js ++ is)

abbrev or_nil : Option (List ℕ) → List ℕ
or_nil none = []
or_nil (some is) = is

lookup-append_at :
    (k j : Bytes) (i : ℕ) (d : Dict (List ℕ))
    → lookup k (append_at j i d)
      ≡ (if Text.eq k j then some (or_nil (lookup j d) ++ (i ∷ [])) else lookup k d)
unfolding lookup append_at
lookup-append_at k j i [] = refl
lookup-append_at k j i ((l, is) ∷ d) = elim (Bool-cases (Text.eq j l)) [
  | inl e ↦ rw⁻¹ (eq→≡ j l e) (rw (eq_refl j) (ground arith))
  | inr e ↦ elim (Bool-cases (Text.eq k j)) [
    | inl g ↦
        let other : Text.eq k l ≡ false = ap (λ x. Text.eq x l) (eq→≡ k j g) ∙ e in
        rw (e, other, g) (rw (lookup-append_at k j i d, g) refl)
    | inr g ↦ rw (e, g) (rw (lookup-append_at k j i d, g) refl)
  ]
]

extend-push :
    (o : Option (List ℕ)) (i : ℕ) (is : List ℕ)
    → extend (some (or_nil o ++ (i ∷ []))) is ≡ extend o (i ∷ is)
extend-push none i is = refl
extend-push (some js) i is = ap some (append_assoc js (i ∷ []) is)

extend-nil : (o : Option (List ℕ)) → extend o [] ≡ o
extend-nil none = refl
extend-nil (some js) = ap some (append-nil js)

-- The index of a name is the list of its positions.
lookup-index_fields :
    (k : Bytes) (i : ℕ) (fs : List Field) (d : Dict (List ℕ))
    → lookup k (index_fields i fs d) ≡ extend (lookup k d) (positions k i fs)
unfolding index_fields positions
lookup-index_fields k i [] d = sym (extend-nil (lookup k d))
lookup-index_fields k i (f ∷ fs) d =
    let key = Text.to_lower f.name in
    let found = lookup-append_at k key i d in
    lookup-index_fields k (suc i) fs (append_at key i d) ∙ elim (Bool-cases (Text.eq k key)) [
      | inl e ↦
          rw (found, e) (rw⁻¹ (eq→≡ k key e) (extend-push (lookup k d) i (positions k (suc i) fs)))
      | inr e ↦ rw (found, e) refl
    ]

value_at-append :
    (before : List Field) (f : Field) (fs : List Field)
    → value_at (length before) (before ++ (f ∷ fs)) ≡ some f.value
unfolding value_at
value_at-append [] f fs = refl
value_at-append (g ∷ before) f fs = value_at-append before f fs

length-snoc : (before : List Field) (f : Field) → length (before ++ (f ∷ [])) ≡ suc (length before)
length-snoc before f = omega (arith, length-append before (f ∷ []))

-- The values at the positions of a name are the values of its fields: no index is out of range.
values_at-positions :
    (name : Bytes) (before fs : List Field)
    → values_at (positions (Text.to_lower name) (length before) fs) (before ++ fs)
      ≡ some (named_values name fs)
unfolding values_at positions named_values
values_at-positions name before [] = refl
values_at-positions name before (f ∷ fs) =
    let all = before ++ (f ∷ fs) in
    let later : values_at (positions (Text.to_lower name) (suc (length before)) fs) all
        ≡ some (named_values name fs) =
      subst (λ n. values_at (positions (Text.to_lower name) n fs) all ≡ some (named_values name fs))
        (length-snoc before f)
        (subst
          (λ gs.
            values_at (positions (Text.to_lower name) (length (before ++ (f ∷ []))) fs) gs
            ≡ some (named_values name fs))
          (append_assoc before (f ∷ []) fs) (values_at-positions name (before ++ (f ∷ [])) fs)) in
    elim (Bool-cases (is_field name f)) [
      | inl e ↦ rw (e, value_at-append before f fs, later) refl
      | inr e ↦ rw (e, later) refl
    ]

-- The index and the map are those of the fields.
abbrev pub IsIndexed : Context → Type 0
IsIndexed c =
    (c.header_index ≡ index_fields 0 c.header_list [])
    × (c.headers ≡ record_fields c.header_list [])

pub values_at-found :
    (i : ℕ) (is : List ℕ) (fs : List Field) (vs : List Bytes)
    → values_at (i ∷ is) fs ≡ some vs
    → (v : Bytes) × (us : List Bytes) × (vs ≡ v ∷ us)
      × (value_at i fs ≡ some v)
      × (values_at is fs ≡ some us)
unfolding values_at
values_at-found i is fs vs h = elim (Option-cases (value_at i fs)) [
  | inl e ↦ absurd (ground (arith, e, h))
  | inr (v, e) ↦ elim (Option-cases (values_at is fs)) [
    | inl g ↦ absurd (ground (arith, e, g, h))
    | inr (us, g) ↦ (v, us, ground (arith, e, g, h), e, g)
  ]
]

pub values_at-length :
    (is : List ℕ) (fs : List Field) (vs : List Bytes)
    → values_at is fs ≡ some vs
    → length vs ≡ length is
unfolding values_at
values_at-length [] fs vs h = ap length (sym (some-injective [] vs h))
values_at-length (i ∷ is) fs vs h =
    let (v, us, e, head, rest) = values_at-found i is fs vs h in
    rw e (ap suc (values_at-length is fs us rest))

-- What the index holds for a name: positions whose values are those of the fields of the name.
pub lookup-IsIndexed :
    (name : Bytes) (c : Context)
    → IsIndexed c
    → ((lookup (Text.to_lower name) c.header_index ≡ none) × (named_values name c.header_list ≡ []))
      ⊎ ((i : ℕ) × (is : List ℕ) × (lookup (Text.to_lower name) c.header_index ≡ some (i ∷ is))
          × (values_at (i ∷ is) c.header_list ≡ some (named_values name c.header_list)))
lookup-IsIndexed name c h =
    let key = Text.to_lower name in
    let ps = positions key 0 c.header_list in
    let indexed : lookup key c.header_index ≡ extend none ps =
      ap (lookup key) h.0 ∙ unfold lookup in lookup-index_fields key 0 c.header_list [] in
    let values = values_at-positions name [] c.header_list in
    elim (List-cases ps) [
      | inl e ↦ inl (
        indexed ∙ ap (extend none) e,
        unfold values_at in
            some-injective _ _ (sym values ∙ ap (λ is. values_at is c.header_list) e),
      )
      | inr (i, is, e) ↦ inr (
        i,
        is,
        indexed ∙ ap (extend none) e,
        sym (ap (λ js. values_at js c.header_list) e) ∙ values,
      )
    ]
