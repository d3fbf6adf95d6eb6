-- ===== src/Dns/Cache/Refinement.antt =====
-- The lookups of pkg/dnsx/resolver.go against a resolver that has no cache.
pub mod Lookups
pub mod Sessions
use mailscript.Base.{
  ltb, ◌==◌, if◌then◌else◌, Bool-cases, Option-cases, some-injective, length, drop, drop-length,
  All, ℕ, ◌≡◌, refl, sym, ap, ◌∙◌, subst, inl, inr, Bool, true, false, some, List, [], ◌∷◌, ◌++◌,
  map, arith,
}
use mailscript.Text
use mailscript.Text.{Bytes, codes}
use mailscript.Text.Laws.{eq→≡}
use mailscript.Dns.Reverse.{reverse_ip_for_dnsbl}
use mailscript.Dns.Cache.{
  Value, names, listing, Entry, Cache, Config, Backend, entry_of, or_none, sort, Kind, of_host,
  of_mx, of_txt, of_ptr, of_rbl, tag, fold_name, key_of, first_text, get, put, answers_of,
}

-- The kind of a key, by its first byte.
abbrev kind_from : Bytes → Kind
kind_from [] = of_rbl
kind_from (c ∷ key) =
    if c == b'h'
    then of_host
    else if c == b'm'
    then of_mx
    else if c == b't'
    then of_txt
    else if c == b'p'
    then of_ptr
    else of_rbl

kind_from-key_of : (kind : Kind) (name : Bytes) → kind_from (key_of kind name) ≡ kind
unfolding codes
kind_from-key_of of_host name = refl
kind_from-key_of of_mx name = refl
kind_from-key_of of_txt name = refl
kind_from-key_of of_ptr name = refl
kind_from-key_of of_rbl name = refl

-- Two lookups share a key only if they are of one kind and ask for one name.
key_of-injective :
    (k k' : Kind) (a b : Bytes)
    → key_of k a ≡ key_of k' b
    → (k ≡ k') × (fold_name k a ≡ fold_name k' b)
key_of-injective k k' a b h =
    let same : k ≡ k' = sym (kind_from-key_of k a) ∙ (ap kind_from h ∙ kind_from-key_of k' b) in
    let there : drop (length (tag k)) (key_of k a) ≡ drop (length (tag k)) (key_of k' b) =
      ap (drop (length (tag k))) h in
    let back : drop (length (tag k)) (key_of k' b) ≡ fold_name k' b =
      rw same (drop-length (tag k') (fold_name k' b)) in
    (same, sym (drop-length (tag k) (fold_name k a)) ∙ (there ∙ back))

-- The servers do not tell capitals from small letters, as DNS requires of them.
pub record IsCaseless (backend : Backend) : Type 0 where
  pub host : (name : Bytes) → backend.query_host (Text.to_lower name) ≡ backend.query_host name
  pub mx : (name : Bytes) → backend.query_mx (Text.to_lower name) ≡ backend.query_mx name
  pub txt : (name : Bytes) → backend.query_txt (Text.to_lower name) ≡ backend.query_txt name

module _ (backend : Backend) where
  -- What is found of a name in a block list without a cache.
  abbrev pub listing_of : Bytes → Bool × List Bytes × Bytes
  listing_of name = elim (or_none (backend.query_host name)) [
    | [] ↦ (false, [], [])
    | addr ∷ addrs ↦ (
      true,
      addr ∷ addrs,
      first_text (if Text.is_empty name then [] else answers_of backend of_txt name),
    )
  ]

  -- The zone of a block list in which the name is the one of some address; it may be written with a
  -- final dot.
  abbrev pub IsZoneOf : Bytes → Bytes → Type 0
  IsZoneOf name zone =
      (ip : Bytes) × (name
        ≡ reverse_ip_for_dnsbl ip ++ (codes "." ++ Text.trim_suffix (codes ".") zone))

  -- The value is the answer without a cache; the zone of a listing is one that has the name.
  abbrev pub IsAnswer : Kind → Bytes → Value → Type 0
  IsAnswer of_rbl name (names answers) = ⊥
  IsAnswer of_rbl name (listing r) =
      ((r.listed, r.answer_codes, r.comment) ≡ listing_of name) × IsZoneOf name r.zone
  IsAnswer kind name (names answers) = answers ≡ answers_of backend kind name
  IsAnswer kind name (listing r) = ⊥

  -- Every entry holds the answer of each lookup that has its key.
  abbrev pub IsConsistent : Cache → Type 0
  IsConsistent c =
      All
        (λ (x : Bytes × Entry).
          (kind : Kind) (name : Bytes) → key_of kind name ≡ x.0 → IsAnswer kind name x.1.value)
        c.entries

  module _ (caseless : IsCaseless backend) where
    same_name-IsAnswer :
        (kind : Kind) (a b : Bytes) (v : Value)
        → fold_name kind a ≡ fold_name kind b
        → IsAnswer kind a v
        → IsAnswer kind b v
    unfolding answers_of
    same_name-IsAnswer of_host a b (names l) h i =
        i
        ∙ ap (λ x. sort (or_none x))
            (sym (caseless.host a) ∙ (ap backend.query_host h ∙ caseless.host b))
    same_name-IsAnswer of_host a b (listing r) h i = i
    same_name-IsAnswer of_mx a b (names l) h i =
        i ∙ ap or_none (sym (caseless.mx a) ∙ (ap backend.query_mx h ∙ caseless.mx b))
    same_name-IsAnswer of_mx a b (listing r) h i = i
    same_name-IsAnswer of_txt a b (names l) h i =
        i ∙ ap or_none (sym (caseless.txt a) ∙ (ap backend.query_txt h ∙ caseless.txt b))
    same_name-IsAnswer of_txt a b (listing r) h i = i
    same_name-IsAnswer of_ptr a b (names l) h i =
        subst (λ x. l ≡ map (Text.trim_suffix (codes ".")) (or_none (backend.query_ptr x))) h i
    same_name-IsAnswer of_ptr a b (listing r) h i = i
    same_name-IsAnswer of_rbl a b (names l) h i = i
    same_name-IsAnswer of_rbl a b (listing r) h i = subst (λ x. IsAnswer of_rbl x (listing r)) h i

    entry_of-IsAnswer :
        (entries : List (Bytes × Entry)) (kind : Kind) (name : Bytes) (e : Entry)
        → All
            (λ (x : Bytes × Entry).
              (k : Kind) (n : Bytes) → key_of k n ≡ x.0 → IsAnswer k n x.1.value)
            entries
        → entry_of entries (key_of kind name) ≡ some e
        → IsAnswer kind name e.value
    unfolding entry_of
    entry_of-IsAnswer [] kind name e a h = absurd (ground arith)
    entry_of-IsAnswer ((k, x) ∷ entries) kind name e a h =
        elim (Bool-cases (Text.eq k (key_of kind name))) [
          | inl w ↦
              subst (λ y. IsAnswer kind name y.value) (some-injective x e (rw w at h))
                (a.0 kind name (sym (eq→≡ k (key_of kind name) w)))
          | inr w ↦ entry_of-IsAnswer entries kind name e a.1 (rw w at h)
        ]

    module _ (config : Config) (clock : ℕ → ℕ) where
      pub get-IsConsistent :
          (key : Bytes) (c : Cache) → IsConsistent c → IsConsistent (get config clock key c).1
      unfolding get
      get-IsConsistent key c a = elim (Option-cases (entry_of c.entries key)) [
        | inl e ↦ rw (e, get) a
        | inr e ↦ elim (Bool-cases (ltb e.0.expires (clock c.readings))) [
          | inl w ↦ rw (e.1, w, get) a
          | inr w ↦ rw (e.1, w, get) a
        ]
      ]

      pub get-IsAnswer :
          (kind : Kind) (name : Bytes) (c : Cache) (v : Value)
          → IsConsistent c
          → (get config clock (key_of kind name) c).0 ≡ some v
          → IsAnswer kind name v
      unfolding get
      get-IsAnswer kind name c v a h = elim (Option-cases (entry_of c.entries (key_of kind name))) [
        | inl e ↦ absurd (ground (arith, e))
        | inr e ↦
            subst (IsAnswer kind name) (ground (arith, e.1))
              (entry_of-IsAnswer c.entries kind name e.0 a e.1)
      ]

      pub put-IsConsistent :
          (kind : Kind) (name : Bytes) (v : Value) (c : Cache)
          → IsConsistent c
          → IsAnswer kind name v
          → IsConsistent (put config clock (key_of kind name) v c)
      unfolding put
      put-IsConsistent kind name v c a i = (
        λ k n h.
            let (same, alike) = key_of-injective k kind n name h in
            subst (λ x. IsAnswer x n v) (sym same)
              (same_name-IsAnswer kind name n v
                (sym (subst (λ x. fold_name x n ≡ fold_name kind name) same alike)) i),
        a,
      )
