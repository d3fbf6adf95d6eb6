-- ===== src/Dns/Cache/Refinement/Lookups.antt =====
-- The lookups of pkg/dnsx/resolver.go: each returns what it would without a cache.
use mailscript.Base.{
  if◌then◌else◌, Bool-cases, List-cases, ℕ, ◌≡◌, refl, sym, ap, ◌∙◌, inl, inr, Bool, true, false,
  not, ◌||◌, Option, none, some, List, [], ◌∷◌, ◌++◌, arith,
}
use mailscript.Text
use mailscript.Text.{Bytes, codes}
use mailscript.Dns.Reverse.{reverse_ip_for_dnsbl}
use mailscript.Dns.Cache.{
  RblResult, Value, names, listing, Cache, Config, Backend, or_none, Kind, of_host, of_mx, of_txt,
  of_ptr, of_rbl, key_of, get, resolve, first_text, cached, answers_of, lookup_host, lookup_mx,
  lookup_txt, lookup_ptr, query_rbl, resolve_rbl, check_rbl, check_zones,
}
use mailscript.Dns.Cache.Refinement.{
  IsCaseless, IsAnswer, IsZoneOf, IsConsistent, listing_of, get-IsConsistent, get-IsAnswer,
  put-IsConsistent,
}

-- What is said of an address by a block list, beside the zone.
abbrev pub verdict_of : RblResult → Bool × List Bytes × Bytes
verdict_of r = (r.listed, r.answer_codes, r.comment)

module _ (config : Config) where
  -- The answer without a cache: nothing, without a resolver or a name.
  abbrev pub uncached : Bytes → List Bytes → List Bytes
  uncached name answers = if not config.enabled || Text.is_empty name then [] else answers

  -- The verdict of a block list without a cache.
  abbrev pub verdict : Backend → Bytes → Bytes → Bool × List Bytes × Bytes
  verdict backend ip zone =
      let query = reverse_ip_for_dnsbl ip in
      if not config.enabled || Text.is_empty ip || Text.is_empty zone || Text.is_empty query
      then (false, [], [])
      else listing_of backend (query ++ (codes "." ++ Text.trim_suffix (codes ".") zone))

  -- What is said of the address is what the list says without a cache; the zone is the one that is
  -- asked, or another one in which some address has the same name.
  abbrev pub IsVerdict : Backend → Bytes → Bytes → RblResult → Type 0
  IsVerdict backend ip zone r =
      (verdict_of r ≡ verdict backend ip zone)
      × IsZoneOf backend
          (reverse_ip_for_dnsbl ip ++ (codes "." ++ Text.trim_suffix (codes ".") zone)) r.zone

  -- One result for each zone.
  abbrev pub AreVerdicts : Backend → Bytes → List Bytes → List RblResult → Type 0
  AreVerdicts backend ip [] [] = Unit
  AreVerdicts backend ip (zone ∷ zones) (r ∷ rs) =
      IsVerdict backend ip zone r × AreVerdicts backend ip zones rs
  AreVerdicts backend ip _ _ = ⊥

module _ (backend : Backend) (caseless : IsCaseless backend) (config : Config) (clock : ℕ → ℕ) where
  -- The lookup returns, and returns that answer, and leaves the cache consistent.
  abbrev pub Returns {ℓ} : {A : Type 0} {B : Type ℓ} → (A → B) → B → Option (A × Cache) → Type ℓ
  Returns {A = A} view answer run =
      (r : A × Cache) × (run ≡ some r) × (view r.0 ≡ answer) × IsConsistent backend r.1

  -- The lookup returns, and returns what it should, and leaves the cache consistent.
  abbrev pub Meets : {A : Type 0} → (A → Type 0) → Option (A × Cache) → Type 0
  Meets {A = A} P run = (r : A × Cache) × (run ≡ some r) × P r.0 × IsConsistent backend r.1

  abbrev whole : List Bytes → List Bytes
  whole l = l

  names-answers :
      (kind : Kind) (name : Bytes) (a b : List Bytes)
      → IsAnswer backend kind name (names a)
      → IsAnswer backend kind name (names b)
      → a ≡ b
  names-answers of_host name a b h k = h ∙ sym k
  names-answers of_mx name a b h k = h ∙ sym k
  names-answers of_txt name a b h k = h ∙ sym k
  names-answers of_ptr name a b h k = h ∙ sym k
  names-answers of_rbl name a b h k = absurd h

  names-listing :
      (kind : Kind) (name : Bytes) (a : List Bytes) (r : RblResult)
      → IsAnswer backend kind name (names a)
      → IsAnswer backend kind name (listing r)
      → ⊥
  names-listing of_host name a r h k = k
  names-listing of_mx name a r h k = k
  names-listing of_txt name a r h k = k
  names-listing of_ptr name a r h k = k
  names-listing of_rbl name a r h k = h

  resolve-Returns :
      (kind : Kind) (name : Bytes) (answers : List Bytes) (found : Option Value) (c : Cache)
      → IsConsistent backend c
      → ((v : Value) → found ≡ some v → IsAnswer backend kind name v)
      → IsAnswer backend kind name (names answers)
      → Returns whole answers (resolve config clock (key_of kind name) answers (found, c))
  unfolding resolve
  resolve-Returns kind name answers none c a f i = (
    _,
    refl,
    refl,
    put-IsConsistent backend caseless config clock kind name (names answers) c a i,
  )
  resolve-Returns kind name answers (some (names l)) c a f i =
      (_, refl, names-answers kind name l answers (f (names l) refl) i, a)
  resolve-Returns kind name answers (some (listing r)) c a f i =
      absurd (names-listing kind name answers r i (f (listing r) refl))

  enabled-uncached :
      (name : Bytes) (answers : List Bytes)
      → config.enabled ≡ true
      → uncached config name answers ≡ (if Text.is_empty name then [] else answers)
  enabled-uncached name answers e = rw e refl

  cached-Returns :
      (kind : Kind) (name : Bytes) (answers : List Bytes) (c : Cache)
      → IsConsistent backend c
      → IsAnswer backend kind name (names answers)
      → Returns whole (uncached config name answers) (cached config clock kind name answers c)
  unfolding cached
  cached-Returns kind name answers c a i =
      elim (Bool-cases (not config.enabled || Text.is_empty name)) [
        | inl w ↦ rw w (_, refl, refl, a)
        | inr w ↦
            let g = get config clock (key_of kind name) c in
            let run =
              resolve-Returns kind name answers g.0 g.1
                (get-IsConsistent backend caseless config clock (key_of kind name) c a)
                (λ v. get-IsAnswer backend caseless config clock kind name c v a) i in
            rw w run
      ]

  pub lookup_host-Returns :
      (host : Bytes) (c : Cache)
      → IsConsistent backend c
      → Returns whole
          (uncached config host (answers_of backend of_host host))
          (lookup_host config clock backend host c)
  unfolding lookup_host
  lookup_host-Returns host c a =
      cached-Returns of_host host (answers_of backend of_host host) c a refl

  pub lookup_mx-Returns :
      (domain : Bytes) (c : Cache)
      → IsConsistent backend c
      → Returns whole
          (uncached config domain (answers_of backend of_mx domain))
          (lookup_mx config clock backend domain c)
  unfolding lookup_mx
  lookup_mx-Returns domain c a =
      cached-Returns of_mx domain (answers_of backend of_mx domain) c a refl

  pub lookup_txt-Returns :
      (name : Bytes) (c : Cache)
      → IsConsistent backend c
      → Returns whole
          (uncached config name (answers_of backend of_txt name))
          (lookup_txt config clock backend name c)
  unfolding lookup_txt
  lookup_txt-Returns name c a = cached-Returns of_txt name (answers_of backend of_txt name) c a refl

  pub lookup_ptr-Returns :
      (ip : Bytes) (c : Cache)
      → IsConsistent backend c
      → Returns whole
          (uncached config ip (answers_of backend of_ptr ip))
          (lookup_ptr config clock backend ip c)
  unfolding lookup_ptr
  lookup_ptr-Returns ip c a = cached-Returns of_ptr ip (answers_of backend of_ptr ip) c a refl

  -- The query of a block list, for a resolver that is enabled.
  query_rbl-Meets :
      (name zone : Bytes) (c : Cache)
      → config.enabled ≡ true
      → IsZoneOf backend name zone
      → IsConsistent backend c
      → Meets
          (λ r. IsAnswer backend of_rbl name (listing r))
          (query_rbl config clock backend name zone c)
  unfolding query_rbl
  query_rbl-Meets name zone c e z a = elim (List-cases (or_none (backend.query_host name))) [
    | inl w ↦
        let told : (false, [], []) ≡ listing_of backend name = rw (w, listing_of) refl in
        rw (w, query_rbl) (_, refl, (told, z), a)
    | inr w ↦
        let (r, t, s, d) = lookup_txt-Returns name c a in
        let texts : r.0 ≡ (if Text.is_empty name then [] else answers_of backend of_txt name) =
          s ∙ enabled-uncached name (answers_of backend of_txt name) e in
        let told : (
          true,
          w.0 ∷ w.1,
          first_text (if Text.is_empty name then [] else answers_of backend of_txt name),
        )
            ≡ listing_of backend name =
          rw (w.2, listing_of) refl in
        rw (w.2, t, query_rbl)
          (_, refl, (ap (λ l. (true, w.0 ∷ w.1, first_text l)) texts ∙ told, z), d)
  ]

  resolve_rbl-Meets :
      (name zone : Bytes) (found : Option Value) (c : Cache)
      → config.enabled ≡ true
      → IsZoneOf backend name zone
      → IsConsistent backend c
      → ((v : Value) → found ≡ some v → IsAnswer backend of_rbl name v)
      → Meets
          (λ r. IsAnswer backend of_rbl name (listing r))
          (resolve_rbl config clock backend name zone (found, c))
  unfolding resolve_rbl
  resolve_rbl-Meets name zone none c e z a f =
      let (r, t, s, d) = query_rbl-Meets name zone c e z a in
      rw t (
        _,
        refl,
        s,
        put-IsConsistent backend caseless config clock of_rbl name (listing r.0) r.1 d s,
      )
  resolve_rbl-Meets name zone (some (names l)) c e z a f = absurd (f (names l) refl)
  resolve_rbl-Meets name zone (some (listing r)) c e z a f = (_, refl, f (listing r) refl, a)

  pub check_rbl-IsVerdict :
      (ip zone : Bytes) (c : Cache)
      → IsConsistent backend c
      → Meets (IsVerdict config backend ip zone) (check_rbl config clock backend ip zone c)
  unfolding check_rbl
  check_rbl-IsVerdict ip zone c a =
      let query = reverse_ip_for_dnsbl ip in
      let name = query ++ (codes "." ++ Text.trim_suffix (codes ".") zone) in
      elim (Bool-cases
        (not config.enabled || Text.is_empty ip || Text.is_empty zone || Text.is_empty query)) [
          | inl w ↦ rw w (_, refl, (refl, (ip, refl)), a)
          | inr w ↦
              let g = get config clock (key_of of_rbl name) c in
              let run =
                resolve_rbl-Meets name zone g.0 g.1 (ground arith) (ip, refl)
                  (get-IsConsistent backend caseless config clock (key_of of_rbl name) c a)
                  (λ v. get-IsAnswer backend caseless config clock of_rbl name c v a) in
              rw w run
        ]

  pub check_zones-AreVerdicts :
      (ip : Bytes) (zones : List Bytes) (c : Cache)
      → IsConsistent backend c
      → Meets (AreVerdicts config backend ip zones) (check_zones config clock backend ip zones c)
  unfolding check_zones
  check_zones-AreVerdicts ip [] c a = (_, refl, tt, a)
  check_zones-AreVerdicts ip (zone ∷ zones) c a =
      let (r, t, s, d) = check_rbl-IsVerdict ip zone c a in
      let (rs, t', s', d') = check_zones-AreVerdicts ip zones r.1 d in
      rw (t, t', check_zones) (_, refl, (s, s'), d')
