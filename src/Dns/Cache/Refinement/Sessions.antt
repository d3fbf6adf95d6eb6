-- ===== src/Dns/Cache/Refinement/Sessions.antt =====
-- Any sequence of lookups of pkg/dnsx/resolver.go, from an empty cache on.
use mailscript.Base.{
  if◌then◌else◌, Bool-cases, any, ℕ, ◌≡◌, refl, sym, subst, inl, inr, Bool, false, not, Option,
  none, some, List, [], ◌∷◌,
}
use mailscript.Text.{Bytes}
use mailscript.Dns.Cache.{
  RblResult, Cache, new_cache, Config, Backend, of_host, of_mx, of_txt, of_ptr, answers_of,
  lookup_host, lookup_mx, lookup_txt, lookup_ptr, check_rbl, check_rbls,
}
use mailscript.Dns.Cache.Refinement.{IsCaseless, IsConsistent}
use mailscript.Dns.Cache.Refinement.Lookups.{
  uncached, IsVerdict, AreVerdicts, lookup_host-Returns, lookup_mx-Returns, lookup_txt-Returns,
  lookup_ptr-Returns, check_rbl-IsVerdict, check_zones-AreVerdicts,
}

-- What the programs around the resolver ask.
pub data Call : Type 0 where
  ask_host ask_mx ask_txt ask_ptr ask_rbls : Bytes → Call
  ask_rbl : Bytes → Bytes → Call

-- What they are told.
pub data Answer : Type 0 where
  told_names : List Bytes → Answer
  told_result : RblResult → Answer
  told_results : Bool → List RblResult → Answer

module _ (backend : Backend) (config : Config) where
  -- All lists are asked, and the address is listed if one of them has it.
  abbrev pub AllListsAsked : Bytes → Bool → List RblResult → Type 0
  AllListsAsked ip found rs =
      if config.enabled
      then AreVerdicts config backend ip config.rbls rs
        × (found ≡ any (λ (r : RblResult). r.listed) rs)
      else (found ≡ false) × (rs ≡ [])

  -- The answer is what a resolver says that asks the servers each time.
  abbrev pub IsDirect : Call → Answer → Type 0
  IsDirect (ask_host name) (told_names l) =
      l ≡ uncached config name (answers_of backend of_host name)
  IsDirect (ask_mx name) (told_names l) = l ≡ uncached config name (answers_of backend of_mx name)
  IsDirect (ask_txt name) (told_names l) = l ≡ uncached config name (answers_of backend of_txt name)
  IsDirect (ask_ptr ip) (told_names l) = l ≡ uncached config ip (answers_of backend of_ptr ip)
  IsDirect (ask_rbl ip zone) (told_result r) = IsVerdict config backend ip zone r
  IsDirect (ask_rbls ip) (told_results found rs) = AllListsAsked ip found rs
  IsDirect _ _ = ⊥

  -- One answer for each call.
  abbrev pub AreDirect : List Call → List Answer → Type 0
  AreDirect [] [] = Unit
  AreDirect (k ∷ calls) (a ∷ told) = IsDirect k a × AreDirect calls told
  AreDirect _ _ = ⊥

module _ (backend : Backend) (config : Config) (clock : ℕ → ℕ) where
  abbrev tell : {A : Type 0} → (A → Answer) → Option (A × Cache) → Option (Answer × Cache)
  tell f none = none
  tell f (some (a, c)) = some (f a, c)

  unfoldable pub call : Call → Cache → Option (Answer × Cache)
  call (ask_host name) c = tell told_names (lookup_host config clock backend name c)
  call (ask_mx name) c = tell told_names (lookup_mx config clock backend name c)
  call (ask_txt name) c = tell told_names (lookup_txt config clock backend name c)
  call (ask_ptr ip) c = tell told_names (lookup_ptr config clock backend ip c)
  call (ask_rbl ip zone) c = tell told_result (check_rbl config clock backend ip zone c)
  call (ask_rbls ip) c =
      tell (λ (r : Bool × List RblResult). told_results r.0 r.1)
        (check_rbls config clock backend ip c)

  unfoldable pub run : List Call → Cache → Option (List Answer × Cache)
  run [] c = some ([], c)
  run (k ∷ calls) c = elim (call k c) [
    | none ↦ none
    | some (a, c') ↦ elim (run calls c') [ none ↦ none | some (told, c'') ↦ some (a ∷ told, c'') ]
  ]

  module _ (caseless : IsCaseless backend) where
    check_rbls-AllListsAsked :
        (ip : Bytes) (c : Cache)
        → IsConsistent backend c
        → (r : (Bool × List RblResult) × Cache) × (check_rbls config clock backend ip c ≡ some r)
          × AllListsAsked backend config ip r.0.0 r.0.1
          × IsConsistent backend r.1
    unfolding check_rbls
    check_rbls-AllListsAsked ip c a = elim (Bool-cases config.enabled) [
      | inr e ↦ rw e (_, refl, (refl, refl), a)
      | inl e ↦
          let (rs, t, s, d) =
            check_zones-AreVerdicts backend caseless config clock ip config.rbls c a in
          let open' : not config.enabled ≡ false = rw e refl in
          (
            ((any (λ (r : RblResult). r.listed) rs.0, rs.0), rs.1),
            rw (open', t, check_rbls),
            subst
                (λ b.
                  if b
                  then AreVerdicts config backend ip config.rbls rs.0
                    × (any (λ (r : RblResult). r.listed) rs.0
                        ≡ any (λ (r : RblResult). r.listed) rs.0)
                  else (any (λ (r : RblResult). r.listed) rs.0 ≡ false) × (rs.0 ≡ []))
                (sym e) (s, refl),
            d,
          )
    ]

    call-IsDirect :
        (k : Call) (c : Cache)
        → IsConsistent backend c
        → (r : Answer × Cache) × (call k c ≡ some r)
          × IsDirect backend config k r.0
          × IsConsistent backend r.1
    unfolding call
    call-IsDirect (ask_host name) c a =
        let (r, t, s, d) = lookup_host-Returns backend caseless config clock name c a in
        rw t (_, refl, s, d)
    call-IsDirect (ask_mx name) c a =
        let (r, t, s, d) = lookup_mx-Returns backend caseless config clock name c a in
        rw t (_, refl, s, d)
    call-IsDirect (ask_txt name) c a =
        let (r, t, s, d) = lookup_txt-Returns backend caseless config clock name c a in
        rw t (_, refl, s, d)
    call-IsDirect (ask_ptr ip) c a =
        let (r, t, s, d) = lookup_ptr-Returns backend caseless config clock ip c a in
        rw t (_, refl, s, d)
    call-IsDirect (ask_rbl ip zone) c a =
        let (r, t, s, d) = check_rbl-IsVerdict backend caseless config clock ip zone c a in
        rw t (_, refl, s, d)
    call-IsDirect (ask_rbls ip) c a =
        let (r, t, s, d) = check_rbls-AllListsAsked ip c a in rw t (_, refl, s, d)

    run-IsDirect :
        (calls : List Call) (c : Cache)
        → IsConsistent backend c
        → (told : List Answer) × (c' : Cache) × (run calls c ≡ some (told, c'))
          × AreDirect backend config calls told
    unfolding run
    run-IsDirect [] c a = ([], c, refl, tt)
    run-IsDirect (k ∷ calls) c a =
        let (r, t, s, d) = call-IsDirect k c a in
        let (told, c', t', s') = run-IsDirect calls r.1 d in
        (r.0 ∷ told, c', rw (t, t', run) refl, (s, s'))

    -- Whatever is asked, in whatever order and at whatever times, the lookups return, no entry of the
    -- cache has the wrong type, and each answer is the one that a resolver without a cache would
    -- give, also from entries that have expired and for names in capitals. Of a block list this
    -- holds for whether it has the address, for its codes and for its comment; the zone in the
    -- result is one in which some address has the name that was asked, so it may be written with or
    -- without the final dot that the zone asked for has not or has. The servers are taken to answer
    -- a question in one way, and without regard to case.
    pub run-direct :
        (calls : List Call)
        → (told : List Answer) × (c : Cache) × (run calls new_cache ≡ some (told, c))
          × AreDirect backend config calls told
    run-direct calls = run-IsDirect calls new_cache tt
