-- ===== src/Dkim/Result/Passing.antt =====
-- `VerifyDKIM` of pkg/authverify/dkim.go: the domains that it reports.
use mailscript.Base.{
  Bool-cases, take, any, All, All-take, ℕ, zero, suc, ◌+◌, ◌≤◌, ◌≡◌, refl, sym, subst, ◌≢◌, ◌↔◌,
  inl, inr, true, ◌&&◌, List, [], ◌∷◌, map, arith,
}
use mailscript.Text
use mailscript.Text.{Bytes, codes}
use mailscript.Text.Laws.{eq→≡}
use mailscript.Spf.Types.{Resolver}
use mailscript.Dkim.Fields.{Headers, is_named, count_header}
use mailscript.Dkim.Key.{Crypto, dkim_pass}
use mailscript.Dkim.Outcome.{SignatureResult}
use mailscript.Dkim.Signature.Soundness.{IsVerified, verify_one_message_signature-IsVerified}
use mailscript.Dkim.Result.{
  positions_from, signature_field, max_signatures, is_pass, passing, strongest, verify_one_dkim,
  verify_signatures, verify_dkim,
}

-- The field at that position has that name.
abbrev pub NamedAt : Bytes → Headers → ℕ → Type 0
NamedAt name [] i = ⊥
NamedAt name (h ∷ headers) zero = is_named name h ≡ true
NamedAt name (h ∷ headers) (suc i) = NamedAt name headers i

abbrev NamedFrom : ℕ → Bytes → Headers → ℕ → Type 0
NamedFrom i name headers j = (k : ℕ) × (j ≡ i + k) × NamedAt name headers k

NamedFrom-suc :
    (i : ℕ) (name : Bytes) (h : Bytes × Bytes) (headers : Headers) (js : List ℕ)
    → All (NamedFrom (i + 1) name headers) js
    → All (NamedFrom i name (h ∷ headers)) js
NamedFrom-suc i name h headers [] a = tt
NamedFrom-suc i name h headers (j ∷ js) a =
    ((suc a.0.0, omega (arith, a.0.1), a.0.2), NamedFrom-suc i name h headers js a.1)

positions_from-NamedFrom :
    (i : ℕ) (name : Bytes) (headers : Headers)
    → All (NamedFrom i name headers) (positions_from i name headers)
unfolding positions_from
positions_from-NamedFrom i name [] = tt
positions_from-NamedFrom i name (h ∷ headers) =
    let rest = NamedFrom-suc i name h headers _ (positions_from-NamedFrom (i + 1) name headers) in
    elim (Bool-cases (is_named name h)) [
      | inl e ↦ rw e ((zero, omega arith, e), rest)
      | inr e ↦ rw e rest
    ]

passing-any :
    {P : ℕ → Type 0} (f : ℕ → SignatureResult) (d : Bytes) (is : List ℕ)
    → All P is
    → any (Text.eq d) (passing (map f is)) ≡ true
    → (i : ℕ) × P i × ((f i).result ≡ dkim_pass) × ((f i).domain ≡ d)
unfolding passing
passing-any f d [] a h = absurd (ground arith)
passing-any f d (i ∷ is) a h = elim (Bool-cases (is_pass (f i).result && Text.eq d (f i).domain)) [
  | inl e ↦ (i, a.0, ground arith, sym (eq→≡ d (f i).domain (ground arith)))
  | inr e ↦ passing-any f d is a.1 (ground arith)
]

any-passing :
    (s : List SignatureResult)
    → (any (λ (x : SignatureResult). is_pass x.result) s ≡ true) ↔ (passing s ≢ [])
unfolding passing
any-passing [] = (λ h. absurd (ground arith), λ h. absurd (h refl))
any-passing (x ∷ s) =
    let rest = any-passing s in
    elim (Bool-cases (is_pass x.result)) [
      | inl e ↦ (λ h k. ground arith, λ h. ground arith)
      | inr e ↦ rw e rest
    ]

strongest-passing : (s : List SignatureResult) → (strongest s ≡ dkim_pass) ↔ (passing s ≢ [])
unfolding strongest
strongest-passing [] = (λ h. absurd (ground arith), λ h. absurd (h (unfold passing in refl)))
strongest-passing (x ∷ []) = (
  λ h. (any-passing (x ∷ [])).0 (ground arith),
  λ h. let a = (any-passing (x ∷ [])).1 h in ground arith,
)
strongest-passing (x ∷ y ∷ s) = (
  λ h. (any-passing (x ∷ y ∷ s)).0 (ground arith),
  λ h. let a = (any-passing (x ∷ y ∷ s)).1 h in ground arith,
)

module _ (crypto : Crypto) (resolver : Resolver) (headers : Headers) (body : Bytes) (now : ℕ) where
  -- A domain is reported only if the message has at most one From field and a field DKIM-Signature
  -- that passes for that domain, with all that stands behind a pass.
  pub verify_dkim_sound :
      (d : Bytes)
      → any (Text.eq d) (verify_dkim crypto resolver headers body now).passing_domains ≡ true
      → (count_header headers (codes "From") ≤ 1)
        × ((i : ℕ) × NamedAt signature_field headers i
            × ((verify_one_dkim crypto resolver headers body now i).domain ≡ d)
            × IsVerified crypto resolver
                (record {
                  headers = headers;
                  sig_index = i;
                  body = body;
                  now = now;
                  field_name = signature_field;
                  require_version = true;
                })
                (verify_one_dkim crypto resolver headers body now i))
  unfolding verify_dkim verify_signatures
  verify_dkim_sound d h =
      let all : List ℕ = positions_from 0 signature_field headers in
      let few = take max_signatures all in
      let named =
        All-take (NamedFrom 0 signature_field headers) max_signatures all
          (positions_from-NamedFrom 0 signature_field headers) in
      let (i, (k, e, n), r, m) =
        passing-any (verify_one_dkim crypto resolver headers body now) d few named (ground arith) in
      (
        ground arith,
        (
          i,
          subst (NamedAt signature_field headers) (omega (arith, e)) n,
          m,
          unfold verify_one_dkim in verify_one_message_signature-IsVerified crypto resolver _ r,
        ),
      )

  -- The result is a pass exactly if a domain is reported.
  pub verify_dkim-pass :
      ((verify_dkim crypto resolver headers body now).result ≡ dkim_pass)
      ↔ ((verify_dkim crypto resolver headers body now).passing_domains ≢ [])
  unfolding verify_dkim verify_signatures
  verify_dkim-pass =
      let iff = strongest-passing (
        map (verify_one_dkim crypto resolver headers body now)
          (take max_signatures (positions_from 0 signature_field headers))) in
      (λ h. ground (arith, iff.0), λ h. ground (arith, iff.1))
