-- ===== src/Dane/Certificate/Soundness.antt =====
-- `VerifyDANECertificate` of pkg/authverify/dane.go: what stands behind a pass.
use mailscript.Base.{
  ◌==◌, ==_iff, Bool-cases, Option-cases, length, take, any, ℤ, ℕ, zero, suc, ◌+◌, ◌≡◌, refl, subst,
  ◌⊎◌, inl, inr, Bool, true, Option, none, some, List, [], ◌∷◌, arith,
}
use mailscript.Text.{Bytes}
use mailscript.Text.Laws.{eq→≡}
use mailscript.Spf.Types.{Resolver}
use mailscript.Dane.Discovery.{
  TlsaRecord, TlsaAnswer, dane_available, dane_pass, HostResult, check_dane,
}
use mailscript.Dane.Discovery.Hosts.{check_dane-pass}
use mailscript.Dane.Certificate.{
  Certificate, decode_hex, candidates, association, same_bytes, matches, find_match, judge_chain,
  is_available, verify_dane_certificate,
}

-- The record at that place.
abbrev pub RecordAt : ℕ → TlsaRecord → List TlsaRecord → Type 0
RecordAt i r [] = ⊥
RecordAt zero r (x ∷ records) = x ≡ r
RecordAt (suc i) r (x ∷ records) = RecordAt i r records

-- A certificate of the list.
abbrev pub Among : Certificate → List Certificate → Type 0
Among c [] = ⊥
Among c (x ∷ certs) = (x ≡ c) ⊎ Among c certs

module _ (sha256 sha512 : Bytes → Bytes) where
  -- A record with a usage for SMTP publishes what is computed from the certificate: the leaf of the
  -- chain, or for a trust anchor one of the chain.
  pub record Authorizes (r : TlsaRecord) (chain : List Certificate) : Type 0 where
    pub cert : Certificate
    pub presented : ((r.usage ≡ 3) × Among cert (take 1 chain)) ⊎ ((r.usage ≡ 2) × Among cert chain)
    pub data_bytes : Bytes
    pub associated : association sha256 sha512 r cert ≡ some data_bytes
    pub published : decode_hex r.certificate ≡ some data_bytes

  any-Among :
      (p : Certificate → Bool) (certs : List Certificate)
      → any p certs ≡ true
      → (c : Certificate) × Among c certs × (p c ≡ true)
  any-Among p [] h = absurd (ground arith)
  any-Among p (c ∷ certs) h = elim (Bool-cases (p c)) [
    | inl e ↦ (c, inl refl, e)
    | inr e ↦ let (d, a, q) = any-Among p certs (ground arith) in (d, inr a, q)
  ]

  same_bytes-some :
      (x y : Option Bytes)
      → same_bytes sha256 sha512 x y ≡ true
      → (b : Bytes) × (x ≡ some b) × (y ≡ some b)
  unfolding same_bytes
  same_bytes-some none y h = absurd (ground arith)
  same_bytes-some (some a) none h = absurd (ground arith)
  same_bytes-some (some a) (some b) h = (b, rw (eq→≡ a b h), refl)

  candidates-usage :
      (r : TlsaRecord) (chain : List Certificate) (c : Certificate)
      → Among c (candidates r chain)
      → ((r.usage ≡ 3) × Among c (take 1 chain)) ⊎ ((r.usage ≡ 2) × Among c chain)
  unfolding candidates
  candidates-usage r chain c h = elim (Bool-cases (r.usage == 3)) [
    | inl e ↦ inl ((==_iff r.usage 3).0 e, rw e at h)
    | inr e ↦ elim (Bool-cases (r.usage == 2)) [
      | inl f ↦ inr ((==_iff r.usage 2).0 f, rw (e, f) at h)
      | inr f ↦ absurd (rw (e, f) at h)
    ]
  ]

  any-Authorizes :
      (r : TlsaRecord) (chain : List Certificate)
      → any (matches sha256 sha512 r) (candidates r chain) ≡ true
      → Authorizes r chain
  any-Authorizes r chain h =
      let (c, a, q) = any-Among (matches sha256 sha512 r) (candidates r chain) h in
      let (b, x, y) =
        same_bytes-some (association sha256 sha512 r c) (decode_hex r.certificate) q in
      record {
        cert = c;
        presented = candidates-usage r chain c a;
        data_bytes = b;
        associated = x;
        published = y;
      }

  find_match-Authorizes :
      (i : ℕ) (records : List TlsaRecord) (chain : List Certificate) (found : ℕ × TlsaRecord)
      → find_match sha256 sha512 i records chain ≡ some found
      → (k : ℕ) × (found.0 ≡ i + k) × RecordAt k found.1 records × Authorizes found.1 chain
  unfolding find_match
  find_match-Authorizes i [] chain found h = absurd (ground arith)
  find_match-Authorizes i (r ∷ records) chain found h =
      elim (Bool-cases (any (matches sha256 sha512 r) (candidates r chain))) [
        | inl e ↦
            let same : r ≡ found.1 = ground (arith, e) in
            (
              0,
              ground (arith, e),
              same,
              subst (λ x. Authorizes x chain) same (any-Authorizes r chain e),
            )
        | inr e ↦
            let (k, p, at, a) = find_match-Authorizes (i + 1) records chain found (rw e at h) in
            (suc k, omega (arith, p), at, a)
      ]

  judge_chain-Authorizes :
      (out : HostResult) (chain : List Certificate)
      → (judge_chain sha256 sha512 out chain).result ≡ dane_pass
      → (i : ℕ) × (r : TlsaRecord) × ((judge_chain sha256 sha512 out chain).matched_record ≡ some i)
        × RecordAt i r out.records
        × Authorizes r chain
  unfolding judge_chain
  judge_chain-Authorizes out chain h =
      elim (Option-cases (find_match sha256 sha512 0 out.records chain)) [
        | inl e ↦ absurd (ground (arith, e))
        | inr e ↦
            let (k, p, at, a) = find_match-Authorizes 0 out.records chain e.0 e.1 in
            (k, e.0.1, ground (arith, e.1, p), at, a)
      ]

  module _ (resolver : Resolver) (lookup_tlsa : Bytes → ℤ → TlsaAnswer) where
    -- A chain of certificates passes only if the TLSA records of the host are there and usable, as
    -- discovery finds, and one of them, at the place that the result gives, authorizes a certificate
    -- of the chain. Nothing but a match turns the finding of discovery into a pass.
    pub verify_dane_certificate-Authorizes :
        (host : Bytes) (port : ℤ) (chain : List Certificate)
        → (verify_dane_certificate sha256 sha512 resolver lookup_tlsa host port chain).result
          ≡ dane_pass
        → ((check_dane resolver lookup_tlsa host port).result ≡ dane_available)
          × ((i : ℕ) × (r : TlsaRecord) × ((verify_dane_certificate sha256 sha512 resolver
                  lookup_tlsa host port chain).matched_record
                ≡ some i)
              × RecordAt i r (check_dane resolver lookup_tlsa host port).records
              × Authorizes r chain)
    unfolding verify_dane_certificate judge_chain
    verify_dane_certificate-Authorizes host port chain h =
        let out = check_dane resolver lookup_tlsa host port in
        elim (Bool-cases (is_available out.result)) [
          | inr e ↦ absurd (check_dane-pass resolver lookup_tlsa host port (rw e at h))
          | inl e ↦ elim (Bool-cases (length chain == 0)) [
            | inl f ↦ absurd (ground (arith, e, f))
            | inr f ↦
                let (i, r, m, at, a) = judge_chain-Authorizes out chain (rw (e, f) at h) in
                (ground (arith, e), (i, r, rw (e, f) m, at, a))
          ]
        ]
