-- ===== src/Dane/Certificate/Completeness.antt =====
-- `VerifyDANECertificate` of pkg/authverify/dane.go: a chain that is authorized passes.
use mailscript.Base.{
  ◌==◌, Bool-cases, length, take, any, ℤ, ℕ, zero, suc, ◌+◌, ◌≡◌, ◌⊎◌, inl, inr, Bool, true, false,
  some, List, [], ◌∷◌, arith,
}
use mailscript.Text.{Bytes}
use mailscript.Text.Laws.{eq_refl}
use mailscript.Spf.Types.{Resolver}
use mailscript.Dane.Discovery.{
  TlsaRecord, TlsaAnswer, dane_available, dane_pass, HostResult, check_dane,
}
use mailscript.Dane.Certificate.{
  Certificate, candidates, same_bytes, matches, find_match, judge_chain, is_available,
  verify_dane_certificate,
}
use mailscript.Dane.Certificate.Soundness.{RecordAt, Among, Authorizes}

module _ (sha256 sha512 : Bytes → Bytes) where
  Among-any :
      (p : Certificate → Bool) (c : Certificate) (certs : List Certificate)
      → Among c certs
      → p c ≡ true
      → any p certs ≡ true
  Among-any p c [] a h = absurd a
  Among-any p c (x ∷ certs) (inl e) h = let here : p x ≡ true = rw e h in ground (arith, here)
  Among-any p c (x ∷ certs) (inr a) h = ground (arith, Among-any p c certs a h)

  usage-candidates :
      (r : TlsaRecord) (chain : List Certificate) (c : Certificate)
      → ((r.usage ≡ 3) × Among c (take 1 chain)) ⊎ ((r.usage ≡ 2) × Among c chain)
      → Among c (candidates r chain)
  unfolding candidates
  usage-candidates r chain c (inl (e, a)) = rw e a
  usage-candidates r chain c (inr (e, a)) = rw e a

  Authorizes-any :
      (r : TlsaRecord) (chain : List Certificate)
      → Authorizes sha256 sha512 r chain
      → any (matches sha256 sha512 r) (candidates r chain) ≡ true
  unfolding same_bytes
  Authorizes-any r chain a =
      Among-any (matches sha256 sha512 r) a.cert (candidates r chain)
        (usage-candidates r chain a.cert a.presented)
        (rw (a.associated, a.published) (eq_refl a.data_bytes))

  RecordAt-find_match :
      (i k : ℕ) (r : TlsaRecord) (records : List TlsaRecord) (chain : List Certificate)
      → RecordAt k r records
      → Authorizes sha256 sha512 r chain
      → (found : ℕ × TlsaRecord) × (find_match sha256 sha512 i records chain ≡ some found)
  unfolding find_match
  RecordAt-find_match i k r [] chain at a = absurd at
  RecordAt-find_match i zero r (x ∷ records) chain at a =
      let here : any (matches sha256 sha512 x) (candidates x chain) ≡ true =
        rw at (Authorizes-any r chain a) in
      ((i, x), rw here)
  RecordAt-find_match i (suc k) r (x ∷ records) chain at a =
      let (found, e) = RecordAt-find_match (i + 1) k r records chain at a in
      elim (Bool-cases (any (matches sha256 sha512 x) (candidates x chain))) [
        | inl f ↦ ((i, x), rw f)
        | inr f ↦ (found, rw f e)
      ]

  Authorizes-length :
      (r : TlsaRecord) (chain : List Certificate)
      → Authorizes sha256 sha512 r chain
      → (length chain == 0) ≡ false
  Authorizes-length r [] a = elim a.presented [ inl p ↦ absurd p.1 | inr p ↦ absurd p.1 ]
  Authorizes-length r (c ∷ chain) a = ground arith

  judge_chain-dane_pass :
      (out : HostResult) (chain : List Certificate) (k : ℕ) (r : TlsaRecord)
      → RecordAt k r out.records
      → Authorizes sha256 sha512 r chain
      → (judge_chain sha256 sha512 out chain).result ≡ dane_pass
  unfolding judge_chain
  judge_chain-dane_pass out chain k r at a =
      let (found, f) = RecordAt-find_match 0 k r out.records chain at a in rw (f, judge_chain)

  -- Where discovery finds usable records, and a record at some place authorizes a certificate of the
  -- chain, the chain passes.
  pub verify_dane_certificate-dane_pass :
      (resolver : Resolver) (lookup_tlsa : Bytes → ℤ → TlsaAnswer) (host : Bytes) (port : ℤ)
      (chain : List Certificate)
      → (check_dane resolver lookup_tlsa host port).result ≡ dane_available
      → (k : ℕ) (r : TlsaRecord) → RecordAt k r (check_dane resolver lookup_tlsa host port).records
      → Authorizes sha256 sha512 r chain
      → (verify_dane_certificate sha256 sha512 resolver lookup_tlsa host port chain).result
        ≡ dane_pass
  unfolding verify_dane_certificate
  verify_dane_certificate-dane_pass resolver lookup_tlsa host port chain e k r at a =
      let out = check_dane resolver lookup_tlsa host port in
      let passes = judge_chain-dane_pass out chain k r at a in
      let open' : is_available out.result ≡ true = rw e in
      rw (open', Authorizes-length r chain a) passes
