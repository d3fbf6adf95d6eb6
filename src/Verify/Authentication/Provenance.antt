-- ===== src/Verify/Authentication/Provenance.antt =====
-- `Verify` of pkg/authverify/verify.go: what an authenticated message proves, from its bytes and DNS.
use mailscript.Base.{
  Bool-cases, some-injective, any, ok, ℕ, ◌≤◌, ◌≡◌, sym, ◌∙◌, subst, ◌⊎◌, inl, inr, Bool, true,
  false, some, List, [], ◌∷◌, arith,
}
use mailscript.Text
use mailscript.Text.{Bytes, codes}
use mailscript.Text.Laws.{eq_refl}
use mailscript.Spf.Types.{Resolver, spf_pass}
use mailscript.Spf.Client.{Outcome}
use mailscript.Dmarc.Record.{DmarcRecord, lookup_dmarc}
use mailscript.Dmarc.Alignment.{domains_align}
use mailscript.Dmarc.Verdict.{is_strict, is_set}
use mailscript.Dkim.Fields.{count_header}
use mailscript.Dkim.Signature.Soundness.{IsVerified}
use mailscript.Dkim.Result.{signature_field, verify_one_dkim}
use mailscript.Dkim.Result.Passing.{NamedAt, verify_dkim_sound}
use mailscript.Verify.{Message, Services, Verification, from_domain_of, spf_part, verify}
use mailscript.Verify.Authentication.{spf_part_total, verify_authenticated}

any-eq :
    (p : Bytes → Bool) (ds : List Bytes)
    → any p ds ≡ true
    → (d : Bytes) × (any (Text.eq d) ds ≡ true) × (p d ≡ true)
any-eq p [] h = absurd (ground arith)
any-eq p (d ∷ ds) h = elim (Bool-cases (p d)) [
  | inl e ↦ (d, ground (arith, eq_refl d), e)
  | inr e ↦ let (x, a, q) = any-eq p ds (ground arith) in (x, ground (arith, a), q)
]

module _ (services : Services) (resolver : Resolver) (m : Message) where
  -- SPF passed for a domain that aligns with the From domain.
  abbrev pub SpfSpeaks : DmarcRecord → Bytes → Type 0
  SpfSpeaks record_of domain =
      (spf : Outcome) × (spf_part resolver m ≡ some spf)
      × (spf.result ≡ spf_pass)
      × (domains_align services.etld_plus_one spf.domain domain (is_strict record_of.aspf) ≡ true)

  -- The message has one From field at most, and a field DKIM-Signature of it is verified for a domain
  -- that aligns with the From domain.
  abbrev pub DkimSpeaks : DmarcRecord → Bytes → Type 0
  DkimSpeaks record_of domain =
      (count_header m.headers (codes "From") ≤ 1)
      × ((i : ℕ) × NamedAt signature_field m.headers i
          × (domains_align services.etld_plus_one
                (verify_one_dkim services.crypto resolver m.headers m.body m.now i).domain domain
                (is_strict record_of.adkim)
              ≡ true)
          × IsVerified services.crypto resolver
              (record {
                headers = m.headers;
                sig_index = i;
                body = m.body;
                now = m.now;
                field_name = signature_field;
                require_version = true;
              })
              (verify_one_dkim services.crypto resolver m.headers m.body m.now i))

  -- A message is authenticated only if its From domain is not empty and has a DMARC record with a
  -- policy, and either SPF passed for an aligned domain, or the message has at most one From field
  -- and a field DKIM-Signature that is verified for an aligned domain: its published key signs the
  -- named fields, From among them, and the hash of the body.
  pub verify-IsGenuine :
      (r : Verification)
      → verify services resolver m ≡ some r
      → r.authenticated ≡ true
      → (Text.is_empty (Text.to_lower (Text.trim_space (from_domain_of m))) ≡ false)
        × ((d : DmarcRecord) × (lookup_dmarc services.etld_plus_one resolver
                (Text.to_lower (Text.trim_space (from_domain_of m)))
              ≡ ok (some d))
            × (is_set d.policy ≡ true)
            × (SpfSpeaks d (Text.to_lower (Text.trim_space (from_domain_of m)))
                ⊎ DkimSpeaks d (Text.to_lower (Text.trim_space (from_domain_of m)))))
  verify-IsGenuine r h a =
      let (spf, e) = spf_part_total services resolver m in
      let (r', f, iff, _) = verify_authenticated services resolver m spf e in
      let same : r ≡ r' = some-injective r r' (sym h ∙ f) in
      let (there, (d, found, set, speaks)) = iff.0 (subst (λ v. v.authenticated ≡ true) same a) in
      let who : SpfSpeaks d (Text.to_lower (Text.trim_space (from_domain_of m)))
          ⊎ DkimSpeaks d (Text.to_lower (Text.trim_space (from_domain_of m))) =
        elim speaks [
          | inl s ↦ inl (spf, e, s.0, s.2)
          | inr s ↦
              let (k, listed, aligned) = any-eq _ _ s in
              let (few, (i, named, is, verified)) =
                verify_dkim_sound services.crypto resolver m.headers m.body m.now k listed in
              inr (
                few,
                (
                  i,
                  named,
                  subst
                      (λ x.
                        domains_align services.etld_plus_one x
                          (Text.to_lower (Text.trim_space (from_domain_of m))) (is_strict d.adkim)
                        ≡ true)
                      (sym is) aligned,
                  verified,
                ),
              )
        ] in
      (there, (d, found, set, who))
