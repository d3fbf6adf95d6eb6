-- ===== src/Verify/Authentication.antt =====
-- `Verify` and `Disposition` of pkg/authverify/verify.go: the field Authenticated.
pub mod Provenance
use mailscript.Base.{Bool-cases, ok, ◌≡◌, refl, ◌↔◌, inl, inr, true, false, some, arith}
use mailscript.Text
use mailscript.Text.{Bytes, codes}
use mailscript.Spf.Types.{Resolver}
use mailscript.Spf.Client.{Outcome}
use mailscript.Spf.Check.Verdicts.{verify_spf_total}
use mailscript.Dmarc.Record.{policy_none, DmarcRecord, lookup_dmarc}
use mailscript.Dmarc.Verdict.{DmarcResult, dmarc_pass, is_set, verify_dmarc}
use mailscript.Dmarc.Verdict.Soundness.{IsAuthenticated, verify_dmarc_pass}
use mailscript.Dkim.Result.{verify_dkim}
use mailscript.Verify.{
  Message, Services, Verification, spf_part, from_domain_of, is_dmarc_pass, verified, verify,
  disposition,
}

is_dmarc_pass_iff : (d : DmarcResult) → (is_dmarc_pass d ≡ true) ↔ (d ≡ dmarc_pass)
is_dmarc_pass_iff d = (λ h. ground arith, λ h. ground arith)

module _ (services : Services) where
  -- The From domain has a DMARC record with a policy, and SPF passed for a domain that aligns with it,
  -- or a domain that DKIM verified does.
  abbrev pub IsAligned : Resolver → Message → Outcome → Type 0
  IsAligned resolver m spf =
      let domain = Text.to_lower (Text.trim_space (from_domain_of m)) in
      (Text.is_empty domain ≡ false)
      × ((d : DmarcRecord) × (lookup_dmarc services.etld_plus_one resolver domain ≡ ok (some d))
          × (is_set d.policy ≡ true)
          × IsAuthenticated services.etld_plus_one domain d spf.result spf.domain
              (verify_dkim services.crypto resolver m.headers m.body m.now).passing_domains)

  -- Given what SPF finds for a message, it is authenticated exactly if its From domain has a DMARC
  -- record with a policy, and SPF passed for a domain that aligns with it, or a domain that DKIM
  -- verified does. An authenticated message calls for no action.
  pub verify_authenticated :
      (resolver : Resolver) (m : Message) (spf : Outcome)
      → spf_part resolver m ≡ some spf
      → (r : Verification) × (verify services resolver m ≡ some r)
        × ((r.authenticated ≡ true) ↔ IsAligned resolver m spf)
        × (r.authenticated ≡ true → disposition r ≡ policy_none)
  unfolding verify verified disposition
  verify_authenticated resolver m spf h =
      let passing = (verify_dkim services.crypto resolver m.headers m.body m.now).passing_domains in
      let pass =
        verify_dmarc_pass services.etld_plus_one resolver (from_domain_of m) spf.result spf.domain
          passing in
      let dmarc =
        verify_dmarc services.etld_plus_one resolver (from_domain_of m) spf.result spf.domain
          passing in
      let is_pass = is_dmarc_pass_iff dmarc.result in
      rw h (_, refl, (λ a. pass.0 (is_pass.0 a), λ b. is_pass.1 (pass.1 b)), λ a. rw a)

  -- SPF always ends with a result.
  pub spf_part_total :
      (resolver : Resolver) (m : Message) → (spf : Outcome) × (spf_part resolver m ≡ some spf)
  unfolding spf_part
  spf_part_total resolver m = elim (Bool-cases (Text.is_empty m.client_ip)) [
    | inl y ↦ rw y (_, refl)
    | inr y ↦
        let (r, p, _) = verify_spf_total resolver m.client_ip m.mail_from m.helo in
        rw (y, p) (_, refl)
  ]

  -- The verification of a message always ends with a result.
  pub verify_total :
      (resolver : Resolver) (m : Message)
      → (r : Verification) × (verify services resolver m ≡ some r)
  verify_total resolver m =
      let (spf, e) = spf_part_total resolver m in
      let (r, f, _, _) = verify_authenticated resolver m spf e in (r, f)
