-- ===== src/Dmarc/Verdict/Soundness.antt =====
-- `VerifyDMARC` of pkg/authverify/dmarc.go: what a verdict stands on.
use mailscript.Base.{
  Bool-cases, any, Result, ok, err, ◌≤◌, ◌≡◌, refl, sym, ◌∙◌, subst, ◌≢◌, ◌↔◌, ◌⊎◌, inl, inr, Bool,
  true, false, Option, none, some, List, [], ◌∷◌, arith,
}
use mailscript.Text
use mailscript.Text.{Bytes}
use mailscript.Spf.Types.{SpfResult, spf_pass, Resolver}
use mailscript.Dmarc.Record.{policy_none, policy_reject, DmarcRecord, LookupError, lookup_dmarc}
use mailscript.Dmarc.Alignment.{domains_align}
use mailscript.Dmarc.Verdict.{
  no_from_domain, dmarc_permerror, dmarc_pass, dmarc_fail, Evaluation, is_set, is_strict,
  applicable_policy, decide_result, spf_alignment, aligned_domains, is_aligned, evaluate_record,
  verify_dmarc,
}

module _ (etld_plus_one : Bytes → Option Bytes) where
  -- An identity that was authenticated and that aligns with the From domain under the record.
  abbrev pub IsAuthenticated : Bytes → DmarcRecord → SpfResult → Bytes → List Bytes → Type 0
  IsAuthenticated domain r spf_result spf_domain passing =
      ((spf_result ≡ spf_pass)
        × (Text.is_empty spf_domain ≡ false)
        × (domains_align etld_plus_one spf_domain domain (is_strict r.aspf) ≡ true))
      ⊎ (any (λ d. domains_align etld_plus_one d domain (is_strict r.adkim)) passing ≡ true)

  aligned_domains-is_aligned :
      (domain : Bytes) (strict : Bool) (passing : List Bytes)
      → is_aligned etld_plus_one (aligned_domains etld_plus_one domain strict passing)
        ≡ any (λ d. domains_align etld_plus_one d domain strict) passing
  unfolding aligned_domains
  aligned_domains-is_aligned domain strict [] = refl
  aligned_domains-is_aligned domain strict (d ∷ passing) =
      ground (arith, aligned_domains-is_aligned domain strict passing)

  spf_alignment_iff :
      (domain : Bytes) (r : DmarcRecord) (spf_result : SpfResult) (spf_domain : Bytes)
      → (spf_alignment etld_plus_one domain r spf_result spf_domain ≡ true) ↔ (
          (spf_result ≡ spf_pass)
          × (Text.is_empty spf_domain ≡ false)
          × (domains_align etld_plus_one spf_domain domain (is_strict r.aspf) ≡ true))
  unfolding spf_alignment
  spf_alignment_iff domain r spf_result spf_domain = (λ h. ground arith, λ h. ground arith)

  decide_result-pass :
      (r : DmarcRecord) (s d : Bool) (domains : List Bytes) (start : Evaluation)
      → ((decide_result r s d domains start).result ≡ dmarc_pass) ↔ ((s ≡ true) ⊎ (d ≡ true))
  unfolding decide_result
  decide_result-pass r s d domains start = (λ h. ground arith, λ h. ground arith)

  evaluate_record-pass :
      (start : Evaluation) (l : Result LookupError (Option DmarcRecord)) (spf_result : SpfResult)
      (spf_domain : Bytes) (passing : List Bytes)
      → ((evaluate_record etld_plus_one start l spf_result spf_domain passing).result ≡ dmarc_pass)
        ↔ ((r : DmarcRecord) × (l ≡ ok (some r))
            × (is_set r.policy ≡ true)
            × IsAuthenticated start.from_domain r spf_result spf_domain passing)
  unfolding evaluate_record
  evaluate_record-pass start (err e) spf_result spf_domain passing =
      (λ h. ground arith, λ h. ground (arith, h.1))
  evaluate_record-pass start (ok none) spf_result spf_domain passing =
      (λ h. ground arith, λ h. ground (arith, h.1))
  evaluate_record-pass start (ok (some r)) spf_result spf_domain passing =
      let domains = aligned_domains etld_plus_one start.from_domain (is_strict r.adkim) passing in
      let s = spf_alignment etld_plus_one start.from_domain r spf_result spf_domain in
      let aligned = aligned_domains-is_aligned start.from_domain (is_strict r.adkim) passing in
      let spf = spf_alignment_iff start.from_domain r spf_result spf_domain in
      let decided =
        decide_result-pass r s (is_aligned etld_plus_one domains) domains
          (record start { dmarc_record = some r }) in
      (
        λ h. (
          r,
          refl,
          ground arith,
          elim (decided.0 (ground arith)) [ inl y ↦ inl (spf.0 y) | inr y ↦ inr (sym aligned ∙ y) ],
        ),
        λ h.
            let same : h.0 ≡ r = cc (h.1) in
            let is_there : is_set r.policy ≡ true =
              subst (λ (x : DmarcRecord). is_set x.policy ≡ true) same h.2 in
            let auth =
              subst
                (λ (x : DmarcRecord).
                  IsAuthenticated start.from_domain x spf_result spf_domain passing)
                same h.3 in
            rw is_there
              (decided.1 (elim auth [ inl y ↦ inl (spf.1 y) | inr y ↦ inr (aligned ∙ y) ])),
      )

  permerror-ne-pass : dmarc_permerror ≡ dmarc_pass → ⊥
  permerror-ne-pass h = cc

  -- DMARC passes exactly if the From domain has a record with a policy, and SPF passed for a domain
  -- that aligns with it, or a domain that DKIM passed for does.
  pub verify_dmarc_pass :
      (resolver : Resolver) (from_domain : Bytes) (spf_result : SpfResult) (spf_domain : Bytes)
      (passing : List Bytes)
      → ((verify_dmarc etld_plus_one resolver from_domain spf_result spf_domain passing).result
          ≡ dmarc_pass)
        ↔ ((Text.is_empty (Text.to_lower (Text.trim_space from_domain)) ≡ false)
            × ((r : DmarcRecord) × (lookup_dmarc etld_plus_one resolver
                    (Text.to_lower (Text.trim_space from_domain))
                  ≡ ok (some r))
                × (is_set r.policy ≡ true)
                × IsAuthenticated
                    (Text.to_lower (Text.trim_space from_domain))
                    r
                    spf_result
                    spf_domain
                    passing))
  unfolding verify_dmarc
  verify_dmarc_pass resolver from_domain spf_result spf_domain passing =
      let domain = Text.to_lower (Text.trim_space from_domain) in
      let start : Evaluation = record {
        result = dmarc_permerror;
        disposition = policy_none;
        from_domain = domain;
        dmarc_record = none;
        spf_aligned = false;
        dkim_aligned = false;
        aligned_dkim_domains = [];
        explanation = no_from_domain;
      } in
      let found =
        evaluate_record-pass start (lookup_dmarc etld_plus_one resolver domain) spf_result
          spf_domain passing in
      elim (Bool-cases (Text.is_empty domain)) [
        | inl y ↦ (λ h. absurd (permerror-ne-pass (rw y at h)), λ h. ground arith)
        | inr y ↦ (λ h. (y, found.0 (rw y at h)), λ h. rw y (found.1 h.1))
      ]

  decide_result-disposition :
      (r : DmarcRecord) (s d : Bool) (domains : List Bytes) (start : Evaluation)
      → start.disposition ≡ policy_none
      → ((decide_result r s d domains start).result ≢ dmarc_fail
          → (decide_result r s d domains start).disposition ≡ policy_none)
        × ((decide_result r s d domains start).disposition ≡ policy_reject
            → (applicable_policy r ≡ policy_reject) × (100 ≤ r.percent))
  unfolding decide_result
  decide_result-disposition r s d domains start h = ground arith

  none-ne-reject : policy_none ≡ policy_reject → ⊥
  none-ne-reject h = cc

  evaluate_record-disposition :
      (start : Evaluation) (l : Result LookupError (Option DmarcRecord)) (spf_result : SpfResult)
      (spf_domain : Bytes) (passing : List Bytes)
      → start.disposition ≡ policy_none
      → let v = evaluate_record etld_plus_one start l spf_result spf_domain passing in
        (v.result ≢ dmarc_fail → v.disposition ≡ policy_none)
        × (v.disposition ≡ policy_reject
            → (r : DmarcRecord) × (l ≡ ok (some r))
              × (applicable_policy r ≡ policy_reject)
              × (100 ≤ r.percent))
  unfolding evaluate_record
  evaluate_record-disposition start (err e) spf_result spf_domain passing h =
      (λ n. h, λ d. absurd (ground arith))
  evaluate_record-disposition start (ok none) spf_result spf_domain passing h =
      (λ n. h, λ d. absurd (ground arith))
  evaluate_record-disposition start (ok (some r)) spf_result spf_domain passing h =
      let domains = aligned_domains etld_plus_one start.from_domain (is_strict r.adkim) passing in
      let s = spf_alignment etld_plus_one start.from_domain r spf_result spf_domain in
      let d =
        decide_result-disposition r s (is_aligned etld_plus_one domains) domains
          (record start { dmarc_record = some r }) h in
      elim (Bool-cases (is_set r.policy)) [
        | inl y ↦ rw y (d.0, λ e. (r, refl, (d.1 e).0, (d.1 e).1))
        | inr y ↦ rw y ((λ n. h), λ e. absurd (ground arith))
      ]

  -- A message is quarantined or rejected only if DMARC failed, and it is rejected only if the policy
  -- of the record that was found, the one for subdomains where the record is the organization's,
  -- asks to reject all failing mail.
  pub verify_dmarc_disposition :
      (resolver : Resolver) (from_domain : Bytes) (spf_result : SpfResult) (spf_domain : Bytes)
      (passing : List Bytes)
      → ((verify_dmarc etld_plus_one resolver from_domain spf_result spf_domain passing).result
            ≢ dmarc_fail
          → (verify_dmarc etld_plus_one resolver from_domain spf_result spf_domain
              passing).disposition
            ≡ policy_none)
        × ((verify_dmarc etld_plus_one resolver from_domain spf_result spf_domain
                passing).disposition
              ≡ policy_reject
            → (r : DmarcRecord) × (lookup_dmarc etld_plus_one resolver
                  (Text.to_lower (Text.trim_space from_domain))
                ≡ ok (some r))
              × (applicable_policy r ≡ policy_reject)
              × (100 ≤ r.percent))
  unfolding verify_dmarc
  verify_dmarc_disposition resolver from_domain spf_result spf_domain passing =
      let domain = Text.to_lower (Text.trim_space from_domain) in
      elim (Bool-cases (Text.is_empty domain)) [
        | inl y ↦ rw y ((λ n. refl), λ e. absurd (none-ne-reject e))
        | inr y ↦ rw y (
            evaluate_record-disposition _ (lookup_dmarc etld_plus_one resolver domain) spf_result
              spf_domain passing refl)
      ]
