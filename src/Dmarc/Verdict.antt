-- ===== src/Dmarc/Verdict.antt =====
-- `VerifyDMARC` of pkg/authverify/dmarc.go.
pub mod Soundness
use mailscript.Base.{
  ltb, if◌then◌else◌, Result, ok, err, ℕ, Bool, true, false, not, ◌&&◌, ◌||◌, Option, none, some,
  List, [], ◌∷◌,
}
use mailscript.Text
use mailscript.Text.{Bytes, codes}
use mailscript.Spf.Types.{
  SpfResult, spf_none, spf_neutral, spf_pass, spf_fail, spf_softfail, spf_temperror, spf_permerror,
  Resolver,
}
use mailscript.Dmarc.Record.{
  Policy, policy_unset, policy_none, policy_quarantine, policy_reject, AlignmentMode, relaxed,
  strict, DmarcRecord, LookupError, lookup_dmarc,
}
use mailscript.Dmarc.Alignment.{domains_align}

pub data DmarcResult : Type 0 where
  dmarc_none dmarc_pass dmarc_fail dmarc_temperror dmarc_permerror : DmarcResult

-- The explanations, with what they name.
pub data Explanation : Type 0 where
  no_from_domain no_policy both_align spf_aligns not_aligned : Explanation
  lookup_failed : LookupError → Explanation
  no_record : Bytes → Explanation
  dkim_aligns : List Bytes → Explanation
  sampled : ℕ → Explanation

pub record Evaluation : Type 0 where
  pub result : DmarcResult
  pub disposition : Policy
  pub from_domain : Bytes
  pub dmarc_record : Option DmarcRecord
  pub spf_aligned : Bool
  pub dkim_aligned : Bool
  pub aligned_dkim_domains : List Bytes
  pub explanation : Explanation

unfoldable pub is_strict : AlignmentMode → Bool
is_strict strict = true
is_strict relaxed = false

abbrev is_pass : SpfResult → Bool
is_pass spf_pass = true
is_pass _ = false

abbrev is_reject : Policy → Bool
is_reject policy_reject = true
is_reject _ = false

abbrev pub is_set : Policy → Bool
is_set policy_unset = false
is_set _ = true

-- The policy of a record that was found at the organizational domain is sp=.
unfoldable pub applicable_policy : DmarcRecord → Policy
applicable_policy r =
    if r.organizational && is_set r.subdomain_policy then r.subdomain_policy else r.policy

unfoldable pub alignment_summary : Bool → Bool → List Bytes → Explanation
alignment_summary spf_aligned dkim_aligned domains =
    if spf_aligned && dkim_aligned
    then both_align
    else if dkim_aligned
    then dkim_aligns domains
    else spf_aligns

-- The verdict from the alignment: on a failure the policy applies, but a rejection of a part of the
-- mail is softened.
unfoldable pub decide_result : DmarcRecord → Bool → Bool → List Bytes → Evaluation → Evaluation
decide_result r spf_aligned dkim_aligned domains start =
    let aligned = record start {
      spf_aligned = spf_aligned;
      dkim_aligned = dkim_aligned;
      aligned_dkim_domains = domains;
    } in
    let policy = applicable_policy r in
    if spf_aligned || dkim_aligned
    then record aligned {
      result = dmarc_pass;
      explanation = alignment_summary spf_aligned dkim_aligned domains;
    }
    else if ltb r.percent 100 && is_reject policy
    then record aligned {
      result = dmarc_fail;
      disposition = policy_quarantine;
      explanation = sampled r.percent;
    }
    else record aligned { result = dmarc_fail; disposition = policy; explanation = not_aligned }

module _ (etld_plus_one : Bytes → Option Bytes) where
  unfoldable pub spf_alignment : Bytes → DmarcRecord → SpfResult → Bytes → Bool
  spf_alignment from_domain r result domain =
      is_pass result
      && not (Text.is_empty domain)
      && domains_align etld_plus_one domain from_domain (is_strict r.aspf)

  -- The passing domains of DKIM that align.
  unfoldable pub aligned_domains : Bytes → Bool → List Bytes → List Bytes
  aligned_domains from_domain is_strict_dkim [] = []
  aligned_domains from_domain is_strict_dkim (d ∷ domains) =
      let rest = aligned_domains from_domain is_strict_dkim domains in
      if domains_align etld_plus_one d from_domain is_strict_dkim then d ∷ rest else rest

  abbrev is_aligned : List Bytes → Bool
  is_aligned [] = false
  is_aligned (_ ∷ _) = true

  unfoldable pub evaluate_record :
      Evaluation
      → Result LookupError (Option DmarcRecord)
      → SpfResult
      → Bytes
      → List Bytes
      → Evaluation
  evaluate_record start (err e) spf_result spf_domain passing = record start {
    result = dmarc_temperror;
    explanation = lookup_failed e;
  }
  evaluate_record start (ok none) spf_result spf_domain passing = record start {
    result = dmarc_none;
    explanation = no_record start.from_domain;
  }
  evaluate_record start (ok (some r)) spf_result spf_domain passing =
      let found = record start { dmarc_record = some r } in
      let domains = aligned_domains start.from_domain (is_strict r.adkim) passing in
      if not (is_set r.policy)
      then record found { result = dmarc_permerror; explanation = no_policy }
      else decide_result r (spf_alignment start.from_domain r spf_result spf_domain)
          (is_aligned domains) domains found

  -- The result and the domain of SPF, and the passing domains of DKIM, are what is read of them.
  unfoldable pub verify_dmarc : Resolver → Bytes → SpfResult → Bytes → List Bytes → Evaluation
  verify_dmarc resolver from_domain spf_result spf_domain passing =
      let domain = Text.to_lower (Text.trim_space from_domain) in
      let start : Evaluation = record {
        result = dmarc_permerror;
        disposition = policy_none;
        from_domain = domain;
        dmarc_record = none;
        spf_aligned = false;
        dkim_aligned = false;
        aligned_dkim_domains = [];
        explanation = no_from_domain;
      } in
      if Text.is_empty domain
      then start
      else evaluate_record start (lookup_dmarc etld_plus_one resolver domain) spf_result spf_domain
          passing
