-- ===== src/Rules/Reported/Pass.antt =====
-- What stands behind a reported DMARC pass: `DMARCPass` of pkg/rules/auth.go.
use mailscript.Base.{
  if◌then◌else◌, Bool-cases, Option-cases, some-injective, all, All, ◌≤◌, ◌≡◌, refl, sym, ap, ◌∙◌,
  subst, ◌≢◌, ◌⊎◌, inl, inr, Bool, true, false, ◌||◌, Option, some, List, [], ◌∷◌, ◌++◌, arith,
}
use mathlib.Core.List.{Memᴰ}
use mailscript.Text
use mailscript.Text.{Bytes, codes}
use mailscript.Text.Laws.{eq→≡, eq_comm}
use mailscript.Rules.Fields.{Field}
use mailscript.Rules.Context.{Context, get, get_all, set_headers}
use mailscript.Rules.Context.Index.{values_of, first_value}
use mailscript.Rules.Context.Accessors.{set_headers-agrees}
use mailscript.Rules.Address.{MailParser, domain_of}
use mailscript.Rules.Reported.{AuthResults, no_results, rank, read_headers, read_signatures}
use mailscript.Rules.Reported.Strength.{of_dmarc, claims_of}
use mailscript.Rules.Reported.Kept.{IsStrongest, found, read_headers-IsStrongest}
use mailscript.Rules.Reported.Verdict.{
  first_received, read_received, parse_auth_results, spf_aligned, dkim_aligned, dmarc_verdict,
  dmarc_pass,
}

-- The fields that report results, by a scan.
abbrev pub reporting_fields : List Field → List Bytes
reporting_fields fields =
    (values_of (codes "Authentication-Results") fields
      ++ values_of (codes "ARC-Authentication-Results") fields)
    ++ values_of (codes "X-Authentication-Results") fields

-- No claim is a fail.
abbrev pub HasNoFail : List Bytes → Type 0
HasNoFail = All (λ c. c ≢ codes "fail")

rank-fail : rank (codes "fail") ≡ 4
unfolding rank Text.eq codes
rank-fail = refl

rank-other : (r : Bytes) → Text.eq (codes "fail") r ≡ false → rank r ≤ 3
unfolding rank
rank-other r h = ground (arith, h)

HasNoFail-ranks :
    (r : Bytes) (cs : List Bytes)
    → Text.eq (codes "fail") r ≡ false
    → All (λ c. rank c ≤ rank r) cs
    → HasNoFail cs
HasNoFail-ranks r [] h low = tt
HasNoFail-ranks r (c ∷ cs) h low = (
  λ e. let four : rank c ≡ 4 = ap rank e ∙ rank-fail in omega (arith, four, low.0, rank-other r h),
  HasNoFail-ranks r cs h low.1,
)

read_received-dmarc : (hs : List Bytes) (ar : AuthResults) → (read_received hs ar).dmarc ≡ ar.dmarc
unfolding read_received
read_received-dmarc hs ar = elim (Bool-cases (Text.is_empty ar.spf)) [
  | inr e ↦ rw e refl
  | inl e ↦ elim (Option-cases (first_received hs)) [
    | inl g ↦ rw (e, g) refl
    | inr (p, g) ↦ rw (e, g) refl
  ]
]

-- The results of the fields of a message.
abbrev pub results_of : List Bytes → List Field → AuthResults
results_of trusted fields = read_received (values_of (codes "Received-SPF") fields) (
    read_headers trusted (reporting_fields fields)
      (read_signatures (values_of (codes "DKIM-Signature") fields) no_results))

parse_auth_results-fields :
    (trusted : List Bytes) (fields : List Field) (d : Context)
    → ((name : Bytes) → get_all name d ≡ some (values_of name fields))
    → parse_auth_results trusted d ≡ some (results_of trusted fields)
unfolding parse_auth_results
parse_auth_results-fields trusted fields d all =
    rw
      (
        all (codes "DKIM-Signature"),
        all (codes "Authentication-Results"),
        all (codes "ARC-Authentication-Results"),
        all (codes "X-Authentication-Results"),
        all (codes "Received-SPF"),
      )
      refl

-- What is behind a verdict that a message passes.
abbrev pub PassGround : (Bytes → Option Bytes) → AuthResults → Bytes → List Bytes → Type 0
PassGround etld_plus_one ar from claims =
    Memᴰ (codes "pass") claims
    ⊎ ((spf_aligned etld_plus_one ar from false || dkim_aligned etld_plus_one ar from false) ≡ true)

choice :
    (pass fail aligned : Bool)
    → (if pass then true else if fail then false else aligned) ≡ true
    → (pass ≡ true) ⊎ ((fail ≡ false) × (aligned ≡ true))
choice true fail aligned h = inl refl
choice false true aligned h = cc
choice false false aligned h = inr (refl, h)

verdict-choice :
    (etld_plus_one : Bytes → Option Bytes) (ar : AuthResults) (from : Bytes)
    → dmarc_verdict etld_plus_one ar from ≡ true
    → (Text.eq ar.dmarc (codes "pass") ≡ true)
      ⊎ ((Text.eq ar.dmarc (codes "fail") ≡ false)
          × ((spf_aligned etld_plus_one ar from false || dkim_aligned etld_plus_one ar from false)
              ≡ true))
unfolding dmarc_verdict
verdict-choice etld_plus_one ar from h =
    choice (Text.eq ar.dmarc (codes "pass")) (Text.eq ar.dmarc (codes "fail"))
      (spf_aligned etld_plus_one ar from false || dkim_aligned etld_plus_one ar from false) h

fail-pass : Text.eq (codes "fail") (codes "pass") ≡ false
unfolding Text.eq codes
fail-pass = refl

pass-nil : (r : Bytes) → r ≡ [] → Text.eq r (codes "pass") ≡ true → Text.eq (codes "fail") r ≡ true
unfolding Text.eq codes
pass-nil r e h = cc

verdict-passes :
    (etld_plus_one : Bytes → Option Bytes) (ar : AuthResults) (from : Bytes) (claims : List Bytes)
    → ((ar.dmarc ≡ []) × (claims ≡ [])) ⊎ IsStrongest ar.dmarc claims
    → dmarc_verdict etld_plus_one ar from ≡ true
    → HasNoFail claims × PassGround etld_plus_one ar from claims
verdict-passes etld_plus_one ar from claims why h = elim (verdict-choice etld_plus_one ar from h) [
  | inl p ↦
      let pass : ar.dmarc ≡ codes "pass" = eq→≡ ar.dmarc (codes "pass") p in
      let other : Text.eq (codes "fail") ar.dmarc ≡ false =
        ap (Text.eq (codes "fail")) pass ∙ fail-pass in
      elim why [
        | inl (e, nothing) ↦ absurd (ground (arith, other, pass-nil ar.dmarc e p))
        | inr (found mem low) ↦
            (HasNoFail-ranks ar.dmarc claims other low, inl (subst (λ r. Memᴰ r claims) pass mem))
      ]
  | inr (f, aligned) ↦
      let other : Text.eq (codes "fail") ar.dmarc ≡ false = eq_comm (codes "fail") ar.dmarc ∙ f in
      elim why [
        | inl (e, nothing) ↦ (subst HasNoFail (sym nothing) tt, inr aligned)
        | inr (found mem low) ↦ (HasNoFail-ranks ar.dmarc claims other low, inr aligned)
      ]
]

-- A message whose header fields were set passes DMARC only if no field Authentication-Results,
-- ARC-Authentication-Results or X-Authentication-Results claims dmarc=fail, and one of them claims
-- dmarc=pass, or SPF or DKIM as they are reported are aligned with the domain of the From field.
pub dmarc_pass_sound :
    (etld_plus_one : Bytes → Option Bytes) (parser : MailParser) (trusted : List Bytes)
    (fields : List Field) (c d : Context)
    → set_headers fields c ≡ some d
    → dmarc_pass etld_plus_one parser trusted d ≡ some true
    → let claims = claims_of of_dmarc (reporting_fields fields) in
      let from = domain_of parser (first_value (values_of (codes "From") fields)) in
      HasNoFail claims × PassGround etld_plus_one (results_of trusted fields) from claims
unfolding dmarc_pass
dmarc_pass_sound etld_plus_one parser trusted fields c d h k =
    let (built, e, list, received, agrees) = set_headers-agrees fields c in
    let same : built ≡ d = some-injective built d (sym e ∙ h) in
    let all : (name : Bytes) → get_all name d ≡ some (values_of name fields) =
      λ name. subst (λ x. get_all name x ≡ some (values_of name fields)) same (agrees name).1 in
    let from : get (codes "From") d ≡ some (first_value (values_of (codes "From") fields)) =
      subst (λ x. get (codes "From") x ≡ some (first_value (values_of (codes "From") fields))) same
        (agrees (codes "From")).0 in
    let ar = results_of trusted fields in
    let sender = domain_of parser (first_value (values_of (codes "From") fields)) in
    let claims = claims_of of_dmarc (reporting_fields fields) in
    let passes : dmarc_verdict etld_plus_one ar sender ≡ true =
      some-injective _ _ (rw (parse_auth_results-fields trusted fields d all, from) at k) in
    let kept =
      read_headers-IsStrongest of_dmarc trusted (reporting_fields fields)
        (values_of (codes "DKIM-Signature") fields) in
    verdict-passes etld_plus_one ar sender claims
      (subst (λ r. ((r ≡ []) × (claims ≡ [])) ⊎ IsStrongest r claims)
        (sym (read_received-dmarc (values_of (codes "Received-SPF") fields) _)) kept)
      passes
