-- ===== src/Spf/Mechanisms/Include.antt =====
-- The include mechanism of pkg/authverify/spf.go, against the verdict of the included domain.
use mailscript.Base.{
  ltb, Bool-cases, Result-cases, ok, ◌+◌, ◌≤◌, ◌≡◌, refl, inl, inr, true, Option, none, some, arith,
}
use mailscript.Text
use mailscript.Text.{Bytes}
use mailscript.Spf.Types.{
  SpfResult, spf_none, spf_neutral, spf_pass, spf_fail, spf_softfail, spf_temperror, spf_permerror,
  SpfError, Evaluator, Counters, continue, spend, Check,
}
use mailscript.Spf.Macros.{expand_domain_spec}
use mailscript.Spf.Mechanisms.{called, include_verdict, match_include}

include_verdict-eq-true :
    (target : Bytes) (result : SpfResult) (error : Option SpfError) (c d : Counters)
    → include_verdict target result error c ≡ some (ok true, d)
    → (result ≡ spf_pass) × (c ≡ d)
unfolding include_verdict
include_verdict-eq-true target spf_pass error c d h = (refl, cc)
include_verdict-eq-true target spf_none error c d h = absurd (ground arith)
include_verdict-eq-true target spf_neutral error c d h = absurd (ground arith)
include_verdict-eq-true target spf_fail error c d h = absurd (ground arith)
include_verdict-eq-true target spf_softfail error c d h = absurd (ground arith)
include_verdict-eq-true target spf_temperror error c d h = absurd (ground arith)
include_verdict-eq-true target spf_permerror none c d h = absurd (ground arith)
include_verdict-eq-true target spf_permerror (some e) c d h = absurd (ground arith)

-- The evaluation of an included domain, from its result on.
after_call-eq-true :
    (target : Bytes) (o : Option (Check × Counters)) (d : Counters)
    → continue (called o) (λ r. include_verdict target r.result r.error) ≡ some (ok true, d)
    → (r : Check) × (o ≡ some (r, d)) × (r.result ≡ spf_pass)
after_call-eq-true target none d h = absurd (ground arith)
after_call-eq-true target (some (r, c)) d h =
    let (passes, same) = include_verdict-eq-true target r.result r.error c d h in (r, cc, passes)

-- What is included matches only if its domain, which is what the value of the mechanism expands to
-- for the current domain, in small letters and with no space around it, has an evaluation of its own
-- that is a pass, with one more lookup counted and still within the limit.
pub match_include-passes :
    (nested : Bytes → Counters → Option (Check × Counters)) (e : Evaluator) (value domain : Bytes)
    (c d : Counters)
    → match_include nested e value domain c ≡ some (ok true, d)
    → (target : Bytes) × (r : Check) × (expand_domain_spec e value domain ≡ ok target)
      × (nested (Text.to_lower (Text.trim_space target)) (record c { lookups = c.lookups + 1 })
          ≡ some (r, d))
      × (r.result ≡ spf_pass)
      × (c.lookups + 1 ≤ 10)
unfolding match_include spend
match_include-passes nested e value domain c d h = elim (Bool-cases (ltb 10 (c.lookups + 1))) [
  | inl y ↦ absurd (ground arith)
  | inr y ↦ elim (Result-cases (expand_domain_spec e value domain)) [
    | inr x ↦ absurd (ground (arith, x.1))
    | inl x ↦
        let target = Text.to_lower (Text.trim_space x.0) in
        elim (Bool-cases (Text.is_empty target)) [
          | inl z ↦ absurd (ground (arith, x.1))
          | inr z ↦
              let (r, k, passes) =
                after_call-eq-true target (nested target (record c { lookups = c.lookups + 1 })) d
                  (ground (arith, x.1)) in
              (x.0, r, x.1, k, passes, ground arith)
        ]
  ]
]
