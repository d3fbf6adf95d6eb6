-- ===== src/Spf/Check.antt =====
-- `findRecord`, `check` and `qualifierToResult` of pkg/authverify/spf.go.
pub mod Limits
pub mod Verdicts
use mailscript.Base.{
  ltb, ◌==◌, if◌then◌else◌, length, take, drop, any, Result, ok, err, ℕ, zero, suc, ◌+◌, Bool, true,
  false, ◌||◌, Option, none, some, List, [], ◌∷◌,
}
use mailscript.Text
use mailscript.Text.{Bytes, codes}
use mailscript.Net.{parse_ip}
use mailscript.Spf.Types.{
  spf_temperror, Reason, Resolver, SpfResult, spf_none, spf_neutral, spf_pass, spf_fail,
  spf_softfail, spf_permerror, not_spf1, redirect_limit, record_too_large, no_record, redirect_none,
  several_records, SpfError, Evaluator, Counters, Eval, pure, fail_with, ◌>>◌, spend, count_void,
  Check, max_spf_record_size, max_spf_lookups, max_spf_redirects,
}
use mailscript.Spf.Macros.{expand_domain_spec}
use mailscript.Spf.Mechanisms.{evaluate_mechanism}

unfoldable pub qualifier_to_result : ℕ → SpfResult
qualifier_to_result qualifier =
    if qualifier == b'-'
    then spf_fail
    else if qualifier == b'~'
    then spf_softfail
    else if qualifier == b'?'
    then spf_neutral
    else spf_pass

-- The loop over the TXT records: the records of SPF, or an error where one of those before is
-- too long.
unfoldable pub spf_records : List Bytes → Option (List Bytes)
spf_records [] = some []
spf_records (r ∷ records) = elim (ltb max_spf_record_size (length r)) [
  | true ↦ none
  | false ↦ elim (spf_records records) [
    | none ↦ none
    | some found ↦
        some (if Text.has_prefix (codes "v=spf1") (Text.to_lower r) then r ∷ found else found)
  ]
]

unfoldable pub choose_record : Bytes → Option (List Bytes) → Eval Bytes
choose_record domain none = fail_with spf_permerror record_too_large
choose_record domain (some []) = do count_void; fail_with spf_none (no_record domain)
choose_record domain (some (r ∷ [])) = pure r
choose_record domain (some (r ∷ r' ∷ found)) =
    fail_with spf_permerror (several_records (length (r ∷ r' ∷ found)))

unfoldable pub find_record : Evaluator → Bytes → Eval Bytes
find_record e domain = choose_record domain (spf_records (e.resolver.lookup_txt domain))

-- A modifier is name=value, with no colon and no slash in its name.
unfoldable pub modifier : Bytes → Option (Bytes × Bytes)
modifier term = elim (Text.cut b'=' term) [
  | none ↦ none
  | some p ↦
      if Text.is_empty p.0 || any (λ c. c == b':' || c == b'/') p.0
      then none
      else some (Text.to_lower p.0, p.1)
]

abbrev is_qualifier : ℕ → Bool
is_qualifier c = c == b'+' || c == b'-' || c == b'~' || c == b'?'

-- The qualifier and the body of a mechanism.
unfoldable pub qualified : Bytes → ℕ × Bytes
qualified [] = (b'+', [])
qualified (c ∷ body) = if is_qualifier c then (c, body) else (b'+', c ∷ body)

-- The name in small letters and the value: behind a colon, or from a slash on.
unfoldable pub name_and_value : Bytes → Bytes × Bytes
name_and_value body = elim (Text.cut b':' body) [
  | some p ↦ (Text.to_lower p.0, p.1)
  | none ↦ elim (Text.index_byte b'/' body) [
    | some i ↦ (Text.to_lower (take i body), drop i body)
    | none ↦ (Text.to_lower body, [])
  ]
]

-- What the loop over the terms ends with: a return, or the last redirect that it met.
pub data Scan : Type 0 where
  verdict : Check → Scan
  unmatched : Bytes → Scan

abbrev returned : SpfResult → Bytes → Bytes → Option SpfError → Check
returned result mechanism spf_record error = record {
  result = result;
  mechanism = mechanism;
  spf_record = spf_record;
  error = error;
}

-- What a mechanism made of the client: an error and a match return, and no match goes on.
unfoldable pub after_mechanism :
    Bytes
    → ℕ × Bytes
    → Option (Result SpfError Bool × Counters)
    → (Counters → Option (Scan × Counters))
    → Option (Scan × Counters)
after_mechanism spf_record q none go_on = none
after_mechanism spf_record q (some (err e, c)) go_on =
    some (verdict (returned e.result q.1 spf_record (some e)), c)
after_mechanism spf_record q (some (ok true, c)) go_on =
    some (verdict (returned (qualifier_to_result q.0) q.1 spf_record none), c)
after_mechanism spf_record q (some (ok false, c)) go_on = go_on c

module _ (nested : Bytes → Counters → Option (Check × Counters)) (e : Evaluator)
    (domain spf_record : Bytes) where
  unfoldable pub scan_mechanism :
      Bytes → Counters → (Counters → Option (Scan × Counters)) → Option (Scan × Counters)
  scan_mechanism term c go_on =
      let q = qualified term in
      let n = name_and_value q.1 in
      after_mechanism spf_record q (evaluate_mechanism nested e n.0 n.1 q.1 domain c) go_on

  abbrev new_redirect : Bytes → Bytes × Bytes → Bytes
  new_redirect redirect (name, value) = if Text.eq name (codes "redirect") then value else redirect

  -- A modifier does not match; of those only the redirect is kept.
  unfoldable pub scan_term :
      Bytes
      → Bytes
      → Option (Bytes × Bytes)
      → Counters
      → (Bytes → Counters → Option (Scan × Counters))
      → Option (Scan × Counters)
  scan_term redirect term (some m) c go_on = go_on (new_redirect redirect m) c
  scan_term redirect term none c go_on = scan_mechanism term c (go_on redirect)

  unfoldable pub scan_terms : Bytes → List Bytes → Counters → Option (Scan × Counters)
  scan_terms redirect [] c = some (unmatched redirect, c)
  scan_terms redirect (term ∷ terms) c =
      scan_term redirect term (modifier term) c (λ r c'. scan_terms r terms c')

  -- A redirect to a domain with no record is a permerror.
  abbrev redirected : Bytes → Check → Check
  redirected target r = elim r.result [
    | spf_none ↦
        returned spf_permerror (codes "redirect") r.spf_record
          (some (record { result = spf_permerror; reason = redirect_none target }))
    | _ ↦ r
  ]

  abbrev redirect_failed : SpfError → Check
  redirect_failed error = returned spf_permerror (codes "redirect") spf_record (some error)

  abbrev after_nested : Bytes → Option (Check × Counters) → Option (Check × Counters)
  after_nested target none = none
  after_nested target (some (r, c)) = some (redirected target r, c)

  abbrev after_spend :
      Bytes → Option (Result SpfError (Unit {0}) × Counters) → Option (Check × Counters)
  after_spend target none = none
  after_spend target (some (err error, c)) = some (redirect_failed error, c)
  after_spend target (some (ok _, c)) = after_nested target (nested (Text.to_lower target) c)

  unfoldable pub after_expansion : Result Reason Bytes → Counters → Option (Check × Counters)
  after_expansion (err reason) c =
      some (redirect_failed (record { result = spf_permerror; reason = reason }), c)
  after_expansion (ok target) c =
      let c' = record c { redirects = c.redirects + 1 } in
      if ltb max_spf_redirects c'.redirects
      then some (redirect_failed (record { result = spf_permerror; reason = redirect_limit }), c')
      else after_spend target (spend c')

  unfoldable pub follow_redirect : Bytes → Counters → Option (Check × Counters)
  follow_redirect redirect c = after_expansion (expand_domain_spec e redirect domain) c

  unfoldable pub conclude : Option (Scan × Counters) → Option (Check × Counters)
  conclude none = none
  conclude (some (verdict r, c)) = some (r, c)
  conclude (some (unmatched redirect, c)) =
      if Text.is_empty redirect
      then some (returned spf_neutral [] spf_record none, c)
      else follow_redirect redirect c

  -- The terms of the record; the first one is its version.
  unfoldable pub check_terms : List Bytes → Counters → Option (Check × Counters)
  check_terms [] c = some (
    returned spf_permerror [] spf_record
        (some (record { result = spf_permerror; reason = not_spf1 })),
    c,
  )
  check_terms (version ∷ terms) c =
      if Text.equal_fold version (codes "v=spf1")
      then conclude (scan_terms [] terms c)
      else some (
        returned spf_permerror [] spf_record
            (some (record { result = spf_permerror; reason = not_spf1 })),
        c,
      )

unfoldable pub check_found :
    (Bytes → Counters → Option (Check × Counters))
    → Evaluator
    → Bytes
    → Option (Result SpfError Bytes × Counters)
    → Option (Check × Counters)
check_found nested e domain none = none
check_found nested e domain (some (err error, c)) =
    some (returned error.result [] [] (some error), c)
check_found nested e domain (some (ok spf_record, c)) =
    check_terms nested e domain spf_record (Text.fields spf_record) c

-- `check` on fuel, which bounds how deep includes and redirects nest; `none` means that it ran out.
unfoldable pub check : ℕ → Evaluator → Bytes → Counters → Option (Check × Counters)
check zero e domain c = none
check (suc fuel) e domain c = check_found (check fuel e) e domain (find_record e domain c)

abbrev pub no_counters : Counters
no_counters = record { lookups = 0; void_lookups = 0; redirects = 0 }

-- As many nested records as there can be lookups, and the first one.
abbrev pub max_depth : ℕ
max_depth = max_spf_lookups + 1
