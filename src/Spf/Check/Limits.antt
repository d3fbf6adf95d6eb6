-- ===== src/Spf/Check/Limits.antt =====
-- `check` of pkg/authverify/spf.go and all that it calls, with their counters.
use mailscript.Base.{
  ltb, Bool-cases, Result, ok, err, ℕ, zero, suc, ◌+◌, ◌≤◌, ◌<◌, ◌≡◌, refl, inl, inr, Bool, true,
  false, ◌||◌, Option, none, some, List, [], ◌∷◌, arith,
}
use mailscript.Text
use mailscript.Text.{Bytes, codes}
use mailscript.Spf.Types.{
  max_spf_lookups, max_spf_void_lookups, spf_permerror, Reason, SpfError, Evaluator, Counters,
  Check,
}
use mailscript.Spf.Macros.{expand_domain_spec}
use mailscript.Spf.Check.{
  scan_term, after_expansion, max_depth, no_counters, after_spend, after_nested, redirected, Scan,
  verdict, unmatched, modifier, qualified, find_record, choose_record, spf_records, after_mechanism,
  scan_mechanism, scan_terms, follow_redirect, conclude, check_terms, check_found, check,
}
use mailscript.Spf.Mechanisms.Counting.{
  Evaluates, Within, Fair, Checks, bind-Evaluates, spend-Evaluates, count_void-Evaluates,
  evaluate_mechanism-Evaluates, evaluated, failed, checked,
}

-- The rest of the loop, from any counters within the limits, ends fairly.
data Scans (low : ℕ) : Option (Scan × Counters) → Type 0 where
  returns : (r : Check) (c : Counters) → Fair low r.result c → Scans low (some (verdict r, c))
  ends : (redirect : Bytes) (c : Counters) → Within low c → Scans low (some (unmatched redirect, c))

after_mechanism-Scans :
    {low : ℕ} (spf_record : Bytes) (q : ℕ × Bytes) {o : Option (Result SpfError Bool × Counters)}
    (go_on : Counters → Option (Scan × Counters))
    → Evaluates low o
    → ((c : Counters) → Within low c → Scans low (go_on c))
    → Scans low (after_mechanism spf_record q o go_on)
unfolding after_mechanism
after_mechanism-Scans spf_record q go_on (evaluated true c w) k = returns _ c (ground arith)
after_mechanism-Scans spf_record q go_on (evaluated false c w) k = k c w
after_mechanism-Scans spf_record q go_on (failed e c h) k = returns _ c h

module _ (nested : Bytes → Counters → Option (Check × Counters)) (e : Evaluator)
    (domain spf_record : Bytes) {low : ℕ}
    (fair : (d : Bytes) (c : Counters) → Within (low + 1) c → Checks (low + 1) (nested d c)) where
  scan_term-Scans :
      (redirect term : Bytes) (o : Option (Bytes × Bytes)) (c : Counters)
      (go_on : Bytes → Counters → Option (Scan × Counters))
      → Within low c
      → ((r : Bytes) (c : Counters) → Within low c → Scans low (go_on r c))
      → Scans low (scan_term nested e domain spf_record redirect term o c go_on)
  unfolding scan_term scan_mechanism
  scan_term-Scans redirect term (some m) c go_on w k = k _ c w
  scan_term-Scans redirect term none c go_on w k =
      after_mechanism-Scans spf_record (qualified term) (go_on redirect)
        (evaluate_mechanism-Evaluates nested e fair _ _ _ domain c w) (k redirect)

  scan_terms-Scans :
      (redirect : Bytes) (terms : List Bytes) (c : Counters)
      → Within low c
      → Scans low (scan_terms nested e domain spf_record redirect terms c)
  unfolding scan_terms
  scan_terms-Scans redirect [] c w = ends redirect c w
  scan_terms-Scans redirect (term ∷ terms) c w =
      scan_term-Scans redirect term (modifier term) c _ w
        (λ r c' w'. scan_terms-Scans r terms c' w')

  redirected-Fair :
      (target : Bytes) (r : Check) (c : Counters)
      → Fair (low + 1) r.result c
      → Fair low (redirected nested e domain spf_record target r).result c
  redirected-Fair target r c h = ground arith

  after_nested-Checks :
      (target : Bytes) {o : Option (Check × Counters)}
      → Checks (low + 1) o
      → Checks low (after_nested nested e domain spf_record target o)
  after_nested-Checks target (checked r c h) = checked _ c (redirected-Fair target r c h)

  after_spend-Checks :
      (target : Bytes) {o : Option (Result SpfError (Unit {0}) × Counters)}
      → Evaluates (low + 1) o
      → Checks low (after_spend nested e domain spf_record target o)
  after_spend-Checks target (evaluated _ c w) =
      after_nested-Checks target (fair (Text.to_lower target) c w)
  after_spend-Checks target (failed error c h) = checked _ c (ground arith)

  after_expansion-Checks :
      (r : Result Reason Bytes) (c : Counters)
      → Within low c
      → Checks low (after_expansion nested e domain spf_record r c)
  unfolding after_expansion
  after_expansion-Checks (err reason) c w = checked _ c (ground arith)
  after_expansion-Checks (ok target) c w = elim (Bool-cases (ltb 10 (c.redirects + 1))) [
    | inl y ↦ rw y (checked _ _ (ground arith))
    | inr y ↦
        rw y
          (after_spend-Checks target (spend-Evaluates (record c { redirects = c.redirects + 1 }) w))
  ]

  follow_redirect-Checks :
      (redirect : Bytes) (c : Counters)
      → Within low c
      → Checks low (follow_redirect nested e domain spf_record redirect c)
  unfolding follow_redirect
  follow_redirect-Checks redirect c w =
      after_expansion-Checks (expand_domain_spec e redirect domain) c w

  conclude-Checks :
      {o : Option (Scan × Counters)}
      → Scans low o
      → Checks low (conclude nested e domain spf_record o)
  unfolding conclude
  conclude-Checks (returns r c h) = checked r c h
  conclude-Checks (ends redirect c w) = elim (Bool-cases (Text.is_empty redirect)) [
    | inl y ↦ rw y (checked _ c (ground arith))
    | inr y ↦ rw y (follow_redirect-Checks redirect c w)
  ]

  check_terms-Checks :
      (terms : List Bytes) (c : Counters)
      → Within low c
      → Checks low (check_terms nested e domain spf_record terms c)
  unfolding check_terms
  check_terms-Checks [] c w = checked _ c (ground arith)
  check_terms-Checks (version ∷ terms) c w =
      elim (Bool-cases (Text.equal_fold version (codes "v=spf1"))) [
        | inl y ↦ rw y (conclude-Checks (scan_terms-Scans [] terms c w))
        | inr y ↦ rw y (checked _ c (ground arith))
      ]

choose_record-Evaluates :
    {low : ℕ} (domain : Bytes) (o : Option (List Bytes)) (c : Counters)
    → Within low c
    → Evaluates low (choose_record domain o c)
unfolding choose_record
choose_record-Evaluates domain none c w = failed _ c (ground arith)
choose_record-Evaluates domain (some []) c w =
    bind-Evaluates _ (count_void-Evaluates c w) (λ _ c' w'. failed _ c' (ground arith))
choose_record-Evaluates domain (some (r ∷ [])) c w = evaluated r c w
choose_record-Evaluates domain (some (r ∷ r' ∷ found)) c w = failed _ c (ground arith)

find_record-Evaluates :
    {low : ℕ} (e : Evaluator) (domain : Bytes) (c : Counters)
    → Within low c
    → Evaluates low (find_record e domain c)
unfolding find_record
find_record-Evaluates e domain c w =
    choose_record-Evaluates domain (spf_records (e.resolver.lookup_txt domain)) c w

check_found-Checks :
    {low : ℕ} (nested : Bytes → Counters → Option (Check × Counters)) (e : Evaluator)
    (domain : Bytes)
    → ((d : Bytes) (c : Counters) → Within (low + 1) c → Checks (low + 1) (nested d c))
    → {o : Option (Result SpfError Bytes × Counters)} → Evaluates low o
    → Checks low (check_found nested e domain o)
unfolding check_found
check_found-Checks nested e domain fair (evaluated spf_record c w) =
    check_terms-Checks nested e domain spf_record fair (Text.fields spf_record) c w
check_found-Checks nested e domain fair (failed error c h) = checked _ c h

check-Checks :
    (fuel low : ℕ) (e : Evaluator) (domain : Bytes) (c : Counters)
    → 10 < fuel + low
    → Within low c
    → Checks low (check fuel e domain c)
unfolding check
check-Checks zero low e domain c enough w = absurd (omega arith)
check-Checks (suc fuel) low e domain c enough w =
    check_found-Checks (check fuel e) e domain
      (λ d c' w'. check-Checks fuel (low + 1) e d c' (omega arith) w')
      (find_record-Evaluates e domain c w)

-- The evaluation of SPF ends within its limits, for every resolver, client and sender, also where
-- records include one another without end: from fresh counters, nesting of eleven records is
-- enough, at most eleven lookups are counted and at most three void ones, and a result for which a
-- limit was passed is a permerror.
pub check_terminates :
    (e : Evaluator) (domain : Bytes)
    → (r : Check) × (c : Counters) × (check max_depth e domain no_counters ≡ some (r, c))
      × (c.lookups ≤ 11)
      × (c.void_lookups ≤ 3)
      × ((ltb max_spf_lookups c.lookups || ltb max_spf_void_lookups c.void_lookups) ≡ true
          → r.result ≡ spf_permerror)
check_terminates e domain =
    go _ (check-Checks max_depth 0 e domain no_counters (omega arith) (omega arith)) refl
  where
    go :
        (o : Option (Check × Counters))
        → Checks 0 o
        → check max_depth e domain no_counters ≡ o
        → (r : Check) × (c : Counters) × (check max_depth e domain no_counters ≡ some (r, c))
          × (c.lookups ≤ 11)
          × (c.void_lookups ≤ 3)
          × ((ltb max_spf_lookups c.lookups || ltb max_spf_void_lookups c.void_lookups) ≡ true
              → r.result ≡ spf_permerror)
    go _ (checked r c h) p = (r, c, p, h.1, h.2, h.3)
