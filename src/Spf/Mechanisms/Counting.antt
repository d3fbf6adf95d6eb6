-- ===== src/Spf/Mechanisms/Counting.antt =====
-- The mechanisms of pkg/authverify/spf.go, with the counters of the evaluation.
use mailscript.Base.{
  ltb, if◌then◌else◌, Bool-cases, Result, ok, err, ℕ, ◌+◌, ◌≤◌, ◌≡◌, inl, inr, Bool, true, false,
  ◌||◌, Option, none, some, List, [], ◌∷◌, arith,
}
use mailscript.Text.{Bytes}
use mailscript.Spf.Types.{
  SpfResult, spf_none, spf_neutral, spf_pass, spf_fail, spf_softfail, spf_temperror, spf_permerror,
  Reason, SpfError, Evaluator, Counters, Eval, fail_with, lift, continue, spend, count_void, Check,
}
use mailscript.Net.{Network}
use mailscript.Spf.Mechanisms.{
  match_cidr, match_address, called, match_ip_mechanism, mechanism_target, void_if_empty, match_a,
  match_mx, include_verdict, match_include, match_exists, match_ptr, evaluate_mechanism,
}

-- Neither limit is used up, and no lookup of before is forgotten.
abbrev pub Within : ℕ → Counters → Type 0
Within low c = (low ≤ c.lookups) × (c.lookups ≤ 10) × (c.void_lookups ≤ 2)

-- A limit is passed by one at most, and then the result is a permerror.
abbrev pub Fair : ℕ → SpfResult → Counters → Type 0
Fair low result c =
    (low ≤ c.lookups)
    × (c.lookups ≤ 11)
    × (c.void_lookups ≤ 3)
    × ((ltb 10 c.lookups || ltb 2 c.void_lookups) ≡ true → result ≡ spf_permerror)

-- A step that does not run out of fuel, and ends within the limits or with a fair error.
pub data Evaluates {A : Type 0} (low : ℕ) : Option (Result SpfError A × Counters) → Type 0 where
  evaluated : (a : A) (c : Counters) → Within low c → Evaluates low (some (ok a, c))
  failed : (e : SpfError) (c : Counters) → Fair low e.result c → Evaluates low (some (err e, c))

pub data Checks (low : ℕ) : Option (Check × Counters) → Type 0 where
  checked : (r : Check) (c : Counters) → Fair low r.result c → Checks low (some (r, c))

pub bind-Evaluates :
    {A B : Type 0} {low : ℕ} {o : Option (Result SpfError A × Counters)} (f : A → Eval B)
    → Evaluates low o
    → ((a : A) (c : Counters) → Within low c → Evaluates low (f a c))
    → Evaluates low (continue o f)
bind-Evaluates f (evaluated a c w) k = k a c w
bind-Evaluates f (failed e c w) k = failed e c w

if-Evaluates :
    {A : Type 0} {low : ℕ} (b : Bool) (m n : Eval A) (c : Counters)
    → Evaluates low (m c)
    → Evaluates low (n c)
    → Evaluates low ((if b then m else n) c)
if-Evaluates true m n c h k = h
if-Evaluates false m n c h k = k

lift-Evaluates :
    {A : Type 0} {low : ℕ} (r : Result Reason A) (c : Counters)
    → Within low c
    → Evaluates low (lift r c)
lift-Evaluates (ok a) c w = evaluated a c w
lift-Evaluates (err reason) c w = failed _ c (ground arith)

fail_with-Evaluates :
    {A : Type 0} {low : ℕ} (result : SpfResult) (reason : Reason) (c : Counters)
    → Within low c
    → Evaluates {A = A} low (fail_with result reason c)
fail_with-Evaluates result reason c w = failed _ c (ground arith)

pub spend-Evaluates : {low : ℕ} (c : Counters) → Within low c → Evaluates (low + 1) (spend c)
unfolding spend
spend-Evaluates {low} c w = elim (Bool-cases (ltb 10 (c.lookups + 1))) [
  | inl e ↦ rw e (failed _ _ (ground arith))
  | inr e ↦ rw e (evaluated tt _ (ground arith))
]

pub count_void-Evaluates : {low : ℕ} (c : Counters) → Within low c → Evaluates low (count_void c)
unfolding count_void
count_void-Evaluates c w = elim (Bool-cases (ltb 2 (c.void_lookups + 1))) [
  | inl e ↦ rw e (failed _ _ (ground arith))
  | inr e ↦ rw e (evaluated tt _ (ground arith))
]

void_if_empty-Evaluates :
    {low : ℕ} (l : List Bytes) (c : Counters) → Within low c → Evaluates low (void_if_empty l c)
void_if_empty-Evaluates [] c w = count_void-Evaluates c w
void_if_empty-Evaluates (_ ∷ _) c w = evaluated tt c w

ruleset evaluation = (
  bind-Evaluates, if-Evaluates, lift-Evaluates, fail_with-Evaluates, spend-Evaluates,
  count_void-Evaluates, void_if_empty-Evaluates, evaluated,
)

-- What follows is about one evaluation.
module _ (e : Evaluator) {low : ℕ} where
  mechanism_target-Evaluates :
      (value domain : Bytes) (c : Counters)
      → Within low c
      → Evaluates low (mechanism_target e value domain c)
  unfolding mechanism_target
  mechanism_target-Evaluates value domain c w = search evaluation

module _ (e : Evaluator) {low : ℕ} where
  match_a-Evaluates :
      (value domain : Bytes) (c : Counters)
      → Within low c
      → Evaluates (low + 1) (match_a e value domain c)
  unfolding match_a
  match_a-Evaluates value domain c w = search (evaluation, mechanism_target-Evaluates)

  match_mx-Evaluates :
      (value domain : Bytes) (c : Counters)
      → Within low c
      → Evaluates (low + 1) (match_mx e value domain c)
  unfolding match_mx
  match_mx-Evaluates value domain c w = search (evaluation, mechanism_target-Evaluates)

  match_exists-Evaluates :
      (value domain : Bytes) (c : Counters)
      → Within low c
      → Evaluates (low + 1) (match_exists e value domain c)
  unfolding match_exists
  match_exists-Evaluates value domain c w = search evaluation

  match_ptr-Evaluates :
      (value domain : Bytes) (c : Counters)
      → Within low c
      → Evaluates (low + 1) (match_ptr e value domain c)
  unfolding match_ptr
  match_ptr-Evaluates value domain c w = search evaluation

module _ (e : Evaluator) {low : ℕ} where
  match_cidr-Evaluates :
      (value : Bytes) (o : Option Network) (c : Counters)
      → Within low c
      → Evaluates low (match_cidr e value o c)
  match_cidr-Evaluates value none c w = fail_with-Evaluates _ _ c w
  match_cidr-Evaluates value (some network) c w = evaluated _ c w

  match_address-Evaluates :
      (value : Bytes) (o : Option ℕ) (c : Counters)
      → Within low c
      → Evaluates low (match_address e value o c)
  match_address-Evaluates value none c w = fail_with-Evaluates _ _ c w
  match_address-Evaluates value (some addr) c w = evaluated _ c w

module _ (e : Evaluator) {low : ℕ} where
  match_ip_mechanism-Evaluates :
      (name value : Bytes) (c : Counters)
      → Within low c
      → Evaluates low (match_ip_mechanism e name value c)
  unfolding match_ip_mechanism
  match_ip_mechanism-Evaluates name value c w =
      search (evaluation, match_cidr-Evaluates, match_address-Evaluates)

include_verdict-Evaluates :
    {low : ℕ} (target : Bytes) (result : SpfResult) (error : Option SpfError) (c : Counters)
    → Fair low result c
    → Evaluates low (include_verdict target result error c)
unfolding include_verdict
include_verdict-Evaluates target spf_pass error c h = evaluated _ c (ground arith)
include_verdict-Evaluates target spf_temperror error c h = failed _ c (ground arith)
include_verdict-Evaluates target spf_none error c h = failed _ c (ground arith)
include_verdict-Evaluates target spf_permerror none c h = failed _ c (ground arith)
include_verdict-Evaluates target spf_permerror (some e) c h = failed _ c (ground arith)
include_verdict-Evaluates target spf_neutral error c h = evaluated _ c (ground arith)
include_verdict-Evaluates target spf_fail error c h = evaluated _ c (ground arith)
include_verdict-Evaluates target spf_softfail error c h = evaluated _ c (ground arith)

weaken :
    {A : Type 0} {low : ℕ} {o : Option (Result SpfError A × Counters)}
    → Evaluates (low + 1) o
    → Evaluates low o
weaken (evaluated a c w) = evaluated a c (ground arith)
weaken (failed e c h) = failed e c (ground arith)

call-Evaluates :
    {low : ℕ} {o : Option (Check × Counters)} (f : Check → Eval Bool)
    → Checks low o
    → ((r : Check) (c : Counters) → Fair low r.result c → Evaluates low (f r c))
    → Evaluates low (continue (called o) f)
call-Evaluates f (checked r c h) k = k r c h

-- Records that are evaluated behind one more lookup end fairly.
module _ (nested : Bytes → Counters → Option (Check × Counters)) (e : Evaluator) {low : ℕ}
    (fair : (d : Bytes) (c : Counters) → Within (low + 1) c → Checks (low + 1) (nested d c)) where
  match_include-Evaluates :
      (value domain : Bytes) (c : Counters)
      → Within low c
      → Evaluates (low + 1) (match_include nested e value domain c)
  unfolding match_include
  match_include-Evaluates value domain c w =
      search (evaluation, call-Evaluates, include_verdict-Evaluates, fair)

  pub evaluate_mechanism-Evaluates :
      (name value body domain : Bytes) (c : Counters)
      → Within low c
      → Evaluates low (evaluate_mechanism nested e name value body domain c)
  unfolding evaluate_mechanism
  evaluate_mechanism-Evaluates name value body domain c w =
      search
        (
          if-Evaluates,
          fail_with-Evaluates,
          evaluated true c w,
          match_ip_mechanism-Evaluates e name value c w,
          weaken (match_a-Evaluates e value domain c w),
          weaken (match_mx-Evaluates e value domain c w),
          weaken (match_include-Evaluates value domain c w),
          weaken (match_exists-Evaluates e value domain c w),
          weaken (match_ptr-Evaluates e value domain c w),
        )
        depth 9
