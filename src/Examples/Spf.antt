-- ===== src/Examples/Spf.antt =====
-- Domains with SPF records, as pkg/authverify/spf.go evaluates them.
use mailscript.Base.{
  ltb, All, ok, ◌+◌, ◌*◌, ◌^◌, ◌≤◌, ◌≡◌, refl, true, ◌||◌, Option, none, some, List, [], ◌∷◌, ◌++◌,
  arith,
}
use mailscript.Text
use mailscript.Text.{Bytes, codes}
use mailscript.Spf.Types.{
  spf_pass, spf_permerror, max_spf_lookups, max_spf_void_lookups, Resolver, Evaluator, Counters,
  Check,
}
use mailscript.Spf.Check.{max_depth, no_counters, check}
use mailscript.Spf.Macros.{expand_domain_spec}
use mailscript.Spf.Mechanisms.{match_include}
use mailscript.Spf.Mechanisms.Include.{match_include-passes}
use mailscript.Spf.Check.Limits.{check_terminates}
use mailscript.Spf.Check.Verdicts.{IsSpfRecord, IsShort, check-several_records}

-- Every domain includes itself.
abbrev looping_txt : Bytes → List Bytes
looping_txt domain = (codes "v=spf1 include:" ++ domain) ∷ []

abbrev looping : Resolver
looping = record {
  enabled = true;
  lookup_txt = looping_txt;
  lookup_host = λ _. [];
  lookup_mx = λ _. [];
  lookup_ptr = λ _. [];
}

abbrev evaluator : Evaluator
evaluator = record {
  resolver = looping;
  ip = 0xffff * 2 ^ 32 + 1;
  sender = codes "ann@example.org";
  helo = [];
}

check_terminates_example :
    (r : Check) × (c : Counters) × (check max_depth evaluator (codes "example.org") no_counters
      ≡ some (r, c))
    × (c.lookups ≤ 11)
    × (c.void_lookups ≤ 3)
    × ((ltb max_spf_lookups c.lookups || ltb max_spf_void_lookups c.void_lookups) ≡ true
        → r.result ≡ spf_permerror)
check_terminates_example = check_terminates evaluator (codes "example.org")

abbrev twice : Evaluator
twice = record evaluator {
  resolver = record looping {
    lookup_txt = λ _. codes "v=SPF1 +all" ∷ codes "other" ∷ codes "v=spf1 -all" ∷ [];
  };
}

first-IsSpfRecord : IsSpfRecord (codes "v=SPF1 +all")
unfolding codes Text.to_lower
first-IsSpfRecord = (codes " +all", refl)

second-IsSpfRecord : IsSpfRecord (codes "v=spf1 -all")
unfolding codes Text.to_lower
second-IsSpfRecord = (codes " -all", refl)

twice-IsShort : All IsShort (twice.resolver.lookup_txt (codes "example.org"))
unfolding codes
twice-IsShort = omega arith

check-several_records_example :
    (k : Check) × (check 11 twice (codes "example.org") no_counters ≡ some (k, no_counters))
    × (k.result ≡ spf_permerror)
check-several_records_example =
    check-several_records 10 twice (codes "example.org") (codes "v=SPF1 +all") (codes "v=spf1 -all")
      [] (codes "other" ∷ []) [] no_counters refl twice-IsShort first-IsSpfRecord second-IsSpfRecord

-- Every included domain passes.
abbrev passing : Bytes → Counters → Option (Check × Counters)
passing domain c =
    some (record { result = spf_pass; mechanism = codes "all"; spf_record = []; error = none }, c)

abbrev counted_once : Counters
counted_once = record no_counters { lookups = 1 }

passing-included :
    match_include passing evaluator (codes "b.org") (codes "a.org") no_counters
    ≡ some (ok true, counted_once)
unfolding match_include codes mailscript.Spf.Types.spend mailscript.Spf.Macros.expand_domain_spec
    mailscript.Spf.Macros.expand_from Text.to_lower Text.trim_space Text.trim_left
    mailscript.Spf.Mechanisms.include_verdict
passing-included = refl

match_include-passes_example :
    (target : Bytes) × (r : Check) × (expand_domain_spec evaluator (codes "b.org") (codes "a.org")
      ≡ ok target)
    × (passing (Text.to_lower (Text.trim_space target)) counted_once ≡ some (r, counted_once))
    × (r.result ≡ spf_pass)
    × (no_counters.lookups + 1 ≤ 10)
match_include-passes_example =
    match_include-passes passing evaluator (codes "b.org") (codes "a.org") no_counters counted_once
      passing-included
