-- ===== src/Examples/Transport.antt =====
-- A domain with an MTA-STS policy, and hosts below one of its patterns.
use mailscript.Base.{ok, ◌≡◌, refl, ◌↔◌, true, false, none, [], ◌∷◌, ◌++◌}
use mathlib.Core.List.{Memᴰ}
use mailscript.Text
use mailscript.Text.{Bytes, codes}
use mailscript.Transport.{
  policy_valid, is_valid, unexplained, MtaStsPolicy, Network, normalize_policy_domain, allows_mx,
}
use mailscript.Transport.Discovery.{candidates, check_mta_sts}
use mailscript.Transport.Policies.{IsFetched, check_mta_sts-IsFetched}
use mailscript.Transport.Matching.{plain, Matches, allows_mx_exact}

abbrev network : Network
network = record {
  enabled = true;
  lookup_txt = λ name. record {
    records = codes "v=spf1 -all" ∷ codes "v=STSv1; id=7" ∷ [];
    secure = true;
    error = [];
  };
  fetch = λ url. ok (codes "version: STSv1\nmode: enforce\nmx: *.x.org\nmax_age: 60\n");
  parse_url = λ s. none;
}

policy-is_valid : is_valid (check_mta_sts network (codes "X.org.")).result ≡ true
unfolding check_mta_sts Text.trim_left codes mailscript.Dkim.Fields.crlf_to_lf
policy-is_valid = refl

check_mta_sts-IsFetched_example :
    let domain = normalize_policy_domain (codes "X.org.") in
    let answer = network.lookup_txt (codes "_mta-sts." ++ domain) in
    (Text.is_empty domain ≡ false)
    × (Text.is_empty answer.error ≡ true)
    × ((text : Bytes) × (candidates (codes "v=stsv1") answer.records ≡ text ∷ []))
    × IsFetched network domain (check_mta_sts network (codes "X.org."))
check_mta_sts-IsFetched_example = check_mta_sts-IsFetched network (codes "X.org.") policy-is_valid

abbrev policy : MtaStsPolicy
policy = record {
  result = policy_valid;
  domain = codes "x.org";
  id = codes "7";
  mode = codes "enforce";
  mx = codes "*.X.org." ∷ [];
  max_age = 60;
  dnssec = true;
  explanation = unexplained;
}

allows_mx_exact_example :
    let host = normalize_policy_domain (codes "a.b.x.org") in
    (allows_mx policy (codes "a.b.x.org") ≡ true) ↔ (
      (is_valid policy.result ≡ true)
      × (Text.is_empty host ≡ false)
      × ((pattern : Bytes) × Memᴰ pattern policy.mx × Matches host (plain pattern)))
allows_mx_exact_example = allows_mx_exact policy (codes "a.b.x.org")

-- The pattern "*.x.org" takes a host two labels below the name.
two_labels : allows_mx policy (codes "a.b.x.org") ≡ true
unfolding allows_mx Text.eq Text.trim_left codes
two_labels = refl
