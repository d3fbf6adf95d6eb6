-- ===== src/Transport/Discovery.antt =====
-- `CheckTLSReporting` and `CheckMTASTS` of pkg/authverify/transport.go.
use mailscript.Base.{
  if◌then◌else◌, length, ok, err, Bool, false, not, ◌||◌, Option, none, some, List, [], ◌∷◌, ◌++◌,
}
use mailscript.Text
use mailscript.Text.{Bytes, codes}
use mailscript.Transport.{
  policy_absent, policy_valid, policy_temperror, policy_permerror, Explanation, unexplained,
  no_resolver, no_record, several_records, bad_record, lookup_failed, fetch_failed, invalid_uri,
  reports_to, covers, TlsReportPolicy, MtaStsPolicy, Network, normalize_policy_domain,
  parse_policy_tags, tag_value, parse_mta_sts_policy,
}

-- The records that begin with the tag of the version, up to case.
unfoldable pub candidates : Bytes → List Bytes → List Bytes
unfolding Text.to_lower Text.trim_space
candidates tag [] = []
candidates tag (text ∷ records) =
    let rest = candidates tag records in
    if Text.has_prefix tag (Text.to_lower (Text.trim_space text)) then text ∷ rest else rest

abbrev is_scheme : Bytes → Bool
is_scheme s = Text.eq s (codes "mailto") || Text.eq s (codes "https")

-- The URIs up to the first one that is invalid, and that one.
unfoldable pub read_uris : (Bytes → Option (Bytes × Bytes)) → List Bytes → List Bytes × Option Bytes
unfolding Text.trim_space
read_uris parse_url [] = ([], none)
read_uris parse_url (given ∷ uris) =
    let uri = Text.trim_space given in
    let (later, wrong) = read_uris parse_url uris in
    elim (parse_url uri) [
      | none ↦ ([], some uri)
      | some (scheme, text) ↦
          if not (is_scheme scheme) || Text.is_empty text
          then ([], some uri)
          else (uri ∷ later, wrong)
    ]

abbrev judge_uris : List Bytes × Option Bytes → TlsReportPolicy → TlsReportPolicy
judge_uris (uris, some uri) out = record out {
  result = policy_permerror;
  report_uris = uris;
  explanation = invalid_uri uri;
}
judge_uris (uris, none) out = record out {
  result = policy_valid;
  report_uris = uris;
  explanation = reports_to (length uris);
}

unfoldable pub read_report_record : Network → Bytes → TlsReportPolicy → TlsReportPolicy
unfolding parse_policy_tags read_uris Text.equal_fold
read_report_record network given policy =
    let out = record policy { record_text = given } in
    let tags = parse_policy_tags given in
    let rua = tag_value (codes "rua") tags in
    if not (Text.equal_fold (tag_value (codes "v") tags) (codes "TLSRPTv1")) || Text.is_empty rua
    then record out { result = policy_permerror; explanation = bad_record }
    else judge_uris (read_uris network.parse_url (Text.split b',' rua)) out

abbrev no_report : Bytes → TlsReportPolicy
no_report domain = record {
  result = policy_absent;
  domain = domain;
  record_text = [];
  report_uris = [];
  dnssec = false;
  explanation = unexplained;
}

unfoldable pub check_tls_reporting : Network → Bytes → TlsReportPolicy
unfolding normalize_policy_domain candidates read_report_record
check_tls_reporting network given =
    let domain = normalize_policy_domain given in
    let out = no_report domain in
    let answer = network.lookup_txt (codes "_smtp._tls." ++ domain) in
    let asked = record out { dnssec = answer.secure } in
    if Text.is_empty domain || not network.enabled
    then record out { result = policy_temperror; explanation = no_resolver }
    else if not (Text.is_empty answer.error)
    then record asked { result = policy_temperror; explanation = lookup_failed answer.error }
    else elim (candidates (codes "v=tlsrptv1") answer.records) [
      | [] ↦ record asked { explanation = no_record }
      | ◌∷◌ given_record [] ↦ read_report_record network given_record asked
      | ◌∷◌ _ (◌∷◌ _ _) ↦ record asked { result = policy_permerror; explanation = several_records }
    ]

abbrev pub no_policy : Bytes → MtaStsPolicy
no_policy domain = record {
  result = policy_absent;
  domain = domain;
  id = [];
  mode = [];
  mx = [];
  max_age = 0;
  dnssec = false;
  explanation = unexplained;
}

abbrev pub judge_policy : MtaStsPolicy × Option Explanation → MtaStsPolicy
judge_policy (out, some e) = record out { result = policy_permerror; explanation = e }
judge_policy (out, none) = record out {
  result = policy_valid;
  explanation = covers out.mode (length out.mx);
}

abbrev pub policy_url : Bytes → Bytes
policy_url domain = codes "https://mta-sts." ++ (domain ++ codes "/.well-known/mta-sts.txt")

unfoldable pub read_sts_record : Network → Bytes → MtaStsPolicy → MtaStsPolicy
unfolding parse_policy_tags parse_mta_sts_policy Text.equal_fold Text.trim_space
read_sts_record network given policy =
    let tags = parse_policy_tags given in
    let out = record policy { id = Text.trim_space (tag_value (codes "id") tags) } in
    if not (Text.equal_fold (tag_value (codes "v") tags) (codes "STSv1")) || Text.is_empty out.id
    then record out { result = policy_permerror; explanation = bad_record }
    else elim (network.fetch (policy_url policy.domain)) [
      | err e ↦ record out { result = policy_temperror; explanation = fetch_failed e }
      | ok body ↦ judge_policy (parse_mta_sts_policy body out)
    ]

unfoldable pub check_mta_sts : Network → Bytes → MtaStsPolicy
unfolding normalize_policy_domain candidates read_sts_record
check_mta_sts network given =
    let domain = normalize_policy_domain given in
    let out = no_policy domain in
    let answer = network.lookup_txt (codes "_mta-sts." ++ domain) in
    let asked = record out { dnssec = answer.secure } in
    if Text.is_empty domain || not network.enabled
    then record out { result = policy_temperror; explanation = no_resolver }
    else if not (Text.is_empty answer.error)
    then record asked { result = policy_temperror; explanation = lookup_failed answer.error }
    else elim (candidates (codes "v=stsv1") answer.records) [
      | [] ↦ record asked { explanation = no_record }
      | ◌∷◌ given_record [] ↦ read_sts_record network given_record asked
      | ◌∷◌ _ (◌∷◌ _ _) ↦ record asked { result = policy_permerror; explanation = several_records }
    ]
