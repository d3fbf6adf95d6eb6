-- ===== src/Transport.antt =====
-- pkg/authverify/transport.go: the policies for TLS between mail hosts that a domain publishes.
-- Fetching over HTTPS and url.Parse are parameters; an explanation is a value, not a text.
pub mod Discovery
pub mod Policies
pub mod Matching
use mailscript.Base.{
  ltb, leb, ◌==◌, if◌then◌else◌, length, drop, any, all, Result, ok, err, pos, ℕ, Bool, true, false,
  not, ◌&&◌, ◌||◌, Option, none, some, List, [], ◌∷◌, reverse,
}
use mailscript.Text
use mailscript.Text.{Bytes, codes}
use mailscript.Dkim.Fields.{crlf_to_lf}

-- The strings none, valid, temperror and permerror.
pub data PolicyResult : Type 0 where
  policy_absent policy_valid policy_temperror policy_permerror : PolicyResult

-- The reasons in Explanation.
pub data Explanation : Type 0 where
  unexplained no_resolver no_record several_records bad_record : Explanation
  lookup_failed fetch_failed : Bytes → Explanation
  invalid_uri : Bytes → Explanation
  reports_to : ℕ → Explanation
  too_large no_version no_mode no_mx bad_max_age no_max_age : Explanation
  malformed_line invalid_mode invalid_pattern : Bytes → Explanation
  covers : Bytes → ℕ → Explanation

pub record TlsReportPolicy : Type 0 where
  pub result : PolicyResult
  pub domain : Bytes
  pub record_text : Bytes
  pub report_uris : List Bytes
  pub dnssec : Bool
  pub explanation : Explanation

pub record MtaStsPolicy : Type 0 where
  pub result : PolicyResult
  pub domain : Bytes
  pub id : Bytes
  pub mode : Bytes
  pub mx : List Bytes
  pub max_age : ℕ
  pub dnssec : Bool
  pub explanation : Explanation

-- What LookupTXTAuthenticated of pkg/dnsx returns.
pub record TxtAnswer : Type 0 where
  pub records : List Bytes
  pub secure : Bool
  pub error : Bytes

-- The resolver; PolicyFetcher, with the text of its error; and url.Parse, with the scheme and the
-- text of the URL.
pub record Network : Type 0 where
  pub enabled : Bool
  pub lookup_txt : Bytes → TxtAnswer
  pub fetch : Bytes → Result Bytes Bytes
  pub parse_url : Bytes → Option (Bytes × Bytes)

abbrev is_label_byte : ℕ → Bool
is_label_byte c = leb b'a' c && leb c b'z' || leb b'0' c && leb c b'9' || c == b'-'

abbrev starts_dash : Bytes → Bool
starts_dash [] = false
starts_dash (c ∷ s) = c == b'-'

abbrev is_label : Bytes → Bool
is_label label =
    not (Text.is_empty label)
    && leb (length label) 63
    && not (starts_dash label)
    && not (starts_dash (reverse label))
    && all is_label_byte label

unfoldable pub is_policy_domain : Bytes → Bool
unfolding Text.split
is_policy_domain domain =
    not (Text.is_empty domain) && leb (length domain) 253 && all is_label (Text.split b'.' domain)

unfoldable pub normalize_policy_domain : Bytes → Bytes
unfolding is_policy_domain Text.trim_suffix Text.to_lower Text.trim_space
normalize_policy_domain given =
    let domain = Text.to_lower (Text.trim_suffix (codes ".") (Text.trim_space given)) in
    if is_policy_domain domain then domain else []

abbrev add_tag : Option (Bytes × Bytes) → List (Bytes × Bytes) → List (Bytes × Bytes)
add_tag none tags = tags
add_tag (some (k, v)) tags = (Text.to_lower (Text.trim_space k), Text.trim_space v) ∷ tags

-- The tags, the last one of a name first.
unfoldable pub read_tags : List Bytes → List (Bytes × Bytes) → List (Bytes × Bytes)
unfolding Text.cut
read_tags [] tags = tags
read_tags (part ∷ parts) tags = read_tags parts (add_tag (Text.cut b'=' part) tags)

unfoldable pub parse_policy_tags : Bytes → List (Bytes × Bytes)
unfolding read_tags
parse_policy_tags given = read_tags (Text.split b';' given) []

-- tags[name], or fields[name] where each name has at most one value
abbrev pub first_or_empty : List Bytes → Bytes
first_or_empty [] = []
first_or_empty (v ∷ vs) = v

unfoldable pub values_named : Bytes → List (Bytes × Bytes) → List Bytes
values_named name [] = []
values_named name ((k, v) ∷ fields) =
    let rest = values_named name fields in if Text.eq name k then v ∷ rest else rest

abbrev pub tag_value : Bytes → List (Bytes × Bytes) → Bytes
tag_value name tags = first_or_empty (values_named name tags)

unfoldable pub allows_pattern : Bytes → Bytes → Bool
unfolding Text.to_lower Text.trim_suffix
allows_pattern host given =
    let pattern = Text.to_lower (Text.trim_suffix (codes ".") given) in
    Text.eq host pattern
    || Text.has_prefix (codes "*.") pattern
      && Text.has_suffix (drop 1 pattern) host
      && not (Text.eq host (drop 2 pattern))

abbrev pub is_valid : PolicyResult → Bool
is_valid policy_valid = true
is_valid _ = false

unfoldable pub allows_mx : MtaStsPolicy → Bytes → Bool
unfolding allows_pattern normalize_policy_domain
allows_mx p given =
    let host = normalize_policy_domain given in
    if not (is_valid p.result) || Text.is_empty host then false else any (allows_pattern host) p.mx

abbrev pub max_policy_bytes : ℕ
max_policy_bytes = 65536

-- The lines of a policy as pairs of a name and a value, or the line that is malformed.
unfoldable pub read_policy_lines : List Bytes → Result Bytes (List (Bytes × Bytes))
unfolding Text.cut Text.trim_space
read_policy_lines [] = ok []
read_policy_lines (given ∷ lines) =
    let rest = read_policy_lines lines in
    let line = Text.trim_space given in
    if Text.is_empty line then rest else elim (Text.cut b':' line) [
      | none ↦ err line
      | some (k, v) ↦ elim rest [
        | err e ↦ err e
        | ok fields ↦ ok ((Text.to_lower (Text.trim_space k), Text.trim_space v) ∷ fields)
      ]
    ]

-- The first pattern that is neither a name nor a name behind "*.".
unfoldable pub bad_pattern : List Bytes → Option Bytes
unfolding normalize_policy_domain
bad_pattern [] = none
bad_pattern (pattern ∷ patterns) =
    let rest = bad_pattern patterns in
    let wild = Text.has_prefix (codes "*.") pattern in
    let name = if wild then drop 2 pattern else pattern in
    if not wild && any (λ c. c == b'*') pattern
    then some pattern
    else if Text.is_empty (normalize_policy_domain name)
    then some pattern
    else rest

abbrev pub is_mode : Bytes → Bool
is_mode mode =
    Text.eq mode (codes "none") || Text.eq mode (codes "testing") || Text.eq mode (codes "enforce")

-- strconv.Atoi, of a number that is not negative
abbrev pub age_of : Bytes → Option ℕ
age_of s = elim (Text.atoi s) [ some (pos n) ↦ some n | _ ↦ none ]

-- The check of max_age, the last one.
unfoldable pub set_age : List Bytes → MtaStsPolicy → MtaStsPolicy × Option Explanation
unfolding Text.atoi
set_age (text ∷ []) out = elim (age_of text) [
  | some age ↦ (record out { max_age = age }, none)
  | none ↦ (out, some bad_max_age)
]
set_age _ out = (out, some no_max_age)

unfoldable pub set_mx : List (Bytes × Bytes) → MtaStsPolicy → MtaStsPolicy × Option Explanation
unfolding values_named bad_pattern set_age
set_mx fields given =
    let out = record given { mx = values_named (codes "mx") fields } in
    elim (not (Text.eq out.mode (codes "none")) && ltb (length out.mx) 1) [
      | true ↦ (out, some no_mx)
      | false ↦ elim (bad_pattern out.mx) [
        | some pattern ↦ (out, some (invalid_pattern pattern))
        | none ↦ set_age (values_named (codes "max_age") fields) out
      ]
    ]

unfoldable pub set_mode :
    List Bytes → List (Bytes × Bytes) → MtaStsPolicy → MtaStsPolicy × Option Explanation
unfolding set_mx Text.to_lower
set_mode (text ∷ []) fields given =
    let out = record given { mode = Text.to_lower text } in
    elim (is_mode out.mode) [
      | true ↦ set_mx fields out
      | false ↦ (out, some (invalid_mode out.mode))
    ]
set_mode _ fields out = (out, some no_mode)

abbrev pub is_version : List Bytes → Bool
is_version (v ∷ []) = Text.eq v (codes "STSv1")
is_version _ = false

-- The policy with what was read of it, and an error.
unfoldable pub parse_mta_sts_policy : Bytes → MtaStsPolicy → MtaStsPolicy × Option Explanation
unfolding read_policy_lines values_named set_mode
parse_mta_sts_policy body out =
    if ltb max_policy_bytes (length body)
    then (out, some too_large)
    else elim (read_policy_lines (Text.split b'\n' (crlf_to_lf body))) [
      | err line ↦ (out, some (malformed_line line))
      | ok fields ↦
          if is_version (values_named (codes "version") fields)
          then set_mode (values_named (codes "mode") fields) fields out
          else (out, some no_version)
    ]
