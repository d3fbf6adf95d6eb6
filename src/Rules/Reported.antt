-- ===== src/Rules/Reported.antt =====
-- pkg/rules/auth.go: the authentication results that the header fields of a message report.
pub mod Tokens
pub mod Verdict
pub mod Strength
pub mod Kept
pub mod Trust
pub mod Pass
use mailscript.Base.{
  ltb, ◌==◌, if◌then◌else◌, any, ℕ, Bool, true, false, ◌||◌, Option, none, some, List, [], ◌∷◌, map,
}
use mailscript.Text
use mailscript.Text.{Bytes, codes}
use mailscript.Rules.Context.{Dict, Context, get, get_all}
use mailscript.Rules.Mime.{param}
use mailscript.Rules.Address.{MailParser, domain_of}
use mailscript.Rules.Reported.Tokens.{
  split_outside_quotes, auth_serv_id_of, extract_tag, split_kv, domain_part, append_unique,
  first_non_empty,
}

pub record AuthResults : Type 0 where
  pub auth_serv_id : Bytes
  pub spf : Bytes
  pub dkim : Bytes
  pub dmarc : Bytes
  pub arc : Bytes
  pub spf_domain : Bytes
  pub dkim_domains : List Bytes
  pub dkim_all_domains : List Bytes
  pub dmarc_policy : Bytes
  pub present : Bool
  pub trusted : Bool
  pub untrusted_auth_servs : List Bytes
  pub signed : Bool

abbrev pub no_results : AuthResults
no_results = record {
  auth_serv_id = [];
  spf = [];
  dkim = [];
  dmarc = [];
  arc = [];
  spf_domain = [];
  dkim_domains = [];
  dkim_all_domains = [];
  dmarc_policy = [];
  present = false;
  trusted = false;
  untrusted_auth_servs = [];
  signed = false;
}

abbrev is_one_of : List Bytes → Bytes → Bool
is_one_of words s = any (λ w. Text.eq w s) words

unfoldable pub rank : Bytes → ℕ
rank s =
    if Text.eq (codes "fail") s
    then 4
    else if Text.eq (codes "pass") s
    then 3
    else if is_one_of (codes "softfail" ∷ codes "permerror" ∷ codes "temperror" ∷ []) s
    then 2
    else if is_one_of (codes "neutral" ∷ codes "none" ∷ []) s
    then 1
    else 0

unfoldable pub stronger_result : Bytes → Bytes → Bytes
unfolding rank
stronger_result existing incoming =
    if Text.is_empty existing
    then incoming
    else if ltb (rank existing) (rank incoming)
    then incoming
    else existing

abbrev is_quote : ℕ → Bool
is_quote c = c == b'"'

abbrev add_prop : Bytes × Bytes → Dict Bytes → Dict Bytes
add_prop ([], v) props = props
add_prop (k, []) props = props
add_prop (c ∷ k, d ∷ v) props = (Text.to_lower (c ∷ k), Text.trim is_quote (d ∷ v)) ∷ props

-- props, the last entry of a key first
unfoldable pub props_of : List Bytes → Dict Bytes → Dict Bytes
unfolding split_kv
props_of [] props = props
props_of (f ∷ fs) props = props_of fs (add_prop (split_kv f) props)

-- A clause "method=result", and its properties.
pub record Clause : Type 0 where
  pub method : Bytes
  pub result : Bytes
  pub props : Dict Bytes

-- `none` for a clause without a result
abbrev with_result : Clause → Option Clause
with_result clause = if Text.is_empty clause.result then none else some clause

unfoldable pub read_clause : List Bytes → Option Clause
unfolding split_kv props_of
read_clause [] = none
read_clause (f ∷ fs) = with_result (record {
  method = Text.to_lower (split_kv f).0;
  result = Text.to_lower (Text.trim is_quote (split_kv f).1);
  props = props_of fs [];
})

unfoldable pub claim_spf : Clause → AuthResults → AuthResults
unfolding stronger_result
claim_spf clause ar =
    let d =
      first_non_empty (param (codes "smtp.mailfrom") clause.props)
        (param (codes "smtp.helo") clause.props) in
    record ar {
      spf = stronger_result ar.spf clause.result;
      spf_domain = if Text.is_empty d then ar.spf_domain else Text.to_lower (domain_part d);
    }

unfoldable pub claim_dkim : Clause → AuthResults → AuthResults
unfolding stronger_result append_unique
claim_dkim clause ar =
    let d = Text.to_lower (param (codes "header.d") clause.props) in
    let strong = record ar { dkim = stronger_result ar.dkim clause.result } in
    if Text.is_empty d then strong else record strong {
      dkim_all_domains = append_unique ar.dkim_all_domains d;
      dkim_domains =
          if Text.eq clause.result (codes "pass")
          then append_unique ar.dkim_domains d
          else ar.dkim_domains;
    }

unfoldable pub claim_dmarc : Clause → AuthResults → AuthResults
unfolding stronger_result
claim_dmarc clause ar =
    let p =
      first_non_empty (param (codes "policy.dmarc") clause.props)
        (param (codes "p") clause.props) in
    record ar {
      dmarc = stronger_result ar.dmarc clause.result;
      dmarc_policy = if Text.is_empty p then ar.dmarc_policy else Text.to_lower p;
    }

unfoldable pub claim : Clause → AuthResults → AuthResults
unfolding claim_spf claim_dkim claim_dmarc
claim clause ar =
    if Text.eq clause.method (codes "spf")
    then claim_spf clause ar
    else if Text.eq clause.method (codes "dkim")
    then claim_dkim clause ar
    else if Text.eq clause.method (codes "dmarc")
    then claim_dmarc clause ar
    else if Text.eq clause.method (codes "arc")
    then record ar { arc = stronger_result ar.arc clause.result }
    else ar

abbrev claim_if : Option Clause → AuthResults → AuthResults
claim_if none ar = ar
claim_if (some clause) ar = claim clause ar

abbrev first_field : List Bytes → Bytes
first_field [] = []
first_field (f ∷ fs) = f

abbrev name_server : Bytes → AuthResults → AuthResults
name_server id ar = if Text.is_empty ar.auth_serv_id then record ar { auth_serv_id = id } else ar

abbrev has_equals : Bytes → Bool
has_equals s = any (λ c. c == b'=') s

-- The clauses after the first, and the first one if it has an equals sign.
unfoldable pub parse_clauses : List Bytes → AuthResults → AuthResults
unfolding claim read_clause
parse_clauses [] ar = ar
parse_clauses (clause ∷ clauses) ar =
    parse_clauses clauses (claim_if (read_clause (Text.fields (Text.trim_space clause))) ar)

unfoldable pub parse_header : List Bytes → AuthResults → AuthResults
unfolding parse_clauses
parse_header [] ar = ar
parse_header (given ∷ clauses) ar =
    let clause = Text.trim_space given in
    elim (Text.is_empty clause || has_equals clause) [
      | true ↦ parse_clauses (given ∷ clauses) ar
      | false ↦ parse_clauses clauses (name_server (first_field (Text.fields clause)) ar)
    ]

unfoldable pub parse_auth_result_header : Bytes → AuthResults → AuthResults
unfolding parse_header split_outside_quotes
parse_auth_result_header header ar = parse_header (split_outside_quotes header b';') ar

abbrev normal_id : Bytes → Bytes
normal_id id = Text.to_lower (Text.trim_space id)

-- The trust in the server that wrote the field, if there is a list of such servers.
unfoldable pub note_server : List Bytes → Bytes → AuthResults → AuthResults
unfolding append_unique
note_server [] id ar = ar
note_server (t ∷ ts) id ar =
    if is_one_of (map normal_id (t ∷ ts)) id
    then record ar { trusted = true }
    else record ar { untrusted_auth_servs = append_unique ar.untrusted_auth_servs id }

unfoldable pub read_header : List Bytes → Bytes → AuthResults → AuthResults
unfolding note_server parse_auth_result_header auth_serv_id_of
read_header trusted h ar =
    if Text.is_empty (Text.trim_space h)
    then ar
    else parse_auth_result_header h
        (note_server trusted (Text.to_lower (auth_serv_id_of h)) (record ar { present = true }))

unfoldable pub read_headers : List Bytes → List Bytes → AuthResults → AuthResults
unfolding read_header
read_headers trusted [] ar = ar
read_headers trusted (h ∷ hs) ar = read_headers trusted hs (read_header trusted h ar)

abbrev note_signature : Bytes → AuthResults → AuthResults
note_signature d ar = if Text.is_empty d then record ar { signed = true } else record ar {
  signed = true;
  dkim_all_domains = append_unique ar.dkim_all_domains (Text.to_lower d);
}

unfoldable pub read_signatures : List Bytes → AuthResults → AuthResults
unfolding extract_tag append_unique
read_signatures [] ar = ar
read_signatures (sig ∷ sigs) ar =
    read_signatures sigs (note_signature (extract_tag sig (codes "d")) ar)
