-- ===== src/Dmarc/Record.antt =====
-- `DMARCRecord`, `parseDMARCRecord`, `fetchDMARCRecord` and `LookupDMARC` of pkg/authverify/dmarc.go.
pub mod Defaults
use mailscript.Base.{
  leb, if◌then◌else◌, Result, ok, err, ℤ, pos, ℕ, Bool, true, false, not, Option, none, some, List,
  [], ◌∷◌, ◌++◌, map,
}
use mailscript.Text
use mailscript.Text.{Bytes, codes}
use mailscript.Spf.Types.{Resolver}

-- The policies none, quarantine and reject, and the empty string of a tag that is absent or wrong.
pub data Policy : Type 0 where
  policy_unset policy_none policy_quarantine policy_reject : Policy

-- The alignment modes "r" and "s".
pub data AlignmentMode : Type 0 where
  relaxed strict : AlignmentMode

pub record DmarcRecord : Type 0 where
  pub version : Bytes
  pub policy : Policy
  pub subdomain_policy : Policy
  pub adkim : AlignmentMode
  pub aspf : AlignmentMode
  pub percent : ℕ
  pub rua : List Bytes
  pub ruf : List Bytes
  pub raw : Bytes
  pub domain : Bytes
  pub organizational : Bool

unfoldable pub normalize_policy : Bytes → Policy
normalize_policy v =
    let name = Text.to_lower (Text.trim_space v) in
    if Text.eq name (codes "reject")
    then policy_reject
    else if Text.eq name (codes "quarantine")
    then policy_quarantine
    else if Text.eq name (codes "none")
    then policy_none
    else policy_unset

unfoldable pub split_uri_list : Bytes → List Bytes
split_uri_list v = Text.non_empty (map Text.trim_space (Text.split b',' v))

-- A mode that is not one of the two leaves the one before.
unfoldable pub mode_of : Bytes → AlignmentMode → AlignmentMode
mode_of value before =
    let v = Text.to_lower value in
    if Text.eq v (codes "s") then strict else if Text.eq v (codes "r") then relaxed else before

unfoldable pub percent_of : Option ℤ → ℕ → ℕ
percent_of (some (pos n)) before = if leb n 100 then n else before
percent_of _ before = before

unfoldable pub set_tag : Bytes → Bytes → DmarcRecord → DmarcRecord
set_tag key value r =
    if Text.eq key (codes "v")
    then record r { version = value }
    else if Text.eq key (codes "p")
    then record r { policy = normalize_policy value }
    else if Text.eq key (codes "sp")
    then record r { subdomain_policy = normalize_policy value }
    else if Text.eq key (codes "adkim")
    then record r { adkim = mode_of value r.adkim }
    else if Text.eq key (codes "aspf")
    then record r { aspf = mode_of value r.aspf }
    else if Text.eq key (codes "pct")
    then record r { percent = percent_of (Text.atoi value) r.percent }
    else if Text.eq key (codes "rua")
    then record r { rua = split_uri_list value }
    else if Text.eq key (codes "ruf")
    then record r { ruf = split_uri_list value }
    else r

-- A part with no equals sign is passed over.
unfoldable pub read_part : Option (Bytes × Bytes) → DmarcRecord → DmarcRecord
read_part none r = r
read_part (some (key, value)) r =
    set_tag (Text.to_lower (Text.trim_space key)) (Text.trim_space value) r

unfoldable pub read_parts : List Bytes → DmarcRecord → DmarcRecord
read_parts [] r = r
read_parts (part ∷ parts) r = read_parts parts (read_part (Text.cut b'=' part) r)

abbrev default_subdomain : Policy → Policy → Policy
default_subdomain policy_unset policy = policy
default_subdomain subdomain_policy policy = subdomain_policy

abbrev unread : Bytes → DmarcRecord
unread raw = record {
  version = [];
  policy = policy_unset;
  subdomain_policy = policy_unset;
  adkim = relaxed;
  aspf = relaxed;
  percent = 100;
  rua = [];
  ruf = [];
  raw = raw;
  domain = [];
  organizational = false;
}

unfoldable pub parse_dmarc_record : Bytes → DmarcRecord
parse_dmarc_record raw =
    let r = read_parts (Text.split b';' raw) (unread raw) in
    record r { subdomain_policy = default_subdomain r.subdomain_policy r.policy }

-- The first TXT record of DMARC.
unfoldable pub first_record : Bytes → List Bytes → Option DmarcRecord
first_record domain [] = none
first_record domain (txt ∷ records) =
    let rest = first_record domain records in
    let trimmed = Text.trim_space txt in
    if Text.has_prefix (codes "v=dmarc1") (Text.to_lower trimmed)
    then some (record (parse_dmarc_record trimmed) { domain = domain })
    else rest

unfoldable pub fetch_dmarc_record : Resolver → Bytes → Option DmarcRecord
fetch_dmarc_record resolver domain =
    first_record domain (resolver.lookup_txt (codes "_dmarc." ++ domain))

pub data LookupError : Type 0 where
  no_resolver empty_domain : LookupError

-- strings.ToLower(strings.TrimSuffix(strings.TrimSpace(d), "."))
unfoldable pub normal_domain : Bytes → Bytes
normal_domain d = Text.to_lower (Text.trim_suffix (codes ".") (Text.trim_space d))

-- The record of the organizational domain, for a name that is not one.
unfoldable pub organizational_record : Resolver → Bytes → Option Bytes → Option DmarcRecord
organizational_record resolver domain none = none
organizational_record resolver domain (some org) =
    if Text.eq org domain then none else elim (fetch_dmarc_record resolver org) [
      | none ↦ none
      | some r ↦ some (record r { organizational = true })
    ]

-- publicsuffix.EffectiveTLDPlusOne, which is not part of the program, is `etld_plus_one`: `none`
-- where it returns an error.
module _ (etld_plus_one : Bytes → Option Bytes) where
  unfoldable pub lookup_dmarc : Resolver → Bytes → Result LookupError (Option DmarcRecord)
  lookup_dmarc resolver from_domain =
      let domain = normal_domain from_domain in
      if not resolver.enabled
      then err no_resolver
      else if Text.is_empty domain
      then err empty_domain
      else elim (fetch_dmarc_record resolver domain) [
        | some r ↦ ok (some (record r { organizational = false }))
        | none ↦ ok (organizational_record resolver domain (etld_plus_one domain))
      ]
