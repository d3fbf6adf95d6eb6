-- ===== src/Dane/Discovery.antt =====
-- `CheckDANE` and `CheckDANEDomain` of pkg/authverify/dane.go, and the answers of
-- pkg/dnsx/resolver.go that they read.
pub mod Hosts
use mailscript.Base.{
  ltb, ◌==◌, if◌then◌else◌, length, ℤ, pos, negsuc, ℕ, ◌+◌, Bool, true, false, not, ◌||◌, Option,
  none, List, [], ◌∷◌, map,
}
use mailscript.Text
use mailscript.Text.{Bytes}
use mailscript.Spf.Types.{Resolver}

pub record TlsaRecord : Type 0 where
  pub usage : ℕ
  pub selector : ℕ
  pub matching_type : ℕ
  pub certificate : Bytes

pub record TlsaAnswer : Type 0 where
  pub name : Bytes
  pub records : List TlsaRecord
  pub secure : Bool
  pub found : Bool
  pub error : Bytes

-- The strings none, available, pass, fail, insecure, temperror and permerror.
pub data DaneResult : Type 0 where
  dane_none dane_available dane_pass dane_fail dane_insecure dane_temperror dane_permerror :
      DaneResult

abbrev pub usage_dane_ta : ℕ
usage_dane_ta = 2

abbrev pub usage_dane_ee : ℕ
usage_dane_ee = 3

-- The explanations, with what they name.
pub data HostReason : Type 0 where
  no_resolver no_certificate : HostReason
  lookup_failed : Bytes → Bytes → HostReason
  not_published : Bytes → HostReason
  unvalidated published : ℕ → Bytes → HostReason
  unusable unmatched : ℕ → HostReason
  matched : ℕ → TlsaRecord → HostReason

-- The index of the record that matched is `none` where the code has -1.
pub record HostResult : Type 0 where
  pub result : DaneResult
  pub host : Bytes
  pub port : ℤ
  pub tlsa_found : Bool
  pub dnssec_validated : Bool
  pub records : List TlsaRecord
  pub usable_records : ℕ
  pub matched_record : Option ℕ
  pub explanation : HostReason

abbrev pub host_verdict : DaneResult → HostReason → HostResult → HostResult
host_verdict result reason out = record out { result = result; explanation = reason }

-- The port that is asked for: 25, if the given one is not positive.
abbrev pub mail_port : ℤ → ℤ
mail_port (negsuc n) = pos 25
mail_port (pos n) = if n == 0 then pos 25 else pos n

abbrev pub is_usable : TlsaRecord → Bool
is_usable r = r.usage == usage_dane_ta || r.usage == usage_dane_ee

unfoldable pub count_usable : List TlsaRecord → ℕ
count_usable [] = 0
count_usable (r ∷ records) =
    let rest = count_usable records in if is_usable r then rest + 1 else rest

-- What the answer says of the host.
unfoldable pub judge_answer : TlsaAnswer → HostResult → HostResult
judge_answer answer asked =
    let out = record asked {
      dnssec_validated = answer.secure;
      tlsa_found = answer.found;
      records = answer.records;
    } in
    let counted = record out { usable_records = count_usable answer.records } in
    if not (Text.is_empty answer.error)
    then host_verdict dane_temperror (lookup_failed answer.name answer.error) out
    else if not answer.found
    then host_verdict dane_none (not_published answer.name) out
    else if not answer.secure
    then host_verdict dane_insecure (unvalidated (length answer.records) answer.name) counted
    else if count_usable answer.records == 0
    then host_verdict dane_permerror (unusable (length answer.records)) counted
    else host_verdict dane_available (published (count_usable answer.records) answer.name) counted

pub data DomainReason : Type 0 where
  no_domain_resolver : DomainReason
  no_mx : Bytes → DomainReason
  all_secure insecure_hosts unusable_hosts none_usable : ℕ → DomainReason
  partly_secure failed_hosts : ℕ → ℕ → DomainReason

pub record DomainResult : Type 0 where
  pub result : DaneResult
  pub domain : Bytes
  pub hosts : List HostResult
  pub secure_hosts : ℕ
  pub explanation : DomainReason

unfoldable pub is_result : DaneResult → DaneResult → Bool
is_result dane_available dane_available = true
is_result dane_insecure dane_insecure = true
is_result dane_temperror dane_temperror = true
is_result dane_permerror dane_permerror = true
is_result _ _ = false

unfoldable pub count_result : DaneResult → List HostResult → ℕ
count_result wanted [] = 0
count_result wanted (h ∷ hosts) =
    let rest = count_result wanted hosts in if is_result wanted h.result then rest + 1 else rest

-- The verdict on a domain from its hosts, of which there is one at least.
unfoldable pub judge_hosts : List HostResult → DaneResult × DomainReason
judge_hosts hosts =
    let total = length hosts in
    let secure = count_result dane_available hosts in
    let insecure = count_result dane_insecure hosts in
    let failed = count_result dane_temperror hosts in
    let malformed = count_result dane_permerror hosts in
    if secure == total
    then (dane_available, all_secure total)
    else if ltb 0 secure
    then (dane_insecure, partly_secure secure total)
    else if ltb 0 insecure
    then (dane_insecure, insecure_hosts insecure)
    else if ltb 0 failed
    then (dane_temperror, failed_hosts failed total)
    else if ltb 0 malformed
    then (dane_permerror, unusable_hosts malformed)
    else (dane_none, none_usable total)

-- `lookup_tlsa` is the query of the resolver for the TLSA records of a host and port.
module _ (resolver : Resolver) (lookup_tlsa : Bytes → ℤ → TlsaAnswer) where
  unfoldable pub check_dane : Bytes → ℤ → HostResult
  check_dane host port =
      let asked : HostResult = record {
        result = dane_temperror;
        host = host;
        port = port;
        tlsa_found = false;
        dnssec_validated = false;
        records = [];
        usable_records = 0;
        matched_record = none;
        explanation = no_resolver;
      } in
      if not resolver.enabled
      then asked
      else judge_answer (lookup_tlsa host (mail_port port)) (record asked { port = mail_port port })

  abbrev pub check_hosts : List Bytes → List HostResult
  check_hosts hosts = map (λ host. check_dane host (pos 25)) hosts

  unfoldable pub check_dane_domain : Bytes → DomainResult
  check_dane_domain domain =
      let hosts = resolver.lookup_mx domain in
      let found = check_hosts hosts in
      let verdict = judge_hosts found in
      if not resolver.enabled
      then record {
        result = dane_temperror;
        domain = domain;
        hosts = [];
        secure_hosts = 0;
        explanation = no_domain_resolver;
      }
      else if length hosts == 0
      then record {
        result = dane_none;
        domain = domain;
        hosts = [];
        secure_hosts = 0;
        explanation = no_mx domain;
      }
      else record {
        result = verdict.0;
        domain = domain;
        hosts = found;
        secure_hosts = count_result dane_available found;
        explanation = verdict.1;
      }
