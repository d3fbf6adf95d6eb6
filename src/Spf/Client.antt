-- ===== src/Spf/Client.antt =====
-- `VerifySPF` of pkg/authverify/spf.go.
use mailscript.Base.{
  ◌==◌, if◌then◌else◌, drop, any, ℕ, suc, Bool, not, ◌&&◌, Option, none, some, [], ◌++◌,
}
use mailscript.Text
use mailscript.Text.{Bytes, codes}
use mailscript.Net.{parse_ip}
use mailscript.Spf.Types.{
  spf_temperror, Reason, Resolver, SpfResult, spf_none, spf_permerror, Counters, Check,
}
use mailscript.Spf.Check.{no_counters, max_depth, check}

pub data Explanation : Type 0 where
  no_resolver no_identity no_client_ip : Explanation
  not_an_ip no_usable_domain : Bytes → Explanation
  failed : Reason → Explanation

-- SPFResult, with its explanation if it has one.
pub record Outcome : Type 0 where
  pub result : SpfResult
  pub domain : Bytes
  pub sender : Bytes
  pub client_ip : Bytes
  pub mechanism : Bytes
  pub explanation : Option Explanation
  pub spf_record : Bytes
  pub lookups : ℕ

-- With a null reverse path the HELO name is checked.
unfoldable pub identity_of : Bytes → Bytes → Bytes
identity_of mail_from helo =
    if Text.is_empty (Text.trim_space mail_from)
    then codes "postmaster@" ++ Text.trim_space helo
    else mail_from

unfoldable pub domain_of : Bytes → Bytes
domain_of identity = Text.to_lower (
    Text.trim (Text.is_in (codes "[]")) (
      Text.trim_space (elim (Text.last_index_byte b'@' identity) [
        | none ↦ identity
        | some at ↦ drop (suc at) identity
      ])))

unfoldable pub verified : Outcome → Option (Check × Counters) → Option Outcome
verified start none = none
verified start (some (r, c)) = some (record start {
  result = r.result;
  mechanism = r.mechanism;
  spf_record = r.spf_record;
  lookups = c.lookups;
  explanation = elim r.error [ none ↦ none | some error ↦ some (failed error.reason) ];
})

abbrev pub is_usable : Bytes → Bool
is_usable domain = not (Text.is_empty domain) && any (λ c. c == b'.') domain

unfoldable pub verify_at : Resolver → Outcome → Bytes → Bytes → Bytes → ℕ → Option Outcome
verify_at resolver start identity mail_from helo ip =
    let domain = domain_of identity in
    if not (is_usable domain)
    then some (record start {
      result = spf_none;
      domain = domain;
      explanation = some (
          if Text.is_empty (Text.trim_space mail_from) && Text.is_empty (Text.trim_space helo)
          then no_identity
          else no_usable_domain identity);
    })
    else verified (record start { domain = domain })
        (check max_depth (record { resolver = resolver; ip = ip; sender = identity; helo = helo })
          domain no_counters)

-- From what net.ParseIP makes of the address of the client.
unfoldable pub verify_client : Resolver → Outcome → Bytes → Bytes → Option ℕ → Option Outcome
verify_client resolver start mail_from helo none =
    some (record start { result = spf_permerror; explanation = some (not_an_ip start.client_ip) })
verify_client resolver start mail_from helo (some ip) =
    verify_at resolver (record start { sender = identity_of mail_from helo })
      (identity_of mail_from helo) mail_from helo ip

unfoldable pub verify_spf : Resolver → Bytes → Bytes → Bytes → Option Outcome
verify_spf resolver client_ip mail_from helo =
    let start : Outcome = record {
      result = spf_temperror;
      domain = [];
      sender = mail_from;
      client_ip = client_ip;
      mechanism = [];
      explanation = none;
      spf_record = [];
      lookups = 0;
    } in
    if not resolver.enabled
    then some (record start { explanation = some no_resolver })
    else verify_client resolver start mail_from helo (parse_ip client_ip)
