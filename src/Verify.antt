-- ===== src/Verify.antt =====
-- `Verify` and `Disposition` of pkg/authverify/verify.go: SPF, DKIM, ARC, DMARC and DANE for one message.
pub mod Authentication
pub mod Report
use mailscript.Base.{
  if◌then◌else◌, take, drop, ℤ, ℕ, suc, Bool, true, false, not, ◌&&◌, Option, none, some, [], ◌∷◌,
}
use mailscript.Text
use mailscript.Text.{Bytes, codes}
use mailscript.Spf.Types.{SpfResult, spf_none, Resolver}
use mailscript.Spf.Client.{no_client_ip, Outcome, verify_spf}
use mailscript.Dmarc.Record.{Policy, policy_unset, policy_none}
use mailscript.Dmarc.Verdict.{
  DmarcResult, dmarc_none, dmarc_pass, dmarc_fail, dmarc_temperror, dmarc_permerror, Evaluation,
  verify_dmarc,
}
use mailscript.Dkim.Fields.{Headers}
use mailscript.Dkim.Key.{Crypto}
use mailscript.Dkim.Result.{DkimOutcome, verify_dkim}
use mailscript.Arc.Chain.{ArcOutcome, verify_arc}
use mailscript.Dane.Discovery.{TlsaAnswer, DomainResult, check_dane_domain}

-- `now` is the reference time, in nanoseconds from 1970 on.
pub record Message : Type 0 where
  pub headers : Headers
  pub body : Bytes
  pub client_ip : Bytes
  pub mail_from : Bytes
  pub helo : Bytes
  pub from_domain : Bytes
  pub now : ℕ
  pub check_dane : Bool

-- What the verifiers ask of code that is not the program's, and of DNS for TLSA records.
pub record Services : Type 0 where
  pub crypto : Crypto
  pub lookup_tlsa : Bytes → ℤ → TlsaAnswer
  pub etld_plus_one : Bytes → Option Bytes

-- Result, without the time that the verification took.
pub record Verification : Type 0 where
  pub spf : Outcome
  pub dkim : DkimOutcome
  pub arc : ArcOutcome
  pub dmarc : Evaluation
  pub dane : Option DomainResult
  pub from_domain : Bytes
  pub authenticated : Bool

-- The value of the first header of that name, or the empty string.
unfoldable pub header_value : Headers → Bytes → Bytes
header_value [] name = []
header_value ((field, value) ∷ headers) name =
    if Text.equal_fold (Text.trim_space field) name then value else header_value headers name

-- The text between the last angle bracket and the next closing one, if there are such.
unfoldable pub angle_addr : Bytes → Bytes
angle_addr field = elim (Text.last_index_byte b'<' field) [
  | none ↦ field
  | some at ↦ elim (Text.index_byte b'>' (drop (suc at) field)) [
    | none ↦ field
    | some close ↦ take close (drop (suc at) field)
  ]
]

unfoldable pub domain_of_address : Bytes → Bytes
domain_of_address text =
    let field = Text.trim_space text in
    if Text.is_empty field then [] else elim (Text.last_index_byte b'@' (angle_addr field)) [
      | none ↦ []
      | some at ↦ Text.to_lower (
          Text.trim_suffix (codes ".") (
            Text.trim (Text.is_in (codes "<>\"' \t;,"))
              (Text.trim_space (drop (suc at) (angle_addr field)))))
    ]

unfoldable pub from_domain_of : Message → Bytes
from_domain_of m =
    let given = Text.to_lower (Text.trim_space m.from_domain) in
    if Text.is_empty given then domain_of_address (header_value m.headers (codes "From")) else given

-- SPF, which says nothing without the address of the client.
unfoldable pub spf_part : Resolver → Message → Option Outcome
spf_part resolver m =
    if Text.is_empty m.client_ip
    then some (record {
      result = spf_none;
      domain = domain_of_address m.mail_from;
      sender = [];
      client_ip = [];
      mechanism = [];
      explanation = some no_client_ip;
      spf_record = [];
      lookups = 0;
    })
    else verify_spf resolver m.client_ip m.mail_from m.helo

abbrev pub is_dmarc_pass : DmarcResult → Bool
is_dmarc_pass dmarc_pass = true
is_dmarc_pass _ = false

module _ (services : Services) where
  unfoldable pub verified : Resolver → Message → Option Outcome → Option Verification
  verified resolver m none = none
  verified resolver m (some spf) =
      let dkim = verify_dkim services.crypto resolver m.headers m.body m.now in
      let dmarc =
        verify_dmarc services.etld_plus_one resolver (from_domain_of m) spf.result spf.domain
          dkim.passing_domains in
      some (record {
        spf = spf;
        dkim = dkim;
        arc = verify_arc services.crypto resolver m.headers m.body m.now;
        dmarc = dmarc;
        dane =
            if m.check_dane && not (Text.is_empty (from_domain_of m))
            then some (check_dane_domain resolver services.lookup_tlsa (from_domain_of m))
            else none;
        from_domain = from_domain_of m;
        authenticated = is_dmarc_pass dmarc.result;
      })

  unfoldable pub verify : Resolver → Message → Option Verification
  verify resolver m = verified resolver m (spf_part resolver m)

abbrev or_none : Policy → Policy
or_none policy_unset = policy_none
or_none policy = policy

-- The action that DMARC calls for.
unfoldable pub disposition : Verification → Policy
disposition r = if r.authenticated then policy_none else or_none r.dmarc.disposition
