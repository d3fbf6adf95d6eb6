-- ===== src/Verify/Report.antt =====
-- `AuthenticationResults`, `Summary` and `Warnings` of pkg/authverify/verify.go.
pub mod Methods
pub mod Parts
mod Words
pub mod Caveats
use mailscript.Base.{
  ltb, ◌==◌, if◌then◌else◌, ℕ, Bool, true, false, not, ◌&&◌, Option, none, some, List, [], ◌∷◌,
  ◌++◌,
}
use mailscript.Text
use mailscript.Text.{Bytes, codes}
use mailscript.Spf.Types.{
  SpfResult, spf_none, spf_neutral, spf_pass, spf_fail, spf_softfail, spf_temperror, spf_permerror,
}
use mailscript.Spf.Client.{Explanation}
use mailscript.Dmarc.Record.{
  Policy, policy_unset, policy_none, policy_quarantine, policy_reject, DmarcRecord,
}
use mailscript.Dmarc.Verdict.{
  DmarcResult, dmarc_none, dmarc_pass, dmarc_fail, dmarc_temperror, dmarc_permerror,
}
use mailscript.Dkim.Key.{
  DkimResult, dkim_none, dkim_pass, dkim_fail, dkim_policy, dkim_neutral, dkim_temperror,
  dkim_permerror,
}
use mailscript.Dkim.Outcome.{Reason, SignatureResult}
use mailscript.Dkim.Result.{is_pass}
use mailscript.Dane.Discovery.{
  DaneResult, dane_none, dane_available, dane_pass, dane_fail, dane_insecure, dane_temperror,
  dane_permerror, DomainReason, DomainResult,
}
use mailscript.Verify.{Verification}

abbrev pub spf_word : SpfResult → Bytes
spf_word spf_none = codes "none"
spf_word spf_neutral = codes "neutral"
spf_word spf_pass = codes "pass"
spf_word spf_fail = codes "fail"
spf_word spf_softfail = codes "softfail"
spf_word spf_temperror = codes "temperror"
spf_word spf_permerror = codes "permerror"

abbrev pub dkim_word : DkimResult → Bytes
dkim_word dkim_none = codes "none"
dkim_word dkim_pass = codes "pass"
dkim_word dkim_fail = codes "fail"
dkim_word dkim_policy = codes "policy"
dkim_word dkim_neutral = codes "neutral"
dkim_word dkim_temperror = codes "temperror"
dkim_word dkim_permerror = codes "permerror"

abbrev pub dmarc_word : DmarcResult → Bytes
dmarc_word dmarc_none = codes "none"
dmarc_word dmarc_pass = codes "pass"
dmarc_word dmarc_fail = codes "fail"
dmarc_word dmarc_temperror = codes "temperror"
dmarc_word dmarc_permerror = codes "permerror"

abbrev pub dane_word : DaneResult → Bytes
dane_word dane_none = codes "none"
dane_word dane_available = codes "available"
dane_word dane_pass = codes "pass"
dane_word dane_fail = codes "fail"
dane_word dane_insecure = codes "insecure"
dane_word dane_temperror = codes "temperror"
dane_word dane_permerror = codes "permerror"

-- The empty word, where the record has no policy.
abbrev pub policy_word : Policy → Bytes
policy_word policy_unset = []
policy_word policy_none = codes "none"
policy_word policy_quarantine = codes "quarantine"
policy_word policy_reject = codes "reject"

-- A property that follows a result, if its value is not empty.
unfoldable pub property : Bytes → Bytes → Bytes
property name value = if Text.is_empty value then [] else name ++ value

unfoldable pub dkim_property : List Bytes → Bytes
dkim_property [] = []
dkim_property (d ∷ domains) = codes " header.d=" ++ d

unfoldable pub record_policy : Option DmarcRecord → Bytes
record_policy none = []
record_policy (some r) = policy_word r.policy

unfoldable pub arc_part : DkimResult → List Bytes
arc_part dkim_none = []
arc_part result = (codes "arc=" ++ dkim_word result) ∷ []

unfoldable pub dane_part : Option DomainResult → List Bytes
dane_part none = []
dane_part (some d) = (codes "dane=" ++ dane_word d.result) ∷ []

abbrev pub server_id : Bytes → Bytes
server_id given = if Text.is_empty given then codes "mailscript" else given

-- What follows the identity of the server.
unfoldable pub result_parts : Verification → List Bytes
result_parts r =
    (codes "spf=" ++ (spf_word r.spf.result ++ property (codes " smtp.mailfrom=") r.spf.domain))
    ∷ (codes "dkim=" ++ (dkim_word r.dkim.result ++ dkim_property r.dkim.passing_domains))
    ∷ (codes "dmarc="
        ++ (dmarc_word r.dmarc.result
            ++ (property (codes " policy.dmarc=") (record_policy r.dmarc.dmarc_record)
                ++ property (codes " header.from=") r.from_domain)))
    ∷ (arc_part r.arc.result ++ dane_part r.dane)

unfoldable pub authentication_results : Verification → Bytes → Bytes
authentication_results r given = Text.join (codes "; ") (server_id given ∷ result_parts r)

abbrev dane_summary : Option DomainResult → Bytes
dane_summary none = []
dane_summary (some d) = codes " dane=" ++ dane_word d.result

unfoldable pub summary : Verification → Bytes
summary r =
    (if r.authenticated then codes "authenticated" else codes "not authenticated")
    ++ (codes " (spf="
        ++ (spf_word r.spf.result
            ++ (codes " dkim="
                ++ (dkim_word r.dkim.result
                    ++ (codes " dmarc="
                        ++ (dmarc_word r.dmarc.result
                            ++ (codes " arc="
                                ++ (dkim_word r.arc.result
                                    ++ (dane_summary r.dane ++ codes ")")))))))))

-- The messages of the warnings, with what they name.
pub data Warning : Type 0 where
  covers_part : Bytes → ℕ → ℕ → Warning
  future_stamp : Bytes → Warning
  on_policy : Bytes → Reason → Warning
  short_key : Bytes → ℕ → Warning
  spf_broken : Option Explanation → Warning
  no_enforcement : Bytes → Warning
  dane_is_insecure : DomainReason → Warning

abbrev pub warn_if : Bool → Warning → List Warning
warn_if b w = if b then w ∷ [] else []

abbrev pub is_policy : DkimResult → Bool
is_policy dkim_policy = true
is_policy _ = false

unfoldable pub signature_warnings : SignatureResult → List Warning
signature_warnings s =
    warn_if s.body_truncated (covers_part s.domain s.signed_bytes s.body_bytes)
    ++ (warn_if s.timestamp_future (future_stamp s.domain)
        ++ (warn_if (is_policy s.result) (on_policy s.domain s.explanation)
            ++ warn_if
                (is_pass s.result
                  && ltb 0 s.key_bits
                  && ltb s.key_bits 2048
                  && not (s.key_bits == 256))
                (short_key s.domain s.key_bits)))

unfoldable pub signatures_warnings : List SignatureResult → List Warning
signatures_warnings [] = []
signatures_warnings (s ∷ signatures) = signature_warnings s ++ signatures_warnings signatures

abbrev spf_warnings : SpfResult → Option Explanation → List Warning
spf_warnings spf_permerror why = spf_broken why ∷ []
spf_warnings _ why = []

abbrev is_policy_none : Policy → Bool
is_policy_none policy_none = true
is_policy_none _ = false

abbrev dmarc_warnings : Option DmarcRecord → List Warning
dmarc_warnings none = []
dmarc_warnings (some r) = warn_if (is_policy_none r.policy) (no_enforcement r.domain)

abbrev is_insecure : DaneResult → Bool
is_insecure dane_insecure = true
is_insecure _ = false

abbrev dane_warnings : Option DomainResult → List Warning
dane_warnings none = []
dane_warnings (some d) = warn_if (is_insecure d.result) (dane_is_insecure d.explanation)

unfoldable pub warnings : Verification → List Warning
warnings r =
    signatures_warnings r.dkim.signatures
    ++ (spf_warnings r.spf.result r.spf.explanation
        ++ (dmarc_warnings r.dmarc.dmarc_record ++ dane_warnings r.dane))
