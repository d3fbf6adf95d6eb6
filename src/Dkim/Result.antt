-- ===== src/Dkim/Result.antt =====
-- `VerifyDKIM` and `verifyOneDKIM` of pkg/authverify/dkim.go.
pub mod Passing
use mailscript.Base.{
  ltb, ◌==◌, if◌then◌else◌, length, take, any, ℕ, ◌+◌, Bool, true, false, not, List, [], ◌∷◌, map,
}
use mailscript.Text.{Bytes, codes}
use mailscript.Spf.Types.{Resolver}
use mailscript.Dkim.Fields.{Headers, is_named, count_header}
use mailscript.Dkim.Key.{
  Crypto, DkimResult, dkim_none, dkim_pass, dkim_fail, dkim_temperror, dkim_permerror,
}
use mailscript.Dkim.Outcome.{
  Reason, no_resolver, many_from, SignatureResult, end_with, nothing_read,
}
use mailscript.Dkim.Signature.{verify_one_message_signature}

abbrev pub max_signatures : ℕ
max_signatures = 10

pub record DkimOutcome : Type 0 where
  pub result : DkimResult
  pub signatures : List SignatureResult
  pub passing_domains : List Bytes

-- The positions of the fields of that name, from position `i` on.
unfoldable pub positions_from : ℕ → Bytes → Headers → List ℕ
positions_from i name [] = []
positions_from i name (h ∷ headers) =
    let rest = positions_from (i + 1) name headers in if is_named name h then i ∷ rest else rest

abbrev pub signature_field : Bytes
signature_field = codes "DKIM-Signature"

abbrev pub is_pass : DkimResult → Bool
is_pass dkim_pass = true
is_pass _ = false

unfoldable pub passing : List SignatureResult → List Bytes
passing [] = []
passing (s ∷ signatures) =
    let rest = passing signatures in if is_pass s.result then s.domain ∷ rest else rest

-- A pass if there is one; the result of the only signature, if there is no other.
unfoldable pub strongest : List SignatureResult → DkimResult
strongest [] = dkim_fail
strongest (s ∷ []) = if is_pass s.result then dkim_pass else s.result
strongest (s ∷ t ∷ signatures) =
    if any (λ (x : SignatureResult). is_pass x.result) (s ∷ t ∷ signatures)
    then dkim_pass
    else dkim_fail

-- A result that stands for the message as a whole.
abbrev pub refused : DkimResult → Reason → DkimOutcome
refused result reason = record {
  result = result;
  signatures = end_with result reason nothing_read ∷ [];
  passing_domains = [];
}

module _ (crypto : Crypto) (resolver : Resolver) where
  unfoldable pub verify_one_dkim : Headers → Bytes → ℕ → ℕ → SignatureResult
  verify_one_dkim headers body now i = verify_one_message_signature crypto resolver (record {
    headers = headers;
    sig_index = i;
    body = body;
    now = now;
    field_name = signature_field;
    require_version = true;
  })

  -- The signatures, for positions of which there is one at least.
  unfoldable pub verify_signatures : Headers → Bytes → ℕ → List ℕ → DkimOutcome
  verify_signatures headers body now positions =
      let signatures = map (verify_one_dkim headers body now) positions in
      record {
        result = strongest signatures;
        signatures = signatures;
        passing_domains = passing signatures;
      }

  unfoldable pub verify_dkim : Headers → Bytes → ℕ → DkimOutcome
  verify_dkim headers body now =
      let positions = positions_from 0 signature_field headers in
      if length positions == 0
      then record { result = dkim_none; signatures = []; passing_domains = [] }
      else if not resolver.enabled
      then refused dkim_temperror no_resolver
      else if ltb 1 (count_header headers (codes "From"))
      then refused dkim_permerror (many_from (count_header headers (codes "From")))
      else verify_signatures headers body now (take max_signatures positions)
