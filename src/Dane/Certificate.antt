-- ===== src/Dane/Certificate.antt =====
-- `VerifyDANECertificate` of pkg/authverify/dane.go, with `selectAssociationData` and
-- `applyMatchingType`.
pub mod Soundness
pub mod Completeness
use mailscript.Base.{
  leb, ◌==◌, if◌then◌else◌, length, take, any, ℤ, ℕ, ◌+◌, ◌-◌, ◌*◌, Bool, true, false, not, ◌&&◌,
  Option, none, some, List, [], ◌∷◌,
}
use mailscript.Text
use mailscript.Text.{Bytes}
use mailscript.Spf.Types.{Resolver}
use mailscript.Dkim.Key.{Crypto}
use mailscript.Dane.Discovery.{
  TlsaRecord, TlsaAnswer, DaneResult, dane_available, dane_pass, dane_fail, usage_dane_ta,
  usage_dane_ee, HostReason, no_certificate, matched, unmatched, HostResult, host_verdict,
  check_dane,
}

-- The parts of an x509.Certificate that are compared.
pub record Certificate : Type 0 where
  pub raw : Bytes
  pub raw_subject_public_key_info : Bytes

hex_digit : ℕ → Option ℕ
hex_digit c =
    if leb b'0' c && leb c b'9'
    then some (c - b'0')
    else if leb b'a' c && leb c b'f'
    then some (c - b'a' + 10)
    else if leb b'A' c && leb c b'F'
    then some (c - b'A' + 10)
    else none

abbrev hex_byte : Option ℕ → Option ℕ → Option Bytes → Option Bytes
hex_byte (some a) (some b) (some rest) = some ((a * 16 + b) ∷ rest)
hex_byte _ _ _ = none

-- hex.DecodeString
unfoldable pub decode_hex : Bytes → Option Bytes
unfolding hex_digit
decode_hex [] = some []
decode_hex (c ∷ []) = none
decode_hex (c ∷ d ∷ s) = hex_byte (hex_digit c) (hex_digit d) (decode_hex s)

unfoldable pub select_association_data : Certificate → ℕ → Option Bytes
select_association_data cert selector =
    if selector == 0
    then some cert.raw
    else if selector == 1
    then some cert.raw_subject_public_key_info
    else none

-- The certificates of a chain, from the leaf on, that a record may name.
unfoldable pub candidates : TlsaRecord → List Certificate → List Certificate
candidates r chain =
    if r.usage == usage_dane_ee
    then take 1 chain
    else if r.usage == usage_dane_ta
    then chain
    else []

abbrev pub is_available : DaneResult → Bool
is_available dane_available = true
is_available _ = false

-- The hash functions are those of Go's packages crypto/sha256 and crypto/sha512.
module _ (sha256 sha512 : Bytes → Bytes) where
  unfoldable pub apply_matching_type : Bytes → ℕ → Option Bytes
  apply_matching_type data_bytes kind =
      if kind == 0
      then some data_bytes
      else if kind == 1
      then some (sha256 data_bytes)
      else if kind == 2
      then some (sha512 data_bytes)
      else none

  -- What the record would have to publish for the certificate.
  unfoldable pub association : TlsaRecord → Certificate → Option Bytes
  association r cert = elim (select_association_data cert r.selector) [
    | none ↦ none
    | some selected ↦ apply_matching_type selected r.matching_type
  ]

  unfoldable pub same_bytes : Option Bytes → Option Bytes → Bool
  same_bytes (some a) (some b) = Text.eq a b
  same_bytes _ _ = false

  abbrev pub matches : TlsaRecord → Certificate → Bool
  matches r cert = same_bytes (association r cert) (decode_hex r.certificate)

  -- The first record, counted from `i` on, that matches a candidate of the chain.
  unfoldable pub find_match : ℕ → List TlsaRecord → List Certificate → Option (ℕ × TlsaRecord)
  find_match i [] chain = none
  find_match i (r ∷ records) chain =
      let later = find_match (i + 1) records chain in
      if any (matches r) (candidates r chain) then some (i, r) else later

  unfoldable pub judge_chain : HostResult → List Certificate → HostResult
  judge_chain out chain = elim (find_match 0 out.records chain) [
    | none ↦
        host_verdict dane_fail (unmatched out.usable_records) (record out { matched_record = none })
    | some found ↦
        host_verdict dane_pass (matched found.0 found.1)
          (record out { matched_record = some found.0 })
  ]

  unfoldable pub verify_dane_certificate :
      Resolver → (Bytes → ℤ → TlsaAnswer) → Bytes → ℤ → List Certificate → HostResult
  verify_dane_certificate resolver lookup_tlsa host port chain =
      let out = check_dane resolver lookup_tlsa host port in
      if not (is_available out.result)
      then out
      else if length chain == 0
      then host_verdict dane_fail no_certificate out
      else judge_chain out chain
