-- ===== src/Dkim/Signature.antt =====
-- `verifyOneMessageSignature` of pkg/authverify/dkim.go, as one function for each of its parts.
pub mod Coverage
pub mod Soundness
use mailscript.Base.{
  ltb, leb, ◌==◌, if◌then◌else◌, length, take, ok, err, ℤ, pos, negsuc, ℕ, zero, suc, ◌+◌, ◌*◌, ◌^◌,
  Bool, true, false, not, ◌&&◌, ◌||◌, Option, none, some, [], ◌∷◌,
}
use mailscript.Text
use mailscript.Text.{Bytes, codes}
use mailscript.Text.Base64
use mailscript.Spf.Types.{Resolver}
use mailscript.Dkim.Fields.{Headers, split_header_list, contains_fold, strip_whitespace}
use mailscript.Dkim.Tags.{Tags, TagError, tag_value, parse_strict_dkim_tags}
use mailscript.Dkim.Canonical.{Canonicalization, simple, relaxed, canonicalize_body}
use mailscript.Dkim.Key.{
  PublicKey, rsa_key, ed25519_key, Crypto, DkimResult, dkim_pass, dkim_fail, dkim_policy,
  dkim_permerror, KeyError, fetch_dkim_key,
}
use mailscript.Dkim.Outcome.{
  KeyKind, SignatureResult, Signed, bad_algorithm, bad_body_canon, bad_body_hash, bad_expiry,
  bad_header_canon, bad_length, bad_signature_text, bad_tags, bad_version, bit_length, body_changed,
  ed25519, end_with, expired_at, from_unsigned, kind_name, min_rsa_key_bits, no_domain, no_headers,
  no_key, no_signature, nothing_read, pass, refuse, rsa, sha1_prohibited, signature_wrong, weak_key,
  wrong_key, wrong_key_type,
}
use mailscript.Dkim.SignedInput.{build_signed_header_input}

-- The value at `i`; where there is none, the code does not ask for it.
unfoldable pub value_at : Headers → ℕ → Bytes
value_at [] i = []
value_at (h ∷ headers) zero = h.1
value_at (h ∷ headers) (suc i) = value_at headers i

-- now.After(time.Unix(seconds, 0)): the seconds are counted from the year 1 in 64 bits, and wrap.
unfoldable pub is_expired : ℕ → ℤ → Bool
is_expired now (negsuc n) = true
is_expired now (pos n) = ltb (n * 10 ^ 9) now || leb (2 ^ 63) (n + 62135596800)

-- time.Unix(seconds, 0).After(now.Add(48 * time.Hour))
unfoldable pub is_future : ℕ → Option ℤ → Bool
is_future now (some (pos n)) =
    ltb (n + 62135596800) (2 ^ 63) && ltb (now + 172800 * 10 ^ 9) (n * 10 ^ 9)
is_future now _ = false

unfoldable pub canon_of : Bytes → Option Canonicalization
canon_of name =
    if Text.eq name (codes "simple")
    then some simple
    else if Text.eq name (codes "relaxed")
    then some relaxed
    else none

-- The names of the canonicalizations in c=, simple where they are not given.
unfoldable pub canon_names : Bytes → Bytes × Bytes
canon_names c =
    if Text.is_empty c then (codes "simple", codes "simple") else elim (Text.cut b'/' c) [
      | none ↦ (Text.to_lower (Text.trim_space c), codes "simple")
      | some parts ↦
          (Text.to_lower (Text.trim_space parts.0), Text.to_lower (Text.trim_space parts.1))
    ]

-- What l= leaves of the canonical body.
unfoldable pub truncate_body : ℕ → Bytes → SignatureResult → Bytes × SignatureResult
truncate_body n canonical out =
    if ltb n (length canonical)
    then (
      take n canonical,
      record out { body_truncated = true; signed_bytes = length (take n canonical) },
    )
    else (canonical, out)

module _ (crypto : Crypto) where
  unfoldable pub check_signature :
      KeyKind → PublicKey → Bytes → Bytes → SignatureResult → SignatureResult
  check_signature rsa (rsa_key k) digest signature out =
      let bits = bit_length k.modulus in
      let sized = record out { key_bits = bits } in
      if ltb bits min_rsa_key_bits
      then end_with dkim_policy (weak_key bits) sized
      else if crypto.rsa_verify k digest signature
      then pass sized
      else end_with dkim_fail signature_wrong sized
  check_signature ed25519 (ed25519_key k) digest signature out =
      let sized = record out { key_bits = 256 } in
      if crypto.ed25519_verify k digest signature
      then pass sized
      else end_with dkim_fail signature_wrong sized
  check_signature _ _ digest signature out = refuse wrong_key out

  module _ (resolver : Resolver) (m : Signed) (tags : Tags) where
    -- The header hash, and the signature of it.
    unfoldable pub check_headers :
        KeyKind → Canonicalization → PublicKey → SignatureResult → SignatureResult
    check_headers kind canon key out =
        let input =
          build_signed_header_input m.headers m.sig_index out.headers_signed
            (value_at m.headers m.sig_index) canon m.field_name in
        elim (Base64.decode (strip_whitespace (tag_value tags (codes "b")))) [
          | none ↦ refuse bad_signature_text out
          | some signature ↦ check_signature kind key (crypto.sha256 input) signature out
        ]

    unfoldable pub check_key : KeyKind → Canonicalization → SignatureResult → SignatureResult
    check_key kind canon out = elim (fetch_dkim_key crypto resolver out.selector out.domain) [
      | err e ↦ refuse (no_key e) out
      | ok k ↦
          if not (Text.is_empty k.key_type) && not (Text.eq k.key_type (kind_name kind))
          then refuse (wrong_key_type k.key_type) out
          else check_headers kind canon k.key out
    ]

    unfoldable pub check_body_hash :
        KeyKind → Canonicalization → Bytes × SignatureResult → SignatureResult
    check_body_hash kind canon (body, out) =
        elim (Base64.decode (strip_whitespace (tag_value tags (codes "bh")))) [
          | none ↦ refuse bad_body_hash out
          | some expected ↦
              if Text.eq (crypto.sha256 body) expected
              then check_key kind canon out
              else end_with dkim_fail body_changed out
        ]

    unfoldable pub check_length :
        KeyKind → Canonicalization → Bytes → Option ℤ → SignatureResult → SignatureResult
    check_length kind canon canonical (some (pos n)) out =
        check_body_hash kind canon (truncate_body n canonical out)
    check_length kind canon canonical _ out = refuse bad_length out

    unfoldable pub check_body :
        KeyKind → Canonicalization → Canonicalization → SignatureResult → SignatureResult
    check_body kind header_canon body_canon out =
        let canonical = canonicalize_body m.body body_canon in
        let sized = record out { body_bytes = length canonical; signed_bytes = length canonical } in
        let given = Text.trim_space (tag_value tags (codes "l")) in
        if Text.is_empty given
        then check_body_hash kind header_canon (canonical, sized)
        else check_length kind header_canon canonical (Text.atoi given) sized

    unfoldable pub check_canon : KeyKind → SignatureResult → SignatureResult
    check_canon kind out =
        let names = canon_names (Text.trim_space (tag_value tags (codes "c"))) in
        elim (canon_of names.0) [
          | none ↦ refuse (bad_header_canon names.0) out
          | some header_canon ↦ elim (canon_of names.1) [
            | none ↦ refuse (bad_body_canon names.1) out
            | some body_canon ↦ check_body kind header_canon body_canon out
          ]
        ]

    unfoldable pub check_stamp : KeyKind → SignatureResult → SignatureResult
    check_stamp kind out = check_canon kind (record out {
      timestamp_future = is_future m.now (Text.atoi (Text.trim_space (tag_value tags (codes "t"))));
    })

    unfoldable pub check_expiry : KeyKind → SignatureResult → SignatureResult
    check_expiry kind out =
        let expiry = Text.trim_space (tag_value tags (codes "x")) in
        if Text.is_empty expiry then check_stamp kind out else elim (Text.atoi expiry) [
          | none ↦ refuse bad_expiry out
          | some seconds ↦
              if is_expired m.now seconds
              then end_with dkim_fail (expired_at seconds) (record out { expired = true })
              else check_stamp kind out
        ]

    unfoldable pub check_algorithm : SignatureResult → SignatureResult
    check_algorithm out =
        if Text.eq out.algorithm (codes "rsa-sha256")
        then check_expiry rsa out
        else if Text.eq out.algorithm (codes "ed25519-sha256")
        then check_expiry ed25519 out
        else if Text.eq out.algorithm (codes "rsa-sha1")
        then end_with dkim_policy sha1_prohibited out
        else refuse (bad_algorithm out.algorithm) out

    unfoldable pub check_headers_signed : SignatureResult → SignatureResult
    check_headers_signed out =
        let names = split_header_list (tag_value tags (codes "h")) in
        let listed = record out { headers_signed = names } in
        if length names == 0
        then refuse no_headers out
        else if not (contains_fold names (codes "from"))
        then refuse from_unsigned listed
        else check_algorithm listed

    -- The required tags.
    unfoldable pub check_required : SignatureResult → SignatureResult
    check_required out =
        let version = tag_value tags (codes "v") in
        let named = record out {
          domain = Text.to_lower (Text.trim_space (tag_value tags (codes "d")));
          selector = Text.trim_space (tag_value tags (codes "s"));
          identity = tag_value tags (codes "i");
          algorithm = Text.to_lower (Text.trim_space (tag_value tags (codes "a")));
        } in
        if m.require_version && not (Text.eq version (codes "1"))
        then refuse (bad_version version) out
        else if Text.is_empty named.domain || Text.is_empty named.selector
        then refuse no_domain named
        else if Text.is_empty (strip_whitespace (tag_value tags (codes "b")))
            || Text.is_empty (strip_whitespace (tag_value tags (codes "bh")))
        then refuse no_signature named
        else check_headers_signed named

  unfoldable pub verify_one_message_signature : Resolver → Signed → SignatureResult
  verify_one_message_signature resolver m =
      elim (parse_strict_dkim_tags (value_at m.headers m.sig_index)) [
        | err e ↦ refuse (bad_tags e) nothing_read
        | ok tags ↦ check_required resolver m tags nothing_read
      ]
