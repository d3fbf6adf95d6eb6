-- ===== src/Arc/Seal.antt =====
-- `verifyARCSeal` and `buildARCSealInput` of pkg/authverify/arc.go.
pub mod Soundness
use mailscript.Base.{
  ltb, if◌then◌else◌, ok, err, ℕ, zero, suc, ◌||◌, none, some, List, [], ◌∷◌, ◌++◌,
}
use mailscript.Text
use mailscript.Text.{Bytes, codes}
use mailscript.Text.Base64
use mailscript.Spf.Types.{Resolver}
use mailscript.Dkim.Fields.{Headers, strip_whitespace}
use mailscript.Dkim.Tags.{Tags, TagError, tag_value, parse_strict_dkim_tags}
use mailscript.Dkim.Canonical.{relaxed, canonicalize_header, strip_signature_value, crlf}
use mailscript.Dkim.Key.{
  PublicKey, rsa_key, ed25519_key, Crypto, DkimResult, dkim_pass, dkim_fail, dkim_policy,
  dkim_permerror, KeyError, fetch_dkim_key,
}
use mailscript.Dkim.Outcome.{KeyKind, rsa, ed25519, min_rsa_key_bits, bit_length}

-- The positions of the three fields of a set that has them all.
pub record FullSet : Type 0 where
  pub aar_at : ℕ
  pub ams_at : ℕ
  pub as_at : ℕ

pub data SealReason : Type 0 where
  seal_tags : TagError → SealReason
  seal_incomplete seal_encoding seal_weak_key seal_wrong seal_verified : SealReason
  seal_algorithm : Bytes → SealReason
  seal_key : KeyError → SealReason

-- headers[i]; the positions are those of fields.
unfoldable pub header_at : Headers → ℕ → Bytes × Bytes
header_at [] i = ([], [])
header_at (h ∷ headers) zero = h
header_at (h ∷ headers) (suc i) = header_at headers i

abbrev pub relaxed_header : Bytes × Bytes → Bytes
relaxed_header h = canonicalize_header h.0 h.1 relaxed

-- A set as it stands in the input: the last one, which is being verified, without its signature and
-- its last line ending.
unfoldable pub seal_lines : Headers → FullSet → Bytes
seal_lines headers set =
    relaxed_header (header_at headers set.aar_at)
    ++ (relaxed_header (header_at headers set.ams_at)
        ++ relaxed_header (header_at headers set.as_at))

unfoldable pub last_seal_lines : Headers → FullSet → Bytes
last_seal_lines headers set =
    let h = header_at headers set.as_at in
    relaxed_header (header_at headers set.aar_at)
    ++ (relaxed_header (header_at headers set.ams_at)
        ++ Text.trim_suffix crlf (canonicalize_header h.0 (strip_signature_value h.1) relaxed))

-- `before` are the sets of the instances before, from 1 on.
unfoldable pub build_arc_seal_input : Headers → List FullSet → FullSet → Bytes
build_arc_seal_input headers [] set = last_seal_lines headers set
build_arc_seal_input headers (b ∷ before) set =
    seal_lines headers b ++ build_arc_seal_input headers before set

module _ (crypto : Crypto) (resolver : Resolver) where
  -- An RSA key has 1024 bits at least.
  unfoldable pub check_seal : KeyKind → PublicKey → Bytes → Bytes → DkimResult × SealReason
  check_seal rsa (rsa_key k) digest signature =
      if ltb (bit_length k.modulus) min_rsa_key_bits
      then (dkim_policy, seal_weak_key)
      else if crypto.rsa_verify k digest signature
      then (dkim_pass, seal_verified)
      else (dkim_fail, seal_wrong)
  check_seal rsa _ digest signature = (dkim_policy, seal_weak_key)
  check_seal ed25519 (ed25519_key k) digest signature =
      if crypto.ed25519_verify k digest signature
      then (dkim_pass, seal_verified)
      else (dkim_fail, seal_wrong)
  check_seal ed25519 _ digest signature = (dkim_fail, seal_wrong)

  unfoldable pub check_sealed : KeyKind → Tags → Bytes → DkimResult × SealReason
  check_sealed kind tags input =
      elim (Base64.decode (strip_whitespace (tag_value tags (codes "b")))) [
        | none ↦ (dkim_permerror, seal_encoding)
        | some signature ↦
            elim (fetch_dkim_key crypto resolver (Text.trim_space (tag_value tags (codes "s")))
              (Text.to_lower (tag_value tags (codes "d")))) [
                | err e ↦ (dkim_permerror, seal_key e)
                | ok k ↦ check_seal kind k.key (crypto.sha256 input) signature
              ]
      ]

  unfoldable pub check_seal_tags : Tags → Bytes → DkimResult × SealReason
  check_seal_tags tags input =
      let algorithm = Text.to_lower (tag_value tags (codes "a")) in
      if Text.is_empty (Text.to_lower (tag_value tags (codes "d")))
        || Text.is_empty (Text.trim_space (tag_value tags (codes "s")))
        || Text.is_empty (tag_value tags (codes "b"))
        || Text.is_empty (tag_value tags (codes "i"))
        || Text.is_empty (tag_value tags (codes "cv"))
      then (dkim_permerror, seal_incomplete)
      else if Text.eq algorithm (codes "rsa-sha256")
      then check_sealed rsa tags input
      else if Text.eq algorithm (codes "ed25519-sha256")
      then check_sealed ed25519 tags input
      else (dkim_policy, seal_algorithm algorithm)

  unfoldable pub verify_arc_seal : Headers → List FullSet → FullSet → DkimResult × SealReason
  verify_arc_seal headers before set =
      elim (parse_strict_dkim_tags (header_at headers set.as_at).1) [
        | err e ↦ (dkim_permerror, seal_tags e)
        | ok tags ↦ check_seal_tags tags (build_arc_seal_input headers before set)
      ]
