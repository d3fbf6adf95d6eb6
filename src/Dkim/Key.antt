-- ===== src/Dkim/Key.antt =====
-- `fetchDKIMKey` of pkg/authverify/dkim.go. The hash, the signature schemes and the parsers of keys
-- are those of Go's packages crypto; they are the fields of `Crypto`.
use mailscript.Base.{
  ltb, ◌==◌, if◌then◌else◌, length, Result, ok, err, ℕ, Bool, not, ◌&&◌, Option, none, some, [],
  ◌∷◌, ◌++◌,
}
use mailscript.Text
use mailscript.Text.{Bytes, codes}
use mailscript.Text.Base64
use mailscript.Spf.Types.{Resolver}
use mailscript.Dkim.Fields.{strip_whitespace}
use mailscript.Dkim.Tags.{Tags, TagError, tag_value, parse_strict_dkim_tags}

pub record RsaKey : Type 0 where
  pub modulus : ℕ
  pub exponent : ℕ

-- What x509.ParsePKIXPublicKey returns: one of the types that the code asks for, or another one.
pub data PublicKey : Type 0 where
  rsa_key : RsaKey → PublicKey
  ed25519_key : Bytes → PublicKey
  other_key : PublicKey

-- sha256.Sum256, x509.ParsePKIXPublicKey, x509.ParsePKCS1PublicKey, and whether rsa.VerifyPKCS1v15
-- and ed25519.Verify accept a signature (the last argument) of a digest.
pub record Crypto : Type 0 where
  pub sha256 : Bytes → Bytes
  pub parse_pkix : Bytes → Option PublicKey
  pub parse_pkcs1 : Bytes → Option RsaKey
  pub rsa_verify : RsaKey → Bytes → Bytes → Bool
  pub ed25519_verify : Bytes → Bytes → Bytes → Bool

-- The strings none, pass, fail, policy, neutral, temperror and permerror.
pub data DkimResult : Type 0 where
  dkim_none dkim_pass dkim_fail dkim_policy dkim_neutral dkim_temperror dkim_permerror : DkimResult

abbrev pub max_public_key_bytes : ℕ
max_public_key_bytes = 8192

-- dkimKey, without the flags, which nothing reads
pub record DkimKey : Type 0 where
  pub key : PublicKey
  pub key_type : Bytes

-- The messages of dkimKeyError, whose result is a permerror in all cases.
pub data KeyError : Type 0 where
  key_missing key_version key_type_unsupported : Bytes → KeyError
  key_too_large key_revoked key_encoding key_unreadable key_not_rsa : KeyError
  key_length : ℕ → KeyError
  key_tags : TagError → KeyError

abbrev rsa_record : Bytes → PublicKey → Result KeyError DkimKey
rsa_record key_type (rsa_key k) = ok (record { key = rsa_key k; key_type = key_type })
rsa_record key_type _ = err key_not_rsa

module _ (crypto : Crypto) where
  -- A bare PKCS#1 key is taken where no PKIX key is read.
  unfoldable pub parse_rsa : Bytes → Bytes → Result KeyError DkimKey
  parse_rsa key_type der = elim (crypto.parse_pkix der) [
    | some pub_key ↦ rsa_record key_type pub_key
    | none ↦ elim (crypto.parse_pkcs1 der) [
      | none ↦ err key_unreadable
      | some k ↦ ok (record { key = rsa_key k; key_type = key_type })
    ]
  ]

  -- The switch over the type of the key. An Ed25519 key is 32 bytes long.
  unfoldable pub parse_key : Bytes → Bytes → Result KeyError DkimKey
  parse_key key_type der =
      if Text.eq key_type (codes "rsa")
      then parse_rsa key_type der
      else if Text.eq key_type (codes "ed25519")
      then (if length der == 32
          then ok (record { key = ed25519_key der; key_type = key_type })
          else err (key_length (length der)))
      else err (key_type_unsupported key_type)

  unfoldable pub key_of_tags : Tags → Result KeyError DkimKey
  key_of_tags tags =
      let version = Text.trim_space (tag_value tags (codes "v")) in
      let named = Text.to_lower (Text.trim_space (tag_value tags (codes "k"))) in
      let encoded = strip_whitespace (tag_value tags (codes "p")) in
      if not (Text.is_empty version) && not (Text.equal_fold version (codes "DKIM1"))
      then err (key_version version)
      else if Text.is_empty encoded
      then err key_revoked
      else elim (Base64.decode encoded) [
        | none ↦ err key_encoding
        | some der ↦ parse_key (if Text.is_empty named then codes "rsa" else named) der
      ]

  -- The strings of the record are one text.
  unfoldable pub parse_key_record : Bytes → Result KeyError DkimKey
  parse_key_record text =
      if ltb max_public_key_bytes (length text)
      then err key_too_large
      else elim (parse_strict_dkim_tags text) [
        | err e ↦ err (key_tags e)
        | ok tags ↦ key_of_tags tags
      ]

  unfoldable pub fetch_dkim_key : Resolver → Bytes → Bytes → Result KeyError DkimKey
  fetch_dkim_key resolver selector domain =
      let name = selector ++ (codes "._domainkey." ++ domain) in
      elim (resolver.lookup_txt name) [
        | [] ↦ err (key_missing name)
        | r ∷ records ↦ parse_key_record (Text.join [] (r ∷ records))
      ]
