-- ===== src/Arc/Seal/Soundness.antt =====
-- `verifyARCSeal` of pkg/authverify/arc.go: what stands behind a seal that passes.
use mailscript.Base.{Bool-cases, Option-cases, Result-cases, ok, ◌≡◌, inl, inr, some, ◌++◌, arith}
use mailscript.Text
use mailscript.Text.{Bytes, codes}
use mailscript.Text.Base64
use mailscript.Text.Laws.{eq→≡}
use mailscript.Spf.Types.{Resolver}
use mailscript.Dkim.Fields.{strip_whitespace}
use mailscript.Dkim.Tags.{Tags, tag_value}
use mailscript.Dkim.Key.{
  PublicKey, rsa_key, ed25519_key, other_key, Crypto, DkimKey, dkim_pass, fetch_dkim_key,
}
use mailscript.Dkim.Outcome.{KeyKind, rsa, ed25519, kind_name}
use mailscript.Dkim.Signature.Coverage.{Accepts}
use mailscript.Arc.Seal.{check_seal, check_sealed, check_seal_tags}

module _ (crypto : Crypto) (resolver : Resolver) where
  -- The key that the domain publishes accepts the signature of the input.
  pub record IsSealed (tags : Tags) (input : Bytes) : Type 0 where
    pub kind : KeyKind
    pub algorithm : Text.to_lower (tag_value tags (codes "a")) ≡ kind_name kind ++ codes "-sha256"
    pub key : DkimKey
    pub published :
        fetch_dkim_key crypto resolver
          (Text.trim_space (tag_value tags (codes "s")))
          (Text.to_lower (tag_value tags (codes "d")))
        ≡ ok key
    pub signature : Bytes
    pub decoded : Base64.decode (strip_whitespace (tag_value tags (codes "b"))) ≡ some signature
    pub accepted : Accepts crypto kind key.key (crypto.sha256 input) signature

  check_seal-Accepts :
      (kind : KeyKind) (key : PublicKey) (digest signature : Bytes)
      → (check_seal crypto resolver kind key digest signature).0 ≡ dkim_pass
      → Accepts crypto kind key digest signature
  unfolding check_seal
  check_seal-Accepts rsa (rsa_key k) digest signature h = ground arith
  check_seal-Accepts rsa (ed25519_key k) digest signature h = absurd (ground arith)
  check_seal-Accepts rsa other_key digest signature h = absurd (ground arith)
  check_seal-Accepts ed25519 (rsa_key k) digest signature h = absurd (ground arith)
  check_seal-Accepts ed25519 (ed25519_key k) digest signature h = ground arith
  check_seal-Accepts ed25519 other_key digest signature h = absurd (ground arith)

  check_sealed-IsSealed :
      (kind : KeyKind) (tags : Tags) (input : Bytes)
      → Text.to_lower (tag_value tags (codes "a")) ≡ kind_name kind ++ codes "-sha256"
      → (check_sealed crypto resolver kind tags input).0 ≡ dkim_pass
      → IsSealed tags input
  unfolding check_sealed
  check_sealed-IsSealed kind tags input a h =
      elim (Option-cases (Base64.decode (strip_whitespace (tag_value tags (codes "b"))))) [
        | inl e ↦ absurd (ground (arith, e))
        | inr e ↦
            elim (Result-cases (
              fetch_dkim_key crypto resolver (Text.trim_space (tag_value tags (codes "s")))
                (Text.to_lower (tag_value tags (codes "d"))))) [
                  | inr f ↦ absurd (ground (arith, e.1, f.1))
                  | inl f ↦ record {
                    kind = kind;
                    algorithm = a;
                    key = f.0;
                    published = f.1;
                    signature = e.0;
                    decoded = e.1;
                    accepted =
                        check_seal-Accepts kind f.0.key (crypto.sha256 input) e.0
                          (ground (arith, e.1, f.1));
                  }
                ]
      ]

  pub check_seal_tags-IsSealed :
      (tags : Tags) (input : Bytes)
      → (check_seal_tags crypto resolver tags input).0 ≡ dkim_pass
      → IsSealed tags input
  unfolding check_seal_tags
  check_seal_tags-IsSealed tags input h =
      let algorithm = Text.to_lower (tag_value tags (codes "a")) in
      elim (Bool-cases (Text.eq algorithm (codes "rsa-sha256"))) [
        | inl w ↦
            check_sealed-IsSealed rsa tags input
              (unfold codes in eq→≡ algorithm (codes "rsa-sha256") w) (ground arith)
        | inr w ↦ elim (Bool-cases (Text.eq algorithm (codes "ed25519-sha256"))) [
          | inl v ↦
              check_sealed-IsSealed ed25519 tags input
                (unfold codes in eq→≡ algorithm (codes "ed25519-sha256") v) (ground arith)
          | inr v ↦ absurd (ground arith)
        ]
      ]
