-- ===== src/Dkim/Signature/Soundness.antt =====
-- `verifyOneMessageSignature` of pkg/authverify/dkim.go: what stands behind a pass.
use mailscript.Base.{
  Bool-cases, Option-cases, Result, ok, err, ℤ, ◌≡◌, refl, ◌∙◌, ◌≢◌, inl, inr, true, false, some,
  [], ◌∷◌, ◌++◌, arith,
}
use mailscript.Text.{Bytes, codes}
use mailscript.Text
use mailscript.Text.Laws.{eq→≡}
use mailscript.Spf.Types.{Resolver}
use mailscript.Dkim.Fields.{contains_fold, split_header_list}
use mailscript.Dkim.Tags.{TagError, Tags, tag_value}
use mailscript.Dkim.Key.{Crypto, dkim_pass}
use mailscript.Dkim.Outcome.{
  nothing_read, bad_tags, refuse, SignatureResult, KeyKind, rsa, ed25519, kind_name, Signed,
}
use mailscript.Dkim.Signature.{
  is_expired, check_headers_signed, check_stamp, verify_one_message_signature, check_required,
  check_algorithm, parse_strict_dkim_tags, check_expiry, is_future, is_expired, value_at,
}
use mailscript.Dkim.Signature.Coverage.{IsCovered, SignedNames, check_canon-IsCovered}

empty-ne-some : (s : Bytes) (x : ℤ) → Text.is_empty s ≡ true → Text.atoi s ≢ some x
unfolding Text.atoi
empty-ne-some [] x w h = ground arith
empty-ne-some (c ∷ s) x w h = cc

module _ (crypto : Crypto) (resolver : Resolver) (m : Signed) (tags : Tags) (r : SignatureResult)
    (p : r.result ≡ dkim_pass) where
  check_expiry-IsCovered :
      (kind : KeyKind) (out : SignatureResult)
      → out.body_truncated ≡ false
      → check_expiry crypto resolver m tags kind out ≡ r
      → ((x : ℤ)
          → Text.atoi (Text.trim_space (tag_value tags (codes "x"))) ≡ some x
          → is_expired m.now x ≡ false)
        × IsCovered crypto resolver m tags kind r
        × SignedNames out r
  unfolding check_expiry check_stamp
  check_expiry-IsCovered kind out z h =
      let given = Text.trim_space (tag_value tags (codes "x")) in
      let stamped = record out {
        timestamp_future =
            is_future m.now (Text.atoi (Text.trim_space (tag_value tags (codes "t"))));
      } in
      elim (Bool-cases (Text.is_empty given)) [
        | inl w ↦
            let (i, s) =
              check_canon-IsCovered crypto resolver m tags r p kind stamped z (ground arith) in
            (λ x e. absurd (empty-ne-some given x w e), i, ground (arith, s))
        | inr w ↦ elim (Option-cases (Text.atoi given)) [
          | inl e ↦ absurd (ground (arith, e))
          | inr e ↦ elim (Bool-cases (is_expired m.now e.0)) [
            | inl f ↦ absurd (ground (arith, e.1))
            | inr f ↦
                let (i, s) =
                  check_canon-IsCovered crypto resolver m tags r p kind stamped z
                    (ground (arith, e.1)) in
                (λ x k. ground (arith, e.1, k), i, ground (arith, s))
          ]
        ]
      ]

-- What stands behind a signature that passes.
pub record IsVerified (crypto : Crypto) (resolver : Resolver) (m : Signed) (r : SignatureResult)
    : Type 0 where
  pub tags : Tags
  pub parsed : parse_strict_dkim_tags (value_at m.headers m.sig_index) ≡ ok tags
  pub version : m.require_version ≡ true → tag_value tags (codes "v") ≡ codes "1"
  pub domain :
      (r.domain ≡ Text.to_lower (Text.trim_space (tag_value tags (codes "d"))))
      × (Text.is_empty r.domain ≡ false)
  pub names : r.headers_signed ≡ split_header_list (tag_value tags (codes "h"))
  pub from_signed : contains_fold r.headers_signed (codes "from") ≡ true
  pub kind : KeyKind
  pub algorithm : r.algorithm ≡ kind_name kind ++ codes "-sha256"
  pub unexpired :
      (x : ℤ)
      → Text.atoi (Text.trim_space (tag_value tags (codes "x"))) ≡ some x
      → is_expired m.now x ≡ false
  pub covered : IsCovered crypto resolver m tags kind r

module _ (crypto : Crypto) (resolver : Resolver) (m : Signed) (r : SignatureResult)
    (p : r.result ≡ dkim_pass) where
  check_algorithm-kind :
      (tags : Tags) (out : SignatureResult)
      → out.body_truncated ≡ false
      → check_algorithm crypto resolver m tags out ≡ r
      → (kind : KeyKind) × (out.algorithm ≡ kind_name kind ++ codes "-sha256")
        × (check_expiry crypto resolver m tags kind out ≡ r)
  unfolding check_algorithm
  check_algorithm-kind tags out z h =
      elim (Bool-cases (Text.eq out.algorithm (codes "rsa-sha256"))) [
        | inl w ↦ (rsa, unfold codes in eq→≡ out.algorithm (codes "rsa-sha256") w, ground arith)
        | inr w ↦ elim (Bool-cases (Text.eq out.algorithm (codes "ed25519-sha256"))) [
          | inl v ↦
              (ed25519, unfold codes in eq→≡ out.algorithm (codes "ed25519-sha256") v, ground arith)
          | inr v ↦ absurd (ground arith)
        ]
      ]

  check_required-IsVerified :
      (tags : Tags)
      → parse_strict_dkim_tags (value_at m.headers m.sig_index) ≡ ok tags
      → check_required crypto resolver m tags nothing_read ≡ r
      → IsVerified crypto resolver m r
  unfolding check_required check_headers_signed
  check_required-IsVerified tags e h =
      let named = record nothing_read {
        domain = Text.to_lower (Text.trim_space (tag_value tags (codes "d")));
        selector = Text.trim_space (tag_value tags (codes "s"));
        identity = tag_value tags (codes "i");
        algorithm = Text.to_lower (Text.trim_space (tag_value tags (codes "a")));
        headers_signed = split_header_list (tag_value tags (codes "h"));
      } in
      let (kind, a, k) = check_algorithm-kind tags named refl (ground arith) in
      let (x, c, s) = check_expiry-IsCovered crypto resolver m tags r p kind named refl k in
      record {
        tags = tags;
        parsed = e;
        version = λ v. eq→≡ (tag_value tags (codes "v")) (codes "1") (ground arith);
        domain = (s.domain, ground (arith, s));
        names = s.headers_signed;
        from_signed = ground (arith, s);
        kind = kind;
        algorithm = s.algorithm ∙ a;
        unexpired = x;
        covered = c;
      }

-- A signature passes only if its tags are read, its version is the one that is asked for, it names
-- a domain and signs the From field, its algorithm is one of the two, it is not expired, the hash of
-- the body, or of what its length leaves of it, is the one that it names, and the key that the
-- domain publishes accepts its signature of the header; an RSA key has 1024 bits at least.
pub verify_one_message_signature-IsVerified :
    (crypto : Crypto) (resolver : Resolver) (m : Signed)
    → (verify_one_message_signature crypto resolver m).result ≡ dkim_pass
    → IsVerified crypto resolver m (verify_one_message_signature crypto resolver m)
unfolding verify_one_message_signature
verify_one_message_signature-IsVerified crypto resolver m h =
    go (parse_strict_dkim_tags (value_at m.headers m.sig_index)) refl h
  where
    result_of : Result TagError Tags → SignatureResult
    result_of t = elim t [
      | err e ↦ refuse (bad_tags e) nothing_read
      | ok tags ↦ check_required crypto resolver m tags nothing_read
    ]

    go :
        (t : Result TagError Tags)
        → parse_strict_dkim_tags (value_at m.headers m.sig_index) ≡ t
        → (result_of t).result ≡ dkim_pass
        → IsVerified crypto resolver m (result_of t)
    go (err e) k q = absurd (ground arith)
    go (ok tags) k q = check_required-IsVerified crypto resolver m _ q tags k refl
