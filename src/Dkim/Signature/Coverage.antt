-- ===== src/Dkim/Signature/Coverage.antt =====
-- `verifyOneMessageSignature` of pkg/authverify/dkim.go: the parts from the canonicalizations on.
use mailscript.Base.{
  ltb, Bool-cases, Option-cases, length, take, Result-cases, ok, ℤ, pos, negsuc, ℕ, ◌≤◌, ◌<◌, ◌≡◌,
  refl, sym, ap, ◌∙◌, ◌⊎◌, inl, inr, true, false, not, ◌&&◌, Option, none, some, List, arith,
}
use mailscript.Text
use mailscript.Text.{Bytes, codes}
use mailscript.Text.Base64
use mailscript.Text.Laws.{eq→≡}
use mailscript.Spf.Types.{Resolver}
use mailscript.Dkim.Fields.{strip_whitespace}
use mailscript.Dkim.Tags.{Tags, tag_value}
use mailscript.Dkim.Canonical.{canonicalize_body, Canonicalization}
use mailscript.Dkim.Key.{
  PublicKey, rsa_key, ed25519_key, other_key, Crypto, DkimKey, dkim_pass, fetch_dkim_key,
}
use mailscript.Dkim.SignedInput.{build_signed_header_input}
use mailscript.Dkim.Outcome.{
  SignatureResult, KeyKind, rsa, ed25519, kind_name, bit_length, Signed, pass,
}
use mailscript.Dkim.Signature.{
  truncate_body, canon_names, check_canon, check_body, check_length, canon_of, value_at,
  check_signature, check_headers, check_key, check_body_hash,
}

-- What does not change from one part to the next.
record SameNames (s r : SignatureResult) : Type 0 where
  domain : r.domain ≡ s.domain
  selector : r.selector ≡ s.selector
  algorithm : r.algorithm ≡ s.algorithm
  headers_signed : r.headers_signed ≡ s.headers_signed
  body_truncated : r.body_truncated ≡ s.body_truncated
  signed_bytes : r.signed_bytes ≡ s.signed_bytes
  body_bytes : r.body_bytes ≡ s.body_bytes

pub record SignedNames (s r : SignatureResult) : Type 0 where
  pub domain : r.domain ≡ s.domain
  pub selector : r.selector ≡ s.selector
  pub algorithm : r.algorithm ≡ s.algorithm
  pub headers_signed : r.headers_signed ≡ s.headers_signed

-- The key is of that type, an RSA key has 1024 bits at least, and it accepts the signature.
abbrev pub Accepts : Crypto → KeyKind → PublicKey → Bytes → Bytes → Type 0
Accepts crypto rsa (rsa_key k) digest signature =
    (1024 ≤ bit_length k.modulus) × (crypto.rsa_verify k digest signature ≡ true)
Accepts crypto ed25519 (ed25519_key k) digest signature =
    crypto.ed25519_verify k digest signature ≡ true
Accepts _ _ _ _ _ = ⊥

-- A part of the verification that comes to the pass `r` comes to it by its last part.
check_signature-Accepts :
    (crypto : Crypto) (kind : KeyKind) (key : PublicKey) (digest signature : Bytes)
    (out r : SignatureResult)
    → r.result ≡ dkim_pass
    → check_signature crypto kind key digest signature out ≡ r
    → Accepts crypto kind key digest signature × SameNames out r
unfolding check_signature pass
check_signature-Accepts crypto rsa (rsa_key k) digest signature out r p h = ground arith
check_signature-Accepts crypto rsa (ed25519_key k) digest signature out r p h =
    absurd (ground arith)
check_signature-Accepts crypto rsa other_key digest signature out r p h = absurd (ground arith)
check_signature-Accepts crypto ed25519 (rsa_key k) digest signature out r p h =
    absurd (ground arith)
check_signature-Accepts crypto ed25519 (ed25519_key k) digest signature out r p h = ground arith
check_signature-Accepts crypto ed25519 other_key digest signature out r p h = absurd (ground arith)

module _ (crypto : Crypto) (resolver : Resolver) (m : Signed) (tags : Tags) where
  -- What is hashed for the signature.
  abbrev pub signed_input : Canonicalization → List Bytes → Bytes
  signed_input canon names =
      build_signed_header_input m.headers m.sig_index names (value_at m.headers m.sig_index) canon
        m.field_name

  -- The published key accepts the signature of the header.
  pub record IsSigned (kind : KeyKind) (canon : Canonicalization) (r : SignatureResult)
      : Type 0 where
    pub key : DkimKey
    pub published : fetch_dkim_key crypto resolver r.selector r.domain ≡ ok key
    pub signature : Bytes
    pub decoded : Base64.decode (strip_whitespace (tag_value tags (codes "b"))) ≡ some signature
    pub accepted :
        Accepts crypto kind key.key (crypto.sha256 (signed_input canon r.headers_signed)) signature

  -- The hash of what is signed of the body is the one that the signature names.
  pub record IsHashed (kind : KeyKind) (canon : Canonicalization) (r : SignatureResult)
      (body : Bytes) : Type 0 where
    pub hashed :
        Base64.decode (strip_whitespace (tag_value tags (codes "bh"))) ≡ some (crypto.sha256 body)
    pub signed : IsSigned kind canon r

  -- The body is signed as a whole, or, with a length, up to that length, and then `r` says so, and how
  -- many bytes of how many.
  abbrev pub Covers : Canonicalization → SignatureResult → Bytes → Type 0
  Covers canon r body =
      ((r.body_truncated ≡ false) × (body ≡ canonicalize_body m.body canon))
      ⊎ ((n : ℕ) × (Text.atoi (Text.trim_space (tag_value tags (codes "l"))) ≡ some (pos n))
          × (n < length (canonicalize_body m.body canon))
          × (body ≡ take n (canonicalize_body m.body canon))
          × (r.body_truncated ≡ true)
          × (r.signed_bytes ≡ length body)
          × (r.body_bytes ≡ length (canonicalize_body m.body canon)))

  -- What is signed, by the canonicalizations.
  pub record IsCovered (kind : KeyKind) (r : SignatureResult) : Type 0 where
    pub header_canon : Canonicalization
    pub body_canon : Canonicalization
    pub canons :
        (canon_of (canon_names (Text.trim_space (tag_value tags (codes "c")))).0
          ≡ some header_canon)
        × (canon_of (canon_names (Text.trim_space (tag_value tags (codes "c")))).1
            ≡ some body_canon)
    pub body : Bytes
    pub covers : Covers body_canon r body
    pub hash : IsHashed kind header_canon r body

  module _ (r : SignatureResult) (p : r.result ≡ dkim_pass) where
    check_headers-pass :
        (kind : KeyKind) (canon : Canonicalization) (key : PublicKey) (out : SignatureResult)
        → check_headers crypto resolver m tags kind canon key out ≡ r
        → (signature : Bytes) × (Base64.decode (strip_whitespace (tag_value tags (codes "b")))
            ≡ some signature)
          × Accepts crypto kind key
              (crypto.sha256 (signed_input canon out.headers_signed))
              signature
          × SameNames out r
    unfolding check_headers
    check_headers-pass kind canon key out h =
        elim (Option-cases (Base64.decode (strip_whitespace (tag_value tags (codes "b"))))) [
          | inl e ↦ absurd (ground (arith, e))
          | inr e ↦
              let (a, s) =
                check_signature-Accepts crypto kind key
                  (crypto.sha256 (signed_input canon out.headers_signed)) e.0 out r p
                  (ground (arith, e.1)) in
              (e.0, e.1, a, s)
        ]

    check_key-IsSigned :
        (kind : KeyKind) (canon : Canonicalization) (out : SignatureResult)
        → check_key crypto resolver m tags kind canon out ≡ r
        → IsSigned kind canon r × SameNames out r
    unfolding check_key
    check_key-IsSigned kind canon out h =
        elim (Result-cases (fetch_dkim_key crypto resolver out.selector out.domain)) [
          | inr e ↦ absurd (ground (arith, e.1))
          | inl e ↦
              elim (Bool-cases
                (not (Text.is_empty e.0.key_type) && not (Text.eq e.0.key_type (kind_name kind)))) [
                  | inl w ↦ absurd (ground (arith, e.1))
                  | inr w ↦
                      let (signature, d, a, s) =
                        check_headers-pass kind canon e.0.key out (ground (arith, e.1)) in
                      (
                        record {
                          key = e.0;
                          published = rw (s.selector, s.domain) (e.1);
                          signature = signature;
                          decoded = d;
                          accepted = rw (s.headers_signed) a;
                        },
                        s,
                      )
                ]
        ]

    check_body_hash-IsHashed :
        (kind : KeyKind) (canon : Canonicalization) (body : Bytes) (out : SignatureResult)
        → check_body_hash crypto resolver m tags kind canon (body, out) ≡ r
        → IsHashed kind canon r body × SameNames out r
    unfolding check_body_hash
    check_body_hash-IsHashed kind canon body out h =
        elim (Option-cases (Base64.decode (strip_whitespace (tag_value tags (codes "bh"))))) [
          | inl e ↦ absurd (ground (arith, e))
          | inr e ↦ elim (Bool-cases (Text.eq (crypto.sha256 body) e.0)) [
            | inr w ↦ absurd (ground (arith, e.1))
            | inl w ↦
                let (i, s) = check_key-IsSigned kind canon out (ground (arith, e.1)) in
                (
                  record {
                    hashed = e.1 ∙ ap some (sym (eq→≡ (crypto.sha256 body) e.0 w));
                    signed = i;
                  },
                  s,
                )
          ]
        ]

    check_length-Covers :
        (kind : KeyKind) (canon body_canon : Canonicalization) (l : Option ℤ)
        (out : SignatureResult)
        → out.body_truncated ≡ false
        → out.body_bytes ≡ length (canonicalize_body m.body body_canon)
        → Text.atoi (Text.trim_space (tag_value tags (codes "l"))) ≡ l
        → check_length crypto resolver m tags kind canon (canonicalize_body m.body body_canon) l out
          ≡ r
        → (body : Bytes) × Covers body_canon r body × IsHashed kind canon r body × SignedNames out r
    unfolding check_length truncate_body
    check_length-Covers kind canon body_canon none out z b e h = absurd (ground arith)
    check_length-Covers kind canon body_canon (some (negsuc n)) out z b e h = absurd (ground arith)
    check_length-Covers kind canon body_canon (some (pos n)) out z b e h =
        let canonical = canonicalize_body m.body body_canon in
        let cut = record out { body_truncated = true; signed_bytes = length (take n canonical) } in
        elim (Bool-cases (ltb n (length canonical))) [
          | inl w ↦
              let (i, s) =
                check_body_hash-IsHashed kind canon (take n canonical) cut (ground (arith, w)) in
              (
                take n canonical,
                inr (n, e, ground arith, refl, s.body_truncated, s.signed_bytes, s.body_bytes ∙ b),
                i,
                ground (arith, s),
              )
          | inr w ↦
              let (i, s) = check_body_hash-IsHashed kind canon canonical out (ground (arith, w)) in
              (canonical, inl (s.body_truncated ∙ z, refl), i, ground (arith, s))
        ]

    check_body-Covers :
        (kind : KeyKind) (canon body_canon : Canonicalization) (out : SignatureResult)
        → out.body_truncated ≡ false
        → check_body crypto resolver m tags kind canon body_canon out ≡ r
        → (body : Bytes) × Covers body_canon r body × IsHashed kind canon r body × SignedNames out r
    unfolding check_body
    check_body-Covers kind canon body_canon out z h =
        let canonical = canonicalize_body m.body body_canon in
        let sized = record out { body_bytes = length canonical; signed_bytes = length canonical } in
        elim (Bool-cases (Text.is_empty (Text.trim_space (tag_value tags (codes "l"))))) [
          | inl w ↦
              let (i, s) = check_body_hash-IsHashed kind canon canonical sized (ground arith) in
              (canonical, inl (s.body_truncated ∙ z, refl), i, ground (arith, s))
          | inr w ↦
              let (body, c, i, s) =
                check_length-Covers kind canon body_canon
                  (Text.atoi (Text.trim_space (tag_value tags (codes "l")))) sized z refl refl
                  (ground arith) in
              (body, c, i, ground (arith, s))
        ]

    pub check_canon-IsCovered :
        (kind : KeyKind) (out : SignatureResult)
        → out.body_truncated ≡ false
        → check_canon crypto resolver m tags kind out ≡ r
        → IsCovered kind r × SignedNames out r
    unfolding check_canon
    check_canon-IsCovered kind out z h =
        let names = canon_names (Text.trim_space (tag_value tags (codes "c"))) in
        elim (Option-cases (canon_of names.0)) [
          | inl e ↦ absurd (ground (arith, e))
          | inr e ↦ elim (Option-cases (canon_of names.1)) [
            | inl f ↦ absurd (ground (arith, e.1, f))
            | inr f ↦
                let (body, c, i, s) =
                  check_body-Covers kind e.0 f.0 out z (ground (arith, e.1, f.1)) in
                (
                  record {
                    header_canon = e.0;
                    body_canon = f.0;
                    canons = (e.1, f.1);
                    body = body;
                    covers = c;
                    hash = i;
                  },
                  s,
                )
          ]
        ]
