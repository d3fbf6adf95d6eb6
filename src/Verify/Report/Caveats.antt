-- ===== src/Verify/Report/Caveats.antt =====
-- `Warnings` of pkg/authverify/verify.go: a signature that leaves a part of the body unsigned.
use mailscript.Base.{
  ltb, ◌==◌, Bool-cases, length, take, ℕ, ◌≡◌, refl, sym, ap, subst, ◌⊎◌, inl, inr, true, not, List,
  [], ◌∷◌, map, arith,
}
use mathlib.Core.List.{Memᴰ}
use mathlib.Core.List.Memᴰ
use mailscript.Dkim.Outcome.{SignatureResult}
use mailscript.Text.{Bytes, codes}
use mailscript.Spf.Types.{Resolver}
use mailscript.Dkim.Canonical.{canonicalize_body}
use mailscript.Dkim.Fields.{Headers, count_header}
use mailscript.Dkim.Key.{Crypto, dkim_pass}
use mailscript.Dkim.Outcome.{Signed}
use mailscript.Dkim.Signature.{verify_one_message_signature}
use mailscript.Dkim.Signature.Soundness.{IsVerified, verify_one_message_signature-IsVerified}
use mailscript.Dkim.Result.{
  DkimOutcome, positions_from, signature_field, max_signatures, verify_one_dkim, verify_signatures,
  verify_dkim,
}
use mailscript.Verify.{Verification}
use mailscript.Verify.Report.{
  Warning, covers_part, signature_warnings, signatures_warnings, warnings,
}

signature_warnings-Mem :
    (s : SignatureResult)
    → s.body_truncated ≡ true
    → Memᴰ (covers_part s.domain s.signed_bytes s.body_bytes) (signature_warnings s)
unfolding signature_warnings
signature_warnings-Mem s h = rw h (Memᴰ.head refl)

signatures_warnings-Mem :
    (s : SignatureResult) (w : Warning) (signatures : List SignatureResult)
    → Memᴰ w (signature_warnings s)
    → Memᴰ s signatures
    → Memᴰ w (signatures_warnings signatures)
unfolding signatures_warnings
signatures_warnings-Mem s w [] h m = elim m [ ]
signatures_warnings-Mem s w (x ∷ signatures) h (Memᴰ.head e) =
    Memᴰ.append_left (signatures_warnings signatures)
      (subst (λ y. Memᴰ w (signature_warnings y)) e h)
signatures_warnings-Mem s w (x ∷ signatures) h (Memᴰ.tail m) =
    Memᴰ.append_right (signature_warnings x) (signatures_warnings-Mem s w signatures h m)

map-Memᴰ :
    (f : ℕ → SignatureResult) (s : SignatureResult) (is : List ℕ)
    → Memᴰ s (map f is)
    → (i : ℕ) × (s ≡ f i)
map-Memᴰ f s [] m = elim m [ ]
map-Memᴰ f s (i ∷ is) (Memᴰ.head e) = (i, e)
map-Memᴰ f s (i ∷ is) (Memᴰ.tail m) = map-Memᴰ f s is m

alone-Memᴰ : (s x : SignatureResult) → Memᴰ s (x ∷ []) → s ≡ x
alone-Memᴰ s x (Memᴰ.head e) = e
alone-Memᴰ s x (Memᴰ.tail m) = elim m [ ]

module _ (crypto : Crypto) (resolver : Resolver) (headers : Headers) (body : Bytes) (now : ℕ) where
  abbrev pub signed_at : ℕ → Signed
  signed_at i = record {
    headers = headers;
    sig_index = i;
    body = body;
    now = now;
    field_name = signature_field;
    require_version = true;
  }

  -- A signature of the message that passes stands at a field of it.
  signature_at :
      (s : SignatureResult)
      → Memᴰ s (verify_dkim crypto resolver headers body now).signatures
      → s.result ≡ dkim_pass
      → (i : ℕ) × (s ≡ verify_one_message_signature crypto resolver (signed_at i))
  unfolding verify_dkim verify_signatures verify_one_dkim
  signature_at s m p =
      let positions = positions_from 0 signature_field headers in
      elim (Bool-cases (length positions == 0)) [
        | inl e ↦ elim (rw e at m) [ ]
        | inr e ↦ elim (Bool-cases (not resolver.enabled)) [
          | inl f ↦
              let same = alone-Memᴰ s _ (rw (e, f) at m) in
              absurd (ground (arith, ap (λ x. x.result) same))
          | inr f ↦ elim (Bool-cases (ltb 1 (count_header headers (codes "From")))) [
            | inl g ↦
                let same = alone-Memᴰ s _ (rw (e, f, g) at m) in
                absurd (ground (arith, ap (λ x. x.result) same))
            | inr g ↦
                map-Memᴰ (λ i. verify_one_message_signature crypto resolver (signed_at i)) s
                  (take max_signatures positions) (rw (e, f, g) at m)
          ]
        ]
      ]

  -- What is hashed for a verified signature is the whole of the body, or the warnings say how much of
  -- it that is.
  covers_part-warned :
      (r : Verification) (i : ℕ)
      → (v : IsVerified crypto resolver
          (signed_at i)
          (verify_one_message_signature crypto resolver (signed_at i)))
      → Memᴰ (verify_one_message_signature crypto resolver (signed_at i)) r.dkim.signatures
      → (v.covered.body ≡ canonicalize_body body v.covered.body_canon)
        ⊎ Memᴰ
            (covers_part
              (verify_one_message_signature crypto resolver (signed_at i)).domain
              (length v.covered.body)
              (length (canonicalize_body body v.covered.body_canon)))
            (warnings r)
  unfolding warnings
  covers_part-warned r i v m =
      let s = verify_one_message_signature crypto resolver (signed_at i) in
      elim v.covered.covers [
        | inl (t, whole) ↦ inl whole
        | inr (n, l, few, cut, t, signed, all_bytes) ↦ inr (
            subst (λ (x : ℕ × ℕ). Memᴰ (covers_part s.domain x.0 x.1) (warnings r))
              (λ j. (signed j, all_bytes j))
              (Memᴰ.append_left _ (
                signatures_warnings-Mem s (covers_part s.domain s.signed_bytes s.body_bytes)
                  r.dkim.signatures (signature_warnings-Mem s t) m)))
      ]

  -- Every signature of the message that passes is one field of it that is verified, and the hash that
  -- it names is that of the whole body in its canonical form, or else the warnings hold its domain and
  -- how many bytes of how many the hash is of, whatever the verdict on the message is.
  pub warnings-covers_part :
      (r : Verification) (s : SignatureResult)
      → r.dkim ≡ verify_dkim crypto resolver headers body now
      → Memᴰ s r.dkim.signatures
      → s.result ≡ dkim_pass
      → (i : ℕ) × (v : IsVerified crypto resolver (signed_at i) s) × ((v.covered.body
            ≡ canonicalize_body body v.covered.body_canon)
          ⊎ Memᴰ
              (covers_part s.domain
                (length v.covered.body)
                (length (canonicalize_body body v.covered.body_canon)))
              (warnings r))
  warnings-covers_part r s d m p =
      let (i, e) = signature_at s (subst (λ (o : DkimOutcome). Memᴰ s o.signatures) d m) p in
      let (v, told) =
        subst
          (λ x.
            Memᴰ x r.dkim.signatures
            → x.result ≡ dkim_pass
            → (v : IsVerified crypto resolver (signed_at i) x) × ((v.covered.body
                  ≡ canonicalize_body body v.covered.body_canon)
                ⊎ Memᴰ
                    (covers_part x.domain (length v.covered.body)
                      (length (canonicalize_body body v.covered.body_canon)))
                    (warnings r)))
          (sym e)
          (λ n q.
            let v = verify_one_message_signature-IsVerified crypto resolver (signed_at i) q in
            (v, covers_part-warned r i v n))
          m p in
      (i, v, told)
