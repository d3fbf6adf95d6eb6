-- ===== src/Transport/Matching.antt =====
-- Which mail hosts `AllowsMX` of pkg/authverify/transport.go takes.
use mailscript.Base.{
  Bool-cases, length, drop, any, length-append, ◌+◌, ◌≡◌, refl, sym, ap, ◌∙◌, ◌↔◌, inl, inr, Bool,
  true, false, not, ◌&&◌, ◌||◌, List, [], ◌∷◌, ◌++◌, reverse, arith,
}
use mathlib.Core.List.{Memᴰ, reverse-append, reverse-reverse}
use mailscript.Text
use mailscript.Text.{Bytes, codes}
use mailscript.Text.Laws.{eq_refl, eq→≡, has_prefix-append, has_prefix-drop}
use mailscript.Transport.{
  is_valid, MtaStsPolicy, normalize_policy_domain, allows_pattern, allows_mx,
}

-- The pattern as it is compared: in lower case, without a final dot.
abbrev pub plain : Bytes → Bytes
plain pattern = Text.to_lower (Text.trim_suffix (codes ".") pattern)

-- The host is the pattern, or the pattern is "*." and a name, and the host is that name behind any
-- text and a dot.
pub data Matches (host pattern : Bytes) : Type 0 where
  same_name : host ≡ pattern → Matches host pattern
  below :
      (front name : Bytes)
      → pattern ≡ codes "*." ++ name
      → host ≡ front ++ (b'.' ∷ name)
      → Matches host pattern

has_suffix-append : (s t : Bytes) → Text.has_suffix s t ≡ true → (front : Bytes) × (t ≡ front ++ s)
unfolding Text.has_suffix
has_suffix-append s t h =
    let rest = drop (length (reverse s)) (reverse t) in
    (
      reverse rest,
      sym (reverse-reverse t)
          ∙ (ap reverse (has_prefix-drop (reverse s) (reverse t) h)
              ∙ (reverse-append (reverse s) rest
                  ∙ ap (λ r. reverse rest ++ r) (reverse-reverse s))),
    )

append-has_suffix : (front s : Bytes) → Text.has_suffix s (front ++ s) ≡ true
unfolding Text.has_suffix
append-has_suffix front s =
    ap (Text.has_prefix (reverse s)) (reverse-append front s)
    ∙ has_prefix-append (reverse s) (reverse front)

longer : (front name : Bytes) → Text.eq (front ++ (b'.' ∷ name)) name ≡ false
longer front name = elim (Bool-cases (Text.eq (front ++ (b'.' ∷ name)) name)) [
  | inr e ↦ e
  | inl e ↦
      let sizes : length front + length (b'.' ∷ name) ≡ length name =
        sym (length-append front (b'.' ∷ name))
        ∙ ap length (eq→≡ (front ++ (b'.' ∷ name)) name e) in
      absurd (omega (arith, sizes))
]

allows-Matches :
    (host pattern : Bytes)
    → (Text.eq host pattern
        || Text.has_prefix (codes "*.") pattern
          && Text.has_suffix (drop 1 pattern) host
          && not (Text.eq host (drop 2 pattern)))
      ≡ true
    → Matches host pattern
allows-Matches host pattern h = elim (Bool-cases (Text.eq host pattern)) [
  | inl e ↦ same_name (eq→≡ host pattern e)
  | inr e ↦
      let wild : Text.has_prefix (codes "*.") pattern ≡ true = ground (arith, e, h) in
      let ends : Text.has_suffix (drop 1 pattern) host ≡ true = ground (arith, e, h) in
      let named : pattern ≡ codes "*." ++ drop 2 pattern =
        unfold codes in has_prefix-drop (codes "*.") pattern wild in
      let dotted : drop 1 pattern ≡ b'.' ∷ drop 2 pattern = unfold codes in ap (drop 1) named in
      let found = has_suffix-append (drop 1 pattern) host ends in
      below found.0 (drop 2 pattern) named (found.1 ∙ ap (λ r. found.0 ++ r) dotted)
]

Matches-allows :
    (host pattern : Bytes)
    → Matches host pattern
    → (Text.eq host pattern
        || Text.has_prefix (codes "*.") pattern
          && Text.has_suffix (drop 1 pattern) host
          && not (Text.eq host (drop 2 pattern)))
      ≡ true
unfolding codes
Matches-allows host pattern (same_name e) = rw e (rw (eq_refl pattern) refl)
Matches-allows host pattern (below front name e g) =
    rw (e, g)
      (rw
        (
          has_prefix-append (codes "*.") name,
          append-has_suffix front (b'.' ∷ name),
          longer front name,
        )
        (ground arith))

module _ {ℓ} {A : Type ℓ} (p : A → Bool) where
  any→Mem : (ys : List A) → any p ys ≡ true → (x : A) × Memᴰ x ys × (p x ≡ true)
  any→Mem [] h = cc
  any→Mem (y ∷ ys) h = elim (Bool-cases (p y)) [
    | inl e ↦ (y, Memᴰ.head refl, e)
    | inr e ↦ let (x, m, k) = any→Mem ys (ground (arith, e, h)) in (x, Memᴰ.tail m, k)
  ]

  Mem→any : (x : A) (ys : List A) → Memᴰ x ys → p x ≡ true → any p ys ≡ true
  Mem→any x [] m h = elim m [ ]
  Mem→any x (y ∷ ys) (Memᴰ.head e) h = rw (sym (ap p e) ∙ h) refl
  Mem→any x (y ∷ ys) (Memᴰ.tail m) h = rw (Mem→any x ys m h) (ground arith)

-- A host is allowed exactly if the policy is valid, the host is a host name, and it matches one of the
-- patterns, up to case and a final dot: it is that name, or the pattern is "*." and a name, and
-- the host ends in a dot and this name, whatever stands before.
pub allows_mx_exact :
    (p : MtaStsPolicy) (given : Bytes)
    → let host = normalize_policy_domain given in
      (allows_mx p given ≡ true) ↔ (
        (is_valid p.result ≡ true)
        × (Text.is_empty host ≡ false)
        × ((pattern : Bytes) × Memᴰ pattern p.mx × Matches host (plain pattern)))
unfolding allows_mx allows_pattern
allows_mx_exact p given =
    let host = normalize_policy_domain given in
    (
      λ h. elim (Bool-cases (not (is_valid p.result) || Text.is_empty host)) [
        | inl e ↦ absurd (ground (arith, rw (e, allows_mx) at h))
        | inr e ↦
            let (pattern, m, k) = any→Mem (allows_pattern host) p.mx (rw (e, allows_mx) at h) in
            (
              ground (arith, e),
              ground (arith, e),
              (pattern, m, allows-Matches host (plain pattern) k),
            )
      ],
      λ (valid, named, (pattern, m, k)).
          rw (valid, named)
            (Mem→any (allows_pattern host) pattern p.mx m (Matches-allows host (plain pattern) k)),
    )
