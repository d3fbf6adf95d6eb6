-- ===== src/Text/Laws.antt =====
-- Laws of the functions on bytes.
use mailscript.Base.{
  ◌==◌, ==_iff, Bool-cases, Option-cases, length, drop, All, All-append, ℕ, ◌≡◌, refl, sym, ap, ◌∙◌,
  ◌≢◌, ◌↔◌, inl, inr, Bool, true, false, some, List, [], ◌∷◌, ◌++◌, map, reverse, arith,
}
use mathlib.Core.List.{map-append, reverse-append, reverse-reverse}
use mailscript.Text

pub eq_refl : (s : Text.Bytes) → Text.eq s s ≡ true
unfolding Text.eq
eq_refl [] = refl
eq_refl (c ∷ s) = ground (arith, eq_refl s)

pub eq→≡ : (s t : Text.Bytes) → Text.eq s t ≡ true → s ≡ t
unfolding Text.eq
eq→≡ [] [] h = refl
eq→≡ [] (y ∷ ys) h = cc
eq→≡ (x ∷ xs) [] h = cc
eq→≡ (x ∷ xs) (y ∷ ys) h = ground (arith, eq→≡ xs ys)

pub eq_iff : (s t : Text.Bytes) → (Text.eq s t ≡ true) ↔ (s ≡ t)
eq_iff s t = (eq→≡ s t, λ p. rw p (eq_refl t))

pub eq_comm : (s t : Text.Bytes) → Text.eq s t ≡ Text.eq t s
unfolding Text.eq
eq_comm [] [] = refl
eq_comm [] (y ∷ ys) = refl
eq_comm (x ∷ xs) [] = refl
eq_comm (x ∷ xs) (y ∷ ys) = ground (arith, eq_comm xs ys)

pub has_prefix-append : (p s : Text.Bytes) → Text.has_prefix p (p ++ s) ≡ true
unfolding Text.has_prefix
has_prefix-append [] s = refl
has_prefix-append (c ∷ p) s = ground (arith, has_prefix-append p s)

pub has_prefix-drop : (p s : Text.Bytes) → Text.has_prefix p s ≡ true → s ≡ p ++ drop (length p) s
unfolding Text.has_prefix
has_prefix-drop [] s h = refl
has_prefix-drop (c ∷ p) [] h = cc
has_prefix-drop (c ∷ p) (d ∷ s) h =
    let same : d ≡ c = ground (arith, h) in
    ap (λ x. x ∷ s) same ∙ ap (λ r. c ∷ r) (has_prefix-drop p s (ground (arith, h)))

-- A predicate of every byte survives the cutting and joining of texts.
module _ {κ} (P : ℕ → Type κ) where
  pub All-remove_byte : (b : ℕ) (s : Text.Bytes) → All P s → All P (Text.remove_byte b s)
  unfolding Text.remove_byte
  All-remove_byte b [] h = tt
  All-remove_byte b (c ∷ s) h = elim (Bool-cases (c == b)) [
    | inl e ↦ rw e (All-remove_byte b s h.1)
    | inr e ↦ rw e (h.0, All-remove_byte b s h.1)
  ]

  pub All-join :
      (sep : Text.Bytes) (ws : List Text.Bytes)
      → All P sep
      → All (All P) ws
      → All P (Text.join sep ws)
  unfolding Text.join
  All-join sep [] k h = tt
  All-join sep (w ∷ []) k h = h.0
  All-join sep (w ∷ v ∷ ws) k h =
      All-append P w _ h.0 (All-append P sep _ k (All-join sep (v ∷ ws) k h.1))

-- No byte of a text is the one that was removed from it.
pub remove_byte_lem : (b : ℕ) (s : Text.Bytes) → All (λ c. c ≢ b) (Text.remove_byte b s)
unfolding Text.remove_byte
remove_byte_lem b [] = tt
remove_byte_lem b (c ∷ s) = elim (Bool-cases (c == b)) [
  | inl e ↦ rw e (remove_byte_lem b s)
  | inr e ↦ rw e (ground arith, remove_byte_lem b s)
]

All-non_empty {κ} :
    (P : ℕ → Type κ) (ws : List Text.Bytes) → All (All P) ws → All (All P) (Text.non_empty ws)
unfolding Text.non_empty
All-non_empty P [] h = tt
All-non_empty P ([] ∷ ws) h = All-non_empty P ws h.1
All-non_empty P ((c ∷ w) ∷ ws) h = (h.0, All-non_empty P ws h.1)

-- The parts hold the bytes between the separators, and no separator.
module _ {κ μ} (Q : ℕ → Type κ) (P : ℕ → Type μ) (cut : ℕ → Bool)
    (keep : (c : ℕ) → Q c → cut c ≡ false → P c) where
  push_word-All :
      (c : ℕ) (ws : List Text.Bytes) → P c → All (All P) ws → All (All P) (Text.push_word c ws)
  push_word-All c [] h k = ((h, tt), tt)
  push_word-All c (w ∷ ws) h k = ((h, k.0), k.1)

  pub All-split_func : (s : Text.Bytes) → All Q s → All (All P) (Text.split_func cut s)
  unfolding Text.split_func
  All-split_func [] h = (tt, tt)
  All-split_func (c ∷ s) h = elim (Bool-cases (cut c)) [
    | inl e ↦ rw e (tt, All-split_func s h.1)
    | inr e ↦ rw e (push_word-All c _ (keep c h.0 e) (All-split_func s h.1))
  ]

  pub All-fields_func : (s : Text.Bytes) → All Q s → All (All P) (Text.fields_func cut s)
  unfolding Text.fields_func
  All-fields_func s h = All-non_empty P (Text.split_func cut s) (All-split_func s h)

pub cut-eq-some :
    (b : ℕ) (s : Text.Bytes) (p : Text.Bytes × Text.Bytes)
    → Text.cut b s ≡ some p
    → s ≡ p.0 ++ (b ∷ p.1)
unfolding Text.cut
cut-eq-some b [] p h = cc
cut-eq-some b (c ∷ s) p h = elim (Bool-cases (c == b)) [
  | inl e ↦ ground arith
  | inr e ↦ elim (Option-cases (Text.cut b s)) [
    | inl n ↦ ground arith
    | inr n ↦ ground (arith, cut-eq-some b s n.0 n.1)
  ]
]

pub cut-append :
    (b : ℕ) (s t : Text.Bytes) → All (λ c. c ≢ b) s → Text.cut b (s ++ (b ∷ t)) ≡ some (s, t)
unfolding Text.cut
cut-append b [] t h = ground arith
cut-append b (c ∷ s) t h = elim (Bool-cases (c == b)) [
  | inl e ↦ absurd (h.0 ((==_iff c b).0 e))
  | inr e ↦ rw (e, cut-append b s t h.1)
]

trim_left-stop :
    (cut : ℕ → Bool) (c : ℕ) (s : Text.Bytes) → cut c ≡ false → Text.trim_left cut (c ∷ s) ≡ c ∷ s
unfolding Text.trim_left
trim_left-stop cut c s h = rw h

-- A text whose ends are kept is kept.
pub trim_lem :
    (cut : ℕ → Bool) (c d : ℕ) (s : Text.Bytes)
    → cut c ≡ false
    → cut d ≡ false
    → Text.trim cut (c ∷ (s ++ (d ∷ []))) ≡ c ∷ (s ++ (d ∷ []))
unfolding Text.trim
trim_lem cut c d s h k =
    ap reverse (
      ap (Text.trim_left cut)
        (ap reverse (trim_left-stop cut c (s ++ (d ∷ [])) h) ∙ reverse-append (c ∷ s) (d ∷ []))
      ∙ trim_left-stop cut d (reverse (c ∷ s)) k)
    ∙ (ap reverse (sym (reverse-append (c ∷ s) (d ∷ []))) ∙ reverse-reverse (c ∷ (s ++ (d ∷ []))))

pub has_prefix-eq :
    (c : ℕ) (s : Text.Bytes) → Text.has_prefix (c ∷ []) s ≡ true → (r : Text.Bytes) × (s ≡ c ∷ r)
unfolding Text.has_prefix
has_prefix-eq c [] h = cc
has_prefix-eq c (d ∷ s) h = (s, ground arith)

-- A command in capitals is found at the head of the line that it begins.
pub has_prefix-to_upper :
    (p s : Text.Bytes) → Text.to_upper p ≡ p → Text.has_prefix p (Text.to_upper (p ++ s)) ≡ true
unfolding Text.to_upper
has_prefix-to_upper p s u = rw (map-append, u) (has_prefix-append p (map Text.upper_byte s))

abbrev pub AreWords : List Text.Bytes → Type 0
AreWords = All (λ w. Text.is_empty w ≡ false)

non_empty-AreWords : (ws : List Text.Bytes) → AreWords (Text.non_empty ws)
unfolding Text.non_empty
non_empty-AreWords [] = tt
non_empty-AreWords ([] ∷ ws) = non_empty-AreWords ws
non_empty-AreWords ((c ∷ w) ∷ ws) = (refl, non_empty-AreWords ws)

-- No part of a text between white space is empty.
pub fields-AreWords : (s : Text.Bytes) → AreWords (Text.fields s)
unfolding Text.fields Text.fields_func
fields-AreWords s = non_empty-AreWords (Text.split_func Text.is_space s)
