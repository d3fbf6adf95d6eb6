-- ===== src/Text/Lines.antt =====
-- `split_after` and `join`, on lines that end in a line feed.
use mailscript.Base.{
  ◌==◌, Bool-cases, All, ℕ, ◌≡◌, refl, sym, subst, ◌≢◌, inl, inr, List, [], ◌∷◌, ◌++◌, append-nil,
  arith,
}
use mailscript.Text
use mailscript.Text.{Bytes, push_word}

abbrev NotLf : ℕ → Type 0
NotLf c = c ≢ b'\n'

-- Lines as they are split: each ends in its only line feed, but for the last one, which may have none.
pub data AreLines : List Bytes → Type 0 where
  no_lines : AreLines []
  last_part : (l : Bytes) → All NotLf l → AreLines (l ∷ [])
  whole_line :
      (l : Bytes) {ls : List Bytes}
      → All NotLf l
      → AreLines ls
      → AreLines ((l ++ (b'\n' ∷ [])) ∷ ls)

push_word-AreLines : (c : ℕ) {ws : List Bytes} → NotLf c → AreLines ws → AreLines (push_word c ws)
push_word-AreLines c h no_lines = last_part (c ∷ []) (h, tt)
push_word-AreLines c h (last_part l k) = last_part (c ∷ l) (h, k)
push_word-AreLines c h (whole_line l k rest) = whole_line (c ∷ l) (h, k) rest

pub split_after-AreLines : (s : Bytes) → AreLines (Text.split_after b'\n' s)
unfolding Text.split_after
split_after-AreLines [] = last_part [] tt
split_after-AreLines (c ∷ s) = elim (Bool-cases (c == b'\n')) [
  | inl e ↦
      let same : b'\n' ≡ c = ground arith in
      rw e (
        subst (λ d. AreLines ((d ∷ []) ∷ Text.split_after b'\n' s)) same
          (whole_line [] tt (split_after-AreLines s)))
  | inr e ↦ rw e (push_word-AreLines c (ground arith) (split_after-AreLines s))
]

pub join-cons : (w : Bytes) (ws : List Bytes) → Text.join [] (w ∷ ws) ≡ w ++ Text.join [] ws
unfolding Text.join
join-cons w [] = sym (append-nil w)
join-cons w (v ∷ ws) = refl

pub split_after-last_part : (l : Bytes) → All NotLf l → Text.split_after b'\n' l ≡ l ∷ []
unfolding Text.split_after
split_after-last_part [] h = refl
split_after-last_part (c ∷ l) h = rw (split_after-last_part l h.1) (ground arith)

pub split_after-whole_line :
    (l rest : Bytes)
    → All NotLf l
    → Text.split_after b'\n' ((l ++ (b'\n' ∷ [])) ++ rest)
      ≡ (l ++ (b'\n' ∷ [])) ∷ Text.split_after b'\n' rest
unfolding Text.split_after
split_after-whole_line [] rest h = refl
split_after-whole_line (c ∷ l) rest h = rw (split_after-whole_line l rest h.1) (ground arith)

-- Text is what its lines make when they are joined again.
join-push_word : (c : ℕ) (ws : List Bytes) → Text.join [] (push_word c ws) ≡ c ∷ Text.join [] ws
unfolding Text.join
join-push_word c [] = refl
join-push_word c (w ∷ []) = refl
join-push_word c (w ∷ v ∷ ws) = refl

pub join-split_after : (s : Bytes) → Text.join [] (Text.split_after b'\n' s) ≡ s
unfolding Text.split_after
join-split_after [] = unfold Text.join in refl
join-split_after (c ∷ s) = elim (Bool-cases (c == b'\n')) [
  | inl e ↦ rw (e, join-cons (c ∷ []) (Text.split_after b'\n' s), join-split_after s) refl
  | inr e ↦ rw (e, join-push_word c (Text.split_after b'\n' s), join-split_after s) refl
]
