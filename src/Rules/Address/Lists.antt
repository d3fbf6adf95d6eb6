-- ===== src/Rules/Address/Lists.antt =====
-- What `splitAddressList` and `splitAddress` of pkg/rules/message.go keep of their text.
use mailscript.Base.{
  ◌==◌, if◌then◌else◌, Bool-cases, List-cases, All, ℕ, ◌≡◌, refl, sym, ap, ◌∙◌, ◌≢◌, ◌⊎◌, inl, inr,
  Bool, true, false, not, ◌&&◌, ◌||◌, Option, none, some, List, [], ◌∷◌, ◌++◌, arith,
}
use mailscript.Text
use mailscript.Text.{Bytes}
use mailscript.Text.Runes.{write_runes, IsUtf8}
use mailscript.Rules.Address.{
  split_list_from, drop_last_blank, split_address_list, quotes_after, angle_after,
}

abbrev comma : Bytes
comma = b',' ∷ []

-- A list that is not empty.
abbrev pub IsFilled : List Bytes → Type 0
IsFilled ws = (w : Bytes) × (vs : List Bytes) × (ws ≡ w ∷ vs)

push_word-IsFilled : (c : ℕ) (ws : List Bytes) → IsFilled (Text.push_word c ws)
push_word-IsFilled c [] = (c ∷ [], [], refl)
push_word-IsFilled c (w ∷ ws) = (c ∷ w, ws, refl)

split_list_from-IsFilled : (q a : Bool) (s : Bytes) → IsFilled (split_list_from q a s)
unfolding split_list_from
split_list_from-IsFilled q a [] = ([], [], refl)
split_list_from-IsFilled q a (c ∷ s) = elim (Bool-cases (c == b',' && not q && not a)) [
  | inl e ↦ rw e ([], split_list_from (quotes_after c q) (angle_after c q a) s, refl)
  | inr e ↦ rw e (push_word-IsFilled c _)
]

join-push_word :
    (c : ℕ) (ws : List Bytes)
    → IsFilled ws
    → Text.join comma (Text.push_word c ws) ≡ c ∷ Text.join comma ws
unfolding Text.join
join-push_word c [] (w, vs, e) = cc
join-push_word c (w ∷ []) h = refl
join-push_word c (w ∷ v ∷ ws) h = refl

join-empty : (ws : List Bytes) → IsFilled ws → Text.join comma ([] ∷ ws) ≡ b',' ∷ Text.join comma ws
unfolding Text.join
join-empty [] (w, vs, e) = cc
join-empty (w ∷ ws) h = refl

join-split_list_from : (q a : Bool) (s : Bytes) → Text.join comma (split_list_from q a s) ≡ s
unfolding split_list_from
join-split_list_from q a [] = unfold Text.join in refl
join-split_list_from q a (c ∷ s) =
    let later = join-split_list_from (quotes_after c q) (angle_after c q a) s in
    let filled = split_list_from-IsFilled (quotes_after c q) (angle_after c q a) s in
    elim (Bool-cases (c == b',' && not q && not a)) [
      | inl e ↦
          let same : c ≡ b',' = ground arith in
          rw e (join-empty _ filled ∙ (ap (λ t. b',' ∷ t) later ∙ ap (λ d. d ∷ s) (sym same)))
      | inr e ↦ rw e (join-push_word c _ filled ∙ ap (λ t. c ∷ t) later)
    ]

-- The parts without the last one, if it is blank.
drop_last_blank_lem :
    (ws : List Bytes)
    → (drop_last_blank ws ≡ ws)
      ⊎ ((blank : Bytes) × (Text.trim_space blank ≡ []) × (drop_last_blank ws ++ (blank ∷ []) ≡ ws))
unfolding drop_last_blank
drop_last_blank_lem [] = inl refl
drop_last_blank_lem (w ∷ []) = elim (List-cases (Text.trim_space w)) [
  | inl e ↦ inr (w, e, rw e refl)
  | inr (c, s, e) ↦ inl (rw e refl)
]
drop_last_blank_lem (w ∷ v ∷ ws) = elim (drop_last_blank_lem (v ∷ ws)) [
  | inl e ↦ inl (ap (λ r. w ∷ r) e)
  | inr (blank, b, e) ↦ inr (blank, b, ap (λ r. w ∷ r) e)
]

-- The parts of an address list, joined by commas, are the list as it is written rune by rune; where a
-- part behind the last comma, or the whole list, is blank, they are it with that blank part behind them.
pub split_address_list-join :
    (s : Bytes)
    → (Text.join (b',' ∷ []) (split_address_list s) ≡ write_runes s)
      ⊎ ((blank : Bytes) × (Text.trim_space blank ≡ [])
          × (Text.join (b',' ∷ []) (split_address_list s ++ (blank ∷ [])) ≡ write_runes s))
unfolding split_address_list
split_address_list-join s =
    let all_parts = join-split_list_from false false (write_runes s) in
    elim (drop_last_blank_lem (split_list_from false false (write_runes s))) [
      | inl e ↦ inl (ap (Text.join comma) e ∙ all_parts)
      | inr (blank, b, e) ↦ inr (blank, b, ap (Text.join comma) e ∙ all_parts)
    ]

-- The flags behind a text, if no comma of it is free.
flags_after : Bool → Bool → Bytes → Option (Bool × Bool)
flags_after q a [] = some (q, a)
flags_after q a (c ∷ s) =
    let rest = flags_after (quotes_after c q) (angle_after c q a) s in
    if c == b',' && not q && not a then none else rest

IsClosed : Bytes → Type 0
IsClosed w = flags_after false false w ≡ some (false, false)

-- A text that is one mailbox: its commas stand in quoted strings or between angle brackets, and these
-- are closed.
pub data IsMailbox : Bytes → Type 0 where
  no_more : IsMailbox []
  plain :
      (c : ℕ) {s : Bytes}
      → (c == b',' || c == b'"' || c == b'<') ≡ false
      → IsMailbox s
      → IsMailbox (c ∷ s)
  quoted :
      (t : Bytes) {s : Bytes}
      → All (λ c. c ≢ b'"') t
      → IsMailbox s
      → IsMailbox (b'"' ∷ (t ++ (b'"' ∷ s)))
  bracketed :
      (t : Bytes) {s : Bytes}
      → All (λ c. (c == b'"' || c == b'>') ≡ false) t
      → IsMailbox s
      → IsMailbox (b'<' ∷ (t ++ (b'>' ∷ s)))

-- The texts are mailboxes, and the last one is not blank.
abbrev pub AreMailboxes : List Bytes → Type 0
AreMailboxes [] = Unit
AreMailboxes (w ∷ []) = IsMailbox w × (Text.is_empty (Text.trim_space w) ≡ false)
AreMailboxes (w ∷ v ∷ ws) = IsMailbox w × AreMailboxes (v ∷ ws)

flags_after-quoted :
    (t s : Bytes)
    → All (λ c. c ≢ b'"') t
    → flags_after true false (t ++ (b'"' ∷ s)) ≡ flags_after false false s
unfolding flags_after
flags_after-quoted [] s h = refl
flags_after-quoted (c ∷ t) s h =
    let other : (c == b'"') ≡ false = ground (arith, h.0) in
    let level : angle_after c true false ≡ false = ground arith in
    rw (other, level, flags_after-quoted t s h.1) (ground arith)

flags_after-bracketed :
    (t s : Bytes)
    → All (λ c. (c == b'"' || c == b'>') ≡ false) t
    → flags_after false true (t ++ (b'>' ∷ s)) ≡ flags_after false false s
unfolding flags_after
flags_after-bracketed [] s h = refl
flags_after-bracketed (c ∷ t) s h =
    let next : (quotes_after c false ≡ false) × (angle_after c false true ≡ true) =
      (ground (arith, h.0), ground (arith, h.0)) in
    rw (next.0, next.1, flags_after-bracketed t s h.1) (ground arith)

IsMailbox-IsClosed : (w : Bytes) → IsMailbox w → IsClosed w
unfolding flags_after IsClosed
IsMailbox-IsClosed [] no_more = refl
IsMailbox-IsClosed _ (plain c {s} h k) =
    let next : (quotes_after c false ≡ false) × (angle_after c false false ≡ false) =
      (ground (arith, h), ground (arith, h)) in
    let free : (c == b',' && true && true) ≡ false = ground (arith, h) in
    rw (next.0, next.1) (ground (arith, free, IsMailbox-IsClosed s k))
IsMailbox-IsClosed _ (quoted t {s} h k) = flags_after-quoted t s h ∙ IsMailbox-IsClosed s k
IsMailbox-IsClosed _ (bracketed t {s} h k) = flags_after-bracketed t s h ∙ IsMailbox-IsClosed s k

split_list_from-last :
    (q a r b : Bool) (w : Bytes) → flags_after q a w ≡ some (r, b) → split_list_from q a w ≡ w ∷ []
unfolding split_list_from flags_after
split_list_from-last q a r b [] h = refl
split_list_from-last q a r b (c ∷ w) h = elim (Bool-cases (c == b',' && not q && not a)) [
  | inl e ↦ absurd (ground (arith, e, h))
  | inr e ↦
      rw
        (
          e,
          split_list_from-last (quotes_after c q) (angle_after c q a) r b w (ground (arith, e, h)),
        )
        refl
]

split_list_from-comma :
    (q a : Bool) (w s : Bytes)
    → flags_after q a w ≡ some (false, false)
    → split_list_from q a (w ++ (b',' ∷ s)) ≡ w ∷ split_list_from false false s
unfolding split_list_from flags_after
split_list_from-comma q a [] s h = ground (arith, h)
split_list_from-comma q a (c ∷ w) s h = elim (Bool-cases (c == b',' && not q && not a)) [
  | inl e ↦ absurd (ground (arith, e, h))
  | inr e ↦
      rw
        (e, split_list_from-comma (quotes_after c q) (angle_after c q a) w s (ground (arith, e, h)))
        refl
]

split_list_from-join :
    (w : Bytes) (ws : List Bytes)
    → AreMailboxes (w ∷ ws)
    → split_list_from false false (Text.join comma (w ∷ ws)) ≡ w ∷ ws
unfolding Text.join IsClosed
split_list_from-join w [] h =
    split_list_from-last false false false false w (IsMailbox-IsClosed w h.0)
split_list_from-join w (v ∷ ws) h =
    split_list_from-comma false false w (Text.join comma (v ∷ ws)) (IsMailbox-IsClosed w h.0)
    ∙ ap (λ r. w ∷ r) (split_list_from-join v ws h.1)

drop_last_blank-AreMailboxes : (ws : List Bytes) → AreMailboxes ws → drop_last_blank ws ≡ ws
unfolding drop_last_blank
drop_last_blank-AreMailboxes [] h = refl
drop_last_blank-AreMailboxes (w ∷ []) h = rw h.1 refl
drop_last_blank-AreMailboxes (w ∷ v ∷ ws) h =
    ap (λ r. w ∷ r) (drop_last_blank-AreMailboxes (v ∷ ws) h.1)

-- Mailboxes joined by commas are split into the same mailboxes, if they are UTF-8 together, the commas
-- of each one stand in quoted strings or between angle brackets that are closed, and the last one is
-- not blank.
pub split_address_list-AreMailboxes :
    (ws : List Bytes)
    → AreMailboxes ws
    → IsUtf8 (Text.join (b',' ∷ []) ws)
    → split_address_list (Text.join (b',' ∷ []) ws) ≡ ws
unfolding split_address_list
split_address_list-AreMailboxes [] h u =
    rw u (unfold split_list_from drop_last_blank Text.join Text.trim_left in refl)
split_address_list-AreMailboxes (w ∷ ws) h u =
    rw u
      (ap drop_last_blank (split_list_from-join w ws h) ∙ drop_last_blank-AreMailboxes (w ∷ ws) h)
