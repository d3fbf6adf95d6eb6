-- ===== src/Delivery/Policy/Verdicts.antt =====
-- `policyDisposition` of cmd/mailscript/delivery.go, against a description without its loop.
use mailscript.Base.{
  Bool-cases, any, ℤ, pos, negsuc, ℕ, ◌≤◌, ◌≡◌, ◌≢◌, inl, inr, Bool, true, false, not, ◌&&◌, ◌||◌,
  Option, none, some, List, [], ◌∷◌, ◌++◌, arith,
}
use mailscript.Text
use mailscript.Text.{Bytes, codes}
use mailscript.Delivery.Policy.{
  Disposition, Verdict, next, hold, block, reply_code, second, smtp_error, action_verdict, dispose,
  accepted, policy_disposition,
}

-- An action that asks for quarantine.
abbrev pub asks_quarantine : Bytes → Bool
asks_quarantine action =
    Text.eq action (codes "quarantine") || Text.eq action (codes "fileinto:Spam")

-- An action that stops the delivery on its own.
abbrev pub is_blocking : Bool → Bytes → Bool
is_blocking forward_quarantine action =
    any (λ word. Text.eq action word)
      (codes "reject" ∷ codes "bounce" ∷ codes "drop" ∷ codes "discard" ∷ codes "defer" ∷ [])
    || Text.has_prefix (codes "smtp_error:") action
    || not forward_quarantine && asks_quarantine action

abbrev is_block : Verdict → Bool
is_block (block d) = true
is_block _ = false

abbrev is_hold : Verdict → Bool
is_hold hold = true
is_hold _ = false

abbrev IsFailure : Disposition → Type 0
IsFailure d = (400 ≤ d.code) × (d.code ≤ 599) × (d.quarantine ≡ false)

abbrev Fails : Verdict → Type 0
Fails (block d) = IsFailure d
Fails _ = Unit

reply_code-bounds :
    (z : Option ℤ) (code : ℕ) → reply_code z ≡ some code → (400 ≤ code) × (code ≤ 599)
unfolding reply_code
reply_code-bounds none code h = cc
reply_code-bounds (some (negsuc n)) code h = cc
reply_code-bounds (some (pos n)) code h = ground arith

smtp_error-Fails :
    (parts : List Bytes) → (is_block (smtp_error parts) ≡ true) × Fails (smtp_error parts)
unfolding smtp_error
smtp_error-Fails parts = ground (arith, reply_code-bounds (Text.atoi (second parts)))

-- An action answers with a failure exactly if it is blocking, and is noted as a quarantine exactly
-- if it is one and is not blocking.
record Classified (fq : Bool) (a : Bytes) (v : Verdict) : Type 0 where
  fails : Fails v
  blocks : is_block v ≡ is_blocking fq a
  holds : is_hold v ≡ (fq && asks_quarantine a && not (is_blocking fq a))

action_verdict-Classified : (fq : Bool) (a : Bytes) → Classified fq a (action_verdict fq a)
unfolding action_verdict
action_verdict-Classified true a = ground (arith, smtp_error-Fails (Text.split_n b':' 3 a))
action_verdict-Classified false a = ground (arith, smtp_error-Fails (Text.split_n b':' 3 a))

-- What the loop returns from the result `r`.
record Summary (fq : Bool) (actions : List Bytes) (r d : Disposition) : Type 0 where
  blocked : any (is_blocking fq) actions ≡ true → IsFailure d
  passed :
      any (is_blocking fq) actions ≡ false
      → (d.code ≡ r.code)
        × (d.reason ≡ r.reason)
        × (d.quarantine ≡ (r.quarantine || fq && any asks_quarantine actions))

dispose-Summary :
    (fq : Bool) (r : Disposition) (actions : List Bytes)
    → Summary fq actions r (dispose fq r actions)
unfolding dispose
dispose-Summary fq r [] = ground arith
dispose-Summary fq r (a ∷ rest) =
    go (action_verdict fq a) (action_verdict-Classified fq a) (dispose-Summary fq r rest)
      (dispose-Summary fq (record r { quarantine = true }) rest)
  where
    go :
        (v : Verdict)
        → Classified fq a v
        → Summary fq rest r (dispose fq r rest)
        → Summary fq rest
            (record r { quarantine = true })
            (dispose fq (record r { quarantine = true }) rest)
        → Summary fq (a ∷ rest) r (elim v [
          | next ↦ dispose fq r rest
          | hold ↦ dispose fq (record r { quarantine = true }) rest
          | block d ↦ d
        ])
    go next c s s' = ground arith
    go hold c s s' = ground arith
    go (block d) c s s' = ground arith

-- The disposition of a list of actions, on every branch. If no action is blocking, the code is 250
-- and the message is quarantined exactly if the proxy forwards quarantined mail and an action asks
-- for it. If one is, the code is from 400 to 599 and the message is not quarantined.
pub policy_disposition_exact :
    (actions : List Bytes) (forward_quarantine : Bool)
    → (any (is_blocking forward_quarantine) actions ≡ false
        → ((policy_disposition actions forward_quarantine).code ≡ 250)
          × ((policy_disposition actions forward_quarantine).quarantine
              ≡ (forward_quarantine && any asks_quarantine actions)))
      × (any (is_blocking forward_quarantine) actions ≡ true
          → (400 ≤ (policy_disposition actions forward_quarantine).code)
            × ((policy_disposition actions forward_quarantine).code ≤ 599)
            × ((policy_disposition actions forward_quarantine).quarantine ≡ false))
unfolding policy_disposition
policy_disposition_exact actions fq = ground (arith, dispose-Summary fq accepted actions)

any-append :
    (p : Bytes → Bool) (before actions after : List Bytes)
    → any p actions ≡ true
    → any p (before ++ (actions ++ after)) ≡ true
any-append p [] [] after h = cc
any-append p [] (a ∷ actions) after h = ground (arith, any-append p [] actions after)
any-append p (b ∷ before) actions after h = ground (arith, any-append p before actions after h)

-- A list of actions that does not deliver does not deliver either with any actions before and
-- after it.
pub policy_disposition-append :
    (before actions after : List Bytes) (forward_quarantine : Bool)
    → (policy_disposition actions forward_quarantine).code ≢ 250
    → (policy_disposition (before ++ (actions ++ after)) forward_quarantine).code ≢ 250
policy_disposition-append before actions after fq h =
    elim (Bool-cases (any (is_blocking fq) actions)) [
      | inl e ↦ λ c. absurd (
          omega (
            arith,
            (policy_disposition_exact (before ++ (actions ++ after)) fq).1
                (any-append (is_blocking fq) before actions after e),
            c,
          ))
      | inr e ↦ absurd (h ((policy_disposition_exact actions fq).0 e).0)
    ]
