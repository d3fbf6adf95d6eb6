-- ===== src/Delivery/Policy/Safety.antt =====
-- `smtpReplyText` and `policyDisposition` of cmd/mailscript/delivery.go: the bytes of a reply.
use mailscript.Base.{
  Bool-cases, Option-cases, or-eq-true, All, All-append, ℕ, ◌≡◌, ◌≢◌, inl, inr, Bool, true, false,
  List, [], ◌∷◌, arith,
}
use mailscript.Text
use mailscript.Text.{Bytes, codes}
use mailscript.Text.Laws.{eq→≡, remove_byte_lem, All-join, All-fields_func}
use mailscript.Delivery.Policy.{
  Disposition, Verdict, next, hold, block, second, reply_code, is_rejection, smtp_reply_text,
  rejection_reason, smtp_error_text, smtp_error, action_verdict, dispose, accepted,
  policy_disposition,
}

-- A byte that does not end a line of SMTP, and is not NUL.
abbrev pub IsInline : ℕ → Type 0
IsInline c = (c ≢ b'\r') × (c ≢ b'\n') × (c ≢ 0)

-- The text of a reply holds no line ending and no NUL, whatever it is made from.
pub smtp_reply_text-IsInline : (s : Bytes) → All IsInline (smtp_reply_text s)
unfolding smtp_reply_text codes Text.fields
smtp_reply_text-IsInline s = All-join IsInline (codes " ") _ (omega arith) (
    All-fields_func (λ c. c ≢ 0) IsInline Text.is_space (λ c h e. ground arith)
      (Text.remove_byte 0 s) (remove_byte_lem 0 s))

eq-IsInline : (s t : Bytes) → All IsInline t → Text.eq s t ≡ true → All IsInline s
eq-IsInline s t h e = rw (eq→≡ s t e) h

is_rejection-IsInline : (a : Bytes) → is_rejection a ≡ true → All IsInline a
unfolding codes
is_rejection-IsInline a h = elim (or-eq-true _ (Text.eq a (codes "discard")) h) [
  | inr e ↦ eq-IsInline a (codes "discard") (omega arith) e
  | inl h ↦ elim (or-eq-true _ (Text.eq a (codes "drop")) h) [
    | inr e ↦ eq-IsInline a (codes "drop") (omega arith) e
    | inl h ↦ elim (or-eq-true (Text.eq a (codes "reject")) _ h) [
      | inl e ↦ eq-IsInline a (codes "reject") (omega arith) e
      | inr e ↦ eq-IsInline a (codes "bounce") (omega arith) e
    ]
  ]
]

rejection_reason-IsInline : (a : Bytes) → is_rejection a ≡ true → All IsInline (rejection_reason a)
unfolding rejection_reason codes
rejection_reason-IsInline a h = elim (Bool-cases (Text.eq a (codes "drop"))) [
  | inl e ↦ rw e (omega arith)
  | inr e ↦ rw e (
      All-append IsInline (codes "Message rejected by ") _ (omega arith)
        (All-append IsInline a _ (is_rejection-IsInline a h) (omega arith)))
]

smtp_error_text-IsInline : (parts : List Bytes) → All IsInline (smtp_error_text parts)
unfolding smtp_error_text codes
smtp_error_text-IsInline (_ ∷ _ ∷ text ∷ _) = smtp_reply_text-IsInline text
smtp_error_text-IsInline (_ ∷ _ ∷ []) = omega arith
smtp_error_text-IsInline (_ ∷ []) = omega arith
smtp_error_text-IsInline [] = omega arith

abbrev Answers : Verdict → Type 0
Answers (block d) = All IsInline d.reason
Answers _ = Unit

smtp_error-Answers : (parts : List Bytes) → Answers (smtp_error parts)
unfolding smtp_error codes
smtp_error-Answers parts = elim (Option-cases (reply_code (Text.atoi (second parts)))) [
  | inl e ↦ rw (e, smtp_error) (omega arith)
  | inr e ↦ rw (e.1, smtp_error) (smtp_error_text-IsInline parts)
]

fixed-Answers :
    (All IsInline (codes "Message deferred by policy"))
    × All IsInline (codes "Message quarantined by policy")
    × All IsInline (codes "Message accepted")
unfolding codes
fixed-Answers = omega arith

action_verdict-Answers : (fq : Bool) (a : Bytes) → Answers (action_verdict fq a)
unfolding action_verdict
action_verdict-Answers true a =
    ground (
      arith,
      smtp_error-Answers (Text.split_n b':' 3 a),
      rejection_reason-IsInline a,
      fixed-Answers,
    )
action_verdict-Answers false a =
    ground (
      arith,
      smtp_error-Answers (Text.split_n b':' 3 a),
      rejection_reason-IsInline a,
      fixed-Answers,
    )

dispose-IsInline :
    (fq : Bool) (r : Disposition) (actions : List Bytes)
    → All IsInline r.reason
    → All IsInline (dispose fq r actions).reason
unfolding dispose
dispose-IsInline fq r [] h = h
dispose-IsInline fq r (a ∷ rest) h =
    go (action_verdict fq a) (action_verdict-Answers fq a) (dispose-IsInline fq r rest h)
      (dispose-IsInline fq (record r { quarantine = true }) rest h)
  where
    go :
        (v : Verdict)
        → Answers v
        → All IsInline (dispose fq r rest).reason
        → All IsInline (dispose fq (record r { quarantine = true }) rest).reason
        → (let d : Disposition = elim v [
          | next ↦ dispose fq r rest
          | hold ↦ dispose fq (record r { quarantine = true }) rest
          | block d ↦ d
        ] in
            All IsInline d.reason)
    go next v h h' = h
    go hold v h h' = h'
    go (block d) v h h' = v

-- Whatever the actions of a policy are, the reason that is sent back holds no carriage return, no
-- line feed and no NUL.
pub policy_disposition-IsInline :
    (actions : List Bytes) (forward_quarantine : Bool)
    → All IsInline (policy_disposition actions forward_quarantine).reason
unfolding policy_disposition
policy_disposition-IsInline actions fq = dispose-IsInline fq accepted actions fixed-Answers.2
