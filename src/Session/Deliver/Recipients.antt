-- ===== src/Session/Deliver/Recipients.antt =====
-- `forwardToUpstream` and the redirections of `deliver` of cmd/mailscript/upstream.go, against what
-- the server behind answers.
use mailscript.Base.{
  if◌then◌else◌, Bool-cases, length, any, All, Result-cases, ok, ℕ, ◌+◌, ◌≤◌, ◌≡◌, refl, ap, ◌≢◌,
  ◌↔◌, inl, inr, Bool, true, false, not, ◌&&◌, ◌||◌, Option, none, some, List, [], ◌∷◌, arith,
}
use mailscript.Text
use mailscript.Text.{Bytes}
use mailscript.Text.Laws.{eq_refl, eq→≡}
use mailscript.Delivery.Envelope.{max_message_size}
use mailscript.Delivery.Envelope.Paths.{IsEnvelopeAddress, validate_envelope_exact}
use mailscript.Delivery.Wire.Framing.{IsCrlfText, validate_wire_data_exact}
use mailscript.Session.State.{Session, UpstreamError, status, other, Answers}
use mailscript.Session.Deliver.{
  status, is_recipient_code, replaces, rcpt_all, all_or_none, open_transaction, send_message,
  forward_to_upstream, unique_from,
}

-- The server behind takes the recipient.
abbrev pub IsTaken : Answers → Bytes → Type 0
IsTaken answers rcpt =
    (reply : ℕ × Bytes) × (answers.rcpt rcpt ≡ ok reply) × (is_recipient_code reply.0 ≡ true)

replaced-ne-none :
    (o : Option UpstreamError) (code : ℕ) (e : UpstreamError)
    → (if replaces o code then some e else o) ≢ none
replaced-ne-none none code e h = cc
replaced-ne-none (some (status kept text)) code e h = ground arith
replaced-ne-none (some other) code e h = cc

all_or_none-some : (n : ℕ) (e : UpstreamError) → all_or_none (ok (n, some e)) ≢ none
unfolding all_or_none
all_or_none-some n e h = ground arith

module _ (answers : Answers) where
  rcpt_all-IsTaken :
      (n : ℕ) (rejection : Option UpstreamError) (rcpts : List Bytes)
      → all_or_none (rcpt_all answers n rejection rcpts) ≡ none
      → (rejection ≡ none) × All (IsTaken answers) rcpts
  unfolding rcpt_all all_or_none
  rcpt_all-IsTaken n none [] h = (refl, tt)
  rcpt_all-IsTaken n (some e) [] h = absurd (all_or_none-some n e h)
  rcpt_all-IsTaken n rejection (r ∷ rcpts) h = elim (Result-cases (answers.rcpt r)) [
    | inr e ↦ absurd (ground (arith, e.1))
    | inl e ↦ elim (Bool-cases (is_recipient_code e.0.0)) [
      | inl t ↦
          let rest : all_or_none (rcpt_all answers (n + 1) rejection rcpts) ≡ none =
            ground (arith, e.1) in
          let more = rcpt_all-IsTaken (n + 1) rejection rcpts rest in
          (more.0, ((e.0, e.1, t), more.1))
      | inr f ↦
          let kept = if replaces rejection e.0.0 then some (status e.0.0 e.0.1) else rejection in
          let rest : all_or_none (rcpt_all answers n kept rcpts) ≡ none = ground (arith, e.1) in
          absurd (
            replaced-ne-none rejection e.0.0 (status e.0.0 e.0.1)
              (rcpt_all-IsTaken n kept rcpts rest).0)
    ]
  ]

  IsTaken-rcpt_all :
      (n : ℕ) (rcpts : List Bytes)
      → All (IsTaken answers) rcpts
      → all_or_none (rcpt_all answers n none rcpts) ≡ none
  unfolding rcpt_all all_or_none
  IsTaken-rcpt_all n [] h = refl
  IsTaken-rcpt_all n (r ∷ rcpts) h =
      ground (arith, h.0.1, h.0.2, IsTaken-rcpt_all (n + 1) rcpts h.1)

  -- What a message that is handed over to the server behind has to pass there.
  abbrev pub IsTransacted : Session → Type 0
  IsTransacted s = s.upstream ≡ false → (answers.begin ≡ none) × All (IsTaken answers) s.recipients

  open_transaction-IsTransacted :
      (s : Session) → (open_transaction answers s ≡ none) ↔ IsTransacted s
  unfolding open_transaction
  open_transaction-IsTransacted s = (
    λ h u. (ground arith, (rcpt_all-IsTaken 0 none s.recipients (ground arith)).1),
    λ h. ground (arith, IsTaken-rcpt_all 0 s.recipients),
  )

  send_message_iff :
      (send_message answers ≡ none)
      ↔ ((answers.data_command ≡ none) × (answers.write ≡ none) × (answers.finish ≡ none))
  unfolding send_message
  send_message_iff = (λ h. ground arith, λ h. ground arith)

  -- A message is forwarded exactly if it is at most 50 MiB long and framed by line endings alone,
  -- its envelope is one of addresses with a recipient, the server behind takes the sender and every
  -- recipient, where that is not done yet, and it takes DATA, the bytes and the final dot.
  pub forward_to_upstream_exact :
      (s : Session)
      → ((forward_to_upstream answers s).0 ≡ none) ↔ (
          ((length s.message ≤ max_message_size) × IsCrlfText s.message)
          × (IsEnvelopeAddress true s.from
              × (s.recipients ≢ [])
              × All (IsEnvelopeAddress false) s.recipients)
          × IsTransacted s
          × ((answers.data_command ≡ none) × (answers.write ≡ none) × (answers.finish ≡ none)))
  unfolding forward_to_upstream
  forward_to_upstream_exact s =
      let wire = validate_wire_data_exact s.message in
      let envelope = validate_envelope_exact s.from s.recipients in
      let opened = open_transaction-IsTransacted s in
      (
        λ h. (
          wire.0 (ground arith),
          envelope.0 (ground arith),
          opened.0 (ground arith),
          send_message_iff.0 (ground arith),
        ),
        λ h. ground (arith, wire.1 h.0, envelope.1 h.1, opened.1 h.2, send_message_iff.1 h.3),
      )

-- Some address stands twice.
abbrev pub repeats : List Bytes → Bool
repeats [] = false
repeats (r ∷ rs) = any (Text.eq r) rs || repeats rs

any-eq-same :
    (x r : Bytes) (seen : List Bytes)
    → Text.eq x r ≡ true
    → any (Text.eq x) seen ≡ any (Text.eq r) seen
any-eq-same x r seen h = ap (λ y. any (Text.eq y) seen) (eq→≡ x r h)

unique_from-any :
    (x : Bytes) (seen rs : List Bytes)
    → any (Text.eq x) (unique_from seen rs) ≡ (any (Text.eq x) rs && not (any (Text.eq x) seen))
unfolding unique_from
unique_from-any x seen [] = refl
unique_from-any x seen (r ∷ rs) =
    ground (arith, any-eq-same x r seen, unique_from-any x seen rs, unique_from-any x (r ∷ seen) rs)

unique_from-repeats : (seen rs : List Bytes) → repeats (unique_from seen rs) ≡ false
unfolding unique_from
unique_from-repeats seen [] = refl
unique_from-repeats seen (r ∷ rs) = ground (
  arith,
  eq_refl r,
  unique_from-any r (r ∷ seen) rs,
  unique_from-repeats seen rs,
  unique_from-repeats (r ∷ seen) rs,
)

-- The list without doubles holds the addresses of the list, and none of them twice.
pub unique_from_exact :
    (rs : List Bytes)
    → (repeats (unique_from [] rs) ≡ false)
      × ((x : Bytes) → any (Text.eq x) (unique_from [] rs) ≡ any (Text.eq x) rs)
unique_from_exact rs = (unique_from-repeats [] rs, λ x. ground (arith, unique_from-any x [] rs))
