-- ===== src/Delivery/Policy.antt =====
-- `policyDisposition`, `unsupportedDeliveryAction` and `smtpReplyText` of cmd/mailscript/delivery.go.
pub mod Verdicts
pub mod Safety
pub mod Hosting
use mailscript.Base.{
  ltb, if◌then◌else◌, ℤ, pos, ℕ, Bool, true, false, not, ◌&&◌, ◌||◌, Option, none, some, List, [],
  ◌∷◌, ◌++◌,
}
use mailscript.Text
use mailscript.Text.{Bytes, codes}

-- deliveryDisposition
pub record Disposition : Type 0 where
  pub code : ℕ
  pub reason : Bytes
  pub quarantine : Bool

unfoldable pub smtp_reply_text : Bytes → Bytes
unfolding Text.join Text.fields Text.remove_byte
smtp_reply_text s = Text.join (codes " ") (Text.fields (Text.remove_byte 0 s))

-- What one turn of the loop does: it goes on, it notes the quarantine, or it returns.
pub data Verdict : Type 0 where
  next hold : Verdict
  block : Disposition → Verdict

abbrev pub blocked : ℕ → Bytes → Verdict
blocked code reason = block (record { code = code; reason = reason; quarantine = false })

-- The codes that an smtp_error action may ask for.
unfoldable pub reply_code : Option ℤ → Option ℕ
reply_code (some (pos n)) = if ltb n 400 || ltb 599 n then none else some n
reply_code _ = none

-- The arm for a good code. The text is the third part of the action, if there is one.
smtp_error_text : List Bytes → Bytes
unfolding smtp_reply_text
smtp_error_text (_ ∷ _ ∷ text ∷ _) = smtp_reply_text text
smtp_error_text _ = codes "Message blocked by policy"

-- parts[1]; an action with the prefix has two parts at least
second : List Bytes → Bytes
second (_ ∷ part ∷ _) = part
second _ = []

smtp_error : List Bytes → Verdict
unfolding reply_code second smtp_error_text Text.atoi
smtp_error parts = elim (reply_code (Text.atoi (second parts))) [
  | none ↦ blocked 451 (codes "Invalid policy SMTP response")
  | some code ↦ blocked code (smtp_error_text parts)
]

abbrev pub is_rejection : Bytes → Bool
is_rejection action =
    Text.eq action (codes "reject")
    || Text.eq action (codes "bounce")
    || Text.eq action (codes "drop")
    || Text.eq action (codes "discard")

abbrev pub is_quarantine : Bytes → Bool
is_quarantine action = Text.eq action (codes "quarantine") || Text.eq action (codes "fileinto:Spam")

rejection_reason : Bytes → Bytes
rejection_reason action =
    if Text.eq action (codes "drop")
    then codes "Message dropped"
    else codes "Message rejected by " ++ (action ++ codes " action")

-- The switch, for one action.
pub action_verdict : Bool → Bytes → Verdict
unfolding smtp_error rejection_reason Text.split_n Text.has_prefix Text.eq
action_verdict forward_quarantine action =
    if is_rejection action
    then blocked 550 (rejection_reason action)
    else if Text.eq action (codes "defer")
    then blocked 451 (codes "Message deferred by policy")
    else if Text.has_prefix (codes "smtp_error:") action
    then smtp_error (Text.split_n b':' 3 action)
    else if is_quarantine action
    then (if forward_quarantine then hold else blocked 550 (codes "Message quarantined by policy"))
    else next

dispose : Bool → Disposition → List Bytes → Disposition
dispose forward_quarantine result [] = result
dispose forward_quarantine result (action ∷ actions) =
    elim (action_verdict forward_quarantine action) [
      | next ↦ dispose forward_quarantine result actions
      | hold ↦ dispose forward_quarantine (record result { quarantine = true }) actions
      | block d ↦ d
    ]

abbrev pub accepted : Disposition
accepted = record { code = 250; reason = codes "Message accepted"; quarantine = false }

unfoldable pub policy_disposition : List Bytes → Bool → Disposition
unfolding dispose action_verdict
policy_disposition actions forward_quarantine = dispose forward_quarantine accepted actions

-- The prefixes of the actions that only a host can carry out.
abbrev pub host_prefixes : List Bytes
host_prefixes =
    codes "fileinto:"
    ∷ codes "auto_reply:"
    ∷ codes "force_second_pass:"
    ∷ codes "reply_with_smtp_dsn:"
    ∷ codes "set_dlp:"
    ∷ codes "skip_dlp:"
    ∷ codes "skip_malware_check:"
    ∷ codes "skip_spam_check:"
    ∷ codes "skip_whitelist_check:"
    ∷ codes "set_filter_rules:"
    ∷ []

-- The inner loop: the prefix that the action has, without its colon.
host_action : List Bytes → Bytes → Option Bytes
unfolding Text.has_prefix Text.trim_suffix Text.eq
host_action [] action = none
host_action (prefix ∷ prefixes) action =
    if Text.has_prefix prefix action && not (Text.eq action (codes "fileinto:Spam"))
    then some (Text.trim_suffix (codes ":") prefix)
    else host_action prefixes action

unfoldable pub unsupported_delivery_action : List Bytes → Bytes
unfolding host_action
unsupported_delivery_action [] = []
unsupported_delivery_action (action ∷ actions) = elim (host_action host_prefixes action) [
  | some name ↦ name
  | none ↦
      let rest = unsupported_delivery_action actions in
      if Text.eq action (codes "add_to_digest") then action else rest
]
