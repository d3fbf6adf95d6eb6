-- ===== src/Session/Auth.antt =====
-- `handleAUTH` of cmd/mailscript/submission.go.
use mailscript.Base.{
  ◌==◌, if◌then◌else◌, Result, ok, err, Bool, true, false, not, ◌&&◌, ◌||◌, Option, none, some,
  List, [], ◌∷◌,
}
use mailscript.Text
use mailscript.Text.{Bytes, codes}
use mailscript.Text.Base64
use mailscript.Delivery.Wire.{WireError}
use mailscript.Session.State.{
  Proxy, Session, UpstreamError, status, other, Answers, write_line, close,
}

-- fields[1] and fields[2], if the decoded text is an identity to act as, a user and a password, none
-- of the last two empty, and the first empty or the user.
unfoldable pub plain_credentials : List Bytes → Option (Bytes × Bytes)
plain_credentials (identity ∷ user ∷ password ∷ []) =
    if Text.is_empty user
      || Text.is_empty password
      || not (Text.is_empty identity) && not (Text.eq identity user)
    then none
    else some (user, password)
plain_credentials _ = none

unfoldable pub credentials : Bytes → Option (Bytes × Bytes)
credentials encoded = elim (Base64.decode encoded) [
  | none ↦ none
  | some decoded ↦ plain_credentials (Text.split 0 decoded)
]

abbrev pub is_refusal : UpstreamError → Bool
is_refusal (status code text) = code == 535
is_refusal other = false

-- The credentials are tried on a connection to the server behind, and kept only if it takes them.
unfoldable pub try_credentials : Answers → Option (Bytes × Bytes) → Session → Session
try_credentials answers none s = write_line (codes "501 Invalid AUTH PLAIN credentials") s
try_credentials answers (some (user, password)) s = elim answers.connect [
  | none ↦
      write_line (codes "235 Authentication successful")
        (record s { auth_user = user; auth_password = password; authenticated = true })
  | some e ↦
      write_line
        (if is_refusal e
          then codes "535 Authentication failed"
          else codes "454 Authentication temporarily unavailable")
        (record s { auth_user = []; auth_password = []; authenticated = false })
]

-- With no initial response the client is asked for one more line.
unfoldable pub auth_plain : Answers → Result WireError Bytes → List Bytes → Session → Session
auth_plain answers continuation (_ ∷ _ ∷ encoded ∷ _) s =
    try_credentials answers (credentials encoded) s
auth_plain answers (err e) _ s = close (write_line (codes "334 ") s)
auth_plain answers (ok line) _ s =
    try_credentials answers (credentials (Text.trim_space line)) (write_line (codes "334 ") s)

abbrev pub is_plain : List Bytes → Bool
is_plain (_ ∷ mechanism ∷ []) = Text.equal_fold mechanism (codes "PLAIN")
is_plain (_ ∷ mechanism ∷ _ ∷ []) = Text.equal_fold mechanism (codes "PLAIN")
is_plain _ = false

unfoldable pub handle_auth :
    Proxy → Answers → Result WireError Bytes → List Bytes → Session → Session
handle_auth p answers continuation parts s =
    if not p.submission
    then write_line (codes "502 AUTH unavailable") s
    else if not s.tls_active
    then write_line (codes "538 Encryption required") s
    else if Text.is_empty s.helo || s.mail_set || s.authenticated
    then write_line (codes "503 AUTH not allowed in this state") s
    else if not (is_plain parts)
    then write_line (codes "504 Use AUTH PLAIN") s
    else auth_plain answers continuation parts s
