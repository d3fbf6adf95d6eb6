-- ===== src/Session/Loop/Authentication.antt =====
-- `handleAUTH` of cmd/mailscript/submission.go, between two commands.
use mailscript.Base.{
  Option-cases, Result, ok, err, ◌≡◌, inl, inr, true, false, some, List, [], ◌∷◌, ◌++◌, arith,
}
use mailscript.Text
use mailscript.Text.{Bytes, codes}
use mailscript.Text.Base64
use mailscript.Delivery.Wire.{WireError}
use mailscript.Session.State.{Proxy, Session, Answers}
use mailscript.Session.Auth.{
  plain_credentials, credentials, try_credentials, auth_plain, handle_auth,
}
use mailscript.Session.Loop.Invariant.{IsValid}

plain_credentials-IsUser :
    (fields : List Bytes) (user password : Bytes)
    → plain_credentials fields ≡ some (user, password)
    → (Text.is_empty user ≡ false) × (Text.is_empty password ≡ false)
unfolding plain_credentials
plain_credentials-IsUser [] u w h = cc
plain_credentials-IsUser (_ ∷ []) u w h = cc
plain_credentials-IsUser (_ ∷ _ ∷ []) u w h = cc
plain_credentials-IsUser (identity ∷ user ∷ password ∷ []) u w h = ground arith
plain_credentials-IsUser (_ ∷ _ ∷ _ ∷ _ ∷ _) u w h = cc

credentials-IsUser :
    (encoded user password : Bytes)
    → credentials encoded ≡ some (user, password)
    → (Text.is_empty user ≡ false) × (Text.is_empty password ≡ false)
unfolding credentials
credentials-IsUser encoded u w h = elim (Option-cases (Base64.decode encoded)) [
  | inl e ↦ ground arith
  | inr e ↦ ground (arith, plain_credentials-IsUser (Text.split 0 e.0) u w)
]

-- Credentials are tried where the session may authenticate.
module _ (p : Proxy) (s : Session) (v : IsValid p s) (sub : p.submission ≡ true)
    (tls : s.tls_active ≡ true) (unset : s.mail_set ≡ false) where
  try_credentials-IsValid :
      (answers : Answers) (encoded : Bytes)
      → IsValid p (try_credentials answers (credentials encoded) s)
  unfolding try_credentials
  try_credentials-IsValid answers encoded = elim (Option-cases (credentials encoded)) [
    | inl e ↦ rw e (ground arith)
    | inr e ↦ ground (arith, e.1, credentials-IsUser encoded e.0.0 e.0.1)
  ]

auth_plain-IsValid :
    (p : Proxy) (s : Session) (answers : Answers) (c : Result WireError Bytes) (parts : List Bytes)
    → IsValid p s
    → p.submission ≡ true
    → s.tls_active ≡ true
    → s.mail_set ≡ false
    → IsValid p (auth_plain answers c parts s)
unfolding auth_plain
auth_plain-IsValid p s answers c (_ ∷ _ ∷ encoded ∷ _) v sub tls unset =
    try_credentials-IsValid p s v sub tls unset answers encoded
auth_plain-IsValid p s answers (err e) (_ ∷ _ ∷ []) v sub tls unset = ground arith
auth_plain-IsValid p s answers (err e) (_ ∷ []) v sub tls unset = ground arith
auth_plain-IsValid p s answers (err e) [] v sub tls unset = ground arith
auth_plain-IsValid p s answers (ok line) _ v sub tls unset =
    try_credentials-IsValid p (record s { output = s.output ++ (codes "334 " ∷ []) }) (ground arith)
      sub tls unset answers (Text.trim_space line)

pub handle_auth-IsValid :
    (p : Proxy) (s : Session) (answers : Answers) (c : Result WireError Bytes) (parts : List Bytes)
    → IsValid p s
    → IsValid p (handle_auth p answers c parts s)
unfolding handle_auth
handle_auth-IsValid p s answers c parts v = ground (arith, auth_plain-IsValid p s answers c parts v)
