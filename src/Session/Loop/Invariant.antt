-- ===== src/Session/Loop/Invariant.antt =====
-- The states of the session of cmd/mailscript/proxy.go between two commands.
use mailscript.Base.{length, All, ◌≤◌, ◌≡◌, true, false, [], arith}
use mailscript.Text
use mailscript.Text.{Bytes}
use mailscript.Delivery.Envelope.Paths.{IsEnvelopeAddress}
use mailscript.Session.Deliver.Login.{SameLogin}
use mailscript.Session.State.{Proxy, Session, start, reset_transaction}

pub record IsValid (p : Proxy) (s : Session) : Type 0 where
  pub greeted : s.mail_set ≡ true → Text.is_empty s.helo ≡ false
  pub mail_first : s.mail_set ≡ false → s.recipients ≡ []
  pub few : length s.recipients ≤ 100
  pub recipients_valid : All (IsEnvelopeAddress false) s.recipients
  pub from_valid : IsEnvelopeAddress true s.from
  pub upstream_only : s.upstream ≡ true → s.mail_set ≡ true
  pub upstream_ready : p.has_upstream ≡ true → s.mail_set ≡ true → s.upstream ≡ true
  pub authorised : p.submission ≡ true → s.mail_set ≡ true → s.authenticated ≡ true
  pub protected : s.authenticated ≡ true → s.tls_active ≡ true
  pub submitted : s.authenticated ≡ true → p.submission ≡ true
  pub has_user : s.authenticated ≡ true → Text.is_empty s.auth_user ≡ false
  pub has_password : s.authenticated ≡ true → Text.is_empty s.auth_password ≡ false

pub start-IsValid : (p : Proxy) → IsValid p start
start-IsValid p = ground arith

-- A reset keeps the invariant, whatever became of the transaction.
pub reset_transaction-IsValid :
    {p : Proxy} {s : Session} (t : Session)
    → IsValid p s
    → SameLogin s t
    → IsValid p (reset_transaction t)
unfolding reset_transaction
reset_transaction-IsValid t v l = ground arith
