-- ===== src/Session/Deliver/Login.antt =====
-- `deliver` of cmd/mailscript/upstream.go, and the part of a session that outlives a transaction.
use mailscript.Base.{Option-cases, ◌≡◌, inl, inr, false, [], arith}
use mailscript.Session.State.{Proxy, Session, Answers}
use mailscript.Session.Deliver.{forward_to_upstream, redirected, targets, unique_from, deliver}

-- The part of the state that outlives a transaction.
pub record SameLogin (s t : Session) : Type 0 where
  pub helo : t.helo ≡ s.helo
  pub tls_active : t.tls_active ≡ s.tls_active
  pub authenticated : t.authenticated ≡ s.authenticated
  pub auth_user : t.auth_user ≡ s.auth_user
  pub auth_password : t.auth_password ≡ s.auth_password

forward_to_upstream-SameLogin :
    (answers : Answers) (s : Session) → SameLogin s (forward_to_upstream answers s).1
unfolding forward_to_upstream
forward_to_upstream-SameLogin answers s = ground arith

pub deliver-SameLogin :
    (p : Proxy) (answers : Answers) (s : Session) → SameLogin s (deliver p answers s).1
unfolding deliver
deliver-SameLogin p answers s =
    let sent = forward_to_upstream-SameLogin answers in
    elim (Option-cases (redirected s.recipients (targets s.actions))) [
      | inl e ↦ rw e (ground (arith, sent s))
      | inr e ↦
          rw e.1
            (ground (arith, sent (record s { upstream = false; recipients = unique_from [] e.0 })))
    ]
