-- ===== src/Session/Loop/Preservation.antt =====
-- The handlers and the loop of cmd/mailscript/proxy.go, from a valid session on.
use mailscript.Base.{
  leb, ◌==◌, Bool-cases, Option-cases, length, length-append, All-append, Result-cases, Result, ok,
  err, ℕ, ◌≡◌, inl, inr, Bool, true, false, not, ◌||◌, List, [], ◌∷◌, ◌++◌, arith,
}
use mailscript.Text
use mailscript.Text.Laws.{fields-AreWords, AreWords}
use mailscript.Text.{Bytes, codes}
use mailscript.Delivery.Envelope.{mail_from, rcpt_to, parse_smtp_path}
use mailscript.Delivery.Envelope.Paths.{IsEnvelopeAddress, parse_smtp_path_sound}
use mailscript.Session.State.{
  reset_transaction, Answers, Input, Proxy, Session, UpstreamError, status, other,
}
use mailscript.Delivery.Wire.{read_data}
use mailscript.Session.Data.{handle_data}
use mailscript.Session.Loop.Authentication.{handle_auth-IsValid}
use mailscript.Session.Data.Login.{receive-SameLogin}
use mailscript.Session.Replies.{upstream_failure}
use mailscript.Session.Loop.{
  add_recipient, open_mail, add_answered, handle_mail, handle_rcpt, dispatch, handle_parts,
  handle_line, serve, handle_helo, handle_ehlo, ehlo_lines, handle_rset, handle_starttls,
}
use mailscript.Session.Loop.Invariant.{reset_transaction-IsValid, IsValid}

handle_helo-IsValid :
    {p : Proxy} {s : Session} (parts : List Bytes)
    → AreWords parts
    → IsValid p s
    → IsValid p (handle_helo parts s)
unfolding handle_helo reset_transaction
handle_helo-IsValid [] w v = ground arith
handle_helo-IsValid (_ ∷ []) w v = ground arith
handle_helo-IsValid (_ ∷ name ∷ _) w v = ground arith

handle_ehlo-IsValid :
    {p : Proxy} {s : Session} (parts : List Bytes)
    → AreWords parts
    → IsValid p s
    → IsValid p (handle_ehlo p parts s)
unfolding handle_ehlo ehlo_lines reset_transaction
handle_ehlo-IsValid [] w v = ground arith
handle_ehlo-IsValid (_ ∷ []) w v = ground arith
handle_ehlo-IsValid (_ ∷ name ∷ _) w v = ground arith

upstream_failure-IsValid :
    (p : Proxy) (s : Session) (e : UpstreamError) → IsValid p s → IsValid p (upstream_failure e s)
unfolding upstream_failure
upstream_failure-IsValid p s (status code text) v = ground arith
upstream_failure-IsValid p s other v = ground arith

handle_starttls-IsValid :
    {p : Proxy} {s : Session} (handshake : Bool)
    → IsValid p s
    → IsValid p (handle_starttls p handshake s)
unfolding handle_starttls reset_transaction
handle_starttls-IsValid handshake v = ground arith

handle_rset-IsValid : {p : Proxy} {s : Session} → IsValid p s → IsValid p (handle_rset s)
unfolding handle_rset reset_transaction
handle_rset-IsValid v = ground arith

open_mail-IsValid :
    (p : Proxy) (s : Session) (answers : Answers) (address : Bytes)
    → IsEnvelopeAddress true address
    → IsValid p s
    → Text.is_empty s.helo ≡ false
    → (p.submission ≡ true → s.authenticated ≡ true)
    → s.mail_set ≡ false
    → s.upstream ≡ false
    → IsValid p (open_mail p answers address s)
unfolding open_mail reset_transaction
open_mail-IsValid p s answers address a v g l m u = elim (Option-cases answers.begin) [
  | inl e ↦ ground arith
  | inr e ↦ ground (arith, upstream_failure-IsValid p (reset_transaction s) e.0)
]

handle_mail-IsValid :
    (p : Proxy) (s : Session) (answers : Answers) (line : Bytes)
    → IsValid p s
    → IsValid p (handle_mail p answers line s)
unfolding handle_mail reset_transaction
handle_mail-IsValid p s answers line v = elim (Result-cases (parse_smtp_path line mail_from true)) [
  | inl r ↦ ground (
    arith,
    r.1,
    open_mail-IsValid p (reset_transaction s) answers r.0
        (parse_smtp_path_sound line mail_from true r.0 r.1).0,
  )
  | inr r ↦ ground (arith, r.1)
]

-- A recipient is added where there is room.
module _ (p : Proxy) (s : Session) (address : Bytes) (a : IsEnvelopeAddress false address)
    (v : IsValid p s) (room : leb 100 (length s.recipients) ≡ false) (m : s.mail_set ≡ true) where
  add_recipient-IsValid : IsValid p (add_recipient address s)
  add_recipient-IsValid = ground (
    arith,
    length-append s.recipients (address ∷ []),
    All-append (IsEnvelopeAddress false) s.recipients (address ∷ []) v.recipients_valid (a, tt),
  )

  add_answered-IsValid :
      (r : Result UpstreamError (ℕ × Bytes)) → IsValid p (add_answered r address s)
  unfolding add_answered reset_transaction
  add_answered-IsValid (err e) = upstream_failure-IsValid p (reset_transaction s) e (ground arith)
  add_answered-IsValid (ok (code, text)) =
      ground (arith, add_recipient-IsValid, upstream_failure-IsValid p s (status code text) v)

handle_rcpt-IsValid :
    (p : Proxy) (s : Session) (answers : Answers) (line : Bytes)
    → IsValid p s
    → IsValid p (handle_rcpt answers line s)
unfolding handle_rcpt
handle_rcpt-IsValid p s answers line v = elim (Result-cases (parse_smtp_path line rcpt_to false)) [
  | inl r ↦
      let a = (parse_smtp_path_sound line rcpt_to false r.0 r.1).0 in
      ground (
        arith,
        r.1,
        add_recipient-IsValid p s r.0 a v,
        λ (room : leb 100 (length s.recipients) ≡ false) (m : s.mail_set ≡ true).
            add_answered-IsValid p s r.0 a v room m (answers.rcpt r.0),
      )
  | inr r ↦ ground (arith, r.1)
]

handle_data-IsValid :
    {p : Proxy} {s : Session} (i : Input) → IsValid p s → IsValid p (handle_data p i s)
unfolding handle_data
handle_data-IsValid {p} {s} i v = elim (Bool-cases (not s.mail_set || length s.recipients == 0)) [
  | inl e ↦ rw e (ground arith)
  | inr e ↦ rw e (
      reset_transaction-IsValid
        {s = record s { output = s.output ++ (codes "354 End data with <CR><LF>.<CR><LF>" ∷ []) }} _
        (ground arith) (receive-SameLogin p i (read_data i.body) _))
]

handle_words-IsValid :
    (p : Proxy) (i : Input) (line : Bytes) (parts : List Bytes) (s : Session)
    → AreWords parts
    → IsValid p s
    → IsValid p (handle_parts p i line parts s)
unfolding handle_parts dispatch
handle_words-IsValid p i line [] s w v = v
handle_words-IsValid p i line (cmd ∷ rest) s w v = ground (
  arith,
  handle_auth-IsValid p s i.answers i.continuation (cmd ∷ rest) v,
  handle_helo-IsValid {p = p} {s = s} (cmd ∷ rest) w v,
  handle_ehlo-IsValid {p = p} {s = s} (cmd ∷ rest) w v,
  handle_mail-IsValid p s i.answers line v,
  handle_rcpt-IsValid p s i.answers line v,
  handle_data-IsValid {p = p} {s = s} i v,
  handle_rset-IsValid {p = p} {s = s} v,
  handle_starttls-IsValid {p = p} {s = s} i.handshake v,
)

handle_line-IsValid :
    (p : Proxy) (i : Input) (s : Session) → IsValid p s → IsValid p (handle_line p i s)
unfolding handle_line
handle_line-IsValid p i s v = ground (
  arith,
  handle_words-IsValid p i (Text.trim_space i.line) (Text.fields (Text.trim_space i.line)) s
      (fields-AreWords (Text.trim_space i.line)) v,
)

-- A valid session stays valid, whatever the client sends and the servers answer: a transaction needs
-- a greeting, and, where mail is submitted, a login that TLS protects; it has at most 100 recipients,
-- all of them addresses; and the server behind, if there is one, has a transaction open beside it.
pub serve-IsValid :
    (p : Proxy) (inputs : List Input) (s : Session) → IsValid p s → IsValid p (serve p inputs s)
unfolding serve
serve-IsValid p [] s v = v
serve-IsValid p (i ∷ inputs) s v =
    go s.closed (serve-IsValid p inputs (handle_line p i s) (handle_line-IsValid p i s v))
  where
    go :
        (b : Bool)
        → IsValid p (serve p inputs (handle_line p i s))
        → (let t : Session = elim b [ true ↦ s | false ↦ serve p inputs (handle_line p i s) ] in
            IsValid p t)
    go true w = v
    go false w = w
