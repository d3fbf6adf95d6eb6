-- ===== src/Session/Loop.antt =====
-- The handlers of the other commands, and the loop of `handleSMTPConnection`, of
-- cmd/mailscript/proxy.go.
pub mod Invariant
mod Authentication
pub mod Preservation
pub mod Accounting
use mailscript.Base.{
  leb, if◌then◌else◌, length, Result, ok, err, ℕ, Bool, true, false, not, ◌&&◌, ◌||◌, none, some,
  List, [], ◌∷◌, ◌++◌,
}
use mailscript.Text
use mailscript.Text.{Bytes, codes}
use mailscript.Delivery.Envelope.{PathError, mail_from, rcpt_to, parse_smtp_path}
use mailscript.Session.State.{
  Proxy, Session, UpstreamError, status, other, Answers, Input, write_line, close,
  reset_transaction, start,
}
use mailscript.Session.Replies.{upstream_failure}
use mailscript.Session.Auth.{handle_auth}
use mailscript.Session.Deliver.{is_recipient_code}
use mailscript.Session.Data.{handle_data}

unfoldable pub handle_helo : List Bytes → Session → Session
handle_helo (_ ∷ name ∷ _) s =
    write_line (codes "250 MailScript SMTP Proxy") (record (reset_transaction s) { helo = name })
handle_helo _ s = write_line (codes "501 Syntax: HELO hostname") s

abbrev write_if : Bool → Bytes → Session → Session
write_if test msg s = if test then write_line msg s else s

unfoldable pub ehlo_lines : Proxy → Session → Session
ehlo_lines p s = write_line (codes "250 SIZE 52428800") (
    write_if (p.submission && s.tls_active && not s.authenticated) (codes "250-AUTH PLAIN") (
      write_if (p.has_tls && not s.tls_active) (codes "250-STARTTLS") (
        write_line (codes "250-8BITMIME") (
          write_line (codes "250-PIPELINING") (write_line (codes "250-MailScript SMTP Proxy") s)))))

unfoldable pub handle_ehlo : Proxy → List Bytes → Session → Session
handle_ehlo p (_ ∷ name ∷ _) s = ehlo_lines p (record (reset_transaction s) { helo = name })
handle_ehlo p _ s = write_line (codes "501 Syntax: EHLO hostname") s

-- A transaction is opened behind, and only then for the client.
unfoldable pub open_mail : Proxy → Answers → Bytes → Session → Session
open_mail p answers address s =
    if p.has_upstream
    then elim answers.begin [
      | some e ↦ upstream_failure e (reset_transaction s)
      | none ↦
          write_line (codes "250 OK")
            (record s { from = address; upstream = true; mail_set = true })
    ]
    else write_line (codes "250 OK") (record s { from = address; mail_set = true })

unfoldable pub handle_mail : Proxy → Answers → Bytes → Session → Session
handle_mail p answers line s =
    if Text.is_empty s.helo
    then write_line (codes "503 Send HELO or EHLO first") s
    else if p.submission && not s.authenticated
    then write_line (codes "530 Authentication required") s
    else if s.mail_set
    then write_line (codes "503 Transaction already started") s
    else elim (parse_smtp_path line mail_from true) [
      | err e ↦ write_line (codes "501 Invalid MAIL FROM") s
      | ok address ↦ open_mail p answers address (reset_transaction s)
    ]

abbrev add_recipient : Bytes → Session → Session
add_recipient address s =
    write_line (codes "250 OK") (record s { recipients = s.recipients ++ (address ∷ []) })

-- With a transaction open behind, the recipient is taken only if the server there takes it.
unfoldable pub add_answered : Result UpstreamError (ℕ × Bytes) → Bytes → Session → Session
add_answered (err e) address s = upstream_failure e (reset_transaction s)
add_answered (ok (code, text)) address s =
    if is_recipient_code code
    then add_recipient address s
    else upstream_failure (status code text) s

unfoldable pub handle_rcpt : Answers → Bytes → Session → Session
handle_rcpt answers line s =
    if not s.mail_set
    then write_line (codes "503 Send MAIL first") s
    else elim (parse_smtp_path line rcpt_to false) [
      | err e ↦ write_line (codes "501 Invalid RCPT TO") s
      | ok address ↦
          if leb 100 (length s.recipients)
          then write_line (codes "452 Too many recipients") s
          else if s.upstream
          then add_answered (answers.rcpt address) address s
          else add_recipient address s
    ]

unfoldable pub handle_rset : Session → Session
handle_rset s = write_line (codes "250 OK") (reset_transaction s)

-- `handshake` says whether the TLS handshake succeeds.
unfoldable pub handle_starttls : Proxy → Bool → Session → Session
handle_starttls p handshake s =
    if not p.has_tls || s.tls_active
    then write_line (codes "454 TLS not available") s
    else if not handshake
    then close (write_line (codes "220 Ready to start TLS") s)
    else record (reset_transaction (write_line (codes "220 Ready to start TLS") s)) {
      helo = [];
      authenticated = false;
      auth_user = [];
      auth_password = [];
      tls_active = true;
    }

-- The switch over the command in capitals. QUIT ends the loop, and with it the transaction behind.
unfoldable pub dispatch : Proxy → Input → Bytes → Bytes → List Bytes → Session → Session
dispatch p i line cmd parts s =
    if Text.eq cmd (codes "AUTH")
    then handle_auth p i.answers i.continuation parts s
    else if Text.eq cmd (codes "HELO")
    then handle_helo parts s
    else if Text.eq cmd (codes "EHLO")
    then handle_ehlo p parts s
    else if Text.eq cmd (codes "MAIL")
    then handle_mail p i.answers line s
    else if Text.eq cmd (codes "RCPT")
    then handle_rcpt i.answers line s
    else if Text.eq cmd (codes "DATA")
    then handle_data p i s
    else if Text.eq cmd (codes "RSET")
    then handle_rset s
    else if Text.eq cmd (codes "NOOP")
    then write_line (codes "250 OK") s
    else if Text.eq cmd (codes "QUIT")
    then close (write_line (codes "221 Bye") s)
    else if Text.eq cmd (codes "STARTTLS")
    then handle_starttls p i.handshake s
    else write_line (codes "500 Command not recognized") s

-- An empty line is passed over.
unfoldable pub handle_parts : Proxy → Input → Bytes → List Bytes → Session → Session
handle_parts p i line [] s = s
handle_parts p i line (cmd ∷ rest) s = dispatch p i line (Text.to_upper cmd) (cmd ∷ rest) s

-- One turn of the loop, on a line that was read whole.
unfoldable pub handle_line : Proxy → Input → Session → Session
handle_line p i s =
    let line = Text.trim_space i.line in
    if Text.is_empty line then s else handle_parts p i line (Text.fields line) s

-- The loop, over the lines of a client. It ends when the connection is closed or has no more lines;
-- a transaction behind that is still open then is closed after it, by the deferred `closeUpstream`.
unfoldable pub serve : Proxy → List Input → Session → Session
serve p [] s = s
serve p (i ∷ inputs) s = elim s.closed [ true ↦ s | false ↦ serve p inputs (handle_line p i s) ]
