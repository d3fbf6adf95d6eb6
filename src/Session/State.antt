-- ===== src/Session/State.antt =====
-- `SMTPProxy`, `ProxyStats`, `SMTPSession`, `writeLine` and `resetTransaction` of
-- cmd/mailscript/proxy.go, and what the environment answers while one command is handled.
use mailscript.Base.{Result, ℕ, Bool, true, false, Option, List, [], ◌∷◌, ◌++◌}
use mailscript.Text.{Bytes, codes}
use mailscript.Delivery.Wire.{WireError}

-- The settings that the handlers read.
pub record Proxy : Type 0 where
  pub submission : Bool
  pub has_tls : Bool
  pub has_upstream : Bool
  pub has_host_adapter : Bool
  pub forward_quarantine : Bool

pub record Stats : Type 0 where
  pub processed : ℕ
  pub accepted : ℕ
  pub rejected : ℕ
  pub bytes : ℕ

-- One session, with the counters of its proxy. `upstream` says whether a transaction with the
-- server behind is open, `closed` whether the connection is, and `output` holds the lines written.
pub record Session : Type 0 where
  pub actions : List Bytes
  pub from : Bytes
  pub recipients : List Bytes
  pub message : Bytes
  pub helo : Bytes
  pub mail_set : Bool
  pub tls_active : Bool
  pub reply_code : ℕ
  pub upstream : Bool
  pub authenticated : Bool
  pub auth_user : Bytes
  pub auth_password : Bytes
  pub closed : Bool
  pub output : List Bytes
  pub stats : Stats

-- An error of the code that talks to the server behind: an upstreamError or another one.
pub data UpstreamError : Type 0 where
  status : ℕ → Bytes → UpstreamError
  other : UpstreamError

-- What the policy engine makes of one message: it cannot be parsed, the script fails, or it leaves
-- actions, the names of removed headers, and added headers in the order of their names.
pub data ScriptRun : Type 0 where
  parse_failed script_failed : ScriptRun
  ran : List Bytes → List Bytes → List (Bytes × Bytes) → ScriptRun

-- The answers of the server behind and of the host, none where there is no error.
pub record Answers : Type 0 where
  pub connect : Option UpstreamError
  pub begin : Option UpstreamError
  pub rcpt : Bytes → Result UpstreamError (ℕ × Bytes)
  pub data_command : Option UpstreamError
  pub write : Option UpstreamError
  pub finish : Option UpstreamError
  pub host : Option UpstreamError

-- All that comes from outside while one command line is handled.
pub record Input : Type 0 where
  pub line : Bytes
  pub continuation : Result WireError Bytes
  pub body : List Bytes
  pub script : ScriptRun
  pub answers : Answers
  pub handshake : Bool

abbrev pub write_line : Bytes → Session → Session
write_line msg s = record s { output = s.output ++ (msg ∷ []) }

abbrev pub close : Session → Session
close s = record s { closed = true }

abbrev pub close_upstream : Session → Session
close_upstream s = record s { upstream = false }

unfoldable pub reset_transaction : Session → Session
reset_transaction s = record s {
  upstream = false;
  from = [];
  recipients = [];
  message = [];
  mail_set = false;
  reply_code = 0;
  actions = [];
}

-- A new connection.
abbrev pub start : Session
start = record {
  actions = [];
  from = [];
  recipients = [];
  message = [];
  helo = [];
  mail_set = false;
  tls_active = false;
  reply_code = 0;
  upstream = false;
  authenticated = false;
  auth_user = [];
  auth_password = [];
  closed = false;
  output = codes "220 MailScript SMTP Proxy ready" ∷ [];
  stats = record { processed = 0; accepted = 0; rejected = 0; bytes = 0 };
}
