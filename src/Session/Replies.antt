-- ===== src/Session/Replies.antt =====
-- `upstreamError`, `message`, `clientReply` and `upstreamFailure`: an error of the server behind, as
-- the client sees it.
use mailscript.Base.{
  leb, ◌==◌, if◌then◌else◌, length, take, drop, ℕ, suc, Bool, ◌&&◌, none, some, [], ◌∷◌, ◌++◌,
}
use mailscript.Text
use mailscript.Text.{Bytes, codes}
use mailscript.Delivery.Policy.{smtp_reply_text}
use mailscript.Session.State.{Session, UpstreamError, status, other, write_line, close}

last_line : Bytes → Bytes
last_line text = elim (Text.last_index_byte b'\n' text) [
  | none ↦ text
  | some i ↦ Text.trim_space (drop (suc i) text)
]

-- The leading code is taken off if the text begins with a number of three characters.
without_code : Bytes → Bytes
without_code last =
    if leb 3 (length last)
    then elim (Text.atoi (take 3 last)) [
      | none ↦ last
      | some n ↦ Text.trim_space (Text.trim_left (Text.is_in (codes "- ")) (drop 3 last))
    ]
    else last

or_rejected : Bytes → Bytes
or_rejected [] = codes "rejected by upstream"
or_rejected (c ∷ text) = c ∷ text

unfoldable pub upstream_message : Bytes → Bytes
unfolding last_line without_code or_rejected
upstream_message text = or_rejected (without_code (last_line (Text.trim_space text)))

unfoldable pub client_reply : ℕ → Bytes → Bytes
client_reply code text = Text.itoa code ++ (codes " " ++ smtp_reply_text (upstream_message text))

abbrev pub is_failure_code : ℕ → Bool
is_failure_code code = leb 400 code && leb code 599

unfoldable pub upstream_failure : UpstreamError → Session → Session
upstream_failure (status code text) s =
    if is_failure_code code
    then (if code == 421
        then close (write_line (client_reply code text) s)
        else write_line (client_reply code text) s)
    else write_line (codes "451 Upstream temporarily unavailable") s
upstream_failure other s = write_line (codes "451 Upstream temporarily unavailable") s
