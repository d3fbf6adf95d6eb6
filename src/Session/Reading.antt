-- ===== src/Session/Reading.antt =====
-- `readSMTPReply` of cmd/mailscript/proxy.go: one reply of the server behind, of several lines.
pub mod Extent
use mailscript.Base.{
  ltb, ◌==◌, if◌then◌else◌, length, take, drop, Result, ok, err, ℤ, pos, ℕ, ◌+◌, ◌*◌, Bool, true,
  false, not, ◌&&◌, ◌||◌, Option, none, some, List, [], ◌∷◌, ◌++◌,
}
use mailscript.Text
use mailscript.Text.{Bytes}

pub data ReplyError : Type 0 where
  reply_lost reply_too_large malformed inconsistent : ReplyError

-- trimmed[3], if it is there, is neither a space nor a dash
unfoldable pub bad_separator : Bytes → Bool
bad_separator [] = false
bad_separator (c ∷ rest) = not (c == b' ') && not (c == b'-')

-- The code, within its bounds.
unfoldable pub status_code : Option ℤ → Option ℕ
status_code (some (pos n)) = if ltb n 200 || ltb 599 n then none else some n
status_code _ = none

-- The code of a line that is well formed.
unfoldable pub line_code : Bytes → Option ℕ
line_code line =
    let trimmed = Text.trim_right (λ c. c == b'\r' || c == b'\n') line in
    if ltb (length trimmed) 3 || bad_separator (drop 3 trimmed)
    then none
    else status_code (Text.atoi (take 3 trimmed))

-- line[3], if it is there, is a dash
unfoldable pub continues : Bytes → Bool
continues line = elim (drop 3 line) [ [] ↦ false | c ∷ rest ↦ c == b'-' ]

abbrev differs : Option ℕ → ℕ → Bool
differs none code = false
differs (some expected) code = not (expected == code)

-- The loop over the lines that are read, with the code so far, if there is one, and the text so far.
-- At the end of `lines` the read fails.
unfoldable pub read_reply_from : Option ℕ → Bytes → List Bytes → Result ReplyError (ℕ × Bytes)
read_reply_from expected full [] = err reply_lost
read_reply_from expected full (line ∷ lines) =
    if ltb (64 * 1024) (length full + length line)
    then err reply_too_large
    else elim (line_code line) [
      | none ↦ err malformed
      | some code ↦ if differs expected code then err inconsistent else elim (continues line) [
        | true ↦ read_reply_from (some code) (full ++ line) lines
        | false ↦ ok (code, full ++ line)
      ]
    ]

unfoldable pub read_smtp_reply : List Bytes → Result ReplyError (ℕ × Bytes)
unfolding read_reply_from
read_smtp_reply lines = read_reply_from none [] lines
