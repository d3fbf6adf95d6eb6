-- ===== src/Delivery/Wire.antt =====
-- `readWireLine` and `validateWireData` of cmd/mailscript/delivery.go, and `dotStuff` and the reading
-- loop of `handleDATA` of cmd/mailscript/proxy.go.
pub mod Framing
pub mod Transparency
use mailscript.Base.{
  ltb, ◌==◌, if◌then◌else◌, length, any, Result, ok, err, ℕ, ◌+◌, ◌*◌, Bool, true, false, not, ◌&&◌,
  Option, none, some, List, [], ◌∷◌, ◌++◌,
}
use mailscript.Text
use mailscript.Text.{Bytes, codes}
use mailscript.Delivery.Envelope.{max_message_size}

-- What ReadSlice reports beside a part of a line.
pub data ReadStatus : Type 0 where
  line_end buffer_full failed : ReadStatus

pub data WireError : Type 0 where
  line_too_long read_failed : WireError

-- The loop over what ReadSlice returns, with the line so far. The line and the error come back
-- together; here a failure is an error. At the end of `parts` no more comes from the connection.
read_line_from : ℕ → Bytes → List (Bytes × ReadStatus) → Result WireError Bytes
read_line_from limit line [] = err read_failed
read_line_from limit line ((part, status) ∷ parts) =
    if ltb limit (length line + length part) then err line_too_long else elim status [
      | line_end ↦ ok (line ++ part)
      | buffer_full ↦ read_line_from limit (line ++ part) parts
      | failed ↦ err read_failed
    ]

unfoldable pub read_wire_line : List (Bytes × ReadStatus) → ℕ → Result WireError Bytes
unfolding read_line_from
read_wire_line parts limit = read_line_from limit [] parts

pub data WireFault : Type 0 where
  too_large bare_line_feed bare_carriage_return : WireFault

-- raw[i-1], which is not there for i = 0
abbrev follows_cr : Option ℕ → Bool
follows_cr none = false
follows_cr (some c) = c == b'\r'

-- raw[i+1], which is not there at the end
abbrev precedes_lf : Bytes → Bool
precedes_lf [] = false
precedes_lf (c ∷ s) = c == b'\n'

scan_wire : Option ℕ → Bytes → Option WireFault
scan_wire previous [] = none
scan_wire previous (b ∷ rest) =
    let later = scan_wire (some b) rest in
    if b == b'\n' && not (follows_cr previous)
    then some bare_line_feed
    else if b == b'\r' && not (precedes_lf rest)
    then some bare_carriage_return
    else later

-- The error, if there is one.
unfoldable pub validate_wire_data : Bytes → Option WireFault
unfolding scan_wire
validate_wire_data raw =
    if ltb max_message_size (length raw) then some too_large else scan_wire none raw

stuff_from : Bool → Bytes → Bytes
stuff_from at_line_start [] = []
stuff_from at_line_start (b ∷ rest) =
    let out = b ∷ stuff_from (b == b'\n') rest in
    if at_line_start && b == b'.' then b'.' ∷ out else out

unfoldable pub dot_stuff : Bytes → Bytes
unfolding stuff_from
dot_stuff raw = stuff_from true raw

abbrev pub crlf : Bytes
crlf = b'\r' ∷ b'\n' ∷ []

-- The ways in which the DATA command breaks off.
pub data DataError : Type 0 where
  connection_lost not_crlf message_too_large : DataError

-- A line of the message loses the dot that transparency put before it.
abbrev unstuff : Bytes → Bytes
unstuff [] = []
unstuff (c ∷ line) = if c == b'.' then line else c ∷ line

is_crlf_line : Bytes → Bool
is_crlf_line line =
    Text.has_suffix crlf line && not (any (λ c. c == b'\r') (Text.trim_suffix crlf line))

-- The most bytes of a line of the message, its end included.
abbrev pub max_data_line : ℕ
max_data_line = 64 * 1024

-- The loop of handleDATA over the lines that are read, with the message so far. At the end of
-- `lines` the read fails, and so it does at a line that `readWireLine` finds too long.
read_data_from : Bytes → List Bytes → Result DataError Bytes
read_data_from message [] = err connection_lost
read_data_from message (line ∷ lines) =
    let more = read_data_from (message ++ unstuff line) lines in
    if ltb max_data_line (length line)
    then err connection_lost
    else if not (is_crlf_line line)
    then err not_crlf
    else if Text.eq line (b'.' ∷ crlf)
    then ok message
    else if ltb max_message_size (length message + length (unstuff line))
    then err message_too_large
    else more

unfoldable pub read_data : List Bytes → Result DataError Bytes
unfolding read_data_from is_crlf_line
read_data lines = read_data_from [] lines
