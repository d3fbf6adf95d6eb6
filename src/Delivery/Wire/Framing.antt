-- ===== src/Delivery/Wire/Framing.antt =====
-- `readWireLine` and `validateWireData` of cmd/mailscript/delivery.go, against the grammar of lines.
use mailscript.Base.{
  ◌==◌, Bool-cases, length, length-append, ok, ℕ, ◌≤◌, ◌≡◌, refl, ◌∙◌, ◌≢◌, ◌↔◌, inl, inr, false,
  Option, none, some, List, [], ◌∷◌, ◌++◌, append_assoc, arith,
}
use mailscript.Text.{Bytes}
use mailscript.Delivery.Envelope.{max_message_size}
use mailscript.Delivery.Wire.{
  ReadStatus, line_end, buffer_full, failed, read_line_from, read_wire_line, follows_cr, scan_wire,
  validate_wire_data,
}

-- The parts of a line up to its end, joined.
abbrev pub line_of : List (Bytes × ReadStatus) → Bytes
line_of [] = []
line_of ((part, buffer_full) ∷ parts) = part ++ line_of parts
line_of ((part, _) ∷ parts) = part

read_line_from-eq-ok :
    (limit : ℕ) (line : Bytes) (parts : List (Bytes × ReadStatus)) (r : Bytes)
    → read_line_from limit line parts ≡ ok r
    → (r ≡ line ++ line_of parts) × (length r ≤ limit)
unfolding read_line_from
read_line_from-eq-ok limit line [] r h = cc
read_line_from-eq-ok limit line ((part, line_end) ∷ parts) r h =
    ground (arith, length-append line part)
read_line_from-eq-ok limit line ((part, failed) ∷ parts) r h = ground arith
read_line_from-eq-ok limit line ((part, buffer_full) ∷ parts) r h =
    let more : read_line_from limit (line ++ part) parts ≡ ok r = ground arith in
    let ih = read_line_from-eq-ok limit (line ++ part) parts r more in
    (ih.0 ∙ append_assoc line part (line_of parts), ih.1)

-- A line that is read whole is all that came up to its end, and is within the limit.
pub read_wire_line_sound :
    (parts : List (Bytes × ReadStatus)) (limit : ℕ) (r : Bytes)
    → read_wire_line parts limit ≡ ok r
    → (r ≡ line_of parts) × (length r ≤ limit)
unfolding read_wire_line
read_wire_line_sound parts limit r h = read_line_from-eq-ok limit [] parts r h

-- Text in which carriage return and line feed occur only as the pair that ends a line.
pub data IsCrlfText : Bytes → Type 0 where
  done : IsCrlfText []
  plain : (c : ℕ) {s : Bytes} → c ≢ b'\r' → c ≢ b'\n' → IsCrlfText s → IsCrlfText (c ∷ s)
  line : (c d : ℕ) {s : Bytes} → c ≡ b'\r' → d ≡ b'\n' → IsCrlfText s → IsCrlfText (c ∷ d ∷ s)

scan_wire-IsCrlfText :
    (previous : Option ℕ) (s : Bytes)
    → follows_cr previous ≡ false
    → scan_wire previous s ≡ none
    → IsCrlfText s
unfolding scan_wire
scan_wire-IsCrlfText previous [] f h = done
scan_wire-IsCrlfText previous (c ∷ []) f h = elim (Bool-cases (c == b'\r')) [
  | inl e ↦ absurd (ground arith)
  | inr e ↦ plain c (ground arith) (ground arith) done
]
scan_wire-IsCrlfText previous (c ∷ d ∷ s) f h = elim (Bool-cases (c == b'\r')) [
  | inl e ↦
      line c d (ground arith) (ground arith)
        (scan_wire-IsCrlfText (some d) s (ground arith) (ground arith))
  | inr e ↦
      plain c (ground arith) (ground arith) (scan_wire-IsCrlfText (some c) (d ∷ s) e (ground arith))
]

IsCrlfText-scan_wire :
    (previous : Option ℕ) {s : Bytes}
    → follows_cr previous ≡ false
    → IsCrlfText s
    → scan_wire previous s ≡ none
unfolding scan_wire
IsCrlfText-scan_wire previous f done = refl
IsCrlfText-scan_wire previous f (plain c n m t) =
    ground (arith, IsCrlfText-scan_wire (some c) (ground arith) t)
IsCrlfText-scan_wire previous f (line c d n m t) =
    ground (arith, IsCrlfText-scan_wire (some d) (ground arith) t)

-- Data passes the check before the relay exactly if it is at most 50 MiB long and its carriage returns and line feeds
-- occur only as line endings.
pub validate_wire_data_exact :
    (raw : Bytes)
    → (validate_wire_data raw ≡ none) ↔ ((length raw ≤ max_message_size) × IsCrlfText raw)
unfolding validate_wire_data
validate_wire_data_exact raw = (
  λ h. (ground arith, scan_wire-IsCrlfText none raw refl (ground arith)),
  λ h. ground (arith, IsCrlfText-scan_wire none refl h.1),
)
