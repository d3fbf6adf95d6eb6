-- ===== src/Text/Runes.antt =====
-- A string written rune by rune, as a Go loop `for _, r := range s` with `WriteRune(r)` does: a byte
-- that begins no rune of UTF-8 becomes the replacement character U+FFFD.
use mailscript.Base.{
  ltb, leb, ◌==◌, if◌then◌else◌, All, ℕ, zero, suc, ◌<◌, ◌≡◌, refl, ap, Bool, true, false, ◌&&◌,
  Option, none, some, [], ◌∷◌, arith,
}
use mailscript.Text.{Bytes}

abbrev in_range : ℕ → ℕ → ℕ → Bool
in_range low high c = leb low c && leb c high

-- The bytes that may follow a first byte.
abbrev follows : ℕ → ℕ → Bool
follows lead c =
    in_range (if lead == 0xe0 then 0xa0 else if lead == 0xf0 then 0x90 else 0x80)
      (if lead == 0xed then 0x9f else if lead == 0xf4 then 0x8f else 0xbf) c

-- The number of bytes behind the first byte, by that byte.
unfoldable trailing_of : ℕ → Option ℕ
trailing_of lead =
    if ltb lead 0x80
    then some 0
    else if in_range 0xc2 0xdf lead
    then some 1
    else if in_range 0xe0 0xef lead
    then some 2
    else if in_range 0xf0 0xf4 lead
    then some 3
    else none

-- The text begins with so many bytes from 0x80 to 0xbf.
unfoldable continues : ℕ → Bytes → Bool
continues zero s = true
continues (suc k) [] = false
continues (suc k) (c ∷ s) = in_range 0x80 0xbf c && continues k s

-- A rune that begins with this byte: the number of its further bytes.
unfoldable further_bytes : ℕ → Bytes → Option ℕ
unfolding trailing_of continues
further_bytes lead s = elim (trailing_of lead) [
  | none ↦ none
  | some zero ↦ some 0
  | some (suc k) ↦ elim s [
    | [] ↦ none
    | c ∷ rest ↦ if follows lead c && continues k rest then some (suc k) else none
  ]
]

-- The loop, with the number of bytes that the rune before it still has.
unfoldable pub runes_from : ℕ → Bytes → Bytes
unfolding further_bytes
runes_from k [] = []
runes_from (suc k) (c ∷ s) = c ∷ runes_from k s
runes_from zero (c ∷ s) = elim (further_bytes c s) [
  | none ↦ 0xef ∷ 0xbf ∷ 0xbd ∷ runes_from 0 s
  | some k ↦ c ∷ runes_from k s
]

unfoldable pub write_runes : Bytes → Bytes
write_runes s = runes_from 0 s

-- Every byte of the text belongs to a rune.
abbrev pub IsUtf8 : Bytes → Type 0
IsUtf8 s = write_runes s ≡ s

trailing_of-ascii : (c : ℕ) → c < 0x80 → trailing_of c ≡ some 0
unfolding trailing_of
trailing_of-ascii c h = ground arith

further_bytes-ascii : (c : ℕ) (s : Bytes) → c < 0x80 → further_bytes c s ≡ some 0
unfolding further_bytes
further_bytes-ascii c s h = rw (trailing_of-ascii c h, further_bytes) refl

runes_from-ascii : (s : Bytes) → All (λ c. c < 0x80) s → runes_from 0 s ≡ s
unfolding runes_from
runes_from-ascii [] h = refl
runes_from-ascii (c ∷ s) h =
    rw (further_bytes-ascii c s h.0, runes_from) (ap (λ t. c ∷ t) (runes_from-ascii s h.1))

-- A text of ASCII is written as it is.
pub ascii-IsUtf8 : (s : Bytes) → All (λ c. c < 0x80) s → IsUtf8 s
unfolding write_runes
ascii-IsUtf8 s h = runes_from-ascii s h

-- A letter of two bytes is kept, and the single byte 0xe9 of Latin-1 becomes three.
latin_1 :
    write_runes (0xc3 ∷ 0xa9 ∷ 0xe9 ∷ b',' ∷ []) ≡ 0xc3 ∷ 0xa9 ∷ 0xef ∷ 0xbf ∷ 0xbd ∷ b',' ∷ []
unfolding write_runes runes_from further_bytes trailing_of continues
latin_1 = refl
