-- ===== src/Spf/Macros.antt =====
-- `expandDomainSpec` of pkg/authverify/spf.go: the macro language of RFC 7208, section 7.
use mailscript.Base.{
  ltb, ◌==◌, if◌then◌else◌, length, take, drop, Result, ok, err, ℕ, zero, suc, ◌+◌, ◌-◌, ◌*◌, ◌/◌,
  ◌%◌, ◌^◌, Bool, true, false, ◌&&◌, ◌||◌, Option, none, some, List, [], ◌∷◌, ◌++◌, reverse,
}
use mailscript.Text
use mailscript.Text.{Bytes, codes}
use mailscript.Net.{is_v4}
use mailscript.Spf.Types.{
  Reason, trailing_percent, bad_escape, unterminated_macro, empty_macro, unsupported_macro,
  Evaluator,
}

-- ip.String() of an IPv4 address
unfoldable pub dotted : ℕ → Bytes
dotted ip = Text.join (codes ".") (
    Text.itoa (ip / 2 ^ 24 % 256)
    ∷ Text.itoa (ip / 2 ^ 16 % 256)
    ∷ Text.itoa (ip / 2 ^ 8 % 256)
    ∷ Text.itoa (ip % 256)
    ∷ [])

abbrev hex_character : ℕ → ℕ
hex_character n = if ltb n 10 then b'0' + n else b'a' + (n - 10)

-- The last `count` nibbles of a number, before `out`.
unfoldable pub nibbles : ℕ → ℕ → List Bytes → List Bytes
nibbles zero n out = out
nibbles (suc count) n out = nibbles count (n / 16) ((hex_character (n % 16) ∷ []) ∷ out)

unfoldable pub ip_text : ℕ → Bytes
ip_text ip = if is_v4 ip then dotted ip else Text.join (codes ".") (nibbles 32 ip [])

-- The part before and after the last at-sign of the sender.
unfoldable pub sender_part : Bool → Bytes → Option Bytes
sender_part local sender = elim (Text.last_index_byte b'@' sender) [
  | none ↦ none
  | some at ↦ some (if local then take at sender else drop (suc at) sender)
]

-- values[letter]
unfoldable pub macro_value : Evaluator → Bytes → ℕ → Option Bytes
macro_value e domain letter =
    if letter == b's'
    then some e.sender
    else if letter == b'd'
    then some domain
    else if letter == b'i'
    then some (ip_text e.ip)
    else if letter == b'h'
    then some e.helo
    else if letter == b'v'
    then some (if is_v4 e.ip then codes "in-addr" else codes "ip6")
    else if letter == b'l'
    then sender_part true e.sender
    else if letter == b'o'
    then sender_part false e.sender
    else none

-- The digits at the head of a transformer, as a 64-bit integer that wraps around, and the rest.
unfoldable pub leading_digits : ℕ → Bytes → ℕ × Bytes
leading_digits n [] = (n, [])
leading_digits n (c ∷ rest) =
    let more = leading_digits ((n * 10 + (c - b'0')) % 2 ^ 64) rest in
    if Text.is_digit c then more else (n, c ∷ rest)

-- digits > 0 of a signed integer
abbrev is_positive : ℕ → Bool
is_positive digits = ltb 0 digits && ltb digits (2 ^ 63)

unfoldable pub last_parts : ℕ → List Bytes → List Bytes
last_parts digits parts =
    if is_positive digits && ltb digits (length parts)
    then drop (length parts - digits) parts
    else parts

abbrev or_dot : Bytes → Bytes
or_dot [] = codes "."
or_dot (c ∷ delimiters) = c ∷ delimiters

-- The parts of the value, in reverse if asked for, behind the letter and the digits.
unfoldable pub transform : Bytes → ℕ × Bytes → Bytes
transform value (digits, rest) =
    let reversed = Text.has_prefix (codes "r") rest in
    let delimiters = or_dot (if reversed then drop 1 rest else rest) in
    let parts = last_parts digits (Text.fields_func (Text.is_in delimiters) value) in
    Text.join (codes ".") (if reversed then reverse parts else parts)

-- What stands between the braces.
unfoldable pub expand_macro : Evaluator → Bytes → Bytes → Result Reason Bytes
expand_macro e domain [] = err empty_macro
expand_macro e domain (letter ∷ rest) =
    if letter == b'p' || ltb letter b'a' || ltb b'z' letter
    then err (unsupported_macro (letter ∷ rest))
    else elim (macro_value e domain letter) [
      | none ↦ err (unsupported_macro (letter ∷ rest))
      | some value ↦ ok (transform value (leading_digits 0 rest))
    ]

-- Where the loop over the text stands: outside, behind a percent sign, or inside braces, behind the
-- bytes read there.
pub data Mode : Type 0 where
  outside escape : Mode
  braces : Bytes → Mode

unfoldable pub expand_from : Evaluator → Bytes → Mode → Bytes → Bytes → Result Reason Bytes
expand_from e domain outside out [] = ok out
expand_from e domain escape out [] = err trailing_percent
expand_from e domain (braces expr) out [] = err unterminated_macro
expand_from e domain outside out (c ∷ spec) =
    expand_from e domain (if c == b'%' then escape else outside)
      (if c == b'%' then out else out ++ (c ∷ [])) spec
expand_from e domain escape out (c ∷ spec) =
    let go_on = λ (s : Bytes). expand_from e domain outside (out ++ s) spec in
    let inside = expand_from e domain (braces []) out spec in
    if c == b'%'
    then go_on (codes "%")
    else if c == b'_'
    then go_on (codes " ")
    else if c == b'-'
    then go_on (codes "%20")
    else if c == b'{'
    then inside
    else err (bad_escape c)
expand_from e domain (braces expr) out (c ∷ spec) = elim (c == b'}') [
  | false ↦ expand_from e domain (braces (expr ++ (c ∷ []))) out spec
  | true ↦ elim (expand_macro e domain expr) [
    | err reason ↦ err reason
    | ok value ↦ expand_from e domain outside (out ++ value) spec
  ]
]

-- Every error of the macro language is a permerror.
unfoldable pub expand_domain_spec : Evaluator → Bytes → Bytes → Result Reason Bytes
expand_domain_spec e spec domain = expand_from e domain outside [] spec
