-- ===== src/Text.antt =====
-- Go strings as lists of bytes, with the functions of package strings, strconv and bytes that the
-- program calls. Letters and white space are those of ASCII: a byte from 128 on is no letter and
-- no white space.
pub mod Laws
pub mod Lines
pub mod Base64
pub mod Runes
use Prim.Native.Char.{code}
use mailscript.Base.{
  ltb, leb, ◌==◌, if◌then◌else◌, length, take, any, ℤ, pos, negsuc, ℕ, zero, suc, ◌+◌, ◌-◌, ◌*◌,
  ◌/◌, ◌%◌, ◌^◌, String, Bool, true, false, ◌&&◌, ◌||◌, Option, none, some, List, [], ◌∷◌, ◌++◌,
  map, reverse,
}

abbrev pub Bytes : Type 0
Bytes = List ℕ

-- A string literal.
unfoldable pub codes : String → Bytes
codes String.[] = []
codes (String.◌∷◌ c s) = code c ∷ codes s

-- a == b
unfoldable pub eq : Bytes → Bytes → Bool
eq [] [] = true
eq (x ∷ xs) (y ∷ ys) = x == y && eq xs ys
eq _ _ = false

abbrev pub is_empty : Bytes → Bool
is_empty [] = true
is_empty (_ ∷ _) = false

-- strings.HasPrefix(s, p), with the prefix first
unfoldable pub has_prefix : Bytes → Bytes → Bool
has_prefix [] s = true
has_prefix (p ∷ ps) [] = false
has_prefix (p ∷ ps) (c ∷ s) = p == c && has_prefix ps s

unfoldable pub has_suffix : Bytes → Bytes → Bool
unfolding has_prefix
has_suffix p s = has_prefix (reverse p) (reverse s)

-- strings.TrimSuffix(s, p), with the suffix first
unfoldable pub trim_suffix : Bytes → Bytes → Bytes
unfolding has_suffix
trim_suffix p s = if has_suffix p s then take (length s - length p) s else s

abbrev pub lower_byte : ℕ → ℕ
lower_byte c = if leb b'A' c && leb c b'Z' then c + 32 else c

abbrev pub upper_byte : ℕ → ℕ
upper_byte c = if leb b'a' c && leb c b'z' then c - 32 else c

unfoldable pub to_lower : Bytes → Bytes
to_lower s = map lower_byte s

unfoldable pub to_upper : Bytes → Bytes
to_upper s = map upper_byte s

unfoldable pub equal_fold : Bytes → Bytes → Bool
unfolding to_lower eq
equal_fold s t = eq (to_lower s) (to_lower t)

-- unicode.IsSpace, on ASCII
abbrev pub is_space : ℕ → Bool
is_space c = c == b' ' || leb 9 c && leb c 13

unfoldable pub trim_left : (ℕ → Bool) → Bytes → Bytes
trim_left cut [] = []
trim_left cut (c ∷ s) = if cut c then trim_left cut s else c ∷ s

-- strings.TrimFunc; strings.Trim(s, set) is `trim (is_in set) s`
unfoldable pub trim : (ℕ → Bool) → Bytes → Bytes
trim cut s = reverse (trim_left cut (reverse (trim_left cut s)))

unfoldable pub trim_space : Bytes → Bytes
unfolding trim
trim_space s = trim is_space s

unfoldable pub is_in : Bytes → ℕ → Bool
is_in set c = any (λ d. c == d) set

-- strings.IndexByte: the position of the first byte `b`
unfoldable pub index_byte : ℕ → Bytes → Option ℕ
index_byte b [] = none
index_byte b (c ∷ s) =
    if c == b then some 0 else elim (index_byte b s) [ none ↦ none | some i ↦ some (suc i) ]

-- strings.LastIndex of one byte
unfoldable pub last_index_byte : ℕ → Bytes → Option ℕ
last_index_byte b [] = none
last_index_byte b (c ∷ s) = elim (last_index_byte b s) [
  | none ↦ if c == b then some 0 else none
  | some i ↦ some (suc i)
]

-- strings.Index of a text
unfoldable pub index : Bytes → Bytes → Option ℕ
unfolding has_prefix
index p [] = if is_empty p then some 0 else none
index p (c ∷ s) =
    if has_prefix p (c ∷ s)
    then some 0
    else elim (index p s) [ none ↦ none | some i ↦ some (suc i) ]

-- The word being read, put before the words that follow.
abbrev pub push_word : ℕ → List Bytes → List Bytes
push_word c [] = (c ∷ []) ∷ []
push_word c (w ∷ ws) = (c ∷ w) ∷ ws

-- The parts between the bytes that `cut` takes: at least one.
unfoldable pub split_func : (ℕ → Bool) → Bytes → List Bytes
split_func cut [] = [] ∷ []
split_func cut (c ∷ s) =
    let rest = split_func cut s in if cut c then [] ∷ rest else push_word c rest

-- strings.Split(s, b) for a separator of one byte
unfoldable pub split : ℕ → Bytes → List Bytes
unfolding split_func
split b s = split_func (λ c. c == b) s

abbrev keep_word : Bytes → List Bytes → List Bytes
keep_word [] ws = ws
keep_word (c ∷ w) ws = (c ∷ w) ∷ ws

unfoldable pub non_empty : List Bytes → List Bytes
non_empty [] = []
non_empty (w ∷ ws) = keep_word w (non_empty ws)

-- strings.FieldsFunc(s, cut): the empty parts are dropped
unfoldable pub fields_func : (ℕ → Bool) → Bytes → List Bytes
unfolding split_func non_empty
fields_func cut s = non_empty (split_func cut s)

-- strings.Fields
unfoldable pub fields : Bytes → List Bytes
unfolding fields_func
fields s = fields_func is_space s

-- strings.Join
unfoldable pub join : Bytes → List Bytes → Bytes
join sep [] = []
join sep (w ∷ []) = w
join sep (w ∷ v ∷ ws) = w ++ (sep ++ join sep (v ∷ ws))

-- strings.ReplaceAll(s, b, "") for one byte
unfoldable pub remove_byte : ℕ → Bytes → Bytes
remove_byte b [] = []
remove_byte b (c ∷ s) = let rest = remove_byte b s in if c == b then rest else c ∷ rest

abbrev pub is_digit : ℕ → Bool
is_digit c = leb b'0' c && leb c b'9'

-- The value of a text of decimal digits, before the digits `n`.
unfoldable pub decimal_from : ℕ → Bytes → Option ℕ
decimal_from n [] = some n
decimal_from n (c ∷ s) =
    let rest = decimal_from (n * 10 + (c - b'0')) s in if is_digit c then rest else none

-- strconv.ParseUint(s, 10, 64): `none` on a syntax error and out of range
unfoldable pub parse_uint : Bytes → Option ℕ
unfolding decimal_from
parse_uint [] = none
parse_uint (c ∷ s) = elim (decimal_from 0 (c ∷ s)) [
  | none ↦ none
  | some n ↦ if ltb n (2 ^ 64) then some n else none
]

-- strconv.Atoi: an optional sign and digits, within an int64
unfoldable pub atoi : Bytes → Option ℤ
unfolding parse_uint
atoi [] = none
atoi (c ∷ s) =
    if c == b'-'
    then elim (parse_uint s) [
      | none ↦ none
      | some n ↦
          if n == 0 then some (pos 0) else if leb n (2 ^ 63) then some (negsuc (n - 1)) else none
    ]
    else elim (parse_uint (if c == b'+' then s else c ∷ s)) [
      | none ↦ none
      | some n ↦ if ltb n (2 ^ 63) then some (pos n) else none
    ]

-- strings.Cut for one byte
unfoldable pub cut : ℕ → Bytes → Option (Bytes × Bytes)
cut b [] = none
cut b (c ∷ s) =
    if c == b then some ([], s) else elim (cut b s) [ none ↦ none | some p ↦ some (c ∷ p.0, p.1) ]

-- strings.SplitN(s, b, n) for a separator of one byte and n of at least 0
unfoldable pub split_n : ℕ → ℕ → Bytes → List Bytes
unfolding cut
split_n b zero s = []
split_n b (suc zero) s = s ∷ []
split_n b (suc (suc n)) s = elim (cut b s) [ none ↦ s ∷ [] | some p ↦ p.0 ∷ split_n b (suc n) p.1 ]

-- strings.SplitAfter(s, b) for one byte: each part but the last ends in the separator
unfoldable pub split_after : ℕ → Bytes → List Bytes
split_after b [] = [] ∷ []
split_after b (c ∷ s) =
    let rest = split_after b s in if c == b then (c ∷ []) ∷ rest else push_word c rest

-- strings.TrimRight
unfoldable pub trim_right : (ℕ → Bool) → Bytes → Bytes
unfolding trim_left
trim_right cut s = reverse (trim_left cut (reverse s))

digits_onto : ℕ → ℕ → Bytes → Bytes
digits_onto zero n out = out
digits_onto (suc fuel) n out =
    let digit = b'0' + n % 10 in
    elim (ltb n 10) [ true ↦ digit ∷ out | false ↦ digits_onto fuel (n / 10) (digit ∷ out) ]

-- strconv.Itoa, for a number that is not negative
unfoldable pub itoa : ℕ → Bytes
unfolding digits_onto
itoa n = digits_onto (suc n) n []
