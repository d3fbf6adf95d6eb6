-- ===== src/Text/Base64.antt =====
-- encoding/base64, StdEncoding.DecodeString: padded, with line endings skipped.
use mailscript.Base.{
  leb, ◌==◌, if◌then◌else◌, ℕ, ◌+◌, ◌-◌, ◌*◌, ◌/◌, ◌%◌, ◌&&◌, Option, none, some, [], ◌∷◌,
}
use mailscript.Text.{Bytes, remove_byte}

sextet : ℕ → Option ℕ
sextet c =
    if leb b'A' c && leb c b'Z'
    then some (c - b'A')
    else if leb b'a' c && leb c b'z'
    then some (c - b'a' + 26)
    else if leb b'0' c && leb c b'9'
    then some (c - b'0' + 52)
    else if c == b'+'
    then some 62
    else if c == b'/'
    then some 63
    else none

abbrev one_byte : Option ℕ → Option ℕ → Option Bytes
one_byte (some a) (some b) = some ((a * 4 + b / 16) ∷ [])
one_byte _ _ = none

abbrev two_bytes : Option ℕ → Option ℕ → Option ℕ → Option Bytes
two_bytes (some a) (some b) (some c) = some ((a * 4 + b / 16) ∷ (b % 16 * 16 + c / 4) ∷ [])
two_bytes _ _ _ = none

abbrev three_bytes : Option ℕ → Option ℕ → Option ℕ → Option ℕ → Option Bytes → Option Bytes
three_bytes (some a) (some b) (some c) (some d) (some rest) =
    some ((a * 4 + b / 16) ∷ (b % 16 * 16 + c / 4) ∷ (c % 4 * 64 + d) ∷ rest)
three_bytes _ _ _ _ _ = none

abbrev last_group : Bytes → Option Bytes → Option Bytes
last_group [] out = out
last_group (_ ∷ _) out = none

-- Groups of four characters; the last one may end in one or two padding signs.
decode_groups : Bytes → Option Bytes
decode_groups [] = some []
decode_groups (a ∷ b ∷ c ∷ d ∷ rest) =
    let later = decode_groups rest in
    if c == b'=' && d == b'='
    then last_group rest (one_byte (sextet a) (sextet b))
    else if d == b'='
    then last_group rest (two_bytes (sextet a) (sextet b) (sextet c))
    else three_bytes (sextet a) (sextet b) (sextet c) (sextet d) later
decode_groups _ = none

-- `none` where the decoder reports an error
unfoldable pub decode : Bytes → Option Bytes
unfolding decode_groups sextet
decode s = decode_groups (remove_byte b'\r' (remove_byte b'\n' s))
