-- ===== src/Rules/Fields.antt =====
-- `SplitMessage`, `ParseHeaderBlock` and `splitLines` of pkg/rules/message.go.
pub mod RoundTrip
pub mod Block
use mailscript.Base.{
  ltb, ◌==◌, if◌then◌else◌, length, take, drop, ℕ, suc, ◌+◌, Bool, true, false, ◌||◌, Option, none,
  some, List, [], ◌∷◌, ◌++◌,
}
use mailscript.Text
use mailscript.Text.{Bytes, codes}
use mailscript.Dkim.Fields.{crlf_to_lf}

-- Header
pub record Field : Type 0 where
  pub name : Bytes
  pub value : Bytes
  pub raw : Bytes
  pub line_num : ℕ
  pub folded : Bool
  pub max_octet : ℕ

abbrev pub crlf : Bytes
crlf = b'\r' ∷ b'\n' ∷ []

-- raw[:i] and raw[i+n:], where a blank line of `n` bytes begins at `i`
abbrev parted : ℕ → ℕ → Bytes → Bytes × Bytes
parted n i raw = (take i raw, drop (i + n) raw)

unfoldable pub split_message : Bytes → Bytes × Bytes
unfolding Text.index
split_message raw = elim (Text.index (crlf ++ crlf) raw) [
  | some i ↦ parted 4 i raw
  | none ↦ elim (Text.index (b'\n' ∷ b'\n' ∷ []) raw) [ some i ↦ parted 2 i raw | none ↦ (raw, []) ]
]

-- lines[:len(lines)-1], if the last line is empty
unfoldable pub drop_last_empty : List Bytes → List Bytes
drop_last_empty [] = []
drop_last_empty ([] ∷ []) = []
drop_last_empty ((c ∷ l) ∷ []) = (c ∷ l) ∷ []
drop_last_empty (l ∷ m ∷ ls) = l ∷ drop_last_empty (m ∷ ls)

unfoldable pub split_lines : Bytes → List Bytes
unfolding Text.split crlf_to_lf drop_last_empty
split_lines [] = []
split_lines (c ∷ s) = drop_last_empty (Text.split b'\n' (crlf_to_lf (c ∷ s)))

-- strings.TrimRight(line, "\r\n")
unfoldable pub trim_eol : Bytes → Bytes
unfolding Text.trim_right
trim_eol line = Text.trim_right (λ c. c == b'\r' || c == b'\n') line

-- `cur` and `headers`
pub record ParseState : Type 0 where
  pub cur : Option Field
  pub headers : List Field

unfoldable pub flush : ParseState → List Field
unfolding Text.trim_space
flush s = elim s.cur [
  | none ↦ s.headers
  | some f ↦ s.headers ++ (record f { value = Text.trim_space f.value } ∷ [])
]

abbrev pub begins_folded : Bytes → Bool
begins_folded [] = false
begins_folded (c ∷ _) = c == b' ' || c == b'\t'

-- A continuation line of the field.
unfoldable pub continue_field : Bytes → Field → Field
unfolding Text.trim_space
continue_field line f = record f {
  value = f.value ++ (b' ' ∷ Text.trim_space line);
  raw = f.raw ++ (crlf ++ line);
  folded = true;
  max_octet = if ltb f.max_octet (length line) then length line else f.max_octet;
}

-- The field that a line begins; its name is empty where the line has no colon, or begins with one.
unfoldable pub new_field : ℕ → Bytes → Field
unfolding Text.index_byte
new_field line_num line = elim (Text.index_byte b':' line) [
  | some (suc i) ↦ record {
    name = take (suc i) line;
    value = drop (suc i + 1) line;
    raw = line;
    line_num = line_num;
    folded = false;
    max_octet = length line;
  }
  | _ ↦ record {
    name = [];
    value = line;
    raw = line;
    line_num = line_num;
    folded = false;
    max_octet = length line;
  }
]

-- A line that continues no field: an empty one ends the field before it.
abbrev pub begin_field : Bytes → List Field → ParseState
begin_field [] headers = record { cur = none; headers = headers }
begin_field (c ∷ line) headers = record {
  cur = some (new_field (length headers + 1) (c ∷ line));
  headers = headers;
}

unfoldable pub parse_line : Bytes → ParseState → ParseState
unfolding flush continue_field trim_eol
parse_line line s = elim s.cur [
  | none ↦ begin_field (trim_eol line) (flush s)
  | some f ↦
      if begins_folded line
      then record s { cur = some (continue_field (trim_eol line) f) }
      else begin_field (trim_eol line) (flush s)
]

unfoldable pub parse_lines : List Bytes → ParseState → ParseState
parse_lines [] s = s
parse_lines (l ∷ ls) s = parse_lines ls (parse_line l s)

unfoldable pub parse_header_block : Bytes → List Field
unfolding parse_lines
parse_header_block block =
    flush (parse_lines (split_lines block) (record { cur = none; headers = [] }))
