-- ===== src/Rules/Reported/Tokens.antt =====
-- The readers of fields of pkg/rules/auth.go: `stripComments`, `splitOutsideQuotes`, `authServIDOf`,
-- `extractTag`, `splitKV`, `domainPart`, `appendUnique` and `firstNonEmpty`.
use mailscript.Base.{
  ltb, ◌==◌, if◌then◌else◌, length, take, drop, any, ℕ, suc, ◌-◌, Bool, false, not, ◌&&◌, ◌||◌,
  none, some, List, [], ◌∷◌, ◌++◌,
}
use mailscript.Text
use mailscript.Text.Runes.{write_runes}
use mailscript.Text.{Bytes, codes}

-- The flag and the depth behind a byte.
abbrev pub quote_next : Bool → ℕ → ℕ → Bool
quote_next in_quote depth c = if c == b'"' && depth == 0 then not in_quote else in_quote

abbrev pub depth_next : Bool → ℕ → ℕ → ℕ
depth_next in_quote depth c =
    if c == b'"' && depth == 0
    then depth
    else if c == b'(' && not in_quote
    then suc depth
    else if c == b')' && not in_quote
    then depth - 1
    else depth

-- What is written for a byte: a comment becomes a space.
abbrev pub written : Bool → ℕ → ℕ → Bytes
written in_quote depth c =
    if c == b'"' && depth == 0
    then c ∷ []
    else if c == b'(' && not in_quote
    then []
    else if c == b')' && not in_quote
    then (if ltb 0 depth then b' ' ∷ [] else c ∷ [])
    else if depth == 0
    then c ∷ []
    else []

unfoldable pub strip_from : Bool → ℕ → Bytes → Bytes
strip_from in_quote depth [] = []
strip_from in_quote depth (c ∷ s) =
    written in_quote depth c
    ++ strip_from (quote_next in_quote depth c) (depth_next in_quote depth c) s

unfoldable pub strip_comments : Bytes → Bytes
strip_comments s = strip_from false 0 (write_runes s)

unfoldable pub split_from : ℕ → Bool → Bytes → List Bytes
split_from sep in_quote [] = [] ∷ []
split_from sep in_quote (c ∷ s) =
    let quoted = if c == b'"' then not in_quote else in_quote in
    let rest = split_from sep quoted s in
    if c == sep && not quoted then [] ∷ rest else Text.push_word c rest

unfoldable pub split_outside_quotes : Bytes → ℕ → List Bytes
unfolding strip_comments
split_outside_quotes s sep = split_from sep false (write_runes (strip_comments s))

abbrev ends_id : ℕ → Bool
ends_id c = c == b';' || c == b' ' || c == b'\t'

-- clean[:i], if a byte that ends the identity stands at i > 0
before_end : Bytes → Bytes
before_end [] = []
before_end (d ∷ t) = let rest = before_end t in if ends_id d then [] else d ∷ rest

id_part : Bytes → Bytes
id_part [] = []
id_part (c ∷ s) = if ends_id c then c ∷ s else c ∷ before_end s

unfoldable pub auth_serv_id_of : Bytes → Bytes
unfolding strip_comments Text.trim_space Text.trim_suffix id_part before_end
auth_serv_id_of header =
    Text.trim_suffix (codes ".")
      (Text.trim_space (id_part (Text.trim_space (strip_comments header))))

abbrev find_tag : Bytes → List Bytes → Bytes
find_tag begin [] = []
find_tag begin (part ∷ parts) =
    let trimmed = Text.trim_space part in
    if Text.has_prefix begin trimmed
    then Text.trim_space (drop (length begin) trimmed)
    else find_tag begin parts

unfoldable pub extract_tag : Bytes → Bytes → Bytes
extract_tag sig tag = find_tag (tag ++ (b'=' ∷ [])) (Text.split b';' sig)

unfoldable pub split_kv : Bytes → Bytes × Bytes
unfolding Text.index_byte Text.trim_space
split_kv s = elim (Text.index_byte b'=' s) [
  | none ↦ (s, [])
  | some i ↦ (Text.trim_space (take i s), Text.trim_space (drop (suc i) s))
]

unfoldable pub domain_part : Bytes → Bytes
unfolding Text.last_index_byte
domain_part s = elim (Text.last_index_byte b'@' s) [ none ↦ s | some i ↦ drop (suc i) s ]

unfoldable pub append_unique : List Bytes → Bytes → List Bytes
append_unique list v = if any (λ w. Text.eq w v) list then list else list ++ (v ∷ [])

abbrev pub first_non_empty : Bytes → Bytes → Bytes
first_non_empty [] second = second
first_non_empty (c ∷ first) second = c ∷ first
