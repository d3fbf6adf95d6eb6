-- ===== src/Dkim/Fields.antt =====
-- `countHeader`, `splitHeaderList`, `containsFold`, `stripWhitespace`, `unfold` and
-- `collapseWhitespace` of pkg/authverify/dkim.go.
use mailscript.Base.{
  ◌==◌, if◌then◌else◌, any, ℕ, ◌+◌, Bool, true, false, ◌&&◌, ◌||◌, List, [], ◌∷◌, map,
}
use mailscript.Text
use mailscript.Text.{Bytes}

-- The fields of a message in the order in which they came, with their values as they came.
abbrev pub Headers : Type 0
Headers = List (Bytes × Bytes)

abbrev pub is_named : Bytes → Bytes × Bytes → Bool
is_named name header = Text.equal_fold (Text.trim_space header.0) name

unfoldable pub count_header : Headers → Bytes → ℕ
count_header [] name = 0
count_header (h ∷ headers) name =
    let rest = count_header headers name in if is_named name h then rest + 1 else rest

unfoldable pub split_header_list : Bytes → List Bytes
split_header_list s = Text.non_empty (map Text.trim_space (Text.split b':' s))

unfoldable pub contains_fold : List Bytes → Bytes → Bool
contains_fold list want = any (λ item. Text.equal_fold (Text.trim_space item) want) list

-- isSpaceByte
abbrev pub is_space_byte : ℕ → Bool
is_space_byte c = c == b' ' || c == b'\t' || c == b'\r' || c == b'\n'

unfoldable pub strip_whitespace : Bytes → Bytes
strip_whitespace [] = []
strip_whitespace (c ∷ s) =
    let rest = strip_whitespace s in if is_space_byte c then rest else c ∷ rest

abbrev pub starts_lf : Bytes → Bool
starts_lf [] = false
starts_lf (c ∷ s) = c == b'\n'

-- strings.ReplaceAll(s, "\r\n", "\n"): two such pairs never overlap
unfoldable pub crlf_to_lf : Bytes → Bytes
crlf_to_lf [] = []
crlf_to_lf (c ∷ s) = let rest = crlf_to_lf s in if c == b'\r' && starts_lf s then rest else c ∷ rest

-- strings.ReplaceAll(s, "\n", "\r\n")
unfoldable pub lf_to_crlf : Bytes → Bytes
lf_to_crlf [] = []
lf_to_crlf (c ∷ s) =
    let rest = lf_to_crlf s in if c == b'\n' then b'\r' ∷ b'\n' ∷ rest else c ∷ rest

-- unfold: each pair and each line feed that is left is dropped
unfoldable pub unfold_lines : Bytes → Bytes
unfolding crlf_to_lf Text.remove_byte
unfold_lines s = Text.remove_byte b'\n' (crlf_to_lf s)

-- The loop, with inSpace.
unfoldable pub collapse_from : Bool → Bytes → Bytes
collapse_from in_space [] = []
collapse_from in_space (c ∷ s) =
    let spaced = collapse_from true s in
    let plain = collapse_from false s in
    if is_space_byte c then (if in_space then spaced else b' ' ∷ spaced) else c ∷ plain

unfoldable pub collapse_whitespace : Bytes → Bytes
unfolding collapse_from
collapse_whitespace s = collapse_from false s
