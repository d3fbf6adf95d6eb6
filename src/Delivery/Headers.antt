-- ===== src/Delivery/Headers.antt =====
-- `stripHeader`, `prependHeader`, `applyModifiedHeaders` and `applyHeaderChanges` of
-- cmd/mailscript/proxy.go.
pub mod Stripping
use mailscript.Base.{
  ◌==◌, if◌then◌else◌, Bool, true, false, ◌||◌, Option, none, some, List, [], ◌∷◌, ◌++◌,
}
use mailscript.Text
use mailscript.Text.{Bytes, codes}

-- strings.TrimRight(line, "\r\n")
abbrev chomp : Bytes → Bytes
chomp line = Text.trim_right (λ c. c == b'\r' || c == b'\n') line

abbrev is_folded : Bytes → Bool
is_folded [] = false
is_folded (c ∷ line) = c == b' ' || c == b'\t'

abbrev first_is : Bytes → Option (Bytes × Bytes) → Bool
first_is name none = false
first_is name (some (field, value)) = Text.equal_fold (Text.trim_space field) name

-- Whether a line begins the field `name`: it has a colon, and the name before it.
unfoldable pub is_field : Bytes → Bytes → Bool
is_field name line = first_is name (Text.cut b':' (chomp line))

-- What one line does: the header ends, the line is kept, or it is dropped with its continuations.
pub data LineKind : Type 0 where
  header_end continuation dropped kept : LineKind

pub line_kind : Bytes → Bytes → LineKind
line_kind name line =
    if Text.is_empty (chomp line)
    then header_end
    else if is_folded line
    then continuation
    else if is_field name line
    then dropped
    else kept

-- The lines of the header; `skipping` says whether the field that they continue is dropped. What
-- follows the first empty line is kept as it is.
pub strip_lines : Bytes → Bool → List Bytes → List Bytes
strip_lines name skipping [] = []
strip_lines name skipping (line ∷ lines) = elim (line_kind name line) [
  | header_end ↦ line ∷ lines
  | continuation ↦
      let rest = strip_lines name skipping lines in if skipping then rest else line ∷ rest
  | dropped ↦ strip_lines name true lines
  | kept ↦ line ∷ strip_lines name false lines
]

unfoldable pub strip_header : Bytes → Bytes → Bytes
unfolding strip_lines line_kind
strip_header raw name = Text.join [] (strip_lines name false (Text.split_after b'\n' raw))

unfoldable pub prepend_header : Bytes → Bytes → Bytes → Bytes
prepend_header raw name value = name ++ (codes ": " ++ (value ++ (b'\r' ∷ b'\n' ∷ raw)))

-- The fields come in the order of their names, as sort.Strings puts them.
unfoldable pub apply_modified_headers : Bytes → List (Bytes × Bytes) → Bytes
unfolding prepend_header
apply_modified_headers raw [] = raw
apply_modified_headers raw ((name, value) ∷ headers) =
    apply_modified_headers (prepend_header raw name value) headers

unfoldable pub apply_header_changes : Bytes → List Bytes → List (Bytes × Bytes) → Bytes
unfolding strip_header apply_modified_headers
apply_header_changes raw [] added = apply_modified_headers raw added
apply_header_changes raw (name ∷ removed) added =
    apply_header_changes (strip_header raw name) removed added
