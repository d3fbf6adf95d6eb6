-- ===== src/Rules/Context.antt =====
-- `MessageContext` of pkg/rules/message.go: its headers, the index over them and the accessors.
-- Go iterates over a map in no fixed order; the maps here are lists in the order of insertion.
pub mod Names
pub mod Index
pub mod Accessors
use mailscript.Base.{
  ltb, if◌then◌else◌, length, any, ℕ, zero, suc, ◌+◌, Bool, false, ◌||◌, Option, none, some, List,
  [], ◌∷◌, ◌++◌, map, ◌>>=◌,
}
use mailscript.Text
use mailscript.Text.{Bytes, codes}
use mailscript.Rules.Fields.{Field}

-- A map from strings, with each key once.
abbrev pub Dict : Type 0 → Type 0
Dict V = List (Bytes × V)

unfoldable pub lookup : {V : Type 0} → Bytes → Dict V → Option V
lookup k [] = none
lookup k ((j, v) ∷ d) = if Text.eq k j then some v else lookup k d

-- d[k] = append(d[k], i)
unfoldable pub append_at : Bytes → ℕ → Dict (List ℕ) → Dict (List ℕ)
append_at k i [] = (k, i ∷ []) ∷ []
append_at k i ((j, is) ∷ d) =
    let rest = append_at k i d in if Text.eq k j then (j, is ++ (i ∷ [])) ∷ d else (j, is) ∷ rest

-- The part of MessageContext that the headers make.
pub record Context : Type 0 where
  pub headers : Dict Bytes
  pub header_list : List Field
  pub header_index : Dict (List ℕ)
  pub received_headers : List Bytes
  pub removed_headers : List Bytes

-- NewMessageContext
abbrev pub new_context : Context
new_context = record {
  headers = [];
  header_list = [];
  header_index = [];
  received_headers = [];
  removed_headers = [];
}

abbrev pub contains_name : Bytes → List Bytes → Bool
contains_name name removed = any (λ existing. Text.equal_fold existing name) removed

unfoldable pub remove_header : Bytes → Context → Context
unfolding Text.trim_space
remove_header given c =
    let name = Text.trim_space given in
    if Text.is_empty name || contains_name name c.removed_headers
    then c
    else record c { removed_headers = c.removed_headers ++ (name ∷ []) }

abbrev capitalize : Bytes → Bytes
capitalize [] = []
capitalize (c ∷ p) = Text.upper_byte c ∷ p

unfoldable pub canonical_header_name : Bytes → Bytes
canonical_header_name name =
    Text.join (b'-' ∷ []) (map capitalize (Text.split b'-' (Text.to_lower (Text.trim_space name))))

-- The loop of reindex, for the index; `i` is the position of the first of the fields.
unfoldable pub index_fields : ℕ → List Field → Dict (List ℕ) → Dict (List ℕ)
index_fields i [] index = index
index_fields i (f ∷ fs) index = index_fields (suc i) fs (append_at (Text.to_lower f.name) i index)

abbrev pub keep_first : Bytes → Bytes → Option Bytes → Dict Bytes → Dict Bytes
keep_first key value none headers = headers ++ ((key, value) ∷ [])
keep_first key value (some v) headers = headers

-- The loop of reindex, for the first value of each canonical name.
unfoldable pub record_fields : List Field → Dict Bytes → Dict Bytes
record_fields [] headers = headers
record_fields (f ∷ fs) headers =
    let key = canonical_header_name f.name in
    record_fields fs (keep_first key f.value (lookup key headers) headers)

-- m.HeaderList[i].Value: an index out of range is a panic, which is `none` here and below.
unfoldable pub value_at : ℕ → List Field → Option Bytes
value_at i [] = none
value_at zero (f ∷ fs) = some f.value
value_at (suc i) (f ∷ fs) = value_at i fs

unfoldable pub values_at : List ℕ → List Field → Option (List Bytes)
values_at [] fs = some []
values_at (i ∷ is) fs = do v ← value_at i fs; vs ← values_at is fs; some (v ∷ vs)

-- The value of a key that is the name, up to case, or the empty string.
unfoldable pub fold_value : Bytes → Dict Bytes → Bytes
fold_value name [] = []
fold_value name ((k, v) ∷ headers) = if Text.equal_fold k name then v else fold_value name headers

unfoldable pub get : Bytes → Context → Option Bytes
get name c = elim (lookup (Text.to_lower name) c.header_index) [
  | some (i ∷ _) ↦ value_at i c.header_list
  | some [] ↦ some (fold_value name c.headers)
  | none ↦ some (fold_value name c.headers)
]

-- The list of a value that is not empty.
abbrev pub singleton : Bytes → List Bytes
singleton [] = []
singleton (c ∷ v) = (c ∷ v) ∷ []

unfoldable pub get_all : Bytes → Context → Option (List Bytes)
get_all name c = elim (lookup (Text.to_lower name) c.header_index) [
  | some is ↦ values_at is c.header_list
  | none ↦ do v ← get name c; some (singleton v)
]

unfoldable pub count : Bytes → Context → Option ℕ
count name c = elim (lookup (Text.to_lower name) c.header_index) [
  | some is ↦ some (length is)
  | none ↦ do v ← get name c; some (if Text.is_empty v then 0 else 1)
]

unfoldable pub has : Bytes → Context → Option Bool
has name c = do n ← count name c; some (ltb 0 n)

unfoldable pub reindex : Context → Option Context
reindex c = do
  let indexed = record c {
    header_index = index_fields 0 c.header_list [];
    headers = record_fields c.header_list c.headers;
  }
  received ← get_all (codes "Received") indexed
  some (record indexed { received_headers = received })

unfoldable pub set_headers : List Field → Context → Option Context
set_headers fields c = reindex (record c { header_list = fields; headers = [] })

abbrev pub added_field : Bytes → Bytes → ℕ → Field
added_field name value n = record {
  name = name;
  value = value;
  raw = name ++ (b':' ∷ b' ' ∷ value);
  line_num = n + 1;
  folded = false;
  max_octet = 0;
}

unfoldable pub add_header_line : Bytes → Bytes → Context → Option Context
add_header_line name value c = reindex (record c {
  header_list = c.header_list ++ (added_field name value (length c.header_list) ∷ []);
})
