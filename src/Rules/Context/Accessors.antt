-- ===== src/Rules/Context/Accessors.antt =====
-- `Get`, `GetAll`, `Count`, `SetHeaders` and `AddHeaderLine` of pkg/rules/message.go against a scan of
-- the fields.
use mailscript.Base.{
  if◌then◌else◌, some-injective, length, ℕ, ◌+◌, ◌≡◌, refl, sym, ap, ◌∙◌, subst, inl, inr, false,
  none, some, List, [], ◌∷◌, ◌++◌,
}
use mailscript.Text
use mailscript.Text.{Bytes, codes}
use mailscript.Rules.Fields.{Field}
use mailscript.Rules.Context.{
  Context, added_field, index_fields, record_fields, lookup, values_at, fold_value, get, singleton,
  get_all, count, reindex, set_headers, add_header_line,
}
use mailscript.Rules.Context.Names.{canonical_value, fold_value-record_fields, record_fields-more}
use mailscript.Rules.Context.Index.{
  IsIndexed, values_of, first_value, lookup-IsIndexed, values_at-found, values_at-length,
}

-- Without a field of the name, the map is scanned.
fold_value-IsIndexed :
    (name : Bytes) (c : Context)
    → IsIndexed c
    → fold_value name c.headers ≡ canonical_value name c.header_list
fold_value-IsIndexed name c h =
    ap (fold_value name) h.1 ∙ fold_value-record_fields name c.header_list

get-none :
    (name : Bytes) (c : Context)
    → IsIndexed c
    → lookup (Text.to_lower name) c.header_index ≡ none
    → get name c ≡ some (canonical_value name c.header_list)
unfolding get
get-none name c h e = rw (e, get, fold_value-IsIndexed name c h) refl

first_value-singleton : (v : Bytes) → first_value (singleton v) ≡ v
first_value-singleton [] = refl
first_value-singleton (c ∷ v) = refl

length-singleton : (v : Bytes) → (if Text.is_empty v then 0 else 1) ≡ length (singleton v)
length-singleton [] = refl
length-singleton (c ∷ v) = refl

-- What the accessors of a context with that index return, by a scan of the fields.
abbrev pub AgreesWith : Context → Bytes → List Bytes → Type 0
AgreesWith c name values =
    (get name c ≡ some (first_value values))
    × (get_all name c ≡ some values)
    × (count name c ≡ some (length values))

accessors-absent :
    (name : Bytes) (c : Context)
    → IsIndexed c
    → lookup (Text.to_lower name) c.header_index ≡ none
    → AgreesWith c name (singleton (canonical_value name c.header_list))
unfolding get_all count
accessors-absent name c h e =
    let v = canonical_value name c.header_list in
    let found = get-none name c h e in
    (
      found ∙ ap some (sym (first_value-singleton v)),
      rw (e, get_all, found) refl,
      rw (e, count, found) (ap some (length-singleton v)),
    )

accessors-present :
    (name : Bytes) (c : Context) (i : ℕ) (is : List ℕ) (v : Bytes) (us : List Bytes)
    → lookup (Text.to_lower name) c.header_index ≡ some (i ∷ is)
    → values_at (i ∷ is) c.header_list ≡ some (v ∷ us)
    → AgreesWith c name (v ∷ us)
unfolding get get_all count
accessors-present name c i is v us e g =
    let (w, ws, same, head, rest) = values_at-found i is c.header_list (v ∷ us) g in
    (
      rw (e, get, head) (ap (λ vs. some (first_value vs)) (sym same)),
      rw (e, get_all) g,
      rw (e, count) (ap some (sym (values_at-length (i ∷ is) c.header_list (v ∷ us) g))),
    )

pub accessors-IsIndexed :
    (name : Bytes) (c : Context) → IsIndexed c → AgreesWith c name (values_of name c.header_list)
accessors-IsIndexed name c h = elim (lookup-IsIndexed name c h) [
  | inl (e, g) ↦ rw g (accessors-absent name c h e)
  | inr (i, is, e, g) ↦
      let (v, us, same, head, rest) = values_at-found i is c.header_list _ g in
      rw same (accessors-present name c i is v us e (g ∙ ap some same))
]

-- The index is that of the fields after a reindexing that starts from the map of the first of them.
reindex-IsIndexed :
    (c : Context)
    → record_fields c.header_list c.headers ≡ record_fields c.header_list []
    → (d : Context) × (reindex c ≡ some d)
      × (d.header_list ≡ c.header_list)
      × (d.received_headers ≡ values_of (codes "Received") c.header_list)
      × IsIndexed d
unfolding reindex
reindex-IsIndexed c h =
    let indexed : Context = record c {
      header_index = index_fields 0 c.header_list [];
      headers = record_fields c.header_list c.headers;
    } in
    let received = (accessors-IsIndexed (codes "Received") indexed (refl, h)).1 in
    (
      record indexed { received_headers = values_of (codes "Received") c.header_list },
      rw received refl,
      refl,
      refl,
      (refl, h),
    )

pub set_headers-agrees :
    (fields : List Field) (c : Context)
    → (d : Context) × (set_headers fields c ≡ some d)
      × (d.header_list ≡ fields)
      × (d.received_headers ≡ values_of (codes "Received") fields)
      × ((name : Bytes) → AgreesWith d name (values_of name fields))
unfolding set_headers
set_headers-agrees fields c =
    let (d, e, list, received, indexed) =
      reindex-IsIndexed (record c { header_list = fields; headers = [] }) refl in
    (
      d,
      e,
      list,
      received,
      λ name.
          subst (λ fs. AgreesWith d name (values_of name fs)) list
            (accessors-IsIndexed name d indexed),
    )

-- Whatever the header fields are, setting them succeeds, with no index out of range, and then the
-- accessors return what a scan of the fields finds: GetAll the values of the fields of the name, up to
-- case, in their order, or, where there are none, the one value, if it is not empty, of the first
-- field whose canonical name is the name, up to case; Get the first of these values; Count how many
-- they are. The Received fields are kept in the same way.
pub set_headers-accessors :
    (fields : List Field) (c : Context) (name : Bytes)
    → (d : Context) × (set_headers fields c ≡ some d)
      × (d.header_list ≡ fields)
      × (d.received_headers ≡ values_of (codes "Received") fields)
      × AgreesWith d name (values_of name fields)
set_headers-accessors fields c name =
    let (d, e, list, received, agrees) = set_headers-agrees fields c in
    (d, e, list, received, agrees name)

add_header_line-IsIndexed :
    (d : Context) (name value : Bytes)
    → IsIndexed d
    → add_header_line name value d
      ≡ set_headers (d.header_list ++ (added_field name value (length d.header_list) ∷ [])) d
unfolding set_headers add_header_line reindex
add_header_line-IsIndexed d name value h =
    let added = added_field name value (length d.header_list) ∷ [] in
    let same : record_fields (d.header_list ++ added) d.headers
        ≡ record_fields (d.header_list ++ added) [] =
      ap (record_fields (d.header_list ++ added)) h.1 ∙ record_fields-more d.header_list added in
    rw same refl

-- Adding a header line to a message whose headers were set is setting them all anew with the line behind
-- them: its name and its value as they are given, and the number that comes next.
pub add_header_line-set_headers :
    (fields : List Field) (c d : Context) (name value : Bytes)
    → set_headers fields c ≡ some d
    → add_header_line name value d
      ≡ set_headers
          (fields
            ++ (record {
              name = name;
              value = value;
              raw = name ++ (b':' ∷ b' ' ∷ value);
              line_num = length fields + 1;
              folded = false;
              max_octet = 0;
            }
                ∷ []))
          d
add_header_line-set_headers fields c d name value h =
    let (built, e, list, received, indexed) =
      reindex-IsIndexed (record c { header_list = fields; headers = [] }) refl in
    let same : built ≡ d = some-injective built d (sym e ∙ unfold set_headers in h) in
    let fields_of : d.header_list ≡ fields = ap Context.header_list (sym same) ∙ list in
    add_header_line-IsIndexed d name value (subst IsIndexed same indexed)
    ∙ ap (λ fs. set_headers (fs ++ (added_field name value (length fs) ∷ [])) d) fields_of
