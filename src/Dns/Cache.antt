-- ===== src/Dns/Cache.antt =====
-- The cache of pkg/dnsx/resolver.go, and the lookups that go through it. The answers of the backend
-- are parameters, and so are the readings of the clock, in the order in which it is read.
pub mod Refinement
use mailscript.Base.{
  ltb, ◌==◌, if◌then◌else◌, length, any, ℕ, ◌+◌, ◌%◌, ◌^◌, Bool, true, false, not, ◌&&◌, ◌||◌,
  Option, none, some, List, [], ◌∷◌, ◌++◌, map,
}
use mailscript.Text
use mailscript.Text.{Bytes, codes}
use mailscript.Dns.Reverse.{reverse_ip_for_dnsbl}

pub record RblResult : Type 0 where
  pub zone : Bytes
  pub listed : Bool
  pub answer_codes : List Bytes
  pub comment : Bytes

-- The types that an entry of the cache holds.
pub data Value : Type 0 where
  names : List Bytes → Value
  listing : RblResult → Value

pub record Entry : Type 0 where
  pub value : Value
  pub expires : ℕ

-- The map of the cache, the newest entry first; the counters, of 64 bits; and how often the clock has
-- been read.
pub record Cache : Type 0 where
  pub entries : List (Bytes × Entry)
  pub lookups : ℕ
  pub hits : ℕ
  pub readings : ℕ

-- NewResolver, without options
abbrev pub new_cache : Cache
new_cache = record { entries = []; lookups = 0; hits = 0; readings = 0 }

-- The fields of Resolver that do not change; it is nil where it is not enabled.
pub record Config : Type 0 where
  pub enabled : Bool
  pub ttl : ℕ
  pub rbls : List Bytes

-- What the servers answer; `none` stands for an error.
pub record Backend : Type 0 where
  pub query_host : Bytes → Option (List Bytes)
  pub query_mx : Bytes → Option (List Bytes)
  pub query_txt : Bytes → Option (List Bytes)
  pub query_ptr : Bytes → Option (List Bytes)

unfoldable pub entry_of : List (Bytes × Entry) → Bytes → Option Entry
entry_of [] key = none
entry_of ((k, e) ∷ entries) key = if Text.eq k key then some e else entry_of entries key

abbrev pub or_none : Option (List Bytes) → List Bytes
or_none none = []
or_none (some answers) = answers

-- a < b, byte by byte
unfoldable pub before : Bytes → Bytes → Bool
before [] [] = false
before [] (d ∷ t) = true
before (c ∷ s) [] = false
before (c ∷ s) (d ∷ t) = ltb c d || (c == d && before s t)

unfoldable pub insert : Bytes → List Bytes → List Bytes
insert s [] = s ∷ []
insert s (t ∷ ts) = let rest = insert s ts in if before t s then t ∷ rest else s ∷ t ∷ ts

-- sort.Strings
unfoldable pub sort : List Bytes → List Bytes
sort [] = []
sort (s ∷ ss) = insert s (sort ss)

-- The beginnings of the keys.
pub data Kind : Type 0 where
  of_host of_mx of_txt of_ptr of_rbl : Kind

abbrev pub tag : Kind → Bytes
tag of_host = codes "host:"
tag of_mx = codes "mx:"
tag of_txt = codes "txt:"
tag of_ptr = codes "ptr:"
tag of_rbl = codes "rbl:"

abbrev pub fold_name : Kind → Bytes → Bytes
fold_name of_host name = Text.to_lower name
fold_name of_mx name = Text.to_lower name
fold_name of_txt name = Text.to_lower name
fold_name of_ptr name = name
fold_name of_rbl name = name

abbrev pub key_of : Kind → Bytes → Bytes
key_of kind name = tag kind ++ fold_name kind name

-- v.([]string) and v.(RBLResult): a value of the other type is a panic, which is `none`.
abbrev pub as_names : Value → Option (List Bytes)
as_names (names answers) = some answers
as_names (listing r) = none

abbrev pub as_listing : Value → Option RblResult
as_listing (names answers) = none
as_listing (listing r) = some r

abbrev pub first_text : List Bytes → Bytes
first_text [] = []
first_text (t ∷ texts) = t

module _ (backend : Backend) where
  -- The answers as they are kept.
  unfoldable pub answers_of : Kind → Bytes → List Bytes
  answers_of of_host name = sort (or_none (backend.query_host name))
  answers_of of_mx name = or_none (backend.query_mx name)
  answers_of of_txt name = or_none (backend.query_txt name)
  answers_of of_ptr name = map (Text.trim_suffix (codes ".")) (or_none (backend.query_ptr name))
  answers_of of_rbl name = []

module _ (config : Config) (clock : ℕ → ℕ) where
  unfoldable pub get : Bytes → Cache → Option Value × Cache
  get key c = elim (entry_of c.entries key) [
    | none ↦ (none, c)
    | some e ↦
        if ltb e.expires (clock c.readings)
        then (none, record c { readings = c.readings + 1 })
        else (some e.value, record c { readings = c.readings + 1; hits = (c.hits + 1) % 2 ^ 64 })
  ]

  unfoldable pub put : Bytes → Value → Cache → Cache
  put key value c = record {
    entries = (key, record { value = value; expires = clock c.readings + config.ttl }) ∷ c.entries;
    lookups = (c.lookups + 1) % 2 ^ 64;
    hits = c.hits;
    readings = c.readings + 1;
  }

  -- What a lookup makes of the cache's answer: the value that is there, or the answer of the backend,
  -- which is kept.
  unfoldable pub resolve : Bytes → List Bytes → Option Value × Cache → Option (List Bytes × Cache)
  resolve key answers (none, c) = some (answers, put key (names answers) c)
  resolve key answers (some v, c) = elim (as_names v) [ none ↦ none | some found ↦ some (found, c) ]

  unfoldable pub cached : Kind → Bytes → List Bytes → Cache → Option (List Bytes × Cache)
  cached kind name answers c =
      if not config.enabled || Text.is_empty name
      then some ([], c)
      else resolve (key_of kind name) answers (get (key_of kind name) c)

  module _ (backend : Backend) where
    unfoldable pub lookup_host : Bytes → Cache → Option (List Bytes × Cache)
    lookup_host host c = cached of_host host (answers_of backend of_host host) c

    unfoldable pub lookup_mx : Bytes → Cache → Option (List Bytes × Cache)
    lookup_mx domain c = cached of_mx domain (answers_of backend of_mx domain) c

    unfoldable pub lookup_txt : Bytes → Cache → Option (List Bytes × Cache)
    lookup_txt name c = cached of_txt name (answers_of backend of_txt name) c

    unfoldable pub lookup_ptr : Bytes → Cache → Option (List Bytes × Cache)
    lookup_ptr ip c = cached of_ptr ip (answers_of backend of_ptr ip) c

    unfoldable pub has_mx : Bytes → Cache → Option (Bool × Cache)
    has_mx domain c = elim (lookup_mx domain c) [
      | none ↦ none
      | some (hosts, c') ↦ some (not (length hosts == 0), c')
    ]

    abbrev pub unlisted : Bytes → RblResult
    unlisted zone = record { zone = zone; listed = false; answer_codes = []; comment = [] }

    -- The result for a name that the cache does not have.
    unfoldable pub query_rbl : Bytes → Bytes → Cache → Option (RblResult × Cache)
    query_rbl name zone c = elim (or_none (backend.query_host name)) [
      | [] ↦ some (unlisted zone, c)
      | addr ∷ addrs ↦ elim (lookup_txt name c) [
        | none ↦ none
        | some (texts, c') ↦ some (
          record {
            zone = zone;
            listed = true;
            answer_codes = addr ∷ addrs;
            comment = first_text texts;
          },
          c',
        )
      ]
    ]

    abbrev keep_listing : Bytes → Option (RblResult × Cache) → Option (RblResult × Cache)
    keep_listing name none = none
    keep_listing name (some (r, c)) = some (r, put (key_of of_rbl name) (listing r) c)

    unfoldable pub resolve_rbl : Bytes → Bytes → Option Value × Cache → Option (RblResult × Cache)
    resolve_rbl name zone (none, c) = keep_listing name (query_rbl name zone c)
    resolve_rbl name zone (some v, c) = elim (as_listing v) [
      | none ↦ none
      | some found ↦ some (found, c)
    ]

    unfoldable pub check_rbl : Bytes → Bytes → Cache → Option (RblResult × Cache)
    check_rbl ip zone c =
        let query = reverse_ip_for_dnsbl ip in
        let name = query ++ (codes "." ++ Text.trim_suffix (codes ".") zone) in
        if not config.enabled || Text.is_empty ip || Text.is_empty zone || Text.is_empty query
        then some (unlisted zone, c)
        else resolve_rbl name zone (get (key_of of_rbl name) c)

    unfoldable pub check_zones : Bytes → List Bytes → Cache → Option (List RblResult × Cache)
    check_zones ip [] c = some ([], c)
    check_zones ip (zone ∷ zones) c = elim (check_rbl ip zone c) [
      | none ↦ none
      | some (r, c') ↦ elim (check_zones ip zones c') [
        | none ↦ none
        | some (rs, c'') ↦ some (r ∷ rs, c'')
      ]
    ]

    -- Whether a list has the address, and all the results.
    unfoldable pub check_rbls : Bytes → Cache → Option ((Bool × List RblResult) × Cache)
    check_rbls ip c =
        if not config.enabled then some ((false, []), c) else elim (check_zones ip config.rbls c) [
          | none ↦ none
          | some (rs, c') ↦ some ((any (λ (r : RblResult). r.listed) rs, rs), c')
        ]
