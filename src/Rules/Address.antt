-- ===== src/Rules/Address.antt =====
-- Mailboxes: `ParseAddress`, `ParseAddressList`, `splitAddressList`, `splitAddress`, `DomainOf` and
-- `decodeWord` of pkg/rules/message.go. The parsers of net/mail and the decoder of mime are parameters.
pub mod Lists
use mailscript.Base.{
  ◌==◌, if◌then◌else◌, take, drop, ℕ, suc, Bool, true, false, not, ◌&&◌, ◌||◌, Option, none, some,
  List, [], ◌∷◌, map,
}
use mailscript.Text
use mailscript.Text.Runes.{write_runes}
use mailscript.Text.{Bytes, codes}

pub record Address : Type 0 where
  pub name : Bytes
  pub address : Bytes
  pub local : Bytes
  pub domain : Bytes
  pub valid : Bool

-- mail.ParseAddress and mail.ParseAddressList, which return names and addresses, and
-- wordDecoder.DecodeHeader; `none` is an error.
pub record MailParser : Type 0 where
  pub parse_mailbox : Bytes → Option (Bytes × Bytes)
  pub parse_mailboxes : Bytes → Option (List (Bytes × Bytes))
  pub decode_header : Bytes → Option Bytes

abbrev no_address : Address
no_address = record { name = []; address = []; local = []; domain = []; valid = false }

unfoldable pub split_address : Bytes → Bytes × Bytes
unfolding Text.last_index_byte Text.to_lower
split_address addr = elim (Text.last_index_byte b'@' addr) [
  | none ↦ (addr, [])
  | some i ↦ (take i addr, Text.to_lower (drop (suc i) addr))
]

abbrev quotes_after : ℕ → Bool → Bool
quotes_after c in_quote = if c == b'"' then not in_quote else in_quote

abbrev angle_after : ℕ → Bool → Bool → Bool
angle_after c in_quote in_angle =
    if c == b'<' && not in_quote
    then true
    else if c == b'>' && not in_quote
    then false
    else in_angle

-- The loop, with the flags: all parts, also the last one.
unfoldable pub split_list_from : Bool → Bool → Bytes → List Bytes
split_list_from in_quote in_angle [] = [] ∷ []
split_list_from in_quote in_angle (c ∷ s) =
    let rest = split_list_from (quotes_after c in_quote) (angle_after c in_quote in_angle) s in
    if c == b',' && not in_quote && not in_angle then [] ∷ rest else Text.push_word c rest

-- The last part is dropped if it is blank.
unfoldable pub drop_last_blank : List Bytes → List Bytes
unfolding Text.trim_space
drop_last_blank [] = []
drop_last_blank (w ∷ []) = if Text.is_empty (Text.trim_space w) then [] else w ∷ []
drop_last_blank (w ∷ v ∷ ws) = w ∷ drop_last_blank (v ∷ ws)

unfoldable pub split_address_list : Bytes → List Bytes
split_address_list s = drop_last_blank (split_list_from false false (write_runes s))

abbrev is_quote : ℕ → Bool
is_quote c = c == b'"'

-- s[i+1:i+j], the text between the last angle bracket and the next closing one.
unfoldable pub bracketed : Bytes → Bytes
unfolding Text.last_index_byte Text.index_byte
bracketed s = elim (Text.last_index_byte b'<' s) [
  | none ↦ s
  | some i ↦ elim (Text.index_byte b'>' (drop i s)) [
    | some (suc j) ↦ take j (drop (suc i) s)
    | _ ↦ s
  ]
]

unfoldable pub display_name : Bytes → Bytes
unfolding Text.last_index_byte Text.trim Text.trim_space
display_name s = elim (Text.last_index_byte b'<' s) [
  | some (suc i) ↦ Text.trim is_quote (Text.trim_space (take (suc i) s))
  | _ ↦ []
]

module _ (parser : MailParser) where
  unfoldable pub decode_word : Bytes → Bytes
  unfolding Text.index
  decode_word s = elim (Text.index (codes "=?") s) [
    | none ↦ s
    | some _ ↦ elim (parser.decode_header s) [ none ↦ s | some decoded ↦ decoded ]
  ]

  unfoldable pub parsed_address : Bytes × Bytes → Address
  unfolding decode_word split_address
  parsed_address (name, address) = record {
    name = decode_word name;
    address = address;
    local = (split_address address).0;
    domain = (split_address address).1;
    valid = true;
  }

  -- The best effort for a text that net/mail refuses.
  unfoldable pub guessed_address : Bytes → Address
  unfolding decode_word split_address bracketed display_name
  guessed_address s =
      let raw = Text.trim (λ c. c == b'"' || c == b'\'') (Text.trim_space (bracketed s)) in
      record {
        name = decode_word (display_name s);
        address = raw;
        local = (split_address raw).0;
        domain = (split_address raw).1;
        valid = false;
      }

  unfoldable pub parse_address : Bytes → Address
  unfolding parsed_address guessed_address Text.trim_space
  parse_address given =
      let s = Text.trim_space given in
      if Text.is_empty s then no_address else elim (parser.parse_mailbox s) [
        | some mailbox ↦ parsed_address mailbox
        | none ↦ guessed_address s
      ]

  -- The chunks that are not blank, parsed one by one.
  unfoldable pub parse_chunks : List Bytes → List Address
  unfolding parse_address
  parse_chunks [] = []
  parse_chunks (chunk ∷ chunks) =
      let rest = parse_chunks chunks in
      if Text.is_empty (Text.trim_space chunk) then rest else parse_address chunk ∷ rest

  unfoldable pub parse_address_list : Bytes → List Address
  unfolding parse_chunks split_address_list parsed_address
  parse_address_list s =
      if Text.is_empty (Text.trim_space s) then [] else elim (parser.parse_mailboxes s) [
        | some mailboxes ↦ map parsed_address mailboxes
        | none ↦ parse_chunks (split_address_list s)
      ]

  unfoldable pub domain_of : Bytes → Bytes
  unfolding parse_address
  domain_of s = (parse_address s).domain
