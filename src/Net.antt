-- ===== src/Net.antt =====
-- Package net, as the SPF code calls it: addresses as numbers of 128 bits, the reading of addresses
-- and prefixes, and masks. An IPv4 address a stands as ::ffff:a, which is what net.ParseIP returns.
use mailscript.Base.{
  ltb, leb, ◌==◌, if◌then◌else◌, length, take, drop, any, ℕ, zero, suc, ◌+◌, ◌-◌, ◌*◌, ◌/◌, ◌%◌,
  ◌^◌, Bool, not, ◌&&◌, ◌||◌, Option, none, some, List, [], ◌∷◌, ◌++◌,
}
use mailscript.Text
use mailscript.Text.{Bytes, codes}

abbrev pub v4_prefix : ℕ
v4_prefix = 0xffff * 2 ^ 32

-- ip.To4() != nil
unfoldable pub is_v4 : ℕ → Bool
is_v4 ip = ip / 2 ^ 32 == 0xffff

-- One number of a dotted address: up to three digits, at most 255, with no leading zero.
octet : Bytes → Option ℕ
octet s =
    if Text.is_empty s || ltb 3 (length s) || ltb 1 (length s) && Text.has_prefix (b'0' ∷ []) s
    then none
    else elim (Text.decimal_from 0 s) [ none ↦ none | some n ↦ if leb n 255 then some n else none ]

abbrev join_octets : Option ℕ → Option ℕ → Option ℕ → Option ℕ → Option ℕ
join_octets (some a) (some b) (some c) (some d) = some (a * 2 ^ 24 + b * 2 ^ 16 + c * 2 ^ 8 + d)
join_octets _ _ _ _ = none

four_octets : List Bytes → Option ℕ
four_octets (a ∷ b ∷ c ∷ d ∷ []) = join_octets (octet a) (octet b) (octet c) (octet d)
four_octets _ = none

-- The 32 bits of a dotted address.
parse_v4 : Bytes → Option ℕ
parse_v4 s = four_octets (Text.split b'.' s)

hex_digit : ℕ → Option ℕ
hex_digit c =
    if Text.is_digit c
    then some (c - b'0')
    else if leb b'a' c && leb c b'f'
    then some (c - b'a' + 10)
    else if leb b'A' c && leb c b'F'
    then some (c - b'A' + 10)
    else none

hex_from : ℕ → Bytes → Option ℕ
hex_from n [] = some n
hex_from n (c ∷ s) = elim (hex_digit c) [ none ↦ none | some d ↦ hex_from (n * 16 + d) s ]

-- One group of an IPv6 address: one to four hexadecimal digits.
group : Bytes → Option ℕ
group s = if Text.is_empty s || ltb 4 (length s) then none else hex_from 0 s

abbrev put_group : Option ℕ → Option (List ℕ) → Option (List ℕ)
put_group (some g) (some gs) = some (g ∷ gs)
put_group _ _ = none

abbrev last_groups : Option ℕ → Option ℕ → Option (List ℕ)
last_groups (some v4) _ = some ((v4 / 2 ^ 16) ∷ (v4 % 2 ^ 16) ∷ [])
last_groups none (some g) = some (g ∷ [])
last_groups none none = none

-- The groups of one side of "::"; the last one of the address may be a dotted address.
groups : List Bytes → Option (List ℕ)
groups [] = some []
groups (s ∷ []) = last_groups (parse_v4 s) (group s)
groups (s ∷ t ∷ rest) = put_group (group s) (groups (t ∷ rest))

abbrev side : Bytes → List Bytes
side [] = []
side (c ∷ s) = Text.split b':' (c ∷ s)

number_of : ℕ → List ℕ → ℕ
number_of n [] = n
number_of n (g ∷ gs) = number_of (n * 2 ^ 16 + g) gs

zeros : ℕ → List ℕ
zeros zero = []
zeros (suc n) = 0 ∷ zeros n

-- All eight groups, or both sides of "::", which stands for one group of zeros at least.
whole : Option (List ℕ) → Option ℕ
whole none = none
whole (some gs) = if length gs == 8 then some (number_of 0 gs) else none

both_sides : Option (List ℕ) → Option (List ℕ) → Option ℕ
both_sides (some gs) (some hs) =
    if ltb (length gs + length hs) 8
    then some (number_of 0 (gs ++ (zeros (8 - (length gs + length hs)) ++ hs)))
    else none
both_sides _ _ = none

no_dot : Bytes → Bool
no_dot s = not (any (λ c. c == b'.') s)

parse_v6 : Bytes → Option ℕ
parse_v6 s = elim (Text.index (codes "::") s) [
  | none ↦ whole (groups (side s))
  | some i ↦
      if no_dot (take i s)
      then both_sides (groups (side (take i s))) (groups (side (drop (i + 2) s)))
      else none
]

-- net.ParseIP
unfoldable pub parse_ip : Bytes → Option ℕ
unfolding parse_v4 parse_v6 octet four_octets hex_digit hex_from group groups number_of zeros whole
    both_sides no_dot
parse_ip s =
    if any (λ c. c == b':') s
    then parse_v6 s
    else elim (parse_v4 s) [ none ↦ none | some n ↦ some (v4_prefix + n) ]

-- A network: its address with the bits behind the prefix cleared, and the length of the prefix
-- of the 128 bits.
pub record Network : Type 0 where
  pub address : ℕ
  pub prefix : ℕ

-- ip.Mask(mask) for a mask of `prefix` bits, counted of the 128
unfoldable pub masked : ℕ → ℕ → Network
masked ip prefix = record {
  address = ip / 2 ^ (128 - prefix) * 2 ^ (128 - prefix);
  prefix = prefix;
}

-- IPNet.Contains: both are of one family, and agree in the prefix
unfoldable pub contains : Network → ℕ → Bool
unfolding is_v4
contains n ip =
    if is_v4 n.address
    then is_v4 ip && ip / 2 ^ (128 - n.prefix) == n.address / 2 ^ (128 - n.prefix)
    else not (is_v4 ip) && ip / 2 ^ (128 - n.prefix) == n.address / 2 ^ (128 - n.prefix)

prefix_within : ℕ → Option ℕ → Option ℕ
prefix_within bound none = none
prefix_within bound (some n) = if leb n bound then some n else none

-- The number behind the slash of a prefix: digits, without more than its bound.
parse_prefix : ℕ → Bytes → Option ℕ
parse_prefix bound s = prefix_within bound (Text.parse_uint s)

abbrev network_of : ℕ → Option ℕ → Option Network
network_of ip none = none
network_of ip (some prefix) = some (masked ip prefix)

-- net.ParseCIDR, whose network alone is used: a dotted address counts its prefix from 32 bits.
unfoldable pub parse_cidr : Bytes → Option Network
unfolding parse_ip prefix_within parse_prefix
parse_cidr s = elim (Text.cut b'/' s) [
  | none ↦ none
  | some p ↦ elim (parse_ip p.0) [
    | none ↦ none
    | some ip ↦
        if any (λ c. c == b':') p.0
        then network_of ip (parse_prefix 128 p.1)
        else network_of ip (elim (parse_prefix 32 p.1) [ none ↦ none | some n ↦ some (96 + n) ])
  ]
]
