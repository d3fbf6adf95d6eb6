-- ===== src/Dns/Reverse.antt =====
-- `reverseIPForDNSBL` of pkg/dnsx/resolver.go.
use mailscript.Base.{
  ltb, if◌then◌else◌, ℕ, zero, suc, ◌+◌, ◌-◌, ◌/◌, ◌%◌, none, some, List, [], ◌∷◌,
}
use mailscript.Text
use mailscript.Text.{Bytes, codes}
use mailscript.Net.{is_v4, parse_ip}

abbrev hex_char : ℕ → ℕ
hex_char n = if ltb n 10 then b'0' + n else b'a' + (n - 10)

-- The hexadecimal digits of a number, the lowest first.
unfoldable pub nibbles : ℕ → ℕ → List Bytes
nibbles zero n = []
nibbles (suc k) n = (hex_char (n % 16) ∷ []) ∷ nibbles k (n / 16)

-- The bytes of a number, the lowest first, in decimal.
unfoldable pub octets : ℕ → ℕ → List Bytes
octets zero n = []
octets (suc k) n = Text.itoa (n % 256) ∷ octets k (n / 256)

unfoldable pub reverse_ip_for_dnsbl : Bytes → Bytes
reverse_ip_for_dnsbl ip = elim (parse_ip ip) [
  | none ↦ []
  | some n ↦
      if is_v4 n then Text.join (codes ".") (octets 4 n) else Text.join (codes ".") (nibbles 32 n)
]
