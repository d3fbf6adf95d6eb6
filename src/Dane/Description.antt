-- ===== src/Dane/Description.antt =====
-- `DescribeTLSA` of pkg/authverify/dane.go.
use mailscript.Base.{ltb, if◌then◌else◌, length, take, drop, ℕ, List, [], ◌∷◌, ◌++◌}
use mailscript.Text
use mailscript.Text.{Bytes, codes}
use mailscript.Dane.Discovery.{TlsaRecord}

-- The word for a number: one of the names, from 0 on, or the prefix and the number.
unfoldable pub name_of : Bytes → List Bytes → ℕ → Bytes
name_of prefix names n = elim (drop n names) [ [] ↦ prefix ++ Text.itoa n | name ∷ _ ↦ name ]

abbrev usage_names : List Bytes
usage_names = codes "PKIX-TA" ∷ codes "PKIX-EE" ∷ codes "DANE-TA" ∷ codes "DANE-EE" ∷ []

abbrev selector_names : List Bytes
selector_names = codes "Cert" ∷ codes "SPKI" ∷ []

abbrev matching_names : List Bytes
matching_names = codes "Full" ∷ codes "SHA-256" ∷ codes "SHA-512" ∷ []

unfoldable pub short_digest : Bytes → Bytes
short_digest digest = if ltb 16 (length digest) then take 16 digest ++ codes "..." else digest

unfoldable pub describe_tlsa : TlsaRecord → Bytes
describe_tlsa r = Text.join (codes " ") (
    name_of (codes "usage") usage_names r.usage
    ∷ name_of (codes "selector") selector_names r.selector
    ∷ name_of (codes "matching") matching_names r.matching_type
    ∷ Text.to_lower (short_digest r.certificate)
    ∷ [])
