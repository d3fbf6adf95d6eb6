-- ===== src/Dkim/SignedInput.antt =====
-- `buildSignedHeaderInput` of pkg/authverify/dkim.go.
use mailscript.Base.{if◌then◌else◌, ℕ, zero, suc, Option, none, some, List, [], ◌∷◌, ◌++◌}
use mailscript.Text
use mailscript.Text.{Bytes}
use mailscript.Dkim.Fields.{Headers}
use mailscript.Dkim.Canonical.{Canonicalization, canonicalize_header, strip_signature_value, crlf}

-- strings.ToLower(strings.TrimSpace(name))
abbrev pub header_key : Bytes → Bytes
header_key name = Text.to_lower (Text.trim_space name)

-- The fields but the one at `i`. Only their order counts from here on, not their positions.
unfoldable pub without : ℕ → Headers → Headers
without i [] = []
without zero (h ∷ headers) = headers
without (suc i) (h ∷ headers) = h ∷ without i headers

-- The last field with that key that is still unused, and the fields without it.
unfoldable pub take_last : Bytes → Headers → Option ((Bytes × Bytes) × Headers)
take_last key [] = none
take_last key (h ∷ headers) = elim (take_last key headers) [
  | some found ↦ some (found.0, h ∷ found.1)
  | none ↦ if Text.eq (header_key h.0) key then some (h, headers) else none
]

-- The fields in the order of h=, each used once, from the bottom up; a name with no field left
-- contributes nothing.
unfoldable pub signed_fields : List Bytes → Headers → Canonicalization → Bytes
signed_fields [] unused canon = []
signed_fields (name ∷ names) unused canon =
    let skipped = signed_fields names unused canon in
    if Text.is_empty (header_key name) then skipped else elim (take_last (header_key name) unused) [
      | none ↦ skipped
      | some found ↦
          canonicalize_header found.0.0 found.0.1 canon ++ signed_fields names found.1 canon
    ]

unfoldable pub build_signed_header_input :
    Headers → ℕ → List Bytes → Bytes → Canonicalization → Bytes → Bytes
build_signed_header_input headers sig_index names raw_sig canon signature_field =
    signed_fields names (without sig_index headers) canon
    ++ Text.trim_suffix crlf
        (canonicalize_header signature_field (strip_signature_value raw_sig) canon)
