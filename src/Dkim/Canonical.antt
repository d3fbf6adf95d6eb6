-- ===== src/Dkim/Canonical.antt =====
-- `canonicalizeHeader`, `canonicalizeBody` and `stripSignatureValue` of pkg/authverify/dkim.go.
use mailscript.Base.{◌==◌, if◌then◌else◌, ℕ, Bool, ◌&&◌, ◌||◌, List, [], ◌∷◌, ◌++◌, map}
use mailscript.Text
use mailscript.Text.{Bytes, push_word}
use mailscript.Dkim.Fields.{
  is_space_byte, crlf_to_lf, lf_to_crlf, unfold_lines, collapse_whitespace,
}

-- The names "simple" and "relaxed".
pub data Canonicalization : Type 0 where
  simple relaxed : Canonicalization

abbrev pub crlf : Bytes
crlf = b'\r' ∷ b'\n' ∷ []

-- strings.TrimRight(s, "\r\n") and strings.TrimRight(s, " \t")
abbrev is_line_end : ℕ → Bool
is_line_end c = c == b'\r' || c == b'\n'

abbrev is_blank : ℕ → Bool
is_blank c = c == b' ' || c == b'\t'

unfoldable pub canonicalize_header : Bytes → Bytes → Canonicalization → Bytes
canonicalize_header name value relaxed =
    Text.to_lower (Text.trim_space name)
    ++ (b':' ∷ (Text.trim_space (collapse_whitespace (unfold_lines value)) ++ crlf))
canonicalize_header name value simple = name ++ (b':' ∷ (value ++ crlf))

-- strings.Split(s, "\r\n")
unfoldable pub split_crlf : Bytes → List Bytes
split_crlf [] = [] ∷ []
split_crlf (c ∷ []) = (c ∷ []) ∷ []
split_crlf (c ∷ d ∷ s) =
    let behind = split_crlf s in
    let rest = split_crlf (d ∷ s) in
    if c == b'\r' && d == b'\n' then [] ∷ behind else push_word c rest

unfoldable pub relax_line : Bytes → Bytes
relax_line line = Text.trim_right is_blank (collapse_whitespace line)

-- The lines, where the canonicalization is relaxed, and the ends of lines.
unfoldable pub relax_body : Canonicalization → Bytes → Bytes
relax_body simple text = text
relax_body relaxed text = Text.join crlf (map relax_line (split_crlf text))

-- A body of which nothing is left.
unfoldable pub empty_body : Canonicalization → Bytes
empty_body relaxed = []
empty_body simple = crlf

unfoldable pub end_body : Canonicalization → Bytes → Bytes
end_body canon [] = empty_body canon
end_body canon (c ∷ text) = c ∷ (text ++ crlf)

unfoldable pub canonicalize_body : Bytes → Canonicalization → Bytes
canonicalize_body body canon =
    end_body canon (Text.trim_right is_line_end (relax_body canon (lf_to_crlf (crlf_to_lf body))))

-- The white space in front, and what follows it.
unfoldable pub span_space : Bytes → Bytes × Bytes
span_space [] = ([], [])
span_space (c ∷ s) =
    let rest = span_space s in if is_space_byte c then (c ∷ rest.0, rest.1) else ([], c ∷ s)

-- bTagPattern, at one part between semicolons: the name b, with white space around it, and an equals
-- sign are kept, and what follows them is dropped.
unfoldable pub strip_b_value : Bytes → Bytes
strip_b_value part = elim (span_space part).1 [
  | [] ↦ part
  | c ∷ rest ↦ elim (span_space rest).1 [
    | [] ↦ part
    | d ∷ value ↦
        if c == b'b' && d == b'='
        then (span_space part).0 ++ (b'b' ∷ ((span_space rest).0 ++ (b'=' ∷ [])))
        else part
  ]
]

unfoldable pub strip_signature_value : Bytes → Bytes
strip_signature_value sig = Text.join (b';' ∷ []) (map strip_b_value (Text.split b';' sig))
