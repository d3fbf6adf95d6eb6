-- ===== src/Rules/Reported/Trust.antt =====
-- Trust in the servers that report, and what a DMARC pass rests on: `parseAuthResults` and `DMARCPass`
-- of pkg/rules/auth.go.
use mailscript.Base.{
  Bool-cases, any, ◌≡◌, refl, ap, ◌∙◌, inl, inr, Bool, true, false, not, ◌&&◌, ◌||◌, Option, none,
  some, List, [], ◌∷◌, map, arith,
}
use mailscript.Text
use mailscript.Text.{Bytes, codes}
use mailscript.Rules.Mime.{param}
use mailscript.Rules.Reported.Tokens.{split_outside_quotes, auth_serv_id_of}
use mailscript.Rules.Reported.{
  AuthResults, Clause, read_clause, is_one_of, normal_id, claim_spf, claim_dkim, claim_dmarc, claim,
  claim_if, name_server, has_equals, first_field, parse_clauses, parse_header,
  parse_auth_result_header, note_server, read_header, read_headers,
}

claim-trusted : (clause : Clause) (ar : AuthResults) → (claim clause ar).trusted ≡ ar.trusted
unfolding claim claim_spf claim_dkim claim_dmarc
claim-trusted clause ar = elim (Bool-cases (Text.eq clause.method (codes "spf"))) [
  | inl e ↦ rw e refl
  | inr e ↦ elim (Bool-cases (Text.eq clause.method (codes "dkim"))) [
    | inl g ↦
        elim (Bool-cases (Text.is_empty (Text.to_lower (param (codes "header.d") clause.props)))) [
          | inl k ↦ rw (e, g, k) refl
          | inr k ↦ rw (e, g, k) refl
        ]
    | inr g ↦ elim (Bool-cases (Text.eq clause.method (codes "dmarc"))) [
      | inl k ↦ rw (e, g, k) refl
      | inr k ↦ elim (Bool-cases (Text.eq clause.method (codes "arc"))) [
        | inl l ↦ rw (e, g, k, l) refl
        | inr l ↦ rw (e, g, k, l) refl
      ]
    ]
  ]
]

claim_if-trusted : (o : Option Clause) (ar : AuthResults) → (claim_if o ar).trusted ≡ ar.trusted
claim_if-trusted none ar = refl
claim_if-trusted (some clause) ar = claim-trusted clause ar

parse_clauses-trusted :
    (parts : List Bytes) (ar : AuthResults) → (parse_clauses parts ar).trusted ≡ ar.trusted
unfolding parse_clauses
parse_clauses-trusted [] ar = refl
parse_clauses-trusted (part ∷ parts) ar =
    parse_clauses-trusted parts _
    ∙ claim_if-trusted (read_clause (Text.fields (Text.trim_space part))) ar

name_server-trusted : (id : Bytes) (ar : AuthResults) → (name_server id ar).trusted ≡ ar.trusted
name_server-trusted id ar = elim (Bool-cases (Text.is_empty ar.auth_serv_id)) [
  | inl e ↦ rw e refl
  | inr e ↦ rw e refl
]

parse_header-trusted :
    (parts : List Bytes) (ar : AuthResults) → (parse_header parts ar).trusted ≡ ar.trusted
unfolding parse_header
parse_header-trusted [] ar = refl
parse_header-trusted (part ∷ parts) ar =
    let clause = Text.trim_space part in
    elim (Bool-cases (Text.is_empty clause || has_equals clause)) [
      | inl e ↦ rw (e, parse_header) (parse_clauses-trusted (part ∷ parts) ar)
      | inr e ↦
          rw (e, parse_header)
            (parse_clauses-trusted parts _
              ∙ name_server-trusted (first_field (Text.fields clause)) ar)
    ]

-- The field is not blank, and its server is listed, up to case.
abbrev pub is_listed : List Bytes → Bytes → Bool
is_listed trusted h =
    not (Text.is_empty (Text.trim_space h))
    && is_one_of (map normal_id trusted) (Text.to_lower (auth_serv_id_of h))

note_server-trusted :
    (trusted : List Bytes) (id : Bytes) (ar : AuthResults)
    → (note_server trusted id ar).trusted ≡ (ar.trusted || is_one_of (map normal_id trusted) id)
unfolding note_server
note_server-trusted [] id ar = ground arith
note_server-trusted (t ∷ ts) id ar = elim (Bool-cases (is_one_of (map normal_id (t ∷ ts)) id)) [
  | inl e ↦ rw e (ground arith)
  | inr e ↦ rw e (ground arith)
]

read_header-trusted :
    (trusted : List Bytes) (h : Bytes) (ar : AuthResults)
    → (read_header trusted h ar).trusted ≡ (ar.trusted || is_listed trusted h)
unfolding read_header parse_auth_result_header
read_header-trusted trusted h ar = elim (Bool-cases (Text.is_empty (Text.trim_space h))) [
  | inl e ↦ rw e (ground arith)
  | inr e ↦ rw e (
      parse_header-trusted (split_outside_quotes h b';') _
      ∙ note_server-trusted trusted (Text.to_lower (auth_serv_id_of h))
          (record ar { present = true }))
]

or_assoc : (a b c : Bool) → ((a || b) || c) ≡ (a || (b || c))
or_assoc true b c = refl
or_assoc false b c = refl

-- Reading fields makes the results trusted exactly if they were before, or one of the fields is not
-- blank and its server is one of the listed ones, up to case and white space.
pub read_headers-trusted :
    (trusted hs : List Bytes) (ar : AuthResults)
    → (read_headers trusted hs ar).trusted ≡ (ar.trusted || any (is_listed trusted) hs)
unfolding read_headers
read_headers-trusted trusted [] ar = ground arith
read_headers-trusted trusted (h ∷ hs) ar =
    read_headers-trusted trusted hs (read_header trusted h ar)
    ∙ (ap (λ b. b || any (is_listed trusted) hs) (read_header-trusted trusted h ar)
        ∙ or_assoc ar.trusted (is_listed trusted h) (any (is_listed trusted) hs))
