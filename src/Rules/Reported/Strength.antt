-- ===== src/Rules/Reported/Strength.antt =====
-- Which of the results that the fields of a message report is kept: `parseAuthResultHeader` and
-- `strongerResult` of pkg/rules/auth.go.
use mailscript.Base.{
  if◌then◌else◌, Bool-cases, ◌≡◌, refl, ap, ◌∙◌, inl, inr, false, ◌||◌, Option, none, some, List,
  [], ◌∷◌, ◌++◌,
}
use mailscript.Text
use mailscript.Text.{Bytes, codes}
use mailscript.Text.Laws.{eq→≡}
use mailscript.Rules.Mime.{param}
use mailscript.Rules.Reported.Tokens.{split_outside_quotes}
use mailscript.Rules.Reported.{
  AuthResults, stronger_result, Clause, read_clause, claim_spf, claim_dkim, claim_dmarc, claim,
  claim_if, name_server, has_equals, first_field, parse_clauses, parse_header,
}

-- The methods whose results are kept.
pub data Method : Type 0 where
  of_spf of_dkim of_dmarc of_arc : Method

abbrev pub word : Method → Bytes
word of_spf = codes "spf"
word of_dkim = codes "dkim"
word of_dmarc = codes "dmarc"
word of_arc = codes "arc"

abbrev pub result_of : Method → AuthResults → Bytes
result_of of_spf ar = ar.spf
result_of of_dkim ar = ar.dkim
result_of of_dmarc ar = ar.dmarc
result_of of_arc ar = ar.arc

abbrev pub add_claim : Method → Option Clause → List Bytes → List Bytes
add_claim m none rest = rest
add_claim m (some clause) rest =
    if Text.eq clause.method (word m) then clause.result ∷ rest else rest

-- The results that the parts of a field claim for the method, in their order.
unfoldable pub claims_in : Method → List Bytes → List Bytes
claims_in m [] = []
claims_in m (part ∷ parts) =
    let rest = claims_in m parts in
    add_claim m (read_clause (Text.fields (Text.trim_space part))) rest

-- The parts of a field behind the identity of its server, if it has one.
abbrev pub claim_parts : List Bytes → List Bytes
claim_parts [] = []
claim_parts (part ∷ parts) =
    let clause = Text.trim_space part in
    if Text.is_empty clause || has_equals clause then part ∷ parts else parts

-- The results that the fields claim for the method, in their order, whoever wrote them.
unfoldable pub claims_of : Method → List Bytes → List Bytes
claims_of m [] = []
claims_of m (h ∷ hs) =
    let rest = claims_of m hs in
    if Text.is_empty (Text.trim_space h)
    then rest
    else claims_in m (claim_parts (split_outside_quotes h b';')) ++ rest

unfoldable pub strongest : Bytes → List Bytes → Bytes
strongest existing [] = existing
strongest existing (c ∷ cs) = strongest (stronger_result existing c) cs

pub strongest-append :
    (e : Bytes) (cs ds : List Bytes) → strongest e (cs ++ ds) ≡ strongest (strongest e cs) ds
unfolding strongest
strongest-append e [] ds = refl
strongest-append e (c ∷ cs) ds = strongest-append (stronger_result e c) cs ds

-- The effect of a claim of one method on the results of all.
abbrev AppliesTo : Bytes → Clause → (AuthResults → AuthResults) → Type 0
AppliesTo name clause f =
    (m : Method) (ar : AuthResults)
    → result_of m (f ar) ≡ (
        if Text.eq name (word m)
        then stronger_result (result_of m ar) clause.result
        else result_of m ar)

claim_spf-AppliesTo : (clause : Clause) → AppliesTo (codes "spf") clause (claim_spf clause)
unfolding claim_spf Text.eq codes
claim_spf-AppliesTo clause of_spf ar = refl
claim_spf-AppliesTo clause of_dkim ar = refl
claim_spf-AppliesTo clause of_dmarc ar = refl
claim_spf-AppliesTo clause of_arc ar = refl

claim_dkim-AppliesTo : (clause : Clause) → AppliesTo (codes "dkim") clause (claim_dkim clause)
unfolding claim_dkim Text.eq codes
claim_dkim-AppliesTo clause m ar =
    elim (Bool-cases (Text.is_empty (Text.to_lower (param (codes "header.d") clause.props)))) [
      | inl e ↦ rw e (kept m ar.dkim_domains ar.dkim_all_domains)
      | inr e ↦ rw e (kept m _ _)
    ]
  where
    kept :
        (n : Method) (xs ys : List Bytes)
        → result_of n (record ar {
          dkim = stronger_result ar.dkim clause.result;
          dkim_domains = xs;
          dkim_all_domains = ys;
        })
          ≡ (if Text.eq (codes "dkim") (word n)
              then stronger_result (result_of n ar) clause.result
              else result_of n ar)
    kept of_spf xs ys = refl
    kept of_dkim xs ys = refl
    kept of_dmarc xs ys = refl
    kept of_arc xs ys = refl

claim_dmarc-AppliesTo : (clause : Clause) → AppliesTo (codes "dmarc") clause (claim_dmarc clause)
unfolding claim_dmarc Text.eq codes
claim_dmarc-AppliesTo clause of_spf ar = refl
claim_dmarc-AppliesTo clause of_dkim ar = refl
claim_dmarc-AppliesTo clause of_dmarc ar = refl
claim_dmarc-AppliesTo clause of_arc ar = refl

abbrev claim_arc : Clause → AuthResults → AuthResults
claim_arc clause ar = record ar { arc = stronger_result ar.arc clause.result }

claim_arc-AppliesTo : (clause : Clause) → AppliesTo (codes "arc") clause (claim_arc clause)
unfolding Text.eq codes
claim_arc-AppliesTo clause of_spf ar = refl
claim_arc-AppliesTo clause of_dkim ar = refl
claim_arc-AppliesTo clause of_dmarc ar = refl
claim_arc-AppliesTo clause of_arc ar = refl

-- A method that is none of the four.
unnamed :
    (m : Method) (method : Bytes)
    → Text.eq method (codes "spf") ≡ false
    → Text.eq method (codes "dkim") ≡ false
    → Text.eq method (codes "dmarc") ≡ false
    → Text.eq method (codes "arc") ≡ false
    → Text.eq method (word m) ≡ false
unnamed of_spf method a b c d = a
unnamed of_dkim method a b c d = b
unnamed of_dmarc method a b c d = c
unnamed of_arc method a b c d = d

claim-result : (clause : Clause) → AppliesTo clause.method clause (claim clause)
unfolding claim
claim-result clause m ar = elim (Bool-cases (Text.eq clause.method (codes "spf"))) [
  | inl e ↦ rw e (rw (eq→≡ clause.method (codes "spf") e) (claim_spf-AppliesTo clause m ar))
  | inr e ↦ elim (Bool-cases (Text.eq clause.method (codes "dkim"))) [
    | inl g ↦
        rw (e, g) (rw (eq→≡ clause.method (codes "dkim") g) (claim_dkim-AppliesTo clause m ar))
    | inr g ↦ elim (Bool-cases (Text.eq clause.method (codes "dmarc"))) [
      | inl k ↦
          rw (e, g, k)
            (rw (eq→≡ clause.method (codes "dmarc") k) (claim_dmarc-AppliesTo clause m ar))
      | inr k ↦ elim (Bool-cases (Text.eq clause.method (codes "arc"))) [
        | inl l ↦
            rw (e, g, k, l)
              (rw (eq→≡ clause.method (codes "arc") l) (claim_arc-AppliesTo clause m ar))
        | inr l ↦ rw (e, g, k, l) (rw (unnamed m clause.method e g k l) refl)
      ]
    ]
  ]
]

claim_if-result :
    (m : Method) (o : Option Clause) (rest : List Bytes) (ar : AuthResults)
    → strongest (result_of m (claim_if o ar)) rest ≡ strongest (result_of m ar) (add_claim m o rest)
claim_if-result m none rest ar = refl
claim_if-result m (some clause) rest ar = elim (Bool-cases (Text.eq clause.method (word m))) [
  | inl e ↦ unfold strongest in rw (claim-result clause m ar, e) refl
  | inr e ↦ rw (claim-result clause m ar, e) refl
]

parse_clauses-result :
    (m : Method) (parts : List Bytes) (ar : AuthResults)
    → result_of m (parse_clauses parts ar) ≡ strongest (result_of m ar) (claims_in m parts)
unfolding parse_clauses claims_in
parse_clauses-result m [] ar = unfold strongest in refl
parse_clauses-result m (part ∷ parts) ar =
    parse_clauses-result m parts _
    ∙ claim_if-result m (read_clause (Text.fields (Text.trim_space part))) (claims_in m parts) ar

name_server-result :
    (m : Method) (id : Bytes) (ar : AuthResults) → result_of m (name_server id ar) ≡ result_of m ar
name_server-result m id ar = elim (Bool-cases (Text.is_empty ar.auth_serv_id)) [
  | inl e ↦ rw e (same m)
  | inr e ↦ rw e refl
]
  where
    same : (n : Method) → result_of n (record ar { auth_serv_id = id }) ≡ result_of n ar
    same of_spf = refl
    same of_dkim = refl
    same of_dmarc = refl
    same of_arc = refl

pub parse_header-result :
    (m : Method) (parts : List Bytes) (ar : AuthResults)
    → result_of m (parse_header parts ar)
      ≡ strongest (result_of m ar) (claims_in m (claim_parts parts))
unfolding parse_header
parse_header-result m [] ar = unfold strongest claims_in in refl
parse_header-result m (part ∷ parts) ar =
    let clause = Text.trim_space part in
    elim (Bool-cases (Text.is_empty clause || has_equals clause)) [
      | inl e ↦ rw (e, parse_header) (parse_clauses-result m (part ∷ parts) ar)
      | inr e ↦
          rw (e, parse_header)
            (parse_clauses-result m parts _
              ∙ ap (λ r. strongest r (claims_in m parts))
                  (name_server-result m (first_field (Text.fields clause)) ar))
    ]
