-- ===== src/Rules/Reported/Kept.antt =====
-- The results that are kept over all the fields of a message: `parseAuthResults` of pkg/rules/auth.go.
use mailscript.Base.{
  ltb, Bool-cases, Option-cases, some-injective, All, All-append, ◌≤◌, ◌≡◌, refl, sym, ap, ◌∙◌, ◌⊎◌,
  inl, inr, Bool, true, false, some, List, [], ◌∷◌, map, arith,
}
use mathlib.Core.List.{Memᴰ}
use mailscript.Text
use mailscript.Text.{Bytes, codes}
use mailscript.Rules.Reported.Tokens.{split_outside_quotes, auth_serv_id_of, extract_tag}
use mailscript.Rules.Reported.{
  AuthResults, no_results, rank, stronger_result, Clause, read_clause, with_result, is_one_of,
  normal_id, parse_auth_result_header, note_server, read_header, read_headers, read_signatures,
  note_signature,
}
use mailscript.Rules.Reported.Strength.{
  Method, of_spf, of_dkim, of_dmarc, of_arc, word, result_of, add_claim, claims_in, claim_parts,
  claims_of, strongest, strongest-append, parse_header-result,
}

-- Fields other than the results do not count for them.
noted :
    (m : Method) (ar : AuthResults) (present trusted : Bool) (servers : List Bytes)
    → result_of m
        (record ar { present = present; trusted = trusted; untrusted_auth_servs = servers })
      ≡ result_of m ar
noted of_spf ar p t us = refl
noted of_dkim ar p t us = refl
noted of_dmarc ar p t us = refl
noted of_arc ar p t us = refl

note_server-result :
    (m : Method) (trusted : List Bytes) (id : Bytes) (ar : AuthResults)
    → result_of m (note_server trusted id (record ar { present = true })) ≡ result_of m ar
unfolding note_server
note_server-result m [] id ar = noted m ar true ar.trusted ar.untrusted_auth_servs
note_server-result m (t ∷ ts) id ar = elim (Bool-cases (is_one_of (map normal_id (t ∷ ts)) id)) [
  | inl e ↦ rw e (noted m ar true true ar.untrusted_auth_servs)
  | inr e ↦ rw e (noted m ar true ar.trusted _)
]

read_headers-result :
    (m : Method) (trusted hs : List Bytes) (ar : AuthResults)
    → result_of m (read_headers trusted hs ar) ≡ strongest (result_of m ar) (claims_of m hs)
unfolding read_headers claims_of
read_headers-result m trusted [] ar = unfold strongest in refl
read_headers-result m trusted (h ∷ hs) ar =
    read_headers-result m trusted hs (read_header trusted h ar)
    ∙ elim (Bool-cases (Text.is_empty (Text.trim_space h))) [
      | inl e ↦ rw (e, read_header) refl
      | inr e ↦
          let claims = claims_in m (claim_parts (split_outside_quotes h b';')) in
          let seen =
            note_server trusted (Text.to_lower (auth_serv_id_of h))
              (record ar { present = true }) in
          let kept : result_of m (parse_auth_result_header h seen)
              ≡ strongest (result_of m ar) claims =
            unfold parse_auth_result_header in
            parse_header-result m (split_outside_quotes h b';') seen
            ∙ ap (λ r. strongest r claims)
                (note_server-result m trusted (Text.to_lower (auth_serv_id_of h)) ar) in
          rw (e, read_header)
            (ap (λ r. strongest r (claims_of m hs)) kept
              ∙ sym (strongest-append (result_of m ar) claims (claims_of m hs)))
    ]

note_signature-result :
    (m : Method) (d : Bytes) (ar : AuthResults) → result_of m (note_signature d ar) ≡ result_of m ar
note_signature-result m d ar = elim (Bool-cases (Text.is_empty d)) [
  | inl e ↦ rw e (same m ar.dkim_all_domains)
  | inr e ↦ rw e (same m _)
]
  where
    same :
        (n : Method) (ds : List Bytes)
        → result_of n (record ar { signed = true; dkim_all_domains = ds }) ≡ result_of n ar
    same of_spf ds = refl
    same of_dkim ds = refl
    same of_dmarc ds = refl
    same of_arc ds = refl

read_signatures-result :
    (m : Method) (sigs : List Bytes) (ar : AuthResults)
    → result_of m (read_signatures sigs ar) ≡ result_of m ar
unfolding read_signatures
read_signatures-result m [] ar = refl
read_signatures-result m (sig ∷ sigs) ar =
    read_signatures-result m sigs _ ∙ note_signature-result m (extract_tag sig (codes "d")) ar

no_results-result : (m : Method) → result_of m no_results ≡ []
no_results-result of_spf = refl
no_results-result of_dkim = refl
no_results-result of_dmarc = refl
no_results-result of_arc = refl

-- The result of a method after all fields is the fold of the claims.
pub reported-strongest :
    (m : Method) (trusted hs sigs : List Bytes)
    → result_of m (read_headers trusted hs (read_signatures sigs no_results))
      ≡ strongest [] (claims_of m hs)
reported-strongest m trusted hs sigs =
    read_headers-result m trusted hs _
    ∙ ap (λ r. strongest r (claims_of m hs))
        (read_signatures-result m sigs no_results ∙ no_results-result m)

-- A claim that is among the claims, and outranks each of them.
pub data IsStrongest (r : Bytes) (cs : List Bytes) : Type 0 where
  found : Memᴰ r cs → All (λ c. rank c ≤ rank r) cs → IsStrongest r cs

stronger-rank :
    (e c : Bytes)
    → Text.is_empty e ≡ false
    → (rank e ≤ rank (stronger_result e c))
      × (rank c ≤ rank (stronger_result e c))
      × ((stronger_result e c ≡ e) ⊎ (stronger_result e c ≡ c))
unfolding stronger_result
stronger-rank e c h = elim (Bool-cases (ltb (rank e) (rank c))) [
  | inl l ↦ rw (h, l) (ground arith, omega arith, inr refl)
  | inr l ↦ rw (h, l) (omega arith, ground arith, inl refl)
]

stronger-named :
    (e c : Bytes)
    → Text.is_empty e ≡ false
    → Text.is_empty c ≡ false
    → Text.is_empty (stronger_result e c) ≡ false
unfolding stronger_result
stronger-named e c h k = elim (Bool-cases (ltb (rank e) (rank c))) [
  | inl l ↦ rw (h, l) k
  | inr l ↦ rw (h, l) h
]

-- The claims name a result.
abbrev AreNamed : List Bytes → Type 0
AreNamed = All (λ c. Text.is_empty c ≡ false)

rank_trans : (a b c : Bytes) → rank a ≤ rank b → rank b ≤ rank c → rank a ≤ rank c
rank_trans a b c h k = omega arith

strongest-from :
    (e : Bytes) (cs : List Bytes)
    → Text.is_empty e ≡ false
    → AreNamed cs
    → IsStrongest (strongest e cs) (e ∷ cs)
unfolding strongest
strongest-from e [] h k = found (Memᴰ.head refl) (omega arith, tt)
strongest-from e (c ∷ cs) h k =
    let s = stronger_result e c in
    let best = strongest s cs in
    let (up, up_new, which) = stronger-rank e c h in
    elim (strongest-from s cs (stronger-named e c h k.0) k.1) [
      | found mem low ↦
          found (pick mem which)
            (rank_trans e s best up low.0, (rank_trans c s best up_new low.0, low.1))
    ]
  where
    pick : {r s : Bytes} → Memᴰ r (s ∷ cs) → (s ≡ e) ⊎ (s ≡ c) → Memᴰ r (e ∷ c ∷ cs)
    pick (Memᴰ.head p) (inl q) = Memᴰ.head (p ∙ q)
    pick (Memᴰ.head p) (inr q) = Memᴰ.tail (Memᴰ.head (p ∙ q))
    pick (Memᴰ.tail m) q = Memᴰ.tail (Memᴰ.tail m)

with_result-named :
    (clause found_clause : Clause)
    → with_result clause ≡ some found_clause
    → Text.is_empty found_clause.result ≡ false
with_result-named clause given h = elim (Bool-cases (Text.is_empty clause.result)) [
  | inl e ↦ absurd (ground (arith, e, h))
  | inr e ↦
      let same : clause ≡ given = some-injective clause given (rw e at h) in
      ap (λ x. Text.is_empty (Clause.result x)) (sym same) ∙ e
]

read_clause-named :
    (fs : List Bytes) (clause : Clause)
    → read_clause fs ≡ some clause
    → Text.is_empty clause.result ≡ false
unfolding read_clause
read_clause-named [] clause h = cc
read_clause-named (f ∷ fs) clause h = with_result-named _ clause h

add_claim-AreNamed :
    (m : Method) (fs rest : List Bytes)
    → AreNamed rest
    → AreNamed (add_claim m (read_clause fs) rest)
add_claim-AreNamed m fs rest h = elim (Option-cases (read_clause fs)) [
  | inl e ↦ rw e h
  | inr (clause, e) ↦ elim (Bool-cases (Text.eq clause.method (word m))) [
    | inl g ↦ rw (e, g) (read_clause-named fs clause e, h)
    | inr g ↦ rw (e, g) h
  ]
]

claims_in-AreNamed : (m : Method) (parts : List Bytes) → AreNamed (claims_in m parts)
unfolding claims_in
claims_in-AreNamed m [] = tt
claims_in-AreNamed m (part ∷ parts) =
    add_claim-AreNamed m (Text.fields (Text.trim_space part)) _ (claims_in-AreNamed m parts)

claims_of-AreNamed : (m : Method) (hs : List Bytes) → AreNamed (claims_of m hs)
unfolding claims_of
claims_of-AreNamed m [] = tt
claims_of-AreNamed m (h ∷ hs) = elim (Bool-cases (Text.is_empty (Text.trim_space h))) [
  | inl e ↦ rw e (claims_of-AreNamed m hs)
  | inr e ↦ rw e (
      All-append (λ c. Text.is_empty c ≡ false)
        (claims_in m (claim_parts (split_outside_quotes h b';'))) _ (claims_in-AreNamed m _)
        (claims_of-AreNamed m hs))
]

strongest-claims :
    (cs : List Bytes)
    → AreNamed cs
    → ((strongest [] cs ≡ []) × (cs ≡ [])) ⊎ IsStrongest (strongest [] cs) cs
unfolding strongest stronger_result
strongest-claims [] h = inl (refl, refl)
strongest-claims (c ∷ cs) h = inr (strongest-from c cs h.0 h.1)

-- For each of the four methods, whoever wrote the fields and whatever servers are trusted, either no
-- field claims a result and the one that is kept is empty, or the one that is kept is one of those
-- that the fields claim, and none of them has a higher rank.
pub read_headers-IsStrongest :
    (m : Method) (trusted hs sigs : List Bytes)
    → let kept = result_of m (read_headers trusted hs (read_signatures sigs no_results)) in
      ((kept ≡ []) × (claims_of m hs ≡ [])) ⊎ IsStrongest kept (claims_of m hs)
read_headers-IsStrongest m trusted hs sigs =
    rw (reported-strongest m trusted hs sigs)
      (strongest-claims (claims_of m hs) (claims_of-AreNamed m hs))
