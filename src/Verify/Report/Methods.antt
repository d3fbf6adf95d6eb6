-- ===== src/Verify/Report/Methods.antt =====
-- `AuthenticationResults` of pkg/authverify/verify.go, read back method by method.
use mailscript.Base.{
  ◌==◌, if◌then◌else◌, drop, ◌≡◌, refl, sym, ap, ◌∙◌, ◌⊎◌, inl, inr, true, false, Option, none,
  some, List, [], ◌∷◌, ◌++◌, map, append-nil, arith,
}
use mailscript.Text
use mailscript.Text.{Bytes, codes}
use mailscript.Dkim.Key.{
  DkimResult, dkim_none, dkim_pass, dkim_fail, dkim_policy, dkim_neutral, dkim_temperror,
  dkim_permerror,
}
use mailscript.Dane.Discovery.{DomainResult}
use mailscript.Verify.{Verification}
use mailscript.Verify.Report.{
  spf_word, dkim_word, dmarc_word, dane_word, property, dkim_property, record_policy, arc_part,
  dane_part, result_parts, authentication_results,
}
use mailscript.Verify.Report.Parts.{AreClean, lacks, after_space, authentication_results-split}
use mailscript.Verify.Report.Words.{
  spf_word-IsWord, dkim_word-IsWord, dmarc_word-IsWord, dane_word-IsWord,
}

-- What follows a text at the beginning of another.
unfoldable pub behind : Bytes → Bytes → Option Bytes
behind [] s = some s
behind (c ∷ p) [] = none
behind (c ∷ p) (d ∷ s) = if c == d then behind p s else none

-- The text up to its first space.
unfoldable pub until_space : Bytes → Bytes
until_space [] = []
until_space (c ∷ s) = if c == b' ' then [] else c ∷ until_space s

-- The results that parts of the form ` method=result property …` give for a method.
unfoldable pub results_in : Bytes → List Bytes → List Bytes
unfolding behind
results_in method [] = []
results_in method (part ∷ parts) = elim (behind (b' ' ∷ (method ++ (b'=' ∷ []))) part) [
  | none ↦ results_in method parts
  | some rest ↦ until_space rest ∷ results_in method parts
]

-- The results that a field gives for a method: behind its first semicolon, in each part between two.
abbrev pub results_of : Bytes → Bytes → List Bytes
results_of method field = results_in method (drop 1 (Text.split b';' field))

-- The result of ARC is given if there is one.
abbrev pub said_of_arc : DkimResult → List Bytes
said_of_arc dkim_none = []
said_of_arc result = dkim_word result ∷ []

-- The result of DANE is given if it was asked for.
abbrev pub said_of_dane : Option DomainResult → List Bytes
said_of_dane none = []
said_of_dane (some d) = dane_word d.result ∷ []

-- Nothing, or a text behind a space.
abbrev IsApart : Bytes → Type 0
IsApart s = (s ≡ []) ⊎ ((t : Bytes) × (s ≡ b' ' ∷ t))

until_space-append : (w s : Bytes) → lacks b' ' w ≡ true → IsApart s → until_space (w ++ s) ≡ w
unfolding until_space
until_space-append [] s h (inl e) = rw e refl
until_space-append [] s h (inr (t, e)) = rw e refl
until_space-append (c ∷ w) s h a =
    let other : (c == b' ') ≡ false = ground arith in
    rw other (ap (λ r. c ∷ r) (until_space-append w s (ground arith) a))

IsApart-append : (s t : Bytes) → IsApart s → IsApart t → IsApart (s ++ t)
IsApart-append s t (inl e) b = rw e b
IsApart-append s t (inr (u, e)) b = inr (u ++ t, rw e refl)

property-IsApart : (name value : Bytes) → IsApart (property (b' ' ∷ name) value)
unfolding property
property-IsApart name [] = inl refl
property-IsApart name (c ∷ value) = inr (name ++ (c ∷ value), refl)

dkim_property-IsApart : (ds : List Bytes) → IsApart (dkim_property ds)
unfolding dkim_property codes
dkim_property-IsApart [] = inl refl
dkim_property-IsApart (d ∷ ds) = inr (codes "header.d=" ++ d, refl)

-- A word alone, read up to a space.
until_space-word : (w : Bytes) → lacks b' ' w ≡ true → until_space w ≡ w
until_space-word w h = ap until_space (sym (append-nil w)) ∙ until_space-append w [] h (inl refl)

arc_part-cases :
    (x : DkimResult)
    → ((arc_part x ≡ []) × (said_of_arc x ≡ []))
      ⊎ ((arc_part x ≡ (codes "arc=" ++ dkim_word x) ∷ []) × (said_of_arc x ≡ dkim_word x ∷ []))
unfolding arc_part
arc_part-cases dkim_none = inl (refl, refl)
arc_part-cases dkim_pass = inr (refl, refl)
arc_part-cases dkim_fail = inr (refl, refl)
arc_part-cases dkim_policy = inr (refl, refl)
arc_part-cases dkim_neutral = inr (refl, refl)
arc_part-cases dkim_temperror = inr (refl, refl)
arc_part-cases dkim_permerror = inr (refl, refl)

-- What the parts behind that of DMARC give for each method.
abbrev TailSays : DkimResult → Option DomainResult → List Bytes → Type 0
TailSays x d parts =
    (results_in (codes "spf") parts ≡ [])
    × (results_in (codes "dkim") parts ≡ [])
    × (results_in (codes "dmarc") parts ≡ [])
    × (results_in (codes "arc") parts ≡ said_of_arc x)
    × (results_in (codes "dane") parts ≡ said_of_dane d)

tail-TailSays :
    (x : DkimResult) (d : Option DomainResult)
    → TailSays x d (map after_space (arc_part x ++ dane_part d))
unfolding results_in behind dane_part codes
tail-TailSays x none = elim (arc_part-cases x) [
  | inl (e, f) ↦ rw (e, f) (refl, refl, refl, refl, refl)
  | inr (e, f) ↦
      rw (e, f)
        (
          refl,
          refl,
          refl,
          ap (λ w. w ∷ []) (until_space-word (dkim_word x) (dkim_word-IsWord x)),
          refl,
        )
]
tail-TailSays x (some d) =
    let dane =
      ap (λ w. w ∷ []) (until_space-word (dane_word d.result) (dane_word-IsWord d.result)) in
    elim (arc_part-cases x) [
      | inl (e, f) ↦ rw (e, f) (refl, refl, refl, refl, dane)
      | inr (e, f) ↦
          rw (e, f)
            (
              refl,
              refl,
              refl,
              ap (λ w. w ∷ []) (until_space-word (dkim_word x) (dkim_word-IsWord x)),
              dane,
            )
    ]

-- The field gives the result of SPF, of DKIM and of DMARC once each, that of ARC if there is one, and
-- that of DANE if it was asked for.
pub record IsReported (r : Verification) (field : Bytes) : Type 0 where
  pub spf : results_of (codes "spf") field ≡ spf_word r.spf.result ∷ []
  pub dkim : results_of (codes "dkim") field ≡ dkim_word r.dkim.result ∷ []
  pub dmarc : results_of (codes "dmarc") field ≡ dmarc_word r.dmarc.result ∷ []
  pub arc : results_of (codes "arc") field ≡ said_of_arc r.arc.result
  pub dane : results_of (codes "dane") field ≡ said_of_dane r.dane

only-word : (w v : Bytes) (l : List Bytes) → w ≡ v → l ≡ [] → w ∷ l ≡ v ∷ []
only-word w v l e f = ap (λ x. x ∷ l) e ∙ ap (λ x. v ∷ x) f

module _ (r : Verification) where
  tail_says :
      TailSays r.arc.result r.dane (map after_space (arc_part r.arc.result ++ dane_part r.dane))
  tail_says = tail-TailSays r.arc.result r.dane

  spf-result :
      results_in (codes "spf") (map after_space (result_parts r)) ≡ spf_word r.spf.result ∷ []
  unfolding results_in behind result_parts codes
  spf-result =
      only-word _ _ _
        (until_space-append (spf_word r.spf.result)
          (property (codes " smtp.mailfrom=") r.spf.domain) (spf_word-IsWord r.spf.result)
          (property-IsApart (codes "smtp.mailfrom=") r.spf.domain))
        tail_says.0

  dkim-result :
      results_in (codes "dkim") (map after_space (result_parts r)) ≡ dkim_word r.dkim.result ∷ []
  unfolding results_in behind result_parts codes
  dkim-result =
      only-word _ _ _
        (until_space-append (dkim_word r.dkim.result) (dkim_property r.dkim.passing_domains)
          (dkim_word-IsWord r.dkim.result) (dkim_property-IsApart r.dkim.passing_domains))
        tail_says.1

  dmarc-result :
      results_in (codes "dmarc") (map after_space (result_parts r)) ≡ dmarc_word r.dmarc.result ∷ []
  unfolding results_in behind result_parts codes
  dmarc-result =
      let policy = property (codes " policy.dmarc=") (record_policy r.dmarc.dmarc_record) in
      let author = property (codes " header.from=") r.from_domain in
      only-word _ _ _
        (until_space-append (dmarc_word r.dmarc.result) (policy ++ author)
          (dmarc_word-IsWord r.dmarc.result)
          (IsApart-append policy author
            (property-IsApart (codes "policy.dmarc=") (record_policy r.dmarc.dmarc_record))
            (property-IsApart (codes "header.from=") r.from_domain)))
        tail_says.2

  arc-result :
      results_in (codes "arc") (map after_space (result_parts r)) ≡ said_of_arc r.arc.result
  unfolding results_in behind result_parts codes
  arc-result = tail_says.3

  dane-result : results_in (codes "dane") (map after_space (result_parts r)) ≡ said_of_dane r.dane
  unfolding results_in behind result_parts codes
  dane-result = tail_says.4

-- If the domains and the identity of the server have no semicolon, then the field, read behind its first
-- semicolon and there part by part, gives for SPF, for DKIM and for DMARC the result of that method
-- and no other, for ARC its result unless that is none, and for DANE its result if it was asked for,
-- whatever stands in the domains.
pub results_of-authentication_results :
    (r : Verification) (given : Bytes)
    → AreClean r given
    → IsReported r (authentication_results r given)
results_of-authentication_results r given clean =
    let parts : drop 1 (Text.split b';' (authentication_results r given))
        ≡ map after_space (result_parts r) =
      ap (drop 1) (authentication_results-split r given clean) in
    record {
      spf = ap (results_in (codes "spf")) parts ∙ spf-result r;
      dkim = ap (results_in (codes "dkim")) parts ∙ dkim-result r;
      dmarc = ap (results_in (codes "dmarc")) parts ∙ dmarc-result r;
      arc = ap (results_in (codes "arc")) parts ∙ arc-result r;
      dane = ap (results_in (codes "dane")) parts ∙ dane-result r;
    }
