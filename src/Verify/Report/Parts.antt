-- ===== src/Verify/Report/Parts.antt =====
-- `AuthenticationResults` of pkg/authverify/verify.go: the parts of the field.
use mailscript.Base.{
  ◌==◌, ==_iff, Bool-cases, all, All, All-append, ℕ, ◌≡◌, refl, ap, ◌∙◌, subst, inl, inr, Bool,
  true, false, not, Option, none, some, List, [], ◌∷◌, ◌++◌, map, append_assoc, arith,
}
use mailscript.Text
use mailscript.Text.{Bytes, codes, push_word}
use mailscript.Spf.Types.{
  SpfResult, spf_none, spf_neutral, spf_pass, spf_fail, spf_softfail, spf_temperror, spf_permerror,
}
use mailscript.Dkim.Key.{
  DkimResult, dkim_none, dkim_pass, dkim_fail, dkim_policy, dkim_neutral, dkim_temperror,
  dkim_permerror,
}
use mailscript.Dane.Discovery.{
  DaneResult, dane_none, dane_available, dane_pass, dane_fail, dane_insecure, dane_temperror,
  dane_permerror, DomainResult,
}
use mailscript.Dmarc.Record.{
  Policy, policy_unset, policy_none, policy_quarantine, policy_reject, DmarcRecord,
}
use mailscript.Dmarc.Verdict.{
  DmarcResult, dmarc_none, dmarc_pass, dmarc_fail, dmarc_temperror, dmarc_permerror,
}
use mailscript.Verify.{Verification}
use mailscript.Verify.Report.{
  spf_word, dkim_word, dmarc_word, dane_word, policy_word, property, dkim_property, record_policy,
  arc_part, dane_part, server_id, result_parts, authentication_results,
}

-- The text has no such byte.
abbrev pub lacks : ℕ → Bytes → Bool
lacks b s = all (λ c. not (c == b)) s

lacks-append : (b : ℕ) (s t : Bytes) → lacks b s ≡ true → lacks b t ≡ true → lacks b (s ++ t) ≡ true
lacks-append b [] t h k = k
lacks-append b (c ∷ s) t h k = ground (arith, lacks-append b s t (ground arith) k)

-- A text with no separator in front of one is the first part.
split-lacks :
    (b : ℕ) (s rest : Bytes)
    → lacks b s ≡ true
    → Text.split b (s ++ (b ∷ rest)) ≡ s ∷ Text.split b rest
unfolding Text.split
split-lacks b [] rest h = rw ((==_iff b b).1 refl)
split-lacks b (c ∷ s) rest h =
    let other : (c == b) ≡ false = ground arith in rw (other, split-lacks b s rest (ground arith))

split-lacks-all : (b : ℕ) (s : Bytes) → lacks b s ≡ true → Text.split b s ≡ s ∷ []
unfolding Text.split
split-lacks-all b [] h = refl
split-lacks-all b (c ∷ s) h =
    let other : (c == b) ≡ false = ground arith in rw (other, split-lacks-all b s (ground arith))

abbrev pub after_space : Bytes → Bytes
after_space s = b' ' ∷ s

-- A list of texts with no semicolon, joined and split at the semicolons.
split-join :
    (p w : Bytes) (ws : List Bytes)
    → lacks b';' p ≡ true
    → lacks b';' w ≡ true
    → All (λ v. lacks b';' v ≡ true) ws
    → Text.split b';' (p ++ Text.join (b';' ∷ b' ' ∷ []) (w ∷ ws)) ≡ (p ++ w) ∷ map after_space ws
unfolding Text.join
split-join p w [] h k a = split-lacks-all b';' (p ++ w) (lacks-append b';' p w h k)
split-join p w (v ∷ ws) h k a =
    let rest = Text.join (b';' ∷ b' ' ∷ []) (v ∷ ws) in
    let first = split-lacks b';' (p ++ w) (b' ' ∷ rest) (lacks-append b';' p w h k) in
    let next = split-join (b' ' ∷ []) v ws refl a.0 a.1 in
    subst (λ x. Text.split b';' x ≡ (p ++ w) ∷ map after_space (v ∷ ws))
      (append_assoc p w (b';' ∷ b' ' ∷ rest)) (first ∙ ap (λ l. (p ++ w) ∷ l) next)

-- No result word has a semicolon.
spf_word-lacks : (x : SpfResult) → lacks b';' (spf_word x) ≡ true
unfolding codes
spf_word-lacks spf_none = refl
spf_word-lacks spf_neutral = refl
spf_word-lacks spf_pass = refl
spf_word-lacks spf_fail = refl
spf_word-lacks spf_softfail = refl
spf_word-lacks spf_temperror = refl
spf_word-lacks spf_permerror = refl

dkim_word-lacks : (x : DkimResult) → lacks b';' (dkim_word x) ≡ true
unfolding codes
dkim_word-lacks dkim_none = refl
dkim_word-lacks dkim_pass = refl
dkim_word-lacks dkim_fail = refl
dkim_word-lacks dkim_policy = refl
dkim_word-lacks dkim_neutral = refl
dkim_word-lacks dkim_temperror = refl
dkim_word-lacks dkim_permerror = refl

dmarc_word-lacks : (x : DmarcResult) → lacks b';' (dmarc_word x) ≡ true
unfolding codes
dmarc_word-lacks dmarc_none = refl
dmarc_word-lacks dmarc_pass = refl
dmarc_word-lacks dmarc_fail = refl
dmarc_word-lacks dmarc_temperror = refl
dmarc_word-lacks dmarc_permerror = refl

dane_word-lacks : (x : DaneResult) → lacks b';' (dane_word x) ≡ true
unfolding codes
dane_word-lacks dane_none = refl
dane_word-lacks dane_available = refl
dane_word-lacks dane_pass = refl
dane_word-lacks dane_fail = refl
dane_word-lacks dane_insecure = refl
dane_word-lacks dane_temperror = refl
dane_word-lacks dane_permerror = refl

policy_word-lacks : (x : Policy) → lacks b';' (policy_word x) ≡ true
unfolding codes
policy_word-lacks policy_unset = refl
policy_word-lacks policy_none = refl
policy_word-lacks policy_quarantine = refl
policy_word-lacks policy_reject = refl

property-lacks :
    (name value : Bytes)
    → lacks b';' name ≡ true
    → lacks b';' value ≡ true
    → lacks b';' (property name value) ≡ true
unfolding property
property-lacks name value h k = elim (Bool-cases (Text.is_empty value)) [
  | inl e ↦ rw e refl
  | inr e ↦ rw e (lacks-append b';' name value h k)
]

record_policy-lacks : (x : Option DmarcRecord) → lacks b';' (record_policy x) ≡ true
unfolding record_policy
record_policy-lacks none = refl
record_policy-lacks (some r) = policy_word-lacks r.policy

dkim_property-lacks :
    (ds : List Bytes) → All (λ d. lacks b';' d ≡ true) ds → lacks b';' (dkim_property ds) ≡ true
unfolding dkim_property
dkim_property-lacks [] a = refl
dkim_property-lacks (d ∷ ds) a = lacks-append b';' (codes " header.d=") d (unfold codes in refl) a.0

arc_part-lacks : (x : DkimResult) → All (λ v. lacks b';' v ≡ true) (arc_part x)
unfolding arc_part codes
arc_part-lacks dkim_none = tt
arc_part-lacks dkim_pass = (refl, tt)
arc_part-lacks dkim_fail = (refl, tt)
arc_part-lacks dkim_policy = (refl, tt)
arc_part-lacks dkim_neutral = (refl, tt)
arc_part-lacks dkim_temperror = (refl, tt)
arc_part-lacks dkim_permerror = (refl, tt)

dane_part-lacks : (x : Option DomainResult) → All (λ v. lacks b';' v ≡ true) (dane_part x)
unfolding dane_part
dane_part-lacks none = tt
dane_part-lacks (some d) = (
  lacks-append b';' (codes "dane=") (dane_word d.result) (unfold codes in refl)
      (dane_word-lacks d.result),
  tt,
)

-- The fields that are written as they are have no semicolon.
pub record AreClean (r : Verification) (given : Bytes) : Type 0 where
  pub server : lacks b';' given ≡ true
  pub spf_domain : lacks b';' r.spf.domain ≡ true
  pub passing : All (λ d. lacks b';' d ≡ true) r.dkim.passing_domains
  pub from_domain : lacks b';' r.from_domain ≡ true

server_id-lacks : (given : Bytes) → lacks b';' given ≡ true → lacks b';' (server_id given) ≡ true
unfolding codes
server_id-lacks [] h = refl
server_id-lacks (c ∷ given) h = h

-- If the domains and the identity of the server have no semicolon, then the field, read at its
-- semicolons, has the identity first and then the parts that were rendered, each behind a space.
pub authentication_results-split :
    (r : Verification) (given : Bytes)
    → AreClean r given
    → Text.split b';' (authentication_results r given)
      ≡ server_id given ∷ map after_space (result_parts r)
unfolding authentication_results result_parts codes
authentication_results-split r given clean =
    let dot = lacks-append b';' in
    let from = property (codes " smtp.mailfrom=") r.spf.domain in
    let signer = dkim_property r.dkim.passing_domains in
    let policy = property (codes " policy.dmarc=") (record_policy r.dmarc.dmarc_record) in
    let author = property (codes " header.from=") r.from_domain in
    split-join [] (server_id given) (result_parts r) refl (server_id-lacks given clean.server) (
      dot (codes "spf=") (spf_word r.spf.result ++ from) refl (
          dot (spf_word r.spf.result) from (spf_word-lacks r.spf.result)
            (property-lacks (codes " smtp.mailfrom=") r.spf.domain refl clean.spf_domain)),
      (
        dot (codes "dkim=") (dkim_word r.dkim.result ++ signer) refl (
            dot (dkim_word r.dkim.result) signer (dkim_word-lacks r.dkim.result)
              (dkim_property-lacks r.dkim.passing_domains clean.passing)),
        (
          dot (codes "dmarc=") (dmarc_word r.dmarc.result ++ (policy ++ author)) refl (
              dot (dmarc_word r.dmarc.result) (policy ++ author) (dmarc_word-lacks r.dmarc.result) (
                dot policy author
                  (property-lacks (codes " policy.dmarc=") (record_policy r.dmarc.dmarc_record) refl
                    (record_policy-lacks r.dmarc.dmarc_record))
                  (property-lacks (codes " header.from=") r.from_domain refl clean.from_domain))),
          All-append (λ v. lacks b';' v ≡ true) (arc_part r.arc.result) (dane_part r.dane)
              (arc_part-lacks r.arc.result) (dane_part-lacks r.dane),
        ),
      ),
    )
