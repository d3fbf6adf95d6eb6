-- ===== src/Spf/Check/Verdicts.antt =====
-- `VerifySPF` and `findRecord` of pkg/authverify/spf.go, as a whole.
use mailscript.Base.{
  ltb, if◌then◌else◌, Bool-cases, length, All, ℕ, suc, ◌≤◌, ◌≡◌, refl, ap, ◌∙◌, inl, inr, Bool,
  true, false, not, Option, none, some, List, [], ◌∷◌, ◌++◌, arith,
}
use mailscript.Text
use mailscript.Text.{Bytes, codes}
use mailscript.Text.Laws.{has_prefix-append}
use mailscript.Net.{parse_ip}
use mailscript.Spf.Types.{spf_permerror, max_spf_record_size, Resolver, Evaluator, Counters, Check}
use mailscript.Spf.Check.{spf_records, choose_record, find_record, check_found, check}
use mailscript.Spf.Client.{
  Outcome, verified, is_usable, identity_of, domain_of, verify_at, verify_client, verify_spf,
}
use mailscript.Spf.Check.Limits.{check_terminates}

-- What `verify_spf` returns, and that it has counted at most eleven lookups.
abbrev Ends : Option Outcome → Type 0
Ends o = (r : Outcome) × (o ≡ some r) × (r.lookups ≤ 11)

verify_at-Ends :
    (resolver : Resolver) (start : Outcome) (identity mail_from helo : Bytes) (ip : ℕ)
    → start.lookups ≡ 0
    → Ends (verify_at resolver start identity mail_from helo ip)
unfolding verify_at verified
verify_at-Ends resolver start identity mail_from helo ip z =
    let domain = domain_of identity in
    let e : Evaluator = record { resolver = resolver; ip = ip; sender = identity; helo = helo } in
    let (r, c, p, few, _, _) = check_terminates e domain in
    elim (Bool-cases (is_usable domain)) [
      | inl y ↦ rw (y, p) (_, refl, few)
      | inr y ↦ rw y (_, refl, omega arith)
    ]

verify_client-Ends :
    (resolver : Resolver) (start : Outcome) (mail_from helo : Bytes) (o : Option ℕ)
    → start.lookups ≡ 0
    → Ends (verify_client resolver start mail_from helo o)
unfolding verify_client
verify_client-Ends resolver start mail_from helo none z = (_, refl, omega arith)
verify_client-Ends resolver start mail_from helo (some ip) z =
    verify_at-Ends resolver _ (identity_of mail_from helo) mail_from helo ip z

if-Ends : (b : Bool) (m n : Option Outcome) → Ends m → Ends n → Ends (if b then m else n)
if-Ends true m n h k = h
if-Ends false m n h k = k

-- For every resolver and every client the verification ends with a result, also where the client's
-- address cannot be read, and it has counted at most eleven lookups.
pub verify_spf_total :
    (resolver : Resolver) (client_ip mail_from helo : Bytes)
    → (r : Outcome) × (verify_spf resolver client_ip mail_from helo ≡ some r) × (r.lookups ≤ 11)
unfolding verify_spf
verify_spf_total resolver client_ip mail_from helo =
    if-Ends (not resolver.enabled) _ _ (_, refl, omega arith)
      (verify_client-Ends resolver _ mail_from helo (parse_ip client_ip) refl)

-- The text is a record of SPF: in small letters it begins with the version.
abbrev pub IsSpfRecord : Bytes → Type 0
IsSpfRecord r = (rest : Bytes) × (Text.to_lower r ≡ codes "v=spf1" ++ rest)

-- The text is not longer than a record may be.
abbrev pub IsShort : Bytes → Type 0
IsShort r = length r ≤ max_spf_record_size

-- The records that are found, with this number at least.
AtLeast : ℕ → Option (List Bytes) → Type 0
AtLeast n o = (found : List Bytes) × (o ≡ some found) × (n ≤ length found)

keep-AtLeast :
    (n : ℕ) (r : Bytes) (records : List Bytes)
    → IsShort r
    → AtLeast n (spf_records records)
    → AtLeast n (spf_records (r ∷ records))
unfolding AtLeast spf_records
keep-AtLeast n r records h (found, e, m) =
    let short : ltb max_spf_record_size (length r) ≡ false = ground (arith, h) in
    elim (Bool-cases (Text.has_prefix (codes "v=spf1") (Text.to_lower r))) [
      | inl w ↦ rw (short, e, w, spf_records) (_, refl, omega arith)
      | inr w ↦ rw (short, e, w, spf_records) (_, refl, m)
    ]

count-AtLeast :
    (n : ℕ) (r : Bytes) (records : List Bytes)
    → IsShort r
    → IsSpfRecord r
    → AtLeast n (spf_records records)
    → AtLeast (suc n) (spf_records (r ∷ records))
unfolding AtLeast spf_records
count-AtLeast n r records h (rest, s) (found, e, m) =
    let short : ltb max_spf_record_size (length r) ≡ false = ground (arith, h) in
    let w : Text.has_prefix (codes "v=spf1") (Text.to_lower r) ≡ true =
      rw s (has_prefix-append (codes "v=spf1") rest) in
    rw (short, e, w, spf_records) (_, refl, omega arith)

skip-AtLeast :
    (n : ℕ) (before records : List Bytes)
    → All IsShort (before ++ records)
    → AtLeast n (spf_records records)
    → AtLeast n (spf_records (before ++ records))
skip-AtLeast n [] records h a = a
skip-AtLeast n (r ∷ before) records h a =
    keep-AtLeast n r (before ++ records) h.0 (skip-AtLeast n before records h.1 a)

spf_records-AtLeast : (records : List Bytes) → All IsShort records → AtLeast 0 (spf_records records)
unfolding AtLeast
spf_records-AtLeast [] h = unfold spf_records in (_, refl, omega arith)
spf_records-AtLeast (r ∷ records) h = keep-AtLeast 0 r records h.0 (spf_records-AtLeast records h.1)

All-rest : (before between : List Bytes) → All IsShort (before ++ between) → All IsShort between
All-rest [] between h = h
All-rest (a ∷ before) between h = All-rest before between h.1

two-AtLeast :
    (before between behind : List Bytes) (r r' : Bytes)
    → All IsShort (before ++ (r ∷ (between ++ (r' ∷ behind))))
    → IsSpfRecord r
    → IsSpfRecord r'
    → AtLeast 2 (spf_records (before ++ (r ∷ (between ++ (r' ∷ behind)))))
two-AtLeast before between behind r r' h i j =
    let first = All-rest before (r ∷ (between ++ (r' ∷ behind))) h in
    let second = All-rest between (r' ∷ behind) first.1 in
    skip-AtLeast 2 before (r ∷ (between ++ (r' ∷ behind))) h (
      count-AtLeast 1 r (between ++ (r' ∷ behind)) first.0 i (
        skip-AtLeast 1 between (r' ∷ behind) first.1
          (count-AtLeast 0 r' behind second.0 j (spf_records-AtLeast behind second.1))))

choose-several :
    (fuel : ℕ) (e : Evaluator) (domain : Bytes) (c : Counters) (found : List Bytes)
    → spf_records (e.resolver.lookup_txt domain) ≡ some found
    → 2 ≤ length found
    → (k : Check) × (check (suc fuel) e domain c ≡ some (k, c)) × (k.result ≡ spf_permerror)
unfolding check find_record choose_record check_found
choose-several fuel e domain c [] h m = absurd (omega arith)
choose-several fuel e domain c (r ∷ []) h m = absurd (omega arith)
choose-several fuel e domain c (r ∷ r' ∷ found) h m = rw h (_, refl, refl)

-- If two of the TXT records of a domain begin with the version of SPF, in letters of any case, and
-- none is longer than a record may be, then the check of the domain is a permerror, whatever the
-- records say and wherever the two stand among the others, and it has counted no lookup.
pub check-several_records :
    (fuel : ℕ) (e : Evaluator) (domain r r' : Bytes) (before between behind : List Bytes)
    (c : Counters)
    → e.resolver.lookup_txt domain ≡ before ++ (r ∷ (between ++ (r' ∷ behind)))
    → All IsShort (before ++ (r ∷ (between ++ (r' ∷ behind))))
    → IsSpfRecord r
    → IsSpfRecord r'
    → (k : Check) × (check (suc fuel) e domain c ≡ some (k, c)) × (k.result ≡ spf_permerror)
unfolding AtLeast
check-several_records fuel e domain r r' before between behind c t h i j =
    let (found, s, m) = two-AtLeast before between behind r r' h i j in
    choose-several fuel e domain c found (ap spf_records t ∙ s) m
