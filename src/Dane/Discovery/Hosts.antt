-- ===== src/Dane/Discovery/Hosts.antt =====
-- `CheckDANE` and `CheckDANEDomain` of pkg/authverify/dane.go: when a host, and a domain, counts as
-- protected.
use mailscript.Base.{
  Bool-cases, length, any, All, ℤ, pos, ◌≤◌, ◌≡◌, refl, ◌≢◌, ◌↔◌, inl, inr, true, false, List, [],
  ◌∷◌, map, arith,
}
use mailscript.Text
use mailscript.Text.{Bytes}
use mailscript.Spf.Types.{Resolver}
use mailscript.Dane.Discovery.{
  TlsaRecord, TlsaAnswer, DaneResult, dane_available, dane_pass, HostResult, mail_port, is_usable,
  count_usable, judge_answer, is_result, count_result, judge_hosts, check_dane, check_hosts,
  check_dane_domain,
}

is_result-dane_available :
    (r : DaneResult) → (is_result dane_available r ≡ true) ↔ (r ≡ dane_available)
unfolding is_result
is_result-dane_available r = (λ h. ground arith, λ h. ground arith)

count_usable-any :
    (records : List TlsaRecord) → (count_usable records ≡ 0) ↔ (any is_usable records ≡ false)
unfolding count_usable
count_usable-any [] = (λ h. refl, λ h. refl)
count_usable-any (r ∷ records) =
    let rest = count_usable-any records in
    (λ h. ground (arith, rest.0), λ h. ground (arith, rest.1))

count_result_le :
    (wanted : DaneResult) (hosts : List HostResult) → count_result wanted hosts ≤ length hosts
unfolding count_result
count_result_le wanted [] = omega arith
count_result_le wanted (h ∷ hosts) = ground (arith, count_result_le wanted hosts)

-- All the hosts are available exactly if as many are as there are.
count_result-All :
    (hosts : List HostResult)
    → (count_result dane_available hosts ≡ length hosts)
      ↔ All (λ (h : HostResult). h.result ≡ dane_available) hosts
unfolding count_result
count_result-All [] = (λ h. tt, λ h. refl)
count_result-All (x ∷ hosts) =
    let rest = count_result-All hosts in
    let few = count_result_le dane_available hosts in
    let here = is_result-dane_available x.result in
    elim (Bool-cases (is_result dane_available x.result)) [
      | inl e ↦ (
        λ h. (here.0 e, rest.0 (ground (arith, e))),
        λ h. let below = rest.1 h.1 in ground (arith, e, below),
      )
      | inr e ↦ (
        λ h. absurd (ground (arith, e, few)),
        λ h. absurd (let yes' = here.1 h.0 in ground (arith, e, yes')),
      )
    ]

judge_hosts-available :
    (hosts : List HostResult)
    → ((judge_hosts hosts).0 ≡ dane_available) ↔ (count_result dane_available hosts ≡ length hosts)
unfolding judge_hosts
judge_hosts-available hosts = (λ h. ground arith, λ h. ground arith)

module _ (resolver : Resolver) (lookup_tlsa : Bytes → ℤ → TlsaAnswer) where
  -- A mail host is available exactly if there is a resolver, the query for its TLSA records found
  -- some without an error, the answer was validated by DNSSEC, and a record has a usage for SMTP.
  pub check_dane-available :
      (host : Bytes) (port : ℤ)
      → ((check_dane resolver lookup_tlsa host port).result ≡ dane_available) ↔ (
          (resolver.enabled ≡ true)
          × (Text.is_empty (lookup_tlsa host (mail_port port)).error ≡ true)
          × ((lookup_tlsa host (mail_port port)).found ≡ true)
          × ((lookup_tlsa host (mail_port port)).secure ≡ true)
          × (any is_usable (lookup_tlsa host (mail_port port)).records ≡ true))
  unfolding check_dane judge_answer
  check_dane-available host port =
      let usable = count_usable-any (lookup_tlsa host (mail_port port)).records in
      (λ h. ground (arith, usable.1), λ h. ground (arith, usable.0))

  -- Discovery alone never comes to a pass.
  pub check_dane-pass :
      (host : Bytes) (port : ℤ) → (check_dane resolver lookup_tlsa host port).result ≢ dane_pass
  unfolding check_dane judge_answer
  check_dane-pass host port h = ground arith

  All-map :
      (P : HostResult → Type 0) (f : Bytes → HostResult) (hosts : List Bytes)
      → All P (map f hosts) ↔ All (λ h. P (f h)) hosts
  All-map P f [] = (λ h. h, λ h. h)
  All-map P f (x ∷ hosts) =
      let rest = All-map P f hosts in (λ h. (h.0, rest.0 h.1), λ h. (h.0, rest.1 h.1))

  -- A domain is available exactly if there is a resolver and the domain has mail hosts, all of which
  -- are available at port 25.
  pub check_dane_domain-available :
      (domain : Bytes)
      → ((check_dane_domain resolver lookup_tlsa domain).result ≡ dane_available) ↔ (
          (resolver.enabled ≡ true)
          × (resolver.lookup_mx domain ≢ [])
          × All
              (λ host. (check_dane resolver lookup_tlsa host (pos 25)).result ≡ dane_available)
              (resolver.lookup_mx domain))
  unfolding check_dane_domain
  check_dane_domain-available domain =
      let hosts = resolver.lookup_mx domain in
      let found = check_hosts resolver lookup_tlsa hosts in
      let judged = judge_hosts-available found in
      let counted = count_result-All found in
      let each =
        All-map (λ r. r.result ≡ dane_available)
          (λ host. check_dane resolver lookup_tlsa host (pos 25)) hosts in
      (
        λ h. (ground arith, λ e. ground (arith, e), each.0 (counted.0 (judged.0 (ground arith)))),
        λ h. let good = judged.1 (counted.1 (each.1 h.2)) in ground (arith, good, h.0, h.1),
      )
