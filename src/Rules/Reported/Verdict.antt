-- ===== src/Rules/Reported/Verdict.antt =====
-- `parseAuthResults`, `parseReceivedSPF`, `SPFAligned`, `DKIMAligned`, `DMARCPass` and `domainsAlign` of
-- pkg/rules/auth.go, with `RegisteredDomain` of pkg/rules/domain.go. The public suffix list is a
-- parameter.
use mailscript.Base.{
  ◌==◌, if◌then◌else◌, any, ℕ, Bool, true, false, not, ◌&&◌, ◌||◌, Option, none, some, List, [],
  ◌∷◌, ◌++◌, ◌>>=◌,
}
use mailscript.Text
use mailscript.Text.{Bytes, codes}
use mailscript.Dmarc.Record.{normal_domain}
use mailscript.Rules.Context.{Context, get, get_all}
use mailscript.Rules.Address.{MailParser, domain_of}
use mailscript.Rules.Reported.Tokens.{split_kv, domain_part}
use mailscript.Rules.Reported.{AuthResults, no_results, read_headers, read_signatures, is_one_of}

abbrev semicolon : ℕ → Bool
semicolon c = c == b';'

abbrev is_bracket : ℕ → Bool
is_bracket c = c == b'<' || c == b'>' || c == b'"'

abbrev spf_words : List Bytes
spf_words =
    codes "pass"
    ∷ codes "fail"
    ∷ codes "softfail"
    ∷ codes "neutral"
    ∷ codes "none"
    ∷ codes "temperror"
    ∷ codes "permerror"
    ∷ []

abbrev is_identity : Bytes → Bool
is_identity k =
    Text.equal_fold k (codes "envelope-from") || Text.equal_fold k (codes "smtp.mailfrom")

-- The domain of the last property that names one.
unfoldable pub received_domain : List Bytes → Bytes → Bytes
unfolding split_kv domain_part Text.trim
received_domain [] domain = domain
received_domain (f ∷ fs) domain =
    let (k, v) = split_kv (Text.trim semicolon f) in
    received_domain fs
      (if is_identity k then Text.to_lower (domain_part (Text.trim is_bracket v)) else domain)

-- `none` where the result is empty
unfoldable pub parse_received_spf : Bytes → Option (Bytes × Bytes)
unfolding received_domain Text.trim
parse_received_spf header = elim (Text.fields (Text.trim_space header)) [
  | [] ↦ none
  | ◌∷◌ f fs ↦
      let result = Text.to_lower (Text.trim semicolon f) in
      if is_one_of spf_words result then some (result, received_domain fs []) else none
]

unfoldable pub first_received : List Bytes → Option (Bytes × Bytes)
unfolding parse_received_spf
first_received [] = none
first_received (h ∷ hs) = elim (parse_received_spf h) [
  | some found ↦ some found
  | none ↦ first_received hs
]

abbrev pub set_received : Option (Bytes × Bytes) → AuthResults → AuthResults
set_received none ar = ar
set_received (some (result, domain)) ar = record ar {
  spf = result;
  spf_domain = if Text.is_empty ar.spf_domain then domain else ar.spf_domain;
}

-- Received-SPF counts only where no other field reported SPF.
unfoldable pub read_received : List Bytes → AuthResults → AuthResults
unfolding first_received
read_received hs ar = if Text.is_empty ar.spf then set_received (first_received hs) ar else ar

-- m.TrustedAuthServs is the first argument.
unfoldable pub parse_auth_results : List Bytes → Context → Option AuthResults
unfolding read_received read_headers read_signatures get_all
parse_auth_results trusted m = do
  signatures ← get_all (codes "DKIM-Signature") m
  reported ← get_all (codes "Authentication-Results") m
  sealed ← get_all (codes "ARC-Authentication-Results") m
  extra ← get_all (codes "X-Authentication-Results") m
  received ← get_all (codes "Received-SPF") m
  some (
      read_received received (
        read_headers trusted ((reported ++ sealed) ++ extra)
          (read_signatures signatures no_results)))

module _ (etld_plus_one : Bytes → Option Bytes) where
  unfoldable pub registered_domain : Bytes → Bytes
  unfolding normal_domain
  registered_domain host =
      let name = normal_domain host in
      if Text.is_empty name then [] else elim (etld_plus_one name) [ none ↦ name | some d ↦ d ]

  unfoldable pub same_org_domain : Bytes → Bytes → Bool
  unfolding registered_domain
  same_org_domain a b =
      not (Text.is_empty (registered_domain a))
      && Text.eq (registered_domain a) (registered_domain b)

  abbrev lower_name : Bytes → Bytes
  lower_name a = Text.to_lower (Text.trim_suffix (codes ".") a)

  unfoldable pub domains_align : Bytes → Bytes → Bool → Bool
  unfolding registered_domain
  domains_align left right strict =
      let a = lower_name left in
      let b = lower_name right in
      if Text.is_empty a || Text.is_empty b
      then false
      else if Text.eq a b
      then true
      else if strict
      then false
      else Text.eq (registered_domain a) (registered_domain b)

  unfoldable pub spf_aligned : AuthResults → Bytes → Bool → Bool
  unfolding domains_align
  spf_aligned ar from strict =
      if not (Text.eq ar.spf (codes "pass")) || Text.is_empty ar.spf_domain
      then false
      else domains_align ar.spf_domain from strict

  unfoldable pub dkim_aligned : AuthResults → Bytes → Bool → Bool
  unfolding domains_align
  dkim_aligned ar from strict =
      if not (Text.eq ar.dkim (codes "pass"))
      then false
      else any (λ d. domains_align d from strict) ar.dkim_domains

  unfoldable pub dmarc_verdict : AuthResults → Bytes → Bool
  unfolding spf_aligned dkim_aligned
  dmarc_verdict ar from =
      if Text.eq ar.dmarc (codes "pass")
      then true
      else if Text.eq ar.dmarc (codes "fail")
      then false
      else spf_aligned ar from false || dkim_aligned ar from false

  -- DMARCPass, of a message with those trusted servers
  unfoldable pub dmarc_pass : MailParser → List Bytes → Context → Option Bool
  unfolding parse_auth_results dmarc_verdict get domain_of
  dmarc_pass parser trusted m = do
    ar ← parse_auth_results trusted m
    from ← get (codes "From") m
    some (dmarc_verdict ar (domain_of parser from))
