-- ===== src/Spf/Mechanisms.antt =====
-- `matchIPMechanism`, `mechanismTarget`, `anyAddressMatches` and `evaluateMechanism` of
-- pkg/authverify/spf.go.
pub mod Counting
pub mod Include
use mailscript.Base.{
  ltb, leb, ◌==◌, if◌then◌else◌, length, take, drop, any, Result, ok, ℤ, pos, ℕ, ◌+◌, Bool, true,
  false, not, ◌&&◌, ◌||◌, Option, none, some, List, [], ◌∷◌,
}
use mailscript.Text
use mailscript.Text.{Bytes, codes}
use mailscript.Net.{Network, is_v4, parse_ip, masked, contains, parse_cidr}
use mailscript.Spf.Types.{
  SpfError, SpfResult, spf_none, spf_pass, spf_temperror, spf_permerror, no_address, bad_cidr,
  bad_address, too_many_mx_hosts, empty_include, empty_exists, include_temperror, include_none,
  include_permerror, included, unknown_mechanism, Evaluator, Counters, Eval, pure, fail_with, lift,
  ◌>>=◌, ◌>>◌, spend, count_void, Check,
}
use mailscript.Spf.Macros.{expand_domain_spec}

-- addr.Equal(e.ip), for what net.ParseIP made of a text
abbrev ip_equal : Option ℕ → ℕ → Bool
ip_equal none ip = false
ip_equal (some a) ip = a == ip

abbrev pub match_cidr : Evaluator → Bytes → Option Network → Eval Bool
match_cidr e value none = fail_with spf_permerror (bad_cidr value)
match_cidr e value (some network) = pure (contains network e.ip)

abbrev pub match_address : Evaluator → Bytes → Option ℕ → Eval Bool
match_address e value none = fail_with spf_permerror (bad_address value)
match_address e value (some addr) = pure (addr == e.ip)

unfoldable pub match_ip_mechanism : Evaluator → Bytes → Bytes → Eval Bool
match_ip_mechanism e name value =
    if Text.is_empty value
    then fail_with spf_permerror no_address
    else if not (Text.eq name (codes "ip4")) && is_v4 e.ip
        || Text.eq name (codes "ip4") && not (is_v4 e.ip)
    then pure false
    else if any (λ c. c == b'/') value
    then match_cidr e value (parse_cidr value)
    else match_address e value (parse_ip value)

-- The digits that Sscanf takes for %d, behind its sign; what follows them is not read.
unfoldable pub digits_of : Bytes → Bytes
digits_of [] = []
digits_of (c ∷ s) = let rest = digits_of s in if Text.is_digit c then c ∷ rest else []

unfoldable pub scan_int : Bytes → Option ℤ
scan_int [] = none
scan_int (c ∷ s) =
    if c == b'+' || c == b'-' then Text.atoi (c ∷ digits_of s) else Text.atoi (digits_of (c ∷ s))

-- A prefix length that is not given or out of range is the widest one.
unfoldable pub prefix_length : ℕ → Option ℤ → ℕ
prefix_length bound (some (pos n)) = if leb n bound then n else bound
prefix_length bound _ = bound

pub record Target : Type 0 where
  pub domain : Bytes
  pub v4_len : ℕ
  pub v6_len : ℕ

abbrev before : Option ℕ → Bytes → Bytes
before none s = s
before (some i) s = take i s

abbrev length_behind : ℕ → ℕ → Option ℕ → Bytes → ℕ
length_behind bound width none s = bound
length_behind bound width (some i) s = prefix_length bound (scan_int (drop (i + width) s))

-- The form is [domain][/v4len][//v6len].
unfoldable pub mechanism_target : Evaluator → Bytes → Bytes → Eval Target
mechanism_target e value domain =
    let rest = before (Text.index (codes "//") value) value in
    let v6_len = length_behind 128 2 (Text.index (codes "//") value) value in
    let v4_len = length_behind 32 1 (Text.index_byte b'/' rest) rest in
    let name = Text.trim_space (before (Text.index_byte b'/' rest) rest) in
    if Text.is_empty value
    then pure (record { domain = domain; v4_len = 32; v6_len = 128 })
    else if Text.is_empty name
    then pure (record { domain = domain; v4_len = v4_len; v6_len = v6_len })
    else do
      target ← lift (expand_domain_spec e name domain)
      pure (record { domain = Text.to_lower target; v4_len = v4_len; v6_len = v6_len })

abbrev address_matches : Evaluator → ℕ → ℕ → Option ℕ → Bool
address_matches e v4_len v6_len none = false
address_matches e v4_len v6_len (some addr) =
    if is_v4 addr
    then is_v4 e.ip && contains (masked addr (96 + v4_len)) e.ip
    else not (is_v4 e.ip) && contains (masked addr v6_len) e.ip

unfoldable pub any_address_matches : Evaluator → List Bytes → Target → Bool
any_address_matches e addrs t =
    any (λ addr. address_matches e t.v4_len t.v6_len (parse_ip addr)) addrs

abbrev pub void_if_empty {ℓ} : {A : Type ℓ} → List A → Eval {0} Unit
void_if_empty [] = count_void
void_if_empty (_ ∷ _) = pure tt

unfoldable pub match_a : Evaluator → Bytes → Bytes → Eval Bool
match_a e value domain = do
  spend
  target ← mechanism_target e value domain
  let addrs = e.resolver.lookup_host target.domain
  void_if_empty addrs
  pure (any_address_matches e addrs target)

unfoldable pub match_mx : Evaluator → Bytes → Bytes → Eval Bool
match_mx e value domain = do
  spend
  target ← mechanism_target e value domain
  let hosts = e.resolver.lookup_mx target.domain
  void_if_empty hosts
  if ltb 10 (length hosts)
      then fail_with spf_permerror too_many_mx_hosts
      else pure (any (λ host. any_address_matches e (e.resolver.lookup_host host) target) hosts)

-- What the record of an included domain means for the one that includes it.
unfoldable pub include_verdict : Bytes → SpfResult → Option SpfError → Eval Bool
include_verdict target spf_pass error = pure true
include_verdict target spf_temperror error = fail_with spf_temperror (include_temperror target)
include_verdict target spf_none error = fail_with spf_permerror (include_none target)
include_verdict target spf_permerror none = fail_with spf_permerror (include_permerror target)
include_verdict target spf_permerror (some e) = fail_with spf_permerror (included target e.reason)
include_verdict target _ error = pure false

-- Another record is evaluated, whatever its verdict.
abbrev pub called : Option (Check × Counters) → Option (Result SpfError Check × Counters)
called none = none
called (some (r, c)) = some (ok r, c)

abbrev pub call : (Counters → Option (Check × Counters)) → Eval Check
call m c = called (m c)

unfoldable pub match_include :
    (Bytes → Counters → Option (Check × Counters)) → Evaluator → Bytes → Bytes → Eval Bool
match_include nested e value domain = do
  spend
  expanded ← lift (expand_domain_spec e value domain)
  let target = Text.to_lower (Text.trim_space expanded)
  if Text.is_empty target
      then fail_with spf_permerror empty_include
      else do r ← call (nested target); include_verdict target r.result r.error

unfoldable pub match_exists : Evaluator → Bytes → Bytes → Eval Bool
match_exists e value domain = do
  spend
  expanded ← lift (expand_domain_spec e value domain)
  let target = Text.to_lower (Text.trim_space expanded)
  if Text.is_empty target then fail_with spf_permerror empty_exists else do
    let addrs = e.resolver.lookup_host target
    void_if_empty addrs
    pure (ltb 0 (length addrs))

abbrev or_domain : Bytes → Bytes → Bytes
or_domain [] domain = domain
or_domain (c ∷ target) domain = c ∷ target

-- A name of the client that lies in the target, and that leads back to the client.
unfoldable pub confirms : Evaluator → Bytes → Bytes → Bool
confirms e target name =
    (Text.eq name target || Text.has_suffix (b'.' ∷ target) name)
    && any (λ addr. ip_equal (parse_ip addr) e.ip) (e.resolver.lookup_host name)

unfoldable pub match_ptr : Evaluator → Bytes → Bytes → Eval Bool
match_ptr e value domain = do
  spend
  let target = or_domain (Text.to_lower (Text.trim_space value)) domain
  pure (
      any (λ name. confirms e target (Text.trim_suffix (codes ".") (Text.to_lower name)))
        (e.resolver.lookup_ptr e.ip))

unfoldable pub evaluate_mechanism :
    (Bytes → Counters → Option (Check × Counters))
    → Evaluator
    → Bytes
    → Bytes
    → Bytes
    → Bytes
    → Eval Bool
evaluate_mechanism nested e name value body domain =
    if Text.eq name (codes "all")
    then pure true
    else if Text.eq name (codes "ip4") || Text.eq name (codes "ip6")
    then match_ip_mechanism e name value
    else if Text.eq name (codes "a")
    then match_a e value domain
    else if Text.eq name (codes "mx")
    then match_mx e value domain
    else if Text.eq name (codes "include")
    then match_include nested e value domain
    else if Text.eq name (codes "exists")
    then match_exists e value domain
    else if Text.eq name (codes "ptr")
    then match_ptr e value domain
    else fail_with spf_permerror (unknown_mechanism body)
