-- ===== src/Spf/Types.antt =====
-- The results, limits and errors of pkg/authverify/spf.go, and what it asks of a resolver.
use mailscript.Base.{ltb, if◌then◌else◌, Result, ok, err, ℕ, ◌+◌, Bool, Option, none, some, List}
use mailscript.Text.{Bytes}

-- The Go strings none, neutral, pass, fail, softfail, temperror and permerror.
pub data SpfResult : Type 0 where
  spf_none spf_neutral spf_pass spf_fail spf_softfail spf_temperror spf_permerror : SpfResult

abbrev pub max_spf_lookups : ℕ
max_spf_lookups = 10

abbrev pub max_spf_void_lookups : ℕ
max_spf_void_lookups = 2

abbrev pub max_spf_redirects : ℕ
max_spf_redirects = 10

abbrev pub max_spf_record_size : ℕ
max_spf_record_size = 4096

-- The messages of the errors, with what they name.
pub data Reason : Type 0 where
  not_spf1 lookup_limit void_limit record_too_large redirect_limit too_many_mx_hosts : Reason
  no_address empty_include empty_exists trailing_percent unterminated_macro empty_macro : Reason
  bad_escape : ℕ → Reason
  unsupported_macro unknown_mechanism bad_cidr bad_address no_record : Bytes → Reason
  include_temperror include_none include_permerror redirect_none : Bytes → Reason
  several_records : ℕ → Reason
  included : Bytes → Reason → Reason

-- spfError
pub record SpfError : Type 0 where
  pub result : SpfResult
  pub reason : Reason

-- What the evaluation asks of DNS: the lookups of pkg/dnsx, as the answers of one moment. LookupPTR
-- is asked for the text of an address, here for the address.
pub record Resolver : Type 0 where
  pub enabled : Bool
  pub lookup_txt : Bytes → List Bytes
  pub lookup_host : Bytes → List Bytes
  pub lookup_mx : Bytes → List Bytes
  pub lookup_ptr : ℕ → List Bytes

-- The fields of spfEvaluator that do not change.
pub record Evaluator : Type 0 where
  pub resolver : Resolver
  pub ip : ℕ
  pub sender : Bytes
  pub helo : Bytes

-- The counters of spfEvaluator.
pub record Counters : Type 0 where
  pub lookups : ℕ
  pub void_lookups : ℕ
  pub redirects : ℕ

-- A step of the evaluation: it changes the counters, and returns a value or an error; or it runs out
-- of the fuel that bounds how deep records include one another.
abbrev pub Eval {ℓ} : Type ℓ → Type ℓ
Eval A = Counters → Option (Result SpfError A × Counters)

module _ {ℓ} {A : Type ℓ} where
  abbrev pub pure : A → Eval A
  pure a c = some (ok a, c)

  abbrev pub fail_with : SpfResult → Reason → Eval A
  fail_with result reason c = some (err (record { result = result; reason = reason }), c)

  -- An error of the macro language, which leaves the counters alone.
  abbrev pub lift : Result Reason A → Eval A
  lift (ok a) c = some (ok a, c)
  lift (err reason) c = some (err (record { result = spf_permerror; reason = reason }), c)

module _ {ℓ} {A B : Type ℓ} where
  abbrev pub continue :
      Option (Result SpfError A × Counters) → (A → Eval B) → Option (Result SpfError B × Counters)
  continue none f = none
  continue (some (ok a, c)) f = f a c
  continue (some (err e, c)) f = some (err e, c)

  infixl 5 ◌>>=◌ ◌>>◌
  abbrev pub ◌>>=◌ : Eval A → (A → Eval B) → Eval B
  ◌>>=◌ m f c = continue (m c) f

  abbrev pub ◌>>◌ : Eval A → Eval B → Eval B
  m >> n = m >>= λ _. n

-- One more term that asks DNS.
unfoldable pub spend : Eval {0} Unit
spend c =
    let c' = record c { lookups = c.lookups + 1 } in
    if ltb max_spf_lookups c'.lookups then fail_with spf_permerror lookup_limit c' else pure tt c'

unfoldable pub count_void : Eval {0} Unit
count_void c =
    let c' = record c { void_lookups = c.void_lookups + 1 } in
    if ltb max_spf_void_lookups c'.void_lookups
    then fail_with spf_permerror void_limit c'
    else pure tt c'

-- What `check` returns: the verdict, the term that made it, the record, and the error.
pub record Check : Type 0 where
  pub result : SpfResult
  pub mechanism : Bytes
  pub spf_record : Bytes
  pub error : Option SpfError
