-- ===== src/Dmarc/Alignment.antt =====
-- `domainsAlign` of pkg/authverify/dmarc.go.
use mailscript.Base.{
  if◌then◌else◌, ◌≡◌, refl, ◌↔◌, Bool, true, false, ◌||◌, Option, none, some, arith,
}
use mailscript.Text
use mailscript.Text.{Bytes, codes}
use mailscript.Text.Laws.{eq_comm, eq_iff}
use mailscript.Dmarc.Record.{normal_domain}

-- orgA == orgB, if both are known
unfoldable pub same_organization : Option Bytes → Option Bytes → Bool
same_organization (some a) (some b) = Text.eq a b
same_organization _ _ = false

module _ (etld_plus_one : Bytes → Option Bytes) where
  unfoldable pub domains_align : Bytes → Bytes → Bool → Bool
  domains_align left right strict =
      let a = normal_domain left in
      let b = normal_domain right in
      if Text.is_empty a || Text.is_empty b
      then false
      else if Text.eq a b
      then true
      else if strict
      then false
      else same_organization (etld_plus_one a) (etld_plus_one b)

  same_organization_comm : (o p : Option Bytes) → same_organization o p ≡ same_organization p o
  unfolding same_organization
  same_organization_comm none none = refl
  same_organization_comm none (some b) = refl
  same_organization_comm (some a) none = refl
  same_organization_comm (some a) (some b) = eq_comm a b

  -- Alignment does not depend on the order of the domains.
  pub domains_align_comm :
      (a b : Bytes) (strict : Bool) → domains_align a b strict ≡ domains_align b a strict
  unfolding domains_align
  domains_align_comm a b strict = ground (
    arith,
    eq_comm (normal_domain a) (normal_domain b),
    same_organization_comm (etld_plus_one (normal_domain a)) (etld_plus_one (normal_domain b)),
  )

  -- Strict alignment holds exactly of two names that are the same name, up to case, white space
  -- and a final dot, and it implies relaxed alignment.
  pub domains_align_strict :
      (a b : Bytes)
      → ((domains_align a b true ≡ true)
          ↔ ((normal_domain a ≡ normal_domain b) × (Text.is_empty (normal_domain a) ≡ false)))
        × (domains_align a b true ≡ true → domains_align a b false ≡ true)
  unfolding domains_align
  domains_align_strict a b = (
    (
      λ h. ground (arith, eq_iff (normal_domain a) (normal_domain b)),
      λ h. ground (arith, eq_iff (normal_domain a) (normal_domain b)),
    ),
    λ h. ground arith,
  )
