-- ===== src/Delivery/Policy/Hosting.antt =====
-- `unsupportedDeliveryAction` of cmd/mailscript/delivery.go, against a description without its loops.
use mailscript.Base.{
  any, All, ◌≡◌, refl, ◌⊎◌, inl, Bool, true, false, not, ◌&&◌, ◌||◌, Option, none, some, List, [],
  ◌∷◌, arith,
}
use mailscript.Text
use mailscript.Text.{Bytes, codes}
use mailscript.Delivery.Policy.{host_prefixes, host_action, unsupported_delivery_action}

-- An action that this process cannot carry out.
abbrev pub needs_host : Bytes → Bool
needs_host action =
    any (λ prefix. Text.has_prefix prefix action) host_prefixes
      && not (Text.eq action (codes "fileinto:Spam"))
    || Text.eq action (codes "add_to_digest")

abbrev is_named : Option Bytes → Bool
is_named none = false
is_named (some name) = not (Text.is_empty name)

abbrev IsNamed : Bytes → Type 0
IsNamed prefix = Text.is_empty (Text.trim_suffix (codes ":") prefix) ≡ false

host_action-is_named :
    (prefixes : List Bytes) (a : Bytes)
    → All IsNamed prefixes
    → is_named (host_action prefixes a)
        ≡ (any (λ p. Text.has_prefix p a) prefixes && not (Text.eq a (codes "fileinto:Spam")))
      × ((host_action prefixes a ≡ none) ⊎ (is_named (host_action prefixes a) ≡ true))
unfolding host_action
host_action-is_named [] a h = (refl, inl refl)
host_action-is_named (p ∷ ps) a h = ground (arith, host_action-is_named ps a h.1)

host_prefixes-IsNamed : All IsNamed host_prefixes
unfolding codes Text.trim_suffix
host_prefixes-IsNamed =
    (refl, (refl, (refl, (refl, (refl, (refl, (refl, (refl, (refl, (refl, tt))))))))))

digest-ne-nil : (a : Bytes) → Text.eq a (codes "add_to_digest") ≡ true → Text.is_empty a ≡ false
unfolding codes Text.eq
digest-ne-nil [] h = cc
digest-ne-nil (c ∷ a) h = refl

-- An action is reported exactly if some action of the list needs a host: one of the prefixes, but
-- for fileinto:Spam, or add_to_digest.
pub unsupported_delivery_action_exact :
    (actions : List Bytes)
    → Text.is_empty (unsupported_delivery_action actions) ≡ not (any needs_host actions)
unfolding unsupported_delivery_action
unsupported_delivery_action_exact [] = refl
unsupported_delivery_action_exact (a ∷ actions) = ground (
  arith,
  host_action-is_named host_prefixes a host_prefixes-IsNamed,
  digest-ne-nil a,
  unsupported_delivery_action_exact actions,
)
