-- ===== src/Platform.antt =====
-- platform/mod.rs: snapshots, identities, mutation outcomes, and the pure part of the `Backend`
-- trait. `D` is the backend's snapshot payload and `I` its identity payload.
pub mod Bound
use osdns.Prelude.{ℕ, ◌≡◌, refl, ap, Bool, true, false, ◌&&◌, Option, none, some, List, arith}
use osdns.Text.{Text, text_eq, text_eq_refl, text_eq_eq, list_eq, list_eq_refl}
use osdns.Error.{BackendKind, ResourceId, Error}

-- std::net::IpAddr by its octets.
pub data IpAddr : Type 0 where
  v4 v6 : List ℕ → IpAddr

-- normalize.rs: `DnsSuffix(String)` and `NormalizedConfig`.
pub record DnsSuffix : Type 0 where
  pub name : Text

pub record NormalizedConfig : Type 0 where
  pub nameservers : List IpAddr
  pub search_domains : List DnsSuffix
  pub routing_domains : List DnsSuffix
  pub default_route : Option Bool

-- config.rs
pub data InterfaceSelector : Type 0 where
  default_interface : InterfaceSelector
  by_index : ℕ → InterfaceSelector
  by_name : Text → InterfaceSelector

pub data DnsScope : Type 0 where
  global : DnsScope
  interface : InterfaceSelector → DnsScope

-- The derived `==` of these types.
unfoldable pub ip_eq : IpAddr → IpAddr → Bool
ip_eq (v4 a) (v4 b) = text_eq a b
ip_eq (v6 a) (v6 b) = text_eq a b
ip_eq _ _ = false

unfoldable pub suffix_eq : DnsSuffix → DnsSuffix → Bool
suffix_eq d e = text_eq d.name e.name

unfoldable pub option_bool_eq : Option Bool → Option Bool → Bool
option_bool_eq none none = true
option_bool_eq (some true) (some true) = true
option_bool_eq (some false) (some false) = true
option_bool_eq _ _ = false

unfoldable pub plan_eq : NormalizedConfig → NormalizedConfig → Bool
unfolding option_bool_eq
plan_eq p q =
    list_eq ip_eq p.nameservers q.nameservers
    && list_eq suffix_eq p.search_domains q.search_domains
    && list_eq suffix_eq p.routing_domains q.routing_domains
    && option_bool_eq p.default_route q.default_route

pub ip_eq_refl : (a : IpAddr) → ip_eq a a ≡ true
unfolding ip_eq
ip_eq_refl (v4 a) = text_eq_refl a
ip_eq_refl (v6 a) = text_eq_refl a

pub ip_eq_eq : (a b : IpAddr) → ip_eq a b ≡ true → a ≡ b
unfolding ip_eq
ip_eq_eq (v4 a) (v4 b) h = ap v4 (text_eq_eq a b h)
ip_eq_eq (v4 a) (v6 b) h = cc
ip_eq_eq (v6 a) (v4 b) h = cc
ip_eq_eq (v6 a) (v6 b) h = ap v6 (text_eq_eq a b h)

pub suffix_eq_refl : (d : DnsSuffix) → suffix_eq d d ≡ true
unfolding suffix_eq
suffix_eq_refl d = text_eq_refl d.name

pub suffix_eq_eq : (d e : DnsSuffix) → suffix_eq d e ≡ true → d ≡ e
unfolding suffix_eq
suffix_eq_eq d e h = λ i. record { name = text_eq_eq d.name e.name h i }

option_bool_eq_refl : (o : Option Bool) → option_bool_eq o o ≡ true
unfolding option_bool_eq
option_bool_eq_refl none = refl
option_bool_eq_refl (some true) = refl
option_bool_eq_refl (some false) = refl

pub plan_eq_refl : (p : NormalizedConfig) → plan_eq p p ≡ true
unfolding plan_eq
plan_eq_refl p = ground (
  arith,
  list_eq_refl ip_eq ip_eq_refl p.nameservers,
  list_eq_refl suffix_eq suffix_eq_refl p.search_domains,
  list_eq_refl suffix_eq suffix_eq_refl p.routing_domains,
  option_bool_eq_refl p.default_route,
)

pub record PlatformSnapshot (D : Type 0) : Type 0 where
  pub backend : BackendKind
  pub resource : ResourceId
  pub payload : D

pub record ResourceIdentity (I : Type 0) : Type 0 where
  pub backend : BackendKind
  pub resource : ResourceId
  pub payload : I

pub data ResourceStatus : Type 0 where
  same gone replaced ambiguous : ResourceStatus

abbrev pub is_same : ResourceStatus → Bool
is_same same = true
is_same _ = false

pub record BoundObservation (D I : Type 0) : Type 0 where
  pub identity : ResourceIdentity I
  pub snapshot : PlatformSnapshot D

-- `proof` is the snapshot inside an `OwnershipProof`.
pub record VerifiedMutation (D : Type 0) : Type 0 where
  pub proof : Option (PlatformSnapshot D)
  pub observed : PlatformSnapshot D

abbrev or_observed :
    {D : Type 0} → Option (PlatformSnapshot D) → PlatformSnapshot D → PlatformSnapshot D
or_observed none observed = observed
or_observed (some proof) observed = proof

abbrev pub persist : {D : Type 0} → VerifiedMutation D → PlatformSnapshot D
persist m = or_observed m.proof m.observed

pub data MutationAttempt (D : Type 0) : Type 0 where
  performed : Option (PlatformSnapshot D) → MutationAttempt D
  rejected : Error → MutationAttempt D
  indeterminate : Error → Option (PlatformSnapshot D) → MutationAttempt D

-- capability.rs
pub data OwnershipIdentity : Type 0 where
  durable best_effort : OwnershipIdentity

-- The members of the trait that only compare values, and what they depend on. Its effects are calls.
pub record Backend (D : Type 0) : Type 0 where
  pub kind : BackendKind
  pub ownership_identity : OwnershipIdentity
  pub equivalent : PlatformSnapshot D → PlatformSnapshot D → Bool
  pub proves_current : PlatformSnapshot D → PlatformSnapshot D → Bool
  pub matches_desired : PlatformSnapshot D → NormalizedConfig → Bool

-- The trait's default `owns_current`.
unfoldable pub owns_current :
    {D : Type 0} → Backend D → PlatformSnapshot D → PlatformSnapshot D → Bool
owns_current b claimed current = elim b.ownership_identity [
  | durable ↦ b.proves_current claimed current
  | best_effort ↦ b.equivalent claimed current
]
