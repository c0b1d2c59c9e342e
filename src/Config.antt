-- ===== src/Config.antt =====
-- config.rs: `validate_against`, with the capabilities of capability.rs that it reads.
pub mod Validated
pub mod Build
use osdns.Prelude.{Bool, true, false, Option, none, some, List, [], ◌∷◌, not, ◌&&◌, if◌then◌else◌}
use osdns.Error.{BackendKind, Fallible, ok, err, unsupported, Result, Error}
use osdns.Platform.{IpAddr, DnsSuffix, DnsScope, global, interface, NormalizedConfig}

pub record Capabilities : Type 0 where
  pub backend : BackendKind
  pub global_dns : Bool
  pub per_interface_dns : Bool
  pub search_domains : Bool
  pub split_dns : Bool
  pub default_route : Bool

pub record DnsConfig : Type 0 where
  pub scope : DnsScope
  pub nameservers : List IpAddr
  pub search_domains : List DnsSuffix
  pub routing_domains : List DnsSuffix
  pub default_route : Option Bool

abbrev pub is_empty {ℓ} : {A : Type ℓ} → List A → Bool
is_empty [] = true
is_empty (x ∷ xs) = false

abbrev pub is_given {ℓ} : {A : Type ℓ} → Option A → Bool
is_given none = false
is_given (some a) = true

abbrev check_scope : DnsConfig → Capabilities → DnsScope → Fallible (Unit {0})
check_scope config caps global = if caps.global_dns then ok tt else err (unsupported caps.backend)
check_scope config caps (interface selector) =
    if caps.per_interface_dns
    then (if not (is_empty config.routing_domains) && not caps.split_dns
        then err (unsupported caps.backend)
        else ok tt)
    else err (unsupported caps.backend)

abbrev check_domains : DnsConfig → Capabilities → Fallible NormalizedConfig
check_domains config caps =
    if not (is_empty config.search_domains) && not caps.search_domains
    then err (unsupported caps.backend)
    else if is_given config.default_route && not caps.default_route
    then err (unsupported caps.backend)
    else ok (record {
      nameservers = config.nameservers;
      search_domains = config.search_domains;
      routing_domains = config.routing_domains;
      default_route = config.default_route;
    })

pub validate_against : DnsConfig → Capabilities → Fallible NormalizedConfig
validate_against config caps = elim (check_scope config caps config.scope) [
  | err e ↦ err e
  | ok u ↦ check_domains config caps
]
