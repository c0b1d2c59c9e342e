-- ===== src/Config/Build.antt =====
-- config.rs: `DnsConfigBuilder::build`. The parser of a domain (normalize.rs) is an argument.
pub mod Built
use osdns.Prelude.{
  ℕ, Bool, true, false, Option, none, some, List, [], ◌∷◌, ◌++◌, not, ◌&&◌, ◌||◌, if◌then◌else◌,
  ◌==◌,
}
use osdns.Text.{Text}
use osdns.Error.{Fallible, Result, ok, err, invalid_config, ◌>>=◌}
use osdns.Platform.{IpAddr, v4, v6, ip_eq, DnsSuffix, suffix_eq, DnsScope, global, interface}
use osdns.Config.{DnsConfig, is_empty, is_given}

pub record DnsConfigBuilder : Type 0 where
  pub scope : DnsScope
  pub nameservers : List IpAddr
  pub search_domains : List Text
  pub routing_domains : List Text
  pub default_route : Option Bool

abbrev all_zero : List ℕ → Bool
all_zero [] = true
all_zero (x ∷ xs) = x == 0 && all_zero xs

-- `0.0.0.0` and `::`.
abbrev pub is_unspecified : IpAddr → Bool
is_unspecified (v4 octets) = all_zero octets
is_unspecified (v6 octets) = all_zero octets

-- `contains`, by the derived `==`.
abbrev pub has_item {ℓ} : {A : Type ℓ} → (A → A → Bool) → List A → A → Bool
has_item eq [] x = false
has_item eq (y ∷ ys) x = eq y x || has_item eq ys x

abbrev pub push_item {ℓ} : {A : Type ℓ} → (A → A → Bool) → A → List A → List A
push_item eq x xs = if has_item eq xs x then xs else xs ++ x ∷ []

collect_nameservers : List IpAddr → List IpAddr → Fallible (List IpAddr)
collect_nameservers [] found = ok found
collect_nameservers (ip ∷ ips) found =
    let rest = collect_nameservers ips (push_item ip_eq ip found) in
    if is_unspecified ip then err invalid_config else rest

collect_domains :
    (Text → Fallible DnsSuffix) → List Text → List DnsSuffix → Fallible (List DnsSuffix)
collect_domains parse [] found = ok found
collect_domains parse (t ∷ ts) found =
    parse t >>= λ d. collect_domains parse ts (push_item suffix_eq d found)

abbrev check_global : DnsScope → List DnsSuffix → Option Bool → Fallible (Unit {0})
check_global global routing default_route =
    if not (is_empty routing)
    then err invalid_config
    else if is_given default_route
    then err invalid_config
    else ok tt
check_global (interface selector) routing default_route = ok tt

pub build : (Text → Fallible DnsSuffix) → DnsConfigBuilder → Fallible DnsConfig
build parse builder = collect_nameservers builder.nameservers [] >>= λ servers.
    collect_domains parse builder.search_domains [] >>= λ search_domains.
    collect_domains parse builder.routing_domains [] >>= λ routing_domains.
    check_global builder.scope routing_domains builder.default_route >>= λ _. ok (record {
      scope = builder.scope;
      nameservers = servers;
      search_domains = search_domains;
      routing_domains = routing_domains;
      default_route = builder.default_route;
    })
