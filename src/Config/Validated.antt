-- ===== src/Config/Validated.antt =====
-- When `validate_against` accepts a configuration.
use osdns.Prelude.{◌≡◌, Bool, true, false, not, ◌&&◌, ◌||◌, arith}
use osdns.Error.{Fallible, ok, err, unsupported}
use osdns.Platform.{DnsScope, global, interface, NormalizedConfig}
use osdns.Config.{Capabilities, DnsConfig, is_empty, is_given, validate_against}

abbrev scope_represented : DnsConfig → Capabilities → DnsScope → Bool
scope_represented config caps global = caps.global_dns
scope_represented config caps (interface selector) =
    caps.per_interface_dns && (is_empty config.routing_domains || caps.split_dns)

-- Each thing that the configuration asks for is among the capabilities.
abbrev pub is_represented : DnsConfig → Capabilities → Bool
is_represented config caps =
    scope_represented config caps config.scope
    && (is_empty config.search_domains || caps.search_domains)
    && (not (is_given config.default_route) || caps.default_route)

-- The verdict, with the plan that holds the configuration's own fields.
abbrev pub Verdict : DnsConfig → Capabilities → Bool → Fallible NormalizedConfig → Type 0
Verdict config caps true (ok plan) =
    (plan.nameservers ≡ config.nameservers)
    × (plan.search_domains ≡ config.search_domains)
    × (plan.routing_domains ≡ config.routing_domains)
    × (plan.default_route ≡ config.default_route)
Verdict config caps false (err e) = e ≡ unsupported caps.backend
Verdict config caps _ _ = true ≡ false

-- `validate_against` accepts a configuration exactly when everything it asks for is among the
-- backend's capabilities: the scope, routing domains on an interface, search domains and an
-- explicit default route. The plan then has the configuration's own fields, and a refusal is
-- `Unsupported` for that backend.
pub validate_against-Verdict :
    (config : DnsConfig) (caps : Capabilities)
    → Verdict config caps (is_represented config caps) (validate_against config caps)
unfolding validate_against
validate_against-Verdict config caps = ground arith
