-- ===== src/Examples/Configs.antt =====
-- The theorem on validation, applied to a concrete configuration.
use osdns.Prelude.{true, false, none, some, [], ◌∷◌}
use osdns.Error.{BackendKind}
use osdns.Platform.{v4, global}
use osdns.Config.{Capabilities, DnsConfig, validate_against}
use osdns.Config.Validated.{Verdict, is_represented, validate_against-Verdict}

-- A backend with global DNS only.
abbrev pub plain_caps : Capabilities
plain_caps = record {
  backend = BackendKind.resolv_conf_file;
  global_dns = true;
  per_interface_dns = false;
  search_domains = true;
  split_dns = false;
  default_route = false;
}

abbrev routed : DnsConfig
routed = record {
  scope = global;
  nameservers = v4 (9 ∷ 9 ∷ 9 ∷ 9 ∷ []) ∷ [];
  search_domains = [];
  routing_domains = [];
  default_route = some true;
}

abbrev pub static : DnsConfig
static = record routed { default_route = none }

validate_against-Verdict_example :
    Verdict routed plain_caps
      (is_represented routed plain_caps)
      (validate_against routed plain_caps)
validate_against-Verdict_example = validate_against-Verdict routed plain_caps
