-- ===== src/TextConfig/Nameservers.antt =====
-- The name servers of systemd-resolved, there and back.
use osdns.Prelude.{◌≡◌, refl, Bool, true, some, List, [], ◌∷◌, ◌&&◌, arith}
use osdns.Platform.{IpAddr, v4, v6, NormalizedConfig}
use osdns.TextConfig.{
  family_of, families_of, resolved_dns_from_plan, is_v4_length, has_length, address_of,
  resolved_dns_to_nameservers,
}

-- An IPv4 address has four octets, an IPv6 address sixteen.
abbrev is_address : IpAddr → Bool
is_address (v4 octets) = is_v4_length octets
is_address (v6 octets) = has_length 16 octets

abbrev pub all_addresses : List IpAddr → Bool
all_addresses [] = true
all_addresses (ip ∷ ips) = is_address ip && all_addresses ips

address_of-family :
    (ip : IpAddr) → is_address ip ≡ true → address_of (family_of ip).0 (family_of ip).1 ≡ some ip
address_of-family (v4 octets) h = rw h refl
address_of-family (v6 octets) h = rw h refl

to_nameservers-families :
    (ips : List IpAddr)
    → all_addresses ips ≡ true
    → resolved_dns_to_nameservers (families_of ips) ≡ ips
unfolding resolved_dns_to_nameservers
to_nameservers-families [] h = refl
to_nameservers-families (ip ∷ ips) h =
    rw (address_of-family ip (ground arith), to_nameservers-families ips (ground arith)) refl

-- When each name server has the octets of its family, the name servers read back from what was
-- written for systemd-resolved are those of the plan, in their order.
pub resolved_dns_to_nameservers-from_plan :
    (plan : NormalizedConfig)
    → all_addresses plan.nameservers ≡ true
    → resolved_dns_to_nameservers (resolved_dns_from_plan plan) ≡ plan.nameservers
unfolding resolved_dns_from_plan
resolved_dns_to_nameservers-from_plan plan h = to_nameservers-families plan.nameservers h
