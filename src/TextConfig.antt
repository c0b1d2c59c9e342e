-- ===== src/TextConfig.antt =====
-- platform/text_config.rs: the mappings between a plan and the values of systemd-resolved. The
-- parser of a domain name (normalize.rs, `DnsSuffix::parse`) is an argument.
pub mod Nameservers
pub mod Domains
use osdns.Prelude.{
  ℕ, ◌-◌, Bool, true, false, Option, none, some, List, [], ◌∷◌, ◌++◌, not, if◌then◌else◌, ◌||◌,
  ◌==◌,
}
use osdns.Text.{Text, text_eq}
use osdns.Error.{Fallible, Result, ok, err}
use osdns.Normalize.{display}
use osdns.Platform.{IpAddr, v4, v6, DnsSuffix, NormalizedConfig, suffix_eq}

-- `dns.iter().filter_map(..)`
abbrev push_some {ℓ} : {A : Type ℓ} → Option A → List A → List A
push_some none xs = xs
push_some (some x) xs = x ∷ xs

-- `AF_INET` is 2, `AF_INET6` is 10.
abbrev family_of : IpAddr → ℕ × List ℕ
family_of (v4 octets) = (2, octets)
family_of (v6 octets) = (10, octets)

abbrev families_of : List IpAddr → List (ℕ × List ℕ)
families_of [] = []
families_of (ip ∷ ips) = family_of ip ∷ families_of ips

pub resolved_dns_from_plan : NormalizedConfig → List (ℕ × List ℕ)
resolved_dns_from_plan plan = families_of plan.nameservers

abbrev pub is_v4_length : List ℕ → Bool
is_v4_length (a ∷ b ∷ c ∷ d ∷ []) = true
is_v4_length _ = false

-- `bytes.try_into()` to sixteen octets.
abbrev pub has_length : ℕ → List ℕ → Bool
has_length n [] = n == 0
has_length n (x ∷ xs) = if n == 0 then false else has_length (n - 1) xs

abbrev address_of : ℕ → List ℕ → Option IpAddr
address_of family bytes =
    if family == 2
    then (if is_v4_length bytes then some (v4 bytes) else none)
    else if family == 10
    then (if has_length 16 bytes then some (v6 bytes) else none)
    else none

pub resolved_dns_to_nameservers : List (ℕ × List ℕ) → List IpAddr
resolved_dns_to_nameservers [] = []
resolved_dns_to_nameservers ((family, bytes) ∷ dns) =
    push_some (address_of family bytes) (resolved_dns_to_nameservers dns)

abbrev pub contains : List Text → Text → Bool
contains [] t = false
contains (s ∷ ss) t = text_eq s t || contains ss t

abbrev pub contains_suffix : List DnsSuffix → DnsSuffix → Bool
contains_suffix [] d = false
contains_suffix (e ∷ es) d = suffix_eq e d || contains_suffix es d

-- The domains so far and the names that were seen.

abbrev push_domain : Bool → Text → List (Text × Bool) × List Text → List (Text × Bool) × List Text
push_domain route name (domains, seen) =
    if contains seen name
    then (domains, seen)
    else (domains ++ (name, route) ∷ [], seen ++ name ∷ [])

push_domains :
    Bool → List DnsSuffix → List (Text × Bool) × List Text → List (Text × Bool) × List Text
push_domains route [] acc = acc
push_domains route (d ∷ ds) acc = push_domains route ds (push_domain route (display d) acc)

pub resolved_domains_from_plan : NormalizedConfig → List (Text × Bool)
resolved_domains_from_plan plan =
    (push_domains true plan.routing_domains (push_domains false plan.search_domains ([], []))).0

abbrev push_new : DnsSuffix → List DnsSuffix → List DnsSuffix
push_new d ds = if contains_suffix ds d then ds else ds ++ d ∷ []

-- The search and the routing domains so far.
abbrev sort_in :
    Fallible DnsSuffix → Bool → List DnsSuffix × List DnsSuffix → List DnsSuffix × List DnsSuffix
sort_in (err e) route acc = acc
sort_in (ok d) false (search, routing) = (push_new d search, routing)
sort_in (ok d) true (search, routing) = (search, push_new d routing)

module _ (parse : Text → Fallible DnsSuffix) where
  public_from :
      List (Text × Bool) → List DnsSuffix × List DnsSuffix → List DnsSuffix × List DnsSuffix
  public_from [] acc = acc
  public_from ((name, route) ∷ rest) acc = public_from rest (sort_in (parse name) route acc)

  pub resolved_domains_to_public : List (Text × Bool) → List DnsSuffix × List DnsSuffix
  resolved_domains_to_public domains = public_from domains ([], [])
