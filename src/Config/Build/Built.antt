-- ===== src/Config/Build/Built.antt =====
-- What a built configuration looks like.
use osdns.Prelude.{
  ◌⊎◌, ◌≡◌, refl, Bool, true, false, List, [], ◌∷◌, ◌++◌, not, ◌&&◌, ◌||◌, arith, Bool-cases, inl,
  inr,
}
use osdns.Text.{Text}
use osdns.Error.{Fallible, ok, err, ◌>>=◌}
use osdns.Platform.{IpAddr, ip_eq, DnsSuffix, suffix_eq, DnsScope, global, interface}
use osdns.Config.{DnsConfig, is_empty, is_given}
use osdns.Config.Build.{
  DnsConfigBuilder, is_unspecified, has_item, push_item, collect_nameservers, collect_domains,
  check_global, build,
}

-- Each item is new to `found` and to those before it.
abbrev pub all_new {ℓ} : {A : Type ℓ} → (A → A → Bool) → List A → List A → Bool
all_new eq found [] = true
all_new eq found (x ∷ xs) = not (has_item eq found x) && all_new eq (found ++ x ∷ []) xs

abbrev pub no_repeats {ℓ} : {A : Type ℓ} → (A → A → Bool) → List A → Bool
no_repeats eq xs = all_new eq [] xs

has_item-append {ℓ} :
    {A : Type ℓ} (eq : A → A → Bool) (xs : List A) (y x : A)
    → has_item eq (xs ++ y ∷ []) x ≡ (has_item eq xs x || eq y x)
has_item-append eq [] y x = ground arith
has_item-append eq (z ∷ xs) y x = ground (arith, has_item-append eq xs y x)

all_new-snoc {ℓ} :
    {A : Type ℓ} (eq : A → A → Bool) (found xs : List A) (x : A)
    → all_new eq found xs ≡ true
    → (has_item eq found x || has_item eq xs x) ≡ false
    → all_new eq found (xs ++ x ∷ []) ≡ true
all_new-snoc eq found [] x h n = ground arith
all_new-snoc eq found (y ∷ ys) x h n = ground (
  arith,
  all_new-snoc eq (found ++ y ∷ []) ys x (ground arith)
      (ground (arith, has_item-append eq found y x)),
)

push_item-no_repeats {ℓ} :
    {A : Type ℓ} (eq : A → A → Bool) (x : A) (xs : List A)
    → no_repeats eq xs ≡ true
    → no_repeats eq (push_item eq x xs) ≡ true
push_item-no_repeats eq x xs h = elim (Bool-cases (has_item eq xs x)) [
  | inl e ↦ rw e h
  | inr n ↦ rw n (all_new-snoc eq [] xs x h n)
]

-- No name server is unspecified.
abbrev pub none_unspecified : List IpAddr → Bool
none_unspecified [] = true
none_unspecified (ip ∷ ips) = not (is_unspecified ip) && none_unspecified ips

abbrev pub scope_allows : DnsScope → DnsConfig → Bool
scope_allows global config = is_empty config.routing_domains && not (is_given config.default_route)
scope_allows (interface selector) config = true

abbrev pub BuiltPost : Fallible DnsConfig → Type 0
BuiltPost (ok config) =
    (no_repeats ip_eq config.nameservers ≡ true)
    × (none_unspecified config.nameservers ≡ true)
    × (no_repeats suffix_eq config.search_domains ≡ true)
    × (no_repeats suffix_eq config.routing_domains ≡ true)
    × (scope_allows config.scope config ≡ true)
BuiltPost (err e) = Unit {0}

none_unspecified-snoc :
    (ip : IpAddr) (ips : List IpAddr)
    → none_unspecified ips ≡ true
    → is_unspecified ip ≡ false
    → none_unspecified (ips ++ ip ∷ []) ≡ true
none_unspecified-snoc ip [] h n = ground arith
none_unspecified-snoc ip (x ∷ ips) h n =
    ground (arith, none_unspecified-snoc ip ips (ground arith) n)

push_item-none_unspecified :
    (ip : IpAddr) (ips : List IpAddr)
    → none_unspecified ips ≡ true
    → is_unspecified ip ≡ false
    → none_unspecified (push_item ip_eq ip ips) ≡ true
push_item-none_unspecified ip ips h n = elim (Bool-cases (has_item ip_eq ips ip)) [
  | inl e ↦ rw e h
  | inr m ↦ rw m (none_unspecified-snoc ip ips h n)
]

abbrev ServersPost : Fallible (List IpAddr) → Type 0
ServersPost (ok ips) = (no_repeats ip_eq ips ≡ true) × (none_unspecified ips ≡ true)
ServersPost (err e) = Unit {0}

abbrev DomainsPost : Fallible (List DnsSuffix) → Type 0
DomainsPost (ok ds) = no_repeats suffix_eq ds ≡ true
DomainsPost (err e) = Unit {0}

collect_nameservers-Servers :
    (ips found : List IpAddr)
    → no_repeats ip_eq found ≡ true
    → none_unspecified found ≡ true
    → ServersPost (collect_nameservers ips found)
unfolding collect_nameservers
collect_nameservers-Servers [] found h n = (h, n)
collect_nameservers-Servers (ip ∷ ips) found h n = elim (Bool-cases (is_unspecified ip)) [
  | inl e ↦ rw e tt
  | inr e ↦ rw e (
      collect_nameservers-Servers ips (push_item ip_eq ip found)
        (push_item-no_repeats ip_eq ip found h) (push_item-none_unspecified ip found n e))
]

collect_domains-Domains :
    (parse : Text → Fallible DnsSuffix) (ts : List Text) (found : List DnsSuffix)
    → no_repeats suffix_eq found ≡ true
    → DomainsPost (collect_domains parse ts found)
unfolding collect_domains
collect_domains-Domains parse [] found h = h
collect_domains-Domains parse (t ∷ ts) found h = go (parse t) (λ d.
    collect_domains-Domains parse ts (push_item suffix_eq d found)
      (push_item-no_repeats suffix_eq d found h))
  where
    go :
        (r : Fallible DnsSuffix)
        → ((d : DnsSuffix) → DomainsPost (collect_domains parse ts (push_item suffix_eq d found)))
        → DomainsPost (r >>= λ d. collect_domains parse ts (push_item suffix_eq d found))
    go (ok d) next = next d
    go (err e) next = tt

checked-Built :
    (builder : DnsConfigBuilder) (ips : List IpAddr)
    (search_domains routing_domains : List DnsSuffix)
    → ServersPost (ok ips)
    → DomainsPost (ok search_domains)
    → DomainsPost (ok routing_domains)
    → BuiltPost (
        check_global builder.scope routing_domains builder.default_route >>= λ _. ok (record {
          scope = builder.scope;
          nameservers = ips;
          search_domains = search_domains;
          routing_domains = routing_domains;
          default_route = builder.default_route;
        }))
checked-Built builder ips search_domains routing_domains p q r =
    go builder.scope (Bool-cases (is_empty routing_domains))
      (Bool-cases (is_given builder.default_route))
  where
    go :
        (scope : DnsScope)
        → (is_empty routing_domains ≡ true) ⊎ (is_empty routing_domains ≡ false)
        → (is_given builder.default_route ≡ true) ⊎ (is_given builder.default_route ≡ false)
        → BuiltPost (
            check_global scope routing_domains builder.default_route >>= λ _. ok (record {
              scope = scope;
              nameservers = ips;
              search_domains = search_domains;
              routing_domains = routing_domains;
              default_route = builder.default_route;
            }))
    go (interface selector) e f = (p.0, p.1, q, r, refl)
    go global (inr e) f = rw e tt
    go global (inl e) (inl f) = rw (e, f) tt
    go global (inl e) (inr f) = rw (e, f) (p.0, p.1, q, r, ground arith)

-- A configuration that `build` makes has no name server, search domain or routing domain twice and
-- no unspecified name server, and a global one has neither routing domains nor a default route,
-- whatever the parser of domains answers.
pub build-Built :
    (parse : Text → Fallible DnsSuffix) (builder : DnsConfigBuilder)
    → BuiltPost (build parse builder)
unfolding build
build-Built parse builder =
    servers (collect_nameservers builder.nameservers [])
      (collect_nameservers-Servers builder.nameservers [] refl refl)
  where
    finish : List IpAddr → List DnsSuffix → List DnsSuffix → Fallible DnsConfig
    finish ips ss rs = check_global builder.scope rs builder.default_route >>= λ _. ok (record {
      scope = builder.scope;
      nameservers = ips;
      search_domains = ss;
      routing_domains = rs;
      default_route = builder.default_route;
    })

    routing :
        (ips : List IpAddr) (ss : List DnsSuffix) (r : Fallible (List DnsSuffix))
        → ServersPost (ok ips)
        → DomainsPost (ok ss)
        → DomainsPost r
        → BuiltPost (r >>= finish ips ss)
    routing ips ss (ok rs) p q r = checked-Built builder ips ss rs p q r
    routing ips ss (err e) p q r = tt

    domains :
        (ips : List IpAddr) (r : Fallible (List DnsSuffix))
        → ServersPost (ok ips)
        → DomainsPost r
        → BuiltPost (r >>= λ ss. collect_domains parse builder.routing_domains [] >>= finish ips ss)
    domains ips (ok ss) p q =
        routing ips ss (collect_domains parse builder.routing_domains []) p q
          (collect_domains-Domains parse builder.routing_domains [] refl)
    domains ips (err e) p q = tt

    servers :
        (r : Fallible (List IpAddr))
        → ServersPost r
        → BuiltPost (
            r >>= λ ips. collect_domains parse builder.search_domains [] >>= λ ss.
            collect_domains parse builder.routing_domains [] >>= finish ips ss)
    servers (ok ips) p =
        domains ips (collect_domains parse builder.search_domains []) p
          (collect_domains-Domains parse builder.search_domains [] refl)
    servers (err e) p = tt
