-- ===== src/Examples/Texts.antt =====
-- The theorems on names, domains, configurations and journal records, applied to concrete ones.
use osdns.Prelude.{ℕ, ◌≡◌, refl, if◌then◌else◌, true, Option, none, some, [], ◌∷◌, if◌then◌else◌}
use osdns.Text.{Text, text_eq}
use osdns.Error.{systemd_resolved, Fallible, ok}
use osdns.Platform.{
  v4, v6, DnsSuffix, NormalizedConfig, PlatformSnapshot, interface, default_interface,
}
use osdns.Journal.{Phase, JournalRecord}
use osdns.Journal.Valid.{
  ValidPost, same_backend_refl, validate_owner, validate_record, validate_record-Valid,
}
use osdns.Config.Build.{DnsConfigBuilder, build}
use osdns.Config.Build.Built.{BuiltPost, build-Built}
use osdns.Normalize.{
  check_ascii, check_labels, check_label, split, parse, display, normalize_domain, strip_dot,
}
use osdns.Normalize.Canonical.{CanonicalPost, normalize_domain-Canonical}
use osdns.Normalize.Reparsed.{parse-display}
use osdns.TextConfig.{
  resolved_dns_from_plan, resolved_dns_to_nameservers, resolved_domains_from_plan,
  resolved_domains_to_public,
}
use osdns.TextConfig.Nameservers.{resolved_dns_to_nameservers-from_plan}
use osdns.TextConfig.Domains.{fresh, names, resolved_domains_to_public-from_plan}
use osdns.Lease.Update.{update}
use osdns.Lease.Update.Kept.{KeptPost, update-KeptPost}
use osdns.Engine.Monitor.{monitor}
use osdns.Tx.Logic.{Safe}
use osdns.Examples.{backend, world, snapshot, entry}
use osdns.Examples.Configs.{plain_caps, static}
use osdns.Examples.Ending.{lease, live_lease, lease_held}

abbrev plain : Text → Text
plain t = t

-- Everything is ASCII already.
abbrev ascii_only : Text → Option Text
ascii_only t = some t

-- `de.`
abbrev de_dot : Text
de_dot = 100 ∷ 101 ∷ 46 ∷ []

abbrev de : DnsSuffix
de = record { name = 100 ∷ 101 ∷ [] }

normalize_domain-Canonical_example : CanonicalPost (normalize_domain plain ascii_only de_dot)
normalize_domain-Canonical_example = normalize_domain-Canonical plain ascii_only de_dot

de_parsed : parse plain ascii_only de_dot ≡ ok de
unfolding parse normalize_domain strip_dot check_ascii check_labels check_label split
de_parsed = refl

parse-display_example : parse plain ascii_only (display de) ≡ ok de
parse-display_example =
    parse-display plain ascii_only (λ t h. refl) (λ s a h. refl) de_dot de de_parsed

abbrev routed_plan : NormalizedConfig
routed_plan = record {
  nameservers =
      v4 (9 ∷ 9 ∷ 9 ∷ 9 ∷ [])
      ∷ v6 (0 ∷ 0 ∷ 0 ∷ 0 ∷ 0 ∷ 0 ∷ 0 ∷ 0 ∷ 0 ∷ 0 ∷ 0 ∷ 0 ∷ 0 ∷ 0 ∷ 0 ∷ 1 ∷ [])
      ∷ [];
  search_domains = de ∷ de ∷ [];
  routing_domains = de ∷ record { name = [] } ∷ [];
  default_route = none;
}

resolved_dns_to_nameservers-from_plan_example :
    resolved_dns_to_nameservers (resolved_dns_from_plan routed_plan) ≡ routed_plan.nameservers
resolved_dns_to_nameservers-from_plan_example =
    resolved_dns_to_nameservers-from_plan routed_plan refl

-- A parser of printed names: `.` is the root.
abbrev parse_printed : Text → Fallible DnsSuffix
parse_printed t = ok (record { name = if text_eq t (46 ∷ []) then [] else t })

resolved_domains_to_public-from_plan_example :
    resolved_domains_to_public parse_printed (resolved_domains_from_plan routed_plan) ≡ (
      fresh [] routed_plan.search_domains,
      fresh (names (fresh [] routed_plan.search_domains)) routed_plan.routing_domains,
    )
unfolding text_eq
resolved_domains_to_public-from_plan_example =
    resolved_domains_to_public-from_plan parse_printed routed_plan (refl, (refl, tt))
      (refl, (refl, tt))

abbrev builder : DnsConfigBuilder
builder = record {
  scope = interface default_interface;
  nameservers = v4 (9 ∷ 9 ∷ 9 ∷ 9 ∷ []) ∷ v4 (9 ∷ 9 ∷ 9 ∷ 9 ∷ []) ∷ [];
  search_domains = (100 ∷ 101 ∷ []) ∷ [];
  routing_domains = [];
  default_route = some true;
}

build-Built_example : BuiltPost (build parse_printed builder)
build-Built_example = build-Built parse_printed builder

abbrev any_snapshot : PlatformSnapshot ℕ → Fallible (Unit {0})
any_snapshot s = ok tt

-- A record of the owner `a`, as a commit publishes it.
abbrev owned_entry : JournalRecord ℕ ℕ
owned_entry = record (entry Phase.applied (some (snapshot 1))) { owner = 97 ∷ [] }

owned_entry-accepted : validate_record any_snapshot owned_entry ≡ ok tt
unfolding validate_record validate_owner text_eq
owned_entry-accepted = rw (same_backend_refl systemd_resolved) refl

validate_record-Valid_example :
    ValidPost any_snapshot owned_entry (validate_record any_snapshot owned_entry)
validate_record-Valid_example = validate_record-Valid any_snapshot owned_entry

update-KeptPost_example :
    Safe world
      (monitor backend)
      (KeptPost (some live_lease))
      (update backend lease static plain_caps)
      lease_held
unfolding text_eq
update-KeptPost_example =
    update-KeptPost backend world lease static plain_caps lease_held (refl, tt)
