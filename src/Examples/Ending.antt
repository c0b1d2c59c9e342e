-- ===== src/Examples/Ending.antt =====
-- The theorems on making and ending leases, applied to a lease of one interface.
use osdns.Prelude.{ℕ, refl, true, some, [], ◌∷◌}
use osdns.Text.{text_eq, text_eq_refl}
use osdns.Error.{ResourceId}
use osdns.Tx.{History, call_acquire}
use osdns.Tx.Logic.{Safe}
use osdns.Engine.Rules.{rules}
use osdns.Ownership.{acquire_all}
use osdns.Ownership.Ordered.{LockingPost}
use osdns.Ownership.Acquired.{AcquiredPost, acquire_all-Safe}
use osdns.Lease.{active, LiveLease, Lease, restore_state, abandon_state, drop_lease}
use osdns.Lease.Swept.{IsHeld}
use osdns.Lease.Ended.{restore_state-Safe, abandon_state-Safe}
use osdns.Lease.Remains.{RestoreStatePost, AbandonStatePost}
use osdns.Lease.Dropped.{DropPost, drop_lease-Safe}
use osdns.Manager.{apply}
use osdns.Manager.Watched.{ApplyPost}
use osdns.Manager.Applied.{apply-Safe}
use osdns.Examples.{eth0, backend, world, event}
use osdns.Examples.Configs.{plain_caps, static}
use osdns.Examples.Lives.{committed_live, committed_journaled}

abbrev pub lease_held : History ℕ ℕ
lease_held = event (call_acquire eth0) committed_journaled

abbrev pub live_lease : LiveLease ℕ ℕ
live_lease = record { live = committed_live ∷ []; locks = eth0 ∷ []; phase = active }

abbrev pub lease : Lease ℕ ℕ
lease = record { resources = eth0 ∷ []; lease_id = 5; is_noop = true; state = some live_lease }

live_lease-IsHeld : IsHeld live_lease.live live_lease.locks lease_held
unfolding text_eq
live_lease-IsHeld = record { fits = (refl, tt); differ = refl; listed = refl; held = refl }

restore_state-Safe_example :
    Safe world
      (rules backend)
      (RestoreStatePost (eth0 ∷ []) (some live_lease) lease_held)
      (restore_state backend lease)
      lease_held
restore_state-Safe_example = restore_state-Safe backend world lease lease_held live_lease-IsHeld

abandon_state-Safe_example :
    Safe world
      (rules backend)
      (AbandonStatePost (some live_lease) lease_held)
      (abandon_state lease)
      lease_held
abandon_state-Safe_example = abandon_state-Safe backend world lease lease_held live_lease-IsHeld

drop_lease-Safe_example :
    Safe world
      (rules backend)
      (DropPost (some live_lease) lease_held)
      (drop_lease backend lease)
      lease_held
drop_lease-Safe_example = drop_lease-Safe backend world lease lease_held live_lease-IsHeld

abbrev wlan0 : ResourceId
wlan0 = record { text = 119 ∷ 48 ∷ [] }

acquire_all-Safe_example :
    Safe world
      (rules backend)
      (λ g a.
        AcquiredPost (wlan0 ∷ eth0 ∷ wlan0 ∷ []) [] g a
        × LockingPost (wlan0 ∷ eth0 ∷ wlan0 ∷ []) [] g a)
      (acquire_all (wlan0 ∷ eth0 ∷ wlan0 ∷ []))
      []
acquire_all-Safe_example = acquire_all-Safe backend world (wlan0 ∷ eth0 ∷ wlan0 ∷ []) []

apply-Safe_example :
    Safe world (rules backend) (ApplyPost []) (apply backend [] static plain_caps) []
unfolding text_eq
apply-Safe_example =
    apply-Safe backend world [] static plain_caps [] (λ k r. text_eq_refl r.text) (λ k. refl)
      (λ k s p. refl)
