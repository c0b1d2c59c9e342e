-- ===== src/Lease/Swept.antt =====
-- What the sweep over the live records of a lease leaves.
pub mod Collect
use osdns.Prelude.{
  ◌≡◌, refl, sym, ap, subst, ◌∙◌, Bool, true, false, Option, none, some, List, [], ◌∷◌, ◌&&◌, ◌||◌,
  not, if◌then◌else◌, All, arith,
}
use osdns.Text.{text_eq_refl, text_eq_comm}
use osdns.Error.{ResourceId, Error, Fallible, ok, err}
use osdns.Platform.{Backend}
use osdns.Tx.{call_lock_token, call_unregister, call_unlock_token, History, Tx, ret, ask, ◌>>=◌}
use osdns.Tx.History.{same_resource, journal_of, locked}
use osdns.Tx.Logic.{Oracle, Post, Safe, Safe-bind, Safe-mono, after}
use osdns.Engine.Confined.{among, is_cleared, all_locked, live_in}
use osdns.Engine.Live.{LiveRecord, Outcome, resource_of, resources_of}
use osdns.Engine.Live.Synced.{shaped}
use osdns.Engine.Rules.{rules}
use osdns.Lease.{LiveLease, Sweep, release_if_ok, sweep_record, sweep, collect}
use osdns.Lease.Locks.{ReleasedPost, release_matching-Safe}

abbrev pub distinct : List ResourceId → Bool
distinct [] = true
distinct (r ∷ rs) = not (among rs r) && distinct rs

abbrev pub all_in : List ResourceId → List ResourceId → Bool
all_in locks [] = true
all_in locks (r ∷ rs) = among locks r && all_in locks rs

pub apart :
    (r s : ResourceId) (rs : List ResourceId) → among (s ∷ rs) r ≡ false → same_resource r s ≡ false
apart r s rs n = ground (arith, text_eq_comm r.text s.text)

module _ {D I : Type 0} where
  -- The record has the shape of its state and is about its own resource alone.
  abbrev pub fit : LiveRecord D I → Bool
  fit l = shaped l.state l.entry && live_in (resource_of l ∷ []) l.state l.entry

  abbrev pub AllFit : List (LiveRecord D I) → Type 0
  AllFit ls = All (λ (l : LiveRecord D I). fit l ≡ true) ls

  -- The records are of distinct resources, each fits, and the lease holds the lock of each.
  pub record IsHeld (ls : List (LiveRecord D I)) (locks : List ResourceId) (h : History D I)
      : Type 0 where
    pub fits : AllFit ls
    pub differ : distinct (resources_of ls) ≡ true
    pub listed : all_in locks (resources_of ls) ≡ true
    pub held : all_locked (resources_of ls) h ≡ true

  abbrev pub NothingTaken : History D I → History D I → Type 0
  NothingTaken h g = (s : ResourceId) → (not (locked s g) || locked s h) ≡ true

  -- The resource has no journal record and no lock any more.
  abbrev pub is_ended : ResourceId → History D I → Bool
  is_ended r h = is_cleared r (journal_of h) && not (locked r h)

  -- Each resource was kept or is ended.
  abbrev pub AllKeptOrEnded : List ResourceId → List (LiveRecord D I) → History D I → Type 0
  AllKeptOrEnded rs kept h = All (λ r. among (resources_of kept) r || is_ended r h ≡ true) rs

  -- Records are kept exactly when there was an error.
  abbrev pub matches_failure : Option Error → List (LiveRecord D I) → Bool
  matches_failure none [] = true
  matches_failure (some e) (l ∷ ls) = true
  matches_failure _ _ = false

  abbrev SettledAs : LiveRecord D I → History D I → Outcome D I → Type 0
  SettledAs l g (ok u, l') = is_cleared (resource_of l) (journal_of g) ≡ true
  SettledAs l g (err e, l') = (fit l' ≡ true) × (resource_of l' ≡ resource_of l)

  -- What settling one record under its lock must do.
  abbrev pub SettledPost : LiveRecord D I → History D I → Post D I (Outcome D I)
  SettledPost l h g r =
      ((s : ResourceId) → locked s g ≡ locked s h)
      × ((s : ResourceId)
          → among (resource_of l ∷ []) s ≡ false
          → is_cleared s (journal_of g) ≡ is_cleared s (journal_of h))
      × SettledAs l g r

  abbrev pub SweptAs : LiveRecord D I → History D I → Outcome D I → List ResourceId → Type 0
  SweptAs l g (ok u, l') left = is_ended (resource_of l) g ≡ true
  SweptAs l g (err e, l') left =
      (fit l' ≡ true)
      × (resource_of l' ≡ resource_of l)
      × (locked (resource_of l) g ≡ true)
      × (among left (resource_of l) ≡ true)

  -- What is known of other resources stays.
  abbrev pub Untouched :
      ResourceId → List ResourceId → List ResourceId → History D I → History D I → Type 0
  Untouched r locks left h g =
      (s : ResourceId)
      → same_resource r s ≡ false
      → (locked s g ≡ locked s h)
        × (is_cleared s (journal_of g) ≡ is_cleared s (journal_of h))
        × (among left s ≡ among locks s)

  abbrev pub RecordPost :
      LiveRecord D I → List ResourceId → History D I → Post D I (Outcome D I × List ResourceId)
  RecordPost l locks h g t = Untouched (resource_of l) locks t.1 h g × SweptAs l g t.0 t.1

  abbrev pub LeftPost :
      LiveRecord D I → List ResourceId → History D I → Outcome D I → Post D I (List ResourceId)
  LeftPost l locks h outcome g left =
      Untouched (resource_of l) locks left h g × SweptAs l g outcome left

module _ {D I : Type 0} (b : Backend D) (o : Oracle D I) where
  pub release_if_ok-Safe :
      (l : LiveRecord D I) (locks : List ResourceId) (h g : History D I) (outcome : Outcome D I)
      → among locks (resource_of l) ≡ true
      → locked (resource_of l) h ≡ true
      → SettledPost l h g outcome
      → Safe o
          (rules b)
          (LeftPost l locks h outcome)
          (release_if_ok outcome.0 (resource_of l) locks)
          g
  release_if_ok-Safe l locks h g (ok u, l') w k p =
      Safe-mono o (rules b) (ReleasedPost (resource_of l) locks g) _ _ g
        (release_matching-Safe b o (resource_of l) locks g)
        (λ g' left q. (
          (λ s n. ((q.0 s n).0 ∙ p.0 s, ap (is_cleared s) q.1 ∙ p.1 s (ground arith), (q.0 s n).1)),
          ground (arith, ap (is_cleared (resource_of l)) q.1),
        ))
  release_if_ok-Safe l locks h g (err e, l') w k p =
      ((λ s n. (p.0 s, p.1 s (ground arith), refl)), (p.2.0, p.2.1, p.0 (resource_of l) ∙ k, w))
