-- ===== src/Manager/Applied.antt =====
-- What `DnsManager::apply` establishes.
use osdns.Platform.{Backend, DnsScope, NormalizedConfig}
use osdns.Text.{Text}
use osdns.Tx.{
  after_validate, after_resolve, call_validate_plan, call_resolve_resources, call_records,
  call_observe, History, ret, ask, ◌>>=◌, or_fail, fire,
}
use osdns.Tx.Logic.{Oracle, Post, Safe, Safe-bind, Safe-or_fail}
use osdns.Config.{Capabilities, DnsConfig, validate_against}
use osdns.Engine.Transact.{PreparedLease}
use osdns.Ownership.{acquire_all}
use osdns.Ownership.Acquired.{AllReleasedPost, AcquiredPost, release_all-Safe, acquire_all-Acquired}
use osdns.Manager.{prepare_lease, watch_lease, own_lease, apply_plan, apply}
use osdns.Manager.Seen.{observed_as, listed_bound, PreparedPost}
use osdns.Manager.Prepared.{prepare_lease-Safe}
use osdns.Lease.Swept.{distinct, all_in, IsHeld}
use osdns.Prelude.{◌≡◌, refl, sym, subst, ◌∙◌, Bool, true, List, ◌∷◌, arith}
use osdns.Error.{ResourceId, Fallible, ok, err}
use osdns.Tx.History.{locked}
use osdns.Engine.Confined.{among, all_locked}
use osdns.Engine.Rules.{rules}
use osdns.Lease.{active}
use osdns.Lease.Remains.{all_in_self}
use osdns.Lease.Dropped.{SameLocks, MadeLease, new_owned-Safe}
use osdns.Manager.Watched.{all_in_of, ApplyPost, Beside, all_locked_of, made-Safe}

-- The backend resolves a plan to distinct resources.
abbrev pub resolved_distinct : Fallible (List ResourceId) → Bool
resolved_distinct (ok rs) = distinct rs
resolved_distinct (err e) = true

module _ {D I : Type 0} (b : Backend D) (o : Oracle D I) where
  -- On an error in the transaction, and on success.
  own_lease-Safe :
      (rs locks : List ResourceId) (r : Fallible (PreparedLease D I)) (h g k : History D I)
      → distinct rs ≡ true
      → ((s : ResourceId) → among locks s ≡ among rs s)
      → Beside rs h g
      → PreparedPost rs g k r
      → Safe o (rules b) (ApplyPost h) (own_lease b locks r) k
  unfolding own_lease
  own_lease-Safe rs locks (err e) h g k d a p q =
      Safe-bind o (rules b) (AllReleasedPost locks k) (ApplyPost h) _ _ k
        (release_all-Safe b o locks k) (λ k' u w s. ground (arith, w.0 s, q s, p s, a s))
  own_lease-Safe rs locks (ok t) h g k d a p q =
      Safe-bind o (rules b) (MadeLease t.records locks k) (ApplyPost h) _ _ k
        (new_owned-Safe b o t.lease_id t.records locks t.was_noop k)
        (λ k' lease w.
          subst
            (λ state.
              Safe o (rules b) (ApplyPost h) (watch_lease b (record lease { state = state })) k')
            (sym w.1)
            (made-Safe b o lease (record { live = t.records; locks = locks; phase = active }) h k'
              (λ s. ground (arith, w.0 s, q.0 s, p s, a s)) (held k' w.0) refl (sym w.2)))
    where
      held :
          (k' : History D I)
          → ((s : ResourceId) → locked s k' ≡ locked s k)
          → IsHeld t.records locks k'
      held k' same = record {
        fits = q.1;
        differ = subst (λ rs. distinct rs ≡ true) (sym q.2) d;
        listed =
            subst (λ rs. all_in locks rs ≡ true) (sym q.2)
              (all_in_of locks rs rs a (all_in_self rs));
        held =
            subst (λ rs. all_locked rs k' ≡ true) (sym q.2)
              (all_locked_of rs rs h k' (λ s. same s ∙ q.0 s ∙ p s) (all_in_self rs));
      }

module _ {D I : Type 0} (b : Backend D) (o : Oracle D I) (owner : Text) where
  locked_plan-Safe :
      (rs : List ResourceId) (plan : NormalizedConfig) (h g : History D I)
      → ((k : History D I) (r : ResourceId) → observed_as r (o k (call_observe r)) ≡ true)
      → ((k : History D I) → listed_bound (o k call_records) ≡ true)
      → distinct rs ≡ true
      → ((s : ResourceId) → locked s g ≡ locked s h)
      → Safe o
          (rules b)
          (ApplyPost h)
          (or_fail
            (λ e. err e)
            (acquire_all rs)
            λ locks. prepare_lease b owner rs plan >>= own_lease b locks)
          g
  locked_plan-Safe rs plan h g observed listed d same =
      Safe-or_fail o (rules b) (AcquiredPost rs g) (ApplyPost h) (λ e. err e) (acquire_all rs) _ g
        (acquire_all-Acquired b o rs g)
        (λ k locks p.
          Safe-bind o (rules b) (PreparedPost rs k) (ApplyPost h) _ _ k
            (prepare_lease-Safe b o owner rs plan k observed listed
              (all_locked_of rs rs g k (λ s. (p.0 s).1) (all_in_self rs)))
            (λ k' r q.
              own_lease-Safe b o rs locks r h k k' d (λ s. (p.0 s).0)
                (λ s. ground (arith, (p.0 s).1, same s)) q))
        (λ k e p s. ground (arith, p.0 s, same s))

  apply_plan-Safe :
      (scope : DnsScope) (plan : NormalizedConfig) (h : History D I)
      → ((k : History D I) (r : ResourceId) → observed_as r (o k (call_observe r)) ≡ true)
      → ((k : History D I) → listed_bound (o k call_records) ≡ true)
      → ((k : History D I) → resolved_distinct (o k (call_resolve_resources scope plan)) ≡ true)
      → Safe o (rules b) (ApplyPost h) (apply_plan b owner scope plan) h
  unfolding apply_plan
  apply_plan-Safe scope plan h observed listed resolved =
      Safe-or_fail o (rules b) (SameLocks h) (ApplyPost h) (λ e. err e)
        (ask (call_validate_plan scope plan) ret) _ h (refl, λ s. refl)
        (λ g u p.
          Safe-or_fail o (rules b) (SameLocks h) (ApplyPost h) (λ e. err e) (fire after_validate) _
            g (refl, p)
            (λ g u p.
              Safe-or_fail o (rules b) (ResolvedPost h) (ApplyPost h) (λ e. err e)
                (ask (call_resolve_resources scope plan) ret) _ g
                (refl, distinct_reply g p (o g (call_resolve_resources scope plan)) (resolved g))
                (λ g' rs p.
                  Safe-or_fail o (rules b) (SameLocks h) (ApplyPost h) (λ e. err e)
                    (fire after_resolve) _ g' (refl, p.0)
                    (λ k u w. locked_plan-Safe rs plan h k observed listed p.1 w)
                    (λ k e w s. ground (arith, w s)))
                (λ g' e p s. ground (arith, p s)))
            (λ g e p s. ground (arith, p s)))
        (λ g e p s. ground (arith, p s))
    where
      ResolvedPost : History D I → Post D I (Fallible (List ResourceId))
      ResolvedPost h g (ok rs) = ((s : ResourceId) → locked s g ≡ locked s h) × (distinct rs ≡ true)
      ResolvedPost h g (err e) = (s : ResourceId) → locked s g ≡ locked s h

      distinct_reply :
          (g : History D I)
          → ((s : ResourceId) → locked s g ≡ locked s h)
          → (r : Fallible (List ResourceId)) → resolved_distinct r ≡ true
          → ResolvedPost h (record { call = call_resolve_resources scope plan; reply = r } ∷ g) r
      distinct_reply g p (ok rs) v = (p, v)
      distinct_reply g p (err e) v = p

  -- Where an observation is of the resource that was observed, the journal lists no record whose
  -- identity is of another resource, and a plan resolves to distinct resources, `apply` obeys the
  -- rules, whatever else the world answers and wherever it fails: native state and journal records
  -- are touched only under the lock of their resource, a plan is applied only while the journal
  -- announces it, and a restore is guarded by incarnation and ownership. The lease of an `Ok` is
  -- `Active` and holds a fitting record for each of its resources, in their order, under its lock,
  -- and no other lock was taken. After an error no lock is held that was not held before.
  pub apply-Safe :
      (config : DnsConfig) (caps : Capabilities) (h : History D I)
      → ((k : History D I) (r : ResourceId) → observed_as r (o k (call_observe r)) ≡ true)
      → ((k : History D I) → listed_bound (o k call_records) ≡ true)
      → ((k : History D I) (scope : DnsScope) (plan : NormalizedConfig)
          → resolved_distinct (o k (call_resolve_resources scope plan)) ≡ true)
      → Safe o (rules b) (ApplyPost h) (apply b owner config caps) h
  unfolding apply
  apply-Safe config caps h observed listed resolved = go (validate_against config caps)
    where
      go :
          (r : Fallible NormalizedConfig)
          → Safe o
              (rules b)
              (ApplyPost h)
              (elim r [ err e ↦ ret (err e) | ok plan ↦ apply_plan b owner config.scope plan ])
              h
      go (err e) = λ s. ground arith
      go (ok plan) =
          apply_plan-Safe config.scope plan h observed listed (λ k. resolved k config.scope plan)
