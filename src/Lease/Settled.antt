-- ===== src/Lease/Settled.antt =====
-- Restoring or forgetting one record of a lease, under its lock.
use osdns.Prelude.{◌≡◌, refl, sym, subst, true, [], ◌∷◌, ◌&&◌, arith}
use osdns.Text.{text_eq_refl}
use osdns.Error.{Fallible, ok, err}
use osdns.Platform.{Backend}
use osdns.Tx.{call_remove, History, ret}
use osdns.Tx.History.{journal_of, locked}
use osdns.Tx.Logic.{Oracle, Safe, Safe-mono}
use osdns.Engine.Confined.{SealedPost, is_cleared, live_in}
use osdns.Engine.Confined.Frames.{live_in-resource, Safe-sealed}
use osdns.Engine.Live.{LiveRecord, Outcome, resource_of}
use osdns.Engine.Live.Confined.{LiveInPost}
use osdns.Engine.Live.Synced.{shaped}
use osdns.Engine.Restore.{restore_live_state}
use osdns.Engine.Restore.Confined.{restore_live_state-Confined}
use osdns.Engine.Restore.Ended.{restore_live_state-Safe}
use osdns.Engine.Restore.Reason.{RestorePost, cleared_last-is_cleared}
use osdns.Engine.Rules.{rules, Safe-both}
use osdns.Lease.{forget_record}
use osdns.Lease.Swept.{fit, SettledPost}

module _ {D I : Type 0} where
  pub forget_record-Settled :
      (b : Backend D) (o : Oracle D I) (l : LiveRecord D I) (h : History D I)
      → fit l ≡ true
      → locked (resource_of l) h ≡ true
      → Safe o (rules b) (SettledPost l h) (forget_record l) h
  unfolding forget_record
  forget_record-Settled b o l h f k =
      (ground arith, go (o h (call_remove l.entry.lease_id l.entry.resource)))
    where
      go :
          (r : Fallible (Unit {0}))
          → Safe o
              (rules b)
              (SettledPost l h)
              (elim r [ ok u ↦ ret (ok tt, l) | err e ↦ ret (err e, l) ])
              (record { call = call_remove l.entry.lease_id l.entry.resource; reply = r } ∷ h)
      go (ok u) =
          ((λ s. refl), (λ s n. ground arith), ground (arith, text_eq_refl l.entry.resource.text))
      go (err e) = ((λ s. refl), (λ s n. ground arith), (f, refl))

  restored :
      (b : Backend D) (l : LiveRecord D I) (h g : History D I) (r : Outcome D I)
      → RestorePost b g r
      → SealedPost (resource_of l ∷ []) h (LiveInPost (resource_of l ∷ [])) g r
      → SettledPost l h g r
  restored b l h g (ok u, l') p q = (
    q.0,
    q.1,
    subst (λ r. is_cleared r (journal_of g) ≡ true) (sym (live_in-resource (resource_of l) l' q.2))
        (cleared_last-is_cleared l'.entry (journal_of g) (ground arith)),
  )
  restored b l h g (err e, l') p q =
      let m = live_in-resource (resource_of l) l' q.2 in
      (
        q.0,
        q.1,
        (
          subst (λ r. shaped l'.state l'.entry && live_in (r ∷ []) l'.state l'.entry ≡ true) m
              (ground arith),
          sym m,
        ),
      )

module _ {D I : Type 0} (b : Backend D) (o : Oracle D I) where
  pub restore_record-Settled :
      (l : LiveRecord D I) (h : History D I)
      → fit l ≡ true
      → locked (resource_of l) h ≡ true
      → Safe o (rules b) (SettledPost l h) (restore_live_state b l) h
  restore_record-Settled l h f k =
      Safe-mono o (rules b)
        (λ g r.
          RestorePost b g r
          × SealedPost (resource_of l ∷ []) h (LiveInPost (resource_of l ∷ [])) g r)
        (SettledPost l h) _ h
        (Safe-both b o (RestorePost b)
          (SealedPost (resource_of l ∷ []) h (LiveInPost (resource_of l ∷ [])))
          (restore_live_state b l) h (restore_live_state-Safe b o l h (ground arith))
          (Safe-sealed o (resource_of l ∷ []) (LiveInPost (resource_of l ∷ []))
            (restore_live_state b l) h (ground arith)
            (restore_live_state-Confined b o (resource_of l ∷ []) l h (ground arith))))
        (λ g r p. restored b l h g r p.0 p.1)
