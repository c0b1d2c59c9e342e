-- ===== src/Engine/Recover/Stale.antt =====
-- `recover_stale`: what happens to each listed record, and that no lock is left taken.
use osdns.Prelude.{
  ◌≡◌, refl, Bool, true, false, List, [], ◌∷◌, ◌||◌, not, arith, Bool-cases, inl, inr,
}
use osdns.Text.{Text, text_eq, text_eq_refl, text_eq_comm}
use osdns.Error.{ConflictReason, conflict, ResourceId, Error, Fallible, ok, err}
use osdns.Platform.{Backend}
use osdns.Journal.{JournalRecord}
use osdns.Tx.{History, ret, ask, ◌>>=◌, ◌>>◌, call_records, call_try_acquire, call_release}
use osdns.Tx.History.{journaled, locked}
use osdns.Tx.Logic.{Any, Oracle, Post, Safe, Safe-bind, Safe-run, run}
use osdns.Engine.Confined.{SealedPost}
use osdns.Engine.Confined.Frames.{Safe-sealed}
use osdns.Engine.Live.Synced.{bound, is_some}
use osdns.Engine.Rules.{rules, Safe-both}
use osdns.Engine.Recover.{
  RecoveryOutcome, foreign_owner, busy, failed, or_failed, recover_record, recover_locked,
  recover_one, recover_each, recover_stale,
}
use osdns.Engine.Recover.Cleared.{RecoverPost, recover_record-Safe}
use osdns.Engine.Recover.Confined.{recover_record-Confined}
use osdns.Manager.Seen.{all_bound, listed_bound}

abbrev pub is_conflict : Error → Bool
is_conflict (conflict s reason) = true
is_conflict _ = false

module _ {D I : Type 0} where
  -- The lock of the record's resource was asked for, without waiting.
  abbrev pub tried : JournalRecord D I → Fallible Bool → History D I → History D I
  tried x reply h = record { call = call_try_acquire x.resource; reply = reply } ∷ h

  abbrev pub given_back : JournalRecord D I → History D I → History D I
  given_back x g = record { call = call_release x.resource; reply = tt } ∷ g

  -- No lock is held that was not held before.
  abbrev pub NoNewLock : History D I → History D I → Type 0
  NoNewLock h g = (s : ResourceId) → not (locked s g) || locked s h ≡ true

module _ {D I : Type 0} (b : Backend D) (o : Oracle D I) (owner : Text) where
  -- What may become of one record from `h` on, its outcome and the history after it. A record of
  -- another owner is left alone; without the lock nothing more is asked; with the lock the record
  -- is recovered and the lock is given back, whatever comes of it.
  pub data RecoversOne (x : JournalRecord D I) (h : History D I)
      : RecoveryOutcome → History D I → Type 0 where
    foreign : text_eq x.owner owner ≡ false → RecoversOne x h (foreign_owner x.resource x.owner) h
    lock_taken :
        text_eq x.owner owner ≡ true
        → o h (call_try_acquire x.resource) ≡ ok false
        → RecoversOne x h (busy x.resource) (tried x (ok false) h)
    lock_conflict :
        (s : ResourceId) (reason : ConflictReason)
        → text_eq x.owner owner ≡ true
        → o h (call_try_acquire x.resource) ≡ err (conflict s reason)
        → RecoversOne x h (busy x.resource) (tried x (err (conflict s reason)) h)
    lock_failed :
        (e : Error)
        → text_eq x.owner owner ≡ true
        → o h (call_try_acquire x.resource) ≡ err e
        → is_conflict e ≡ false
        → RecoversOne x h (failed x.resource x.lease_id) (tried x (err e) h)
    recovered :
        (outcome : RecoveryOutcome) (g : History D I)
        → text_eq x.owner owner ≡ true
        → o h (call_try_acquire x.resource) ≡ ok true
        → run o (recover_record b x) (tried x (ok true) h) ≡ (ok outcome, g)
        → RecoverPost b (is_some (journaled x.resource h)) x g (ok outcome)
        → RecoversOne x h outcome (given_back x g)
    recovery_failed :
        (e : Error) (g : History D I)
        → text_eq x.owner owner ≡ true
        → o h (call_try_acquire x.resource) ≡ ok true
        → run o (recover_record b x) (tried x (ok true) h) ≡ (err e, g)
        → RecoversOne x h (failed x.resource x.lease_id) (given_back x g)

  -- One record after the other, each with its outcome.
  pub data Recovers
      : History D I → List (JournalRecord D I) → List RecoveryOutcome → History D I → Type 0 where
    all_done : {h : History D I} → Recovers h [] [] h
    one_more :
        {x : JournalRecord D I} {xs : List (JournalRecord D I)} {outcome : RecoveryOutcome}
        {outcomes : List RecoveryOutcome} {h g k : History D I}
        → RecoversOne x h outcome g
        → Recovers g xs outcomes k
        → Recovers h (x ∷ xs) (outcome ∷ outcomes) k

  abbrev OnePost : JournalRecord D I → History D I → Post D I RecoveryOutcome
  OnePost x h g outcome = RecoversOne x h outcome g × NoNewLock h g

  abbrev EachPost : List (JournalRecord D I) → History D I → Post D I (List RecoveryOutcome)
  EachPost xs h g outcomes = Recovers h xs outcomes g × NoNewLock h g

  -- The listing that was found decides.
  abbrev pub StalePost :
      Fallible (List (JournalRecord D I)) → History D I → Post D I (Fallible (List RecoveryOutcome))
  StalePost (ok xs) h g (ok outcomes) = Recovers h xs outcomes g × NoNewLock h g
  StalePost (err f) h g (err e) = (f ≡ e) × (g ≡ h)
  StalePost _ h g _ = true ≡ false

  -- What `recover_record` did under the lock.
  abbrev LockedPost : JournalRecord D I → History D I → Post D I (Fallible RecoveryOutcome)
  LockedPost x h g r =
      (RecoverPost b (is_some (journaled x.resource h)) x g r
        × SealedPost (x.resource ∷ []) (tried x (ok true) h) Any g r)
      × (run o (recover_record b x) (tried x (ok true) h) ≡ (r, g))

  under_lock-Safe :
      (x : JournalRecord D I) (h : History D I)
      → bound x ≡ true
      → Safe o (rules b) (LockedPost x h) (recover_record b x) (tried x (ok true) h)
  under_lock-Safe x h v = Safe-run o (rules b) _ (recover_record b x) (tried x (ok true) h) (
      Safe-both b o (RecoverPost b (is_some (journaled x.resource h)) x)
        (SealedPost (x.resource ∷ []) (tried x (ok true) h) Any) (recover_record b x)
        (tried x (ok true) h)
        (recover_record-Safe b o (is_some (journaled x.resource h)) x (tried x (ok true) h) v
          (ground arith))
        (Safe-sealed o (x.resource ∷ []) Any (recover_record b x) (tried x (ok true) h)
          (ground (arith, text_eq_refl x.resource.text))
          (recover_record-Confined b o (x.resource ∷ []) x
            (ground (
              arith,
              text_eq_refl x.resource.text,
              text_eq_comm x.identity.resource.text x.resource.text,
            ))
            (tried x (ok true) h))))

  recover_locked-Safe :
      (x : JournalRecord D I) (h : History D I) (reply : Fallible Bool)
      → bound x ≡ true
      → text_eq x.owner owner ≡ true
      → o h (call_try_acquire x.resource) ≡ reply
      → Safe o (rules b) (OnePost x h) (recover_locked b x reply) (tried x reply h)
  unfolding recover_locked
  recover_locked-Safe x h (ok false) v w e = (lock_taken w e, λ s. ground arith)
  recover_locked-Safe x h (err (conflict s reason)) v w e =
      (lock_conflict s reason w e, λ q. ground arith)
  recover_locked-Safe x h (err f) v w e = (lock_failed f w e refl, λ q. ground arith)
  recover_locked-Safe x h (ok true) v w e =
      Safe-bind o (rules b) (LockedPost x h) (OnePost x h) (recover_record b x)
        (λ r. ask (call_release x.resource) ret >> ret (or_failed x.resource x.lease_id r))
        (tried x (ok true) h) (under_lock-Safe x h v)
        (λ g r p. (refl, (finished g r p, λ s. ground (arith, p.0.1.0 s))))
    where
      finished :
          (g : History D I) (r : Fallible RecoveryOutcome)
          → LockedPost x h g r
          → RecoversOne x h (or_failed x.resource x.lease_id r) (given_back x g)
      finished g (ok outcome) p = recovered outcome g w e p.1 p.0.0
      finished g (err f) p = recovery_failed f g w e p.1

  recover_one-Safe :
      (x : JournalRecord D I) (h : History D I)
      → bound x ≡ true
      → Safe o (rules b) (OnePost x h) (recover_one b owner x) h
  unfolding recover_one
  recover_one-Safe x h v = elim (Bool-cases (text_eq x.owner owner)) [
    | inl e ↦ rw e (refl, recover_locked-Safe x h (o h (call_try_acquire x.resource)) v e refl)
    | inr e ↦ rw e (foreign e, λ s. ground arith)
  ]

  recover_each-Safe :
      (xs : List (JournalRecord D I)) (h : History D I)
      → all_bound xs ≡ true
      → Safe o (rules b) (EachPost xs h) (recover_each b owner xs) h
  unfolding recover_each
  recover_each-Safe [] h v = (all_done, λ s. ground arith)
  recover_each-Safe (x ∷ xs) h v =
      Safe-bind o (rules b) (OnePost x h) (EachPost (x ∷ xs) h) _ _ h
        (recover_one-Safe x h (ground arith))
        λ g outcome p.
          Safe-bind o (rules b) (EachPost xs g) (EachPost (x ∷ xs) h) _ _ g
            (recover_each-Safe xs g (ground arith))
            λ k rest q. (one_more p.0 q.0, λ s. ground (arith, p.1 s, q.1 s))

  -- If the identity of every listed record names its resource, `recover_stale` obeys the monitor and
  -- the locking rule. It fails only if the journal cannot be listed, with that error and nothing
  -- else asked. Otherwise every listed record gets its outcome in turn, and no outcome stops the
  -- others. A record of another owner is reported as foreign, with nothing asked for it. If the lock
  -- of its resource is taken, an own record is reported busy; if asking for the lock fails, it is
  -- busy after a conflict and failed after any other error; nothing more is asked. If the lock was
  -- obtained, the record goes through exactly `recover_record`, with what its outcomes mean, the
  -- outcome is its result (an error counts as failed), and the lock is given back. No lock is held
  -- at the end that was not held before.
  pub recover_stale-Safe :
      (h : History D I)
      → listed_bound (o h call_records) ≡ true
      → Safe o
          (rules b)
          (StalePost
            (o h call_records)
            (record { call = call_records; reply = o h call_records } ∷ h))
          (recover_stale b owner)
          h
  unfolding recover_stale
  recover_stale-Safe h v = (refl, go (o h call_records) v)
    where
      go :
          (found : Fallible (List (JournalRecord D I)))
          → listed_bound found ≡ true
          → Safe o
              (rules b)
              (StalePost found (record { call = call_records; reply = found } ∷ h))
              (elim found [
                | ok xs ↦ (recover_each b owner xs >>= λ outcomes. ret (ok outcomes))
                | err e ↦ ret (err e)
              ])
              (record { call = call_records; reply = found } ∷ h)
      go (err e) w = (refl, refl)
      go (ok xs) w =
          Safe-bind o (rules b) (EachPost xs (record { call = call_records; reply = ok xs } ∷ h))
            (StalePost (ok xs) (record { call = call_records; reply = ok xs } ∷ h))
            (recover_each b owner xs) (λ outcomes. ret (ok outcomes))
            (record { call = call_records; reply = ok xs } ∷ h)
            (recover_each-Safe xs (record { call = call_records; reply = ok xs } ∷ h) w)
            (λ g outcomes p. p)
