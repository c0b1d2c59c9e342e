-- ===== src/Engine/Mutate/Verified.antt =====
-- What `mutate_and_verify` may claim: a verified mutation was read back, and a failed one says
-- truly what it left behind.
use osdns.Prelude.{◌≡◌, refl, ◌∙◌, Bool, true, false, Option, none, some, [], ◌∷◌, arith}
use mathlib.Core.Bool.{false≢true}
use osdns.Text.{text_eq_refl}
use osdns.Error.{Error, Result, ok, err}
use osdns.Platform.{
  ResourceIdentity, PlatformSnapshot, MutationAttempt, performed, rejected, indeterminate, durable,
  best_effort, Backend, VerifiedMutation, NormalizedConfig,
}
use osdns.Tx.{Call, Reply, call_apply_bound, History}
use osdns.Tx.History.{last_read, last_status, journaled, journal_of}
use osdns.Tx.Logic.{Oracle, after, Post, Safe, Safe-bind}
use osdns.Engine.Monitor.{monitor, found_same, announces}
use osdns.Engine.Compensate.{MutationResidue, unchanged, restored, pending}
use osdns.Engine.Compensate.Guard.{settled, RollbackPost, rollback_proven-Safe}
use osdns.Engine.Mutate.{
  MutatePoints, MutationFailure, Unverified, verify_mutation, roll_back, mutate_and_verify,
  after_attempt, after_verification,
}

abbrev refused : {D I : Type 0} (c : Call D I) → Reply c → Bool
refused (call_apply_bound i expected plan) (rejected e) = true
refused c reply = false

-- The last thing that happened is that the backend refused to mutate.
abbrev pub refused_last : {D I : Type 0} → History D I → Bool
refused_last [] = false
refused_last (e ∷ h) = refused e.call e.reply

module _ {D : Type 0} (b : Backend D) where
  -- Where the backend promises durable identities, the proof names the state that was read back.
  abbrev pub vouched : VerifiedMutation D → Bool
  vouched m = elim b.ownership_identity [
    | durable ↦ elim m.proof [ none ↦ false | some proof ↦ b.proves_current proof m.observed ]
    | best_effort ↦ true
  ]

module _ {D I : Type 0} (b : Backend D) where
  abbrev pub Confirmed :
      ResourceIdentity I → NormalizedConfig → VerifiedMutation D → History D I → Type 0
  Confirmed i plan m g =
      (last_read i.resource g ≡ some m.observed)
      × (b.matches_desired m.observed plan ≡ true)
      × (vouched b m ≡ true)
      × (found_same (last_status i.resource g) ≡ true)

  abbrev VerifyPost :
      ResourceIdentity I
      → NormalizedConfig
      → History D I
      → Post D I (Result (VerifiedMutation D) (Unverified D))
  VerifyPost i plan h g (ok m) = (journal_of g ≡ journal_of h) × Confirmed i plan m g
  VerifyPost i plan h g (err u) = (journal_of g ≡ journal_of h)

  verify_mutation-Safe :
      (o : Oracle D I) (i : ResourceIdentity I) (plan : NormalizedConfig) (points : MutatePoints)
      (produced : Option (PlatformSnapshot D)) (h : History D I)
      → Safe o (monitor b) (VerifyPost i plan h) (verify_mutation b i plan points produced) h
  unfolding verify_mutation
  verify_mutation-Safe o i plan points produced h = ground (arith, text_eq_refl i.resource.text)

  -- `Unchanged` means that the backend refused, `Restored` that the expected state is back.
  abbrev left_behind :
      ResourceIdentity I → PlatformSnapshot D → History D I → MutationResidue D → Bool
  left_behind i expected g unchanged = refused_last g
  left_behind i expected g (restored identity) = settled b i.resource expected g
  left_behind i expected g (pending p) = true

  abbrev pub MutatePost :
      ResourceIdentity I
      → PlatformSnapshot D
      → NormalizedConfig
      → History D I
      → Post D I (Result (VerifiedMutation D) (MutationFailure D))
  MutatePost i expected plan h g (ok m) = (journal_of g ≡ journal_of h) × Confirmed i plan m g
  MutatePost i expected plan h g (err f) =
      (journal_of g ≡ journal_of h) × (left_behind i expected g f.residue ≡ true)

  module _ (o : Oracle D I) (i : ResourceIdentity I) (expected : PlatformSnapshot D)
      (plan : NormalizedConfig) (points : MutatePoints) (h : History D I) where
    roll_back-Safe :
        (e : Error) (produced : Option (PlatformSnapshot D)) (g : History D I)
        → journal_of g ≡ journal_of h
        → Safe o (monitor b) (MutatePost i expected plan h) (roll_back b i expected e produced) g
    unfolding roll_back
    roll_back-Safe e produced g j =
        Safe-bind o (monitor b) (RollbackPost b i expected g) _ _ _ g
          (rollback_proven-Safe b o i produced expected g) λ g' residue p. post g' residue p
      where
        post :
            (g' : History D I) (residue : MutationResidue D)
            → RollbackPost b i expected g g' residue
            → (journal_of g' ≡ journal_of h) × (left_behind i expected g' residue ≡ true)
        post g' unchanged p = absurd (false≢true p.1)
        post g' (restored identity) p = (p.0 ∙ j, p.1)
        post g' (pending q) p = (p.0 ∙ j, refl)

    after_verification-Safe :
        (outcome : Result (VerifiedMutation D) (Unverified D)) (g : History D I)
        → VerifyPost i plan h g outcome
        → Safe o
            (monitor b)
            (MutatePost i expected plan h)
            (after_verification b i expected outcome)
            g
    unfolding after_verification
    after_verification-Safe (ok m) g p = p
    after_verification-Safe (err u) g p = roll_back-Safe u.error u.produced g p

    after_attempt-Safe :
        (attempt : MutationAttempt D) (g : History D I)
        → journal_of g ≡ journal_of h
        → refused_last g ≡ refused {D = D} {I = I} (call_apply_bound i expected plan) attempt
        → Safe o
            (monitor b)
            (MutatePost i expected plan h)
            (after_attempt b i expected plan points attempt)
            g
    unfolding after_attempt
    after_attempt-Safe (rejected e) g j r = (j, r)
    after_attempt-Safe (indeterminate e produced) g j r = roll_back-Safe e produced g j
    after_attempt-Safe (performed produced) g j r =
        Safe-bind o (monitor b) (VerifyPost i plan g) _ _ _ g
          (verify_mutation-Safe o i plan points produced g)
          λ g' outcome p. after_verification-Safe outcome g' (moved outcome g' p)
      where
        moved :
            (outcome : Result (VerifiedMutation D) (Unverified D)) (g' : History D I)
            → VerifyPost i plan g g' outcome
            → VerifyPost i plan h g' outcome
        moved (ok m) g' p = (p.0 ∙ j, p.1)
        moved (err u) g' p = p ∙ j

  -- When the journal announces the plan, `mutate_and_verify` obeys the monitor and does not touch
  -- the journal. `Ok` means that the state read last, with no write since, matches the plan, that
  -- the incarnation was last found unchanged, and that under durable identities the proof names
  -- that state. A failure leaves `Unchanged` only where the backend just refused to mutate, and
  -- `Restored` only where the expected state was read back.
  pub mutate_and_verify-Safe :
      (o : Oracle D I) (i : ResourceIdentity I) (expected : PlatformSnapshot D)
      (plan : NormalizedConfig) (points : MutatePoints) (h : History D I)
      → announces plan (journaled i.resource h) ≡ true
      → Safe o
          (monitor b)
          (MutatePost i expected plan h)
          (mutate_and_verify b i expected plan points)
          h
  unfolding mutate_and_verify
  mutate_and_verify-Safe o i expected plan points h announced = (
    announced,
    after_attempt-Safe o i expected plan points h (o h (call_apply_bound i expected plan))
        (after o h (call_apply_bound i expected plan)) refl refl,
  )
