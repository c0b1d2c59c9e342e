-- ===== src/Engine/Recover/Abandoned.antt =====
-- `abandon_journal`: what it removes, and under which lock.
use osdns.Prelude.{
  ◌≡◌, refl, Bool, true, false, List, [], ◌∷◌, ◌&&◌, if◌then◌else◌, arith, Bool-cases, inl, inr,
}
use osdns.Text.{Text, text_eq_refl}
use osdns.Error.{ResourceId, Fallible, ok, err, conflict, resource_occupied}
use osdns.Journal.{JournalRecord}
use osdns.Tx.{
  Call, Reply, call_acquire, call_release, call_remove, call_records, History, Tx, ret, ask, ◌>>=◌,
  ◌>>◌,
}
use osdns.Tx.History.{locked, same_resource}
use osdns.Tx.Logic.{Oracle, Permit, Post, Safe, Safe-bind}
use osdns.Engine.Recover.{remove_until_error, any_foreign, records_for, abandon_journal}

module _ {D I : Type 0} where
  abbrev owned_reply : Text → ResourceId → (c : Call D I) → Reply c → Bool
  owned_reply owner r call_records (ok xs) =
      if any_foreign owner (records_for r xs) then false else true
  owned_reply owner r c reply = false

  -- The latest listing of the journal shows no record of another owner for `r`.
  abbrev listed_by : Text → ResourceId → (c : Call D I) → Reply c → Bool → Bool
  listed_by owner r call_records reply old = owned_reply owner r call_records reply
  listed_by owner r c reply old = old

  abbrev pub owned_listed : Text → ResourceId → History D I → Bool
  owned_listed owner r [] = false
  owned_listed owner r (e ∷ h) = listed_by owner r e.call e.reply (owned_listed owner r h)

  -- Only records of `r` are removed, while its lock is held and no other owner's record was listed
  -- for it. Nothing else is asked but the lock and the listing.
  abbrev pub abandon_permit : Text → ResourceId → Permit D I
  abandon_permit owner r h (call_remove l s) =
      same_resource s r && locked r h && owned_listed owner r h
  abandon_permit owner r h (call_acquire s) = same_resource s r
  abandon_permit owner r h (call_release s) = same_resource s r
  abandon_permit owner r h call_records = locked r h
  abandon_permit owner r h c = false

  abbrev pub HeldPost : ResourceId → Post D I (Fallible (Unit {0}))
  HeldPost r g x = locked r g ≡ true

  abbrev pub UnlockedPost : ResourceId → Post D I (Fallible (Unit {0}))
  UnlockedPost r g x = locked r g ≡ false

  remove_until_error-Safe :
      (o : Oracle D I) (owner : Text) (r : ResourceId) (xs : List (JournalRecord D I))
      (h : History D I)
      → locked r h ≡ true
      → owned_listed owner r h ≡ true
      → Safe o (abandon_permit owner r) (HeldPost r) (remove_until_error r xs) h
  unfolding remove_until_error
  remove_until_error-Safe o owner r [] h v w = v
  remove_until_error-Safe o owner r (x ∷ xs) h v w = (
    ground (arith, text_eq_refl r.text),
    go (o h (call_remove x.lease_id r)) (λ g v' w'. remove_until_error-Safe o owner r xs g v' w'),
  )
    where
      go :
          (reply : Fallible (Unit {0}))
          → ((g : History D I)
              → locked r g ≡ true
              → owned_listed owner r g ≡ true
              → Safe o (abandon_permit owner r) (HeldPost r) (remove_until_error r xs) g)
          → Safe o
              (abandon_permit owner r)
              (HeldPost r)
              (elim reply [ ok u ↦ remove_until_error r xs | err e ↦ ret (err e) ])
              (record { call = call_remove x.lease_id r; reply = reply } ∷ h)
      go (ok u) next = next _ v w
      go (err e) next = v

  listed-Safe :
      (o : Oracle D I) (owner : Text) (r : ResourceId) (xs : List (JournalRecord D I))
      (h : History D I)
      → locked r h ≡ true
      → (any_foreign owner (records_for r xs) ≡ false → owned_listed owner r h ≡ true)
      → Safe o
          (abandon_permit owner r)
          (HeldPost r)
          (if any_foreign owner (records_for r xs)
            then ret (err (conflict r resource_occupied))
            else remove_until_error r (records_for r xs))
          h
  listed-Safe o owner r xs h v w = elim (Bool-cases (any_foreign owner (records_for r xs))) [
    | inl e ↦ rw e v
    | inr e ↦ rw e (remove_until_error-Safe o owner r (records_for r xs) h v (w e))
  ]

  -- When its lock is not held before, `abandon_journal` removes records only of its resource, only
  -- while it holds the resource's lock and after a listing that shows no record of another owner
  -- for it. It asks nothing else but the lock and the listing, so it mutates and publishes
  -- nothing, and its lock is not held at the end, whatever fails.
  pub abandon_journal-Safe :
      (o : Oracle D I) (owner : Text) (r : ResourceId) (h : History D I)
      → locked r h ≡ false
      → Safe o (abandon_permit owner r) (UnlockedPost r) (abandon_journal owner r) h
  unfolding abandon_journal
  abandon_journal-Safe o owner r h v = (text_eq_refl r.text, acquired (o h (call_acquire r)))
    where
      release : (result : Fallible (Unit {0})) → Tx D I (Fallible (Unit {0}))
      release result = ask (call_release r) ret >> ret result

      release-Safe :
          (g : History D I) (result : Fallible (Unit {0}))
          → Safe o (abandon_permit owner r) (UnlockedPost r) (release result) g
      release-Safe g result = (text_eq_refl r.text, rw (text_eq_refl r.text) refl)

      listed :
          (g : History D I) (found : Fallible (List (JournalRecord D I)))
          → locked r g ≡ true
          → Safe o
              (abandon_permit owner r)
              (UnlockedPost r)
              ((elim found [
                | err e ↦ ret (err e)
                | ok xs ↦
                    if any_foreign owner (records_for r xs)
                    then ret (err (conflict r resource_occupied))
                    else remove_until_error r (records_for r xs)
              ])
                >>= release)
              (record { call = call_records; reply = found } ∷ g)
      listed g (err e) w = release-Safe (record { call = call_records; reply = err e } ∷ g) (err e)
      listed g (ok xs) w =
          Safe-bind o (abandon_permit owner r) (HeldPost r) (UnlockedPost r)
            (if any_foreign owner (records_for r xs)
              then ret (err (conflict r resource_occupied))
              else remove_until_error r (records_for r xs))
            release (record { call = call_records; reply = ok xs } ∷ g)
            (listed-Safe o owner r xs (record { call = call_records; reply = ok xs } ∷ g) w
              (λ e. rw e refl))
            (λ g' result _. release-Safe g' result)

      acquired :
          (reply : Fallible (Unit {0}))
          → Safe o
              (abandon_permit owner r)
              (UnlockedPost r)
              (elim reply [
                | ok u ↦
                    (ask call_records ret >>= λ found.
                    (elim found [
                      | err e ↦ ret (err e)
                      | ok xs ↦
                          if any_foreign owner (records_for r xs)
                          then ret (err (conflict r resource_occupied))
                          else remove_until_error r (records_for r xs)
                    ])
                    >>= release)
                | err e ↦ ret (err e)
              ])
              (record { call = call_acquire r; reply = reply } ∷ h)
      acquired (err e) = v
      acquired (ok u) = (
        rw (text_eq_refl r.text) refl,
        listed (record { call = call_acquire r; reply = ok u } ∷ h)
            (o (record { call = call_acquire r; reply = ok u } ∷ h) call_records)
            (rw (text_eq_refl r.text) refl),
      )
