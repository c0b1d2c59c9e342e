-- ===== src/Engine/Update/Resolved.antt =====
-- The first stage of the update transaction: every live record is settled and committed.
use osdns.Prelude.{◌≡◌, refl, Bool, true, Option, none, some, List, [], ◌∷◌, ◌&&◌}
use osdns.Error.{Fallible, ok, err, external_modification}
use osdns.Platform.{Backend, PlatformSnapshot}
use osdns.Journal.{JournalRecord}
use osdns.Tx.{History, ret, ◌>>=◌}
use osdns.Tx.Logic.{Oracle, Post, Safe, Safe-bind}
use osdns.Engine.Monitor.{monitor}
use osdns.Engine.Live.{LiveRecord, LiveState, committed, applied_of}
use osdns.Engine.Live.Synced.{shaped, backed, quiet, quiet_if_ok, Kept, ResolvePost}
use osdns.Engine.Live.Resolved.{resolve_live-Safe}
use osdns.Engine.Update.{UpdateEntry, Stage, Updated, lives_of, add_entry, resolve_all}
use osdns.Engine.Update.Prepared.{AllPaired, AllShaped, EntriesShaped, resolved-paired}

module _ {D I : Type 0} where
  abbrev pub all_quiet : List (LiveRecord D I) → Bool
  all_quiet [] = true
  all_quiet (l ∷ ls) = quiet l.state && all_quiet ls

  abbrev pub quiet_update : Fallible (Unit {0}) → List (LiveRecord D I) → Bool
  quiet_update (ok u) ls = all_quiet ls
  quiet_update (err e) ls = true

  -- Each live record has the shape of its state, and after `Ok` none has anything outstanding.
  abbrev pub UpdatePost : Post D I (Updated D I)
  UpdatePost g (r, ls) = AllShaped ls × (quiet_update r ls ≡ true)

  abbrev pub EntriesQuiet : List (UpdateEntry D I) → Type 0
  EntriesQuiet xs = all_quiet (lives_of xs) ≡ true

  abbrev pub ResolvedPost : Post D I (Stage D I (List (UpdateEntry D I)))
  ResolvedPost g (ok xs) = AllPaired xs × EntriesShaped xs × EntriesQuiet xs
  ResolvedPost g (err s) = AllShaped s.1

module _ {D I : Type 0} (b : Backend D) (o : Oracle D I) where
  add_entry-Resolved :
      (l : LiveRecord D I) (applied : PlatformSnapshot D) (g : History D I)
      (rest : Stage D I (List (UpdateEntry D I)))
      → shaped l.state l.entry ≡ true
      → quiet l.state ≡ true
      → backed committed l.entry ≡ true
      → ResolvedPost g rest
      → ResolvedPost g (add_entry l applied rest)
  add_entry-Resolved l applied g (ok xs) v q c p =
      ((resolved-paired l applied c, p.0), (v, p.1), rw q p.2)
  add_entry-Resolved l applied g (err s) v q c p = (v, p)

  settled_entry-Safe :
      (l : LiveRecord D I) (ls : List (LiveRecord D I)) (a : Option (PlatformSnapshot D))
      (h : History D I)
      → shaped l.state l.entry ≡ true
      → quiet l.state ≡ true
      → backed committed l.entry ≡ true
      → AllShaped ls
      → Safe o (monitor b) ResolvedPost (resolve_all b ls) h
      → Safe o
          (monitor b)
          ResolvedPost
          (elim a [
            | none ↦ ret (err (external_modification l.entry.resource, l ∷ ls))
            | some applied ↦ do rest ← resolve_all b ls; ret (add_entry l applied rest)
          ])
          h
  settled_entry-Safe l ls none h v q c w next = (v, w)
  settled_entry-Safe l ls (some applied) h v q c w next =
      Safe-bind o (monitor b) ResolvedPost ResolvedPost _ _ h next
        (λ g rest p. add_entry-Resolved l applied g rest v q c p)

  -- The record after `resolve_live` succeeded.
  quiet_entry-Safe :
      (s : LiveState D I) (x : JournalRecord D I) (ls : List (LiveRecord D I)) (h : History D I)
      → shaped s x ≡ true
      → quiet s ≡ true
      → AllShaped ls
      → Safe o (monitor b) ResolvedPost (resolve_all b ls) h
      → Safe o
          (monitor b)
          ResolvedPost
          (elim (applied_of (record { entry = x; state = s })) [
            | none ↦
                ret (err (external_modification x.resource, record { entry = x; state = s } ∷ ls))
            | some applied ↦ do
              rest ← resolve_all b ls
              ret (add_entry (record { entry = x; state = s }) applied rest)
          ])
          h
  quiet_entry-Safe committed x ls h v q w next =
      settled_entry-Safe (record { entry = x; state = committed }) ls x.applied h v q v w next
  quiet_entry-Safe s x ls h v q w next = (v, w)

  pub resolve_all-Safe :
      (ls : List (LiveRecord D I)) (h : History D I)
      → AllShaped ls
      → Safe o (monitor b) ResolvedPost (resolve_all b ls) h
  unfolding resolve_all
  resolve_all-Safe [] h v = (tt, tt, refl)
  resolve_all-Safe (l ∷ ls) h v =
      Safe-bind o (monitor b) (ResolvePost (Kept l.state l.entry h)) ResolvedPost _ _ h
        (resolve_live-Safe b o l none h v.0)
        λ g r p. go g r.0 r.1 p.1 p.2 (resolve_all-Safe ls g v.1)
    where
      go :
          (g : History D I) (r : Fallible (Unit {0})) (l' : LiveRecord D I)
          → shaped l'.state l'.entry ≡ true
          → quiet_if_ok r l'.state ≡ true
          → Safe o (monitor b) ResolvedPost (resolve_all b ls) g
          → Safe o
              (monitor b)
              ResolvedPost
              (elim r [
                | err e ↦ ret (err (e, l' ∷ ls))
                | ok u ↦ elim (applied_of l') [
                  | none ↦ ret (err (external_modification l'.entry.resource, l' ∷ ls))
                  | some applied ↦ do rest ← resolve_all b ls; ret (add_entry l' applied rest)
                ]
              ])
              g
      go g (err e) l' s q next = (s, v.1)
      go g (ok u) l' s q next = quiet_entry-Safe l'.state l'.entry ls g s q v.1 next
