-- ===== src/Ownership.antt =====
-- ownership.rs: taking the locks of several resources.
pub mod Sorted
pub mod Ordered
pub mod Acquired
use osdns.Prelude.{ℕ, Bool, true, false, List, [], ◌∷◌, ◌++◌, ltb, ◌==◌, ◌&&◌, ◌||◌, if◌then◌else◌}
use osdns.Text.{Text}
use osdns.Error.{ResourceId, Fallible, Result, ok, err}
use osdns.Tx.{call_acquire, call_release, Tx, ret, ask, ◌>>=◌}
use osdns.Tx.History.{same_resource}

-- `Ord` of strings, `sort` and `dedup` are the standard library's; they are written out here.
unfoldable pub text_le : Text → Text → Bool
text_le [] t = true
text_le (x ∷ xs) [] = false
text_le (x ∷ xs) (y ∷ ys) = ltb x y || (x == y && text_le xs ys)

insert : ResourceId → List ResourceId → List ResourceId
insert r [] = r ∷ []
insert r (s ∷ ss) = if text_le r.text s.text then r ∷ s ∷ ss else s ∷ insert r ss

unfoldable pub sort : List ResourceId → List ResourceId
unfolding insert
sort [] = []
sort (r ∷ rs) = insert r (sort rs)

dedup_after : ResourceId → List ResourceId → List ResourceId
dedup_after r [] = []
dedup_after r (s ∷ ss) =
    let rest = dedup_after s ss in if same_resource r s then dedup_after r ss else s ∷ rest

-- `dedup`: equal neighbours become one.
pub dedup : List ResourceId → List ResourceId
unfolding dedup_after
dedup [] = []
dedup (r ∷ rs) = r ∷ dedup_after r rs

module _ {D I : Type 0} where
  -- A lock that goes out of scope is released.
  pub release_all : List ResourceId → Tx D I (Unit {0})
  release_all [] = ret tt
  release_all (l ∷ ls) = ask (call_release l) (λ _. release_all ls)

  -- The loop of `acquire_all`, with the locks taken so far.
  pub acquire_each : List ResourceId → List ResourceId → Tx D I (Fallible (List ResourceId))
  acquire_each locks [] = ret (ok locks)
  acquire_each locks (r ∷ rs) = ask (call_acquire r) λ reply. elim reply [
    | ok u ↦ acquire_each (locks ++ r ∷ []) rs
    | err e ↦ (release_all locks >>= λ _. ret (err e))
  ]

  pub acquire_all : List ResourceId → Tx D I (Fallible (List ResourceId))
  acquire_all resources = acquire_each [] (dedup (sort resources))
