-- ===== src/Ownership/Ordered.antt =====
-- Which calls `acquire_all` makes: locks only, and each one above those taken before it.
use osdns.Prelude.{◌≡◌, refl, Bool, true, Option, none, some, List, [], ◌∷◌, ◌++◌, ◌&&◌, not, arith}
use osdns.Text.{text_eq_refl}
use osdns.Error.{ResourceId, Fallible, ok, err}
use osdns.Platform.{Backend}
use osdns.Tx.{call_acquire, call_release, History, ret, ◌>>=◌}
use osdns.Tx.Logic.{Oracle, Post, Safe, Safe-bind, after}
use osdns.Engine.Confined.{among}
use osdns.Engine.Rules.{rules}
use osdns.Ownership.{text_le, release_all, acquire_each}
use osdns.Ownership.Sorted.{is_ascending}

-- Strictly above the lock that was asked for last, if one was.
abbrev pub is_above : Option ResourceId → ResourceId → Bool
is_above none r = true
is_above (some s) r = not (text_le r.text s.text)

-- From `h` on, only locks of `rs` were asked for and released, the locks in strictly ascending
-- order, `last` the last one.
pub data Locking {D I : Type 0} (rs : List ResourceId) (h : History D I)
    : Option ResourceId → History D I → Type 0 where
  untouched : Locking rs h none h
  asked :
      {last : Option ResourceId} {g : History D I} (r : ResourceId) (reply : Fallible (Unit {0}))
      → Locking rs h last g
      → among rs r && is_above last r ≡ true
      → Locking rs h (some r) (record { call = call_acquire r; reply = reply } ∷ g)
  released :
      {last : Option ResourceId} {g : History D I} (r : ResourceId)
      → Locking rs h last g
      → among rs r ≡ true
      → Locking rs h last (record { call = call_release r; reply = tt } ∷ g)

abbrev pub all_of : List ResourceId → List ResourceId → Bool
all_of rs [] = true
all_of rs (s ∷ ss) = among rs s && all_of rs ss

all_of-append : (rs ss ts : List ResourceId) → all_of rs (ss ++ ts) ≡ (all_of rs ss && all_of rs ts)
all_of-append rs [] ts = refl
all_of-append rs (s ∷ ss) ts = ground (arith, all_of-append rs ss ts)

all_of-cons :
    (q : ResourceId) (rs ss : List ResourceId) → all_of rs ss ≡ true → all_of (q ∷ rs) ss ≡ true
all_of-cons q rs [] v = refl
all_of-cons q rs (s ∷ ss) v = ground (arith, all_of-cons q rs ss (ground arith))

pub all_of_self : (rs : List ResourceId) → all_of rs rs ≡ true
all_of_self [] = refl
all_of_self (r ∷ rs) = ground (arith, text_eq_refl r.text, all_of-cons r rs rs (all_of_self rs))

-- The first is above `last`, and each next one above the one before.
abbrev pub ascends : Option ResourceId → List ResourceId → Bool
ascends last [] = true
ascends last (r ∷ rs) = is_above last r && is_ascending (r ∷ rs)

ascends-tail :
    (r : ResourceId) (rs : List ResourceId)
    → is_ascending (r ∷ rs) ≡ true
    → ascends (some r) rs ≡ true
ascends-tail r [] v = refl
ascends-tail r (s ∷ ss) v = v

pub ascends-none : (rs : List ResourceId) → is_ascending rs ≡ true → ascends none rs ≡ true
ascends-none [] v = refl
ascends-none (r ∷ rs) v = v

module _ {D I : Type 0} where
  -- The locking of a list is that of any list with the same resources.
  pub Locking-same :
      (rs qs : List ResourceId) (h : History D I)
      → ((q : ResourceId) → among rs q ≡ among qs q)
      → {last : Option ResourceId} {g : History D I} → Locking rs h last g
      → Locking qs h last g
  Locking-same rs qs h e untouched = untouched
  Locking-same rs qs h e (asked r reply l a) =
      asked r reply (Locking-same rs qs h e l) (ground (arith, e r))
  Locking-same rs qs h e (released r l a) =
      released r (Locking-same rs qs h e l) (ground (arith, e r))

  -- Nothing but locking from `h` on.
  abbrev pub LockingPost : {A : Type 0} → List ResourceId → History D I → Post D I A
  LockingPost rs h g a = (last : Option ResourceId) × Locking rs h last g

module _ {D I : Type 0} (b : Backend D) (o : Oracle D I) (rs : List ResourceId)
    (h : History D I) where
  release_all-Locking :
      (locks : List ResourceId) (last : Option ResourceId) (g : History D I)
      → all_of rs locks ≡ true
      → Locking rs h last g
      → Safe o (rules b) (LockingPost rs h) (release_all locks) g
  unfolding release_all
  release_all-Locking [] last g v l = (last, l)
  release_all-Locking (r ∷ locks) last g v l = (
    refl,
    release_all-Locking locks last (after o g (call_release r)) (ground arith)
        (released r l (ground arith)),
  )

  pub acquire_each-Locking :
      (locks ss : List ResourceId) (last : Option ResourceId) (g : History D I)
      → all_of rs locks ≡ true
      → all_of rs ss ≡ true
      → ascends last ss ≡ true
      → Locking rs h last g
      → Safe o (rules b) (LockingPost rs h) (acquire_each locks ss) g
  unfolding acquire_each
  acquire_each-Locking locks [] last g v w a l = (last, l)
  acquire_each-Locking locks (r ∷ ss) last g v w a l = (
    refl,
    go (o g (call_acquire r)) (λ k l'.
        acquire_each-Locking (locks ++ r ∷ []) ss (some r) k
          (ground (arith, all_of-append rs locks (r ∷ []))) (ground arith)
          (ascends-tail r ss (ground arith)) l'),
  )
    where
      go :
          (reply : Fallible (Unit {0}))
          → ((k : History D I)
              → Locking rs h (some r) k
              → Safe o (rules b) (LockingPost rs h) (acquire_each (locks ++ r ∷ []) ss) k)
          → Safe o
              (rules b)
              (LockingPost rs h)
              (elim reply [
                | ok u ↦ acquire_each (locks ++ r ∷ []) ss
                | err e ↦ (release_all locks >>= λ _. ret (err e))
              ])
              (record { call = call_acquire r; reply = reply } ∷ g)
      go (ok u) next =
          next (record { call = call_acquire r; reply = ok u } ∷ g)
            (asked r (ok u) l (ground arith))
      go (err e) next =
          Safe-bind o (rules b) (LockingPost rs h) (LockingPost rs h) _ _
            (record { call = call_acquire r; reply = err e } ∷ g)
            (release_all-Locking locks (some r)
              (record { call = call_acquire r; reply = err e } ∷ g) v
              (asked r (err e) l (ground arith)))
            (λ k u p. p)
