-- ===== src/Tx/Logic.antt =====
-- A program logic for transaction programs. An oracle answers each call from the history so far:
-- it is the rest of the world. What is asked must be permitted at that point of the history, and
-- what is returned satisfies a postcondition. The theorems hold for every oracle.
use osdns.Prelude.{◌≡◌, refl, Bool, true, ◌∷◌}
use osdns.Error.{Error, Fallible, ok, err}
use osdns.Tx.{Call, Reply, Event, History, Tx, ret, ask, ◌>>=◌, or_fail}

abbrev pub Oracle : Type 0 → Type 0 → Type 0
Oracle D I = History D I → (c : Call D I) → Reply c

-- A monitor: whether a call may be made after a history.
abbrev pub Permit : Type 0 → Type 0 → Type 0
Permit D I = History D I → Call D I → Bool

abbrev pub Post : Type 0 → Type 0 → Type 0 → Type 1
Post D I A = History D I → A → Type 0

-- Nothing is claimed of the result.
abbrev pub Any : {D I A : Type 0} → Post D I A
Any g a = Unit {0}

-- The history after the oracle answered `c`.
abbrev pub after : {D I : Type 0} → Oracle D I → History D I → Call D I → History D I
after o h c = record { call = c; reply = o h c } ∷ h

abbrev pub Safe :
    {D I A : Type 0} → Oracle D I → Permit D I → Post D I A → Tx D I A → History D I → Type 0
Safe o permit post (ret a) h = post h a
Safe o permit post (ask c k) h = (permit h c ≡ true) × Safe o permit post (k (o h c)) (after o h c)

module _ {D I : Type 0} (o : Oracle D I) (permit : Permit D I) where
  -- The rule for a call of another program.
  pub Safe-bind :
      {A B : Type 0} (mid : Post D I A) (post : Post D I B) (m : Tx D I A) (k : A → Tx D I B)
      (h : History D I)
      → Safe o permit mid m h
      → ((g : History D I) (a : A) → mid g a → Safe o permit post (k a) g)
      → Safe o permit post (m >>= k) h
  Safe-bind mid post (ret a) k h s rest = rest h a s
  Safe-bind mid post (ask c m) k h s rest =
      (s.0, Safe-bind mid post (m (o h c)) k (after o h c) s.1 rest)

  pub Safe-mono :
      {A : Type 0} (mid post : Post D I A) (m : Tx D I A) (h : History D I)
      → Safe o permit mid m h
      → ((g : History D I) (a : A) → mid g a → post g a)
      → Safe o permit post m h
  Safe-mono mid post (ret a) h s rest = rest h a s
  Safe-mono mid post (ask c m) h s rest =
      (s.0, Safe-mono mid post (m (o h c)) (after o h c) s.1 rest)

  -- Two claims of one run.
  pub Safe-and :
      {A : Type 0} (p q : Post D I A) (m : Tx D I A) (h : History D I)
      → Safe o permit p m h
      → Safe o permit q m h
      → Safe o permit (λ g a. p g a × q g a) m h
  Safe-and p q (ret a) h s t = (s, t)
  Safe-and p q (ask c m) h s t = (s.0, Safe-and p q (m (o h c)) (after o h c) s.1 t.1)

module _ {D I : Type 0} (o : Oracle D I) (permit : Permit D I) {A B : Type 0} where
  -- The rule for `?`.
  pub Safe-or_fail :
      (mid : Post D I (Fallible A)) (post : Post D I B) (fail : Error → B) (m : Tx D I (Fallible A))
      (k : A → Tx D I B) (h : History D I)
      → Safe o permit mid m h
      → ((g : History D I) (a : A) → mid g (ok a) → Safe o permit post (k a) g)
      → ((g : History D I) (e : Error) → mid g (err e) → post g (fail e))
      → Safe o permit post (or_fail fail m k) h
  Safe-or_fail mid post fail m k h s good bad =
      Safe-bind o permit mid post m _ h s (λ g r p. go g r p)
    where
      go :
          (g : History D I) (r : Fallible A)
          → mid g r
          → Safe o permit post (elim r [ ok a ↦ k a | err e ↦ ret (fail e) ]) g
      go g (ok a) p = good g a p
      go g (err e) p = bad g e p

-- A run against the oracle, for tests: the result and the whole history.
pub run : {D I A : Type 0} → Oracle D I → Tx D I A → History D I → A × History D I
run o (ret a) h = (a, h)
run o (ask c k) h = run o (k (o h c)) (after o h c)

-- What is claimed of a program is claimed of its run.
pub Safe-run :
    {D I A : Type 0} (o : Oracle D I) (permit : Permit D I) (post : Post D I A) (m : Tx D I A)
    (h : History D I)
    → Safe o permit post m h
    → Safe o permit (λ g a. post g a × (run o m h ≡ (a, g))) m h
unfolding run
Safe-run o permit post (ret a) h s = (s, refl)
Safe-run o permit post (ask c k) h s = (s.0, Safe-run o permit post (k (o h c)) (after o h c) s.1)

-- Every call of the history was permitted when it was made, back to `start`.
pub data Permitted {D I : Type 0} (permit : Permit D I) (start : History D I)
    : History D I → Type 0 where
  begin : Permitted permit start start
  next :
      {h : History D I} (e : Event D I)
      → Permitted permit start h
      → permit h e.call ≡ true
      → Permitted permit start (e ∷ h)

pub run-Permitted :
    {D I A : Type 0} (o : Oracle D I) (permit : Permit D I) (post : Post D I A) (m : Tx D I A)
    (start h : History D I)
    → Permitted permit start h
    → Safe o permit post m h
    → Permitted permit start (run o m h).1 × post (run o m h).1 (run o m h).0
unfolding run
run-Permitted o permit post (ret a) start h p safe = (p, safe)
run-Permitted o permit post (ask c k) start h p safe =
    run-Permitted o permit post (k (o h c)) start (after o h c)
      (next (record { call = c; reply = o h c }) p safe.0) safe.1
