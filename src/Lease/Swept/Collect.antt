-- ===== src/Lease/Swept/Collect.antt =====
-- The sweep over the live records of a lease, from what settling one of them does.
use osdns.Engine.Confined.Frames.{same_resource-eq}
use osdns.Prelude.{
  Bool-cases, inl, inr, not, subst, ◌≡◌, refl, ap, ◌∙◌, true, false, List, [], ◌∷◌, ◌||◌, arith,
}
use osdns.Text.{text_eq_refl}
use osdns.Error.{ResourceId, ok, err}
use osdns.Platform.{Backend}
use osdns.Tx.{call_lock_token, call_unregister, History, Tx}
use osdns.Tx.History.{same_resource, journal_of, locked}
use osdns.Tx.Logic.{Oracle, Safe, Safe-bind, after}
use osdns.Engine.Confined.{among, is_cleared, all_locked}
use osdns.Engine.Live.{LiveRecord, Outcome, resource_of, resources_of}
use osdns.Engine.Rules.{rules}
use osdns.Lease.{Sweep, sweep_record, sweep, collect}
use osdns.Lease.Swept.{
  apart, all_in, fit, IsHeld, NothingTaken, AllKeptOrEnded, matches_failure, SettledPost, Untouched,
  RecordPost, LeftPost, release_if_ok-Safe,
}

module _ {D I : Type 0} where
  all_locked-Untouched :
      (r : ResourceId) (locks left rs : List ResourceId) (h g : History D I)
      → Untouched r locks left h g
      → among rs r ≡ false
      → all_locked rs h ≡ true
      → all_locked rs g ≡ true
  all_locked-Untouched r locks left [] h g u n k = refl
  all_locked-Untouched r locks left (s ∷ rs) h g u n k = ground (
    arith,
    u s (apart r s rs n),
    all_locked-Untouched r locks left rs h g u (ground arith) (ground arith),
  )

  all_in-Untouched :
      (r : ResourceId) (locks left rs : List ResourceId) (h g : History D I)
      → Untouched r locks left h g
      → among rs r ≡ false
      → all_in locks rs ≡ true
      → all_in left rs ≡ true
  all_in-Untouched r locks left [] h g u n k = refl
  all_in-Untouched r locks left (s ∷ rs) h g u n k = ground (
    arith,
    u s (apart r s rs n),
    all_in-Untouched r locks left rs h g u (ground arith) (ground arith),
  )

  -- One more record is kept.
  AllKeptOrEnded-cons :
      (rs : List ResourceId) (l : LiveRecord D I) (kept : List (LiveRecord D I)) (h : History D I)
      → AllKeptOrEnded rs kept h
      → AllKeptOrEnded rs (l ∷ kept) h
  AllKeptOrEnded-cons [] l kept h v = tt
  AllKeptOrEnded-cons (r ∷ rs) l kept h v = (ground arith, AllKeptOrEnded-cons rs l kept h v.1)

  -- What a sweep over the records `ls` under the locks `locks` does.
  pub record IsSwept (ls : List (LiveRecord D I)) (locks : List ResourceId) (h g : History D I)
      (w : Sweep D I) : Type 0 where
    pub outside :
        (s : ResourceId)
        → among (resources_of ls) s ≡ false
        → (locked s g ≡ locked s h)
          × (is_cleared s (journal_of g) ≡ is_cleared s (journal_of h))
          × (among w.locks s ≡ among locks s)
          × (among (resources_of w.kept) s ≡ false)
    pub verdicts : AllKeptOrEnded (resources_of ls) w.kept g
    pub still_held : IsHeld w.kept w.locks g
    pub untaken : NothingTaken h g
    pub failing : matches_failure w.failure w.kept ≡ true

  untaken_step :
      (q r : ResourceId) (locks left : List ResourceId) (h g k : History D I)
      → locked q h ≡ true
      → Untouched q locks left h g
      → NothingTaken g k
      → (not (locked r k) || locked r h) ≡ true
  untaken_step q r locks left h g k f u t = elim (Bool-cases (same_resource q r)) [
    | inl e ↦ ground (arith, subst (λ s. locked s h ≡ true) (same_resource-eq q r e) f)
    | inr n ↦ ground (arith, u r n, t r)
  ]

  -- The two halves of a sweep.
  collect-IsSwept :
      (l : LiveRecord D I) (ls : List (LiveRecord D I)) (locks left : List ResourceId)
      (h g k : History D I) (outcome : Outcome D I) (w : Sweep D I)
      → among (resources_of ls) (resource_of l) ≡ false
      → locked (resource_of l) h ≡ true
      → LeftPost l locks h outcome g left
      → IsSwept ls left g k w
      → IsSwept (l ∷ ls) locks h k (collect outcome w)
  collect-IsSwept l ls locks left h g k (ok u, l') w n f p s = record {
    outside = λ r m.
        let q = s.outside r (ground arith) in
        let t = p.0 r (ground arith) in (q.0 ∙ t.0, q.1 ∙ t.1, q.2 ∙ t.2, q.3);
    verdicts = (ground (arith, s.outside (resource_of l) n, p.1), s.verdicts);
    still_held = s.still_held;
    untaken = λ r. untaken_step (resource_of l) r locks left h g k f p.0 s.untaken;
    failing = s.failing;
  }
  collect-IsSwept l ls locks left h g k (err e, l') w n f p s =
      let q = s.outside (resource_of l) n in
      record {
        outside = λ r m.
            let q = s.outside r (ground arith) in
            let t = p.0 r (ground arith) in
            (
              q.0 ∙ t.0,
              q.1 ∙ t.1,
              q.2 ∙ t.2,
              ap (λ x. same_resource x r || among (resources_of w.kept) r) p.1.1 ∙ ground arith,
            );
        verdicts = (
          ground (
            arith,
            ap (λ x. same_resource x (resource_of l)) p.1.1,
            text_eq_refl (resource_of l).text,
          ),
          AllKeptOrEnded-cons (resources_of ls) l' w.kept k s.verdicts,
        );
        still_held = record {
          fits = (p.1.0, s.still_held.fits);
          differ = ground (arith, ap (among (resources_of w.kept)) p.1.1, q.3, s.still_held.differ);
          listed = ground (arith, ap (among w.locks) p.1.1, q.2, p.1.3, s.still_held.listed);
          held = ground (arith, ap (λ x. locked x k) p.1.1, q.0, p.1.2, s.still_held.held);
        };
        untaken = λ r. untaken_step (resource_of l) r locks left h g k f p.0 s.untaken;
        failing = refl;
      }

module _ {D I : Type 0} (b : Backend D) (o : Oracle D I)
    (settle : LiveRecord D I → Tx D I (Outcome D I))
    (settles : (l : LiveRecord D I) (h : History D I)
      → fit l ≡ true
      → locked (resource_of l) h ≡ true
      → Safe o (rules b) (SettledPost l h) (settle l) h) where
  sweep_record-Safe :
      (l : LiveRecord D I) (locks : List ResourceId) (h : History D I)
      → fit l ≡ true
      → locked (resource_of l) h ≡ true
      → among locks (resource_of l) ≡ true
      → Safe o (rules b) (RecordPost l locks h) (sweep_record settle l locks) h
  unfolding sweep_record
  sweep_record-Safe l locks h f k w = (
    refl,
    (
      refl,
      Safe-bind o (rules b) (SettledPost l h) (RecordPost l locks h) _ _ _
          (settles l
            (after o (after o h (call_lock_token (resource_of l)))
              (call_unregister (resource_of l)))
            f k)
          (λ g outcome p.
            Safe-bind o (rules b) (LeftPost l locks h outcome) (RecordPost l locks h) _ _ g
              (release_if_ok-Safe b o l locks h g outcome w k p) (λ g' left q. (refl, q))),
    ),
  )

  pub sweep-IsSwept :
      (ls : List (LiveRecord D I)) (locks : List ResourceId) (h : History D I)
      → IsHeld ls locks h
      → Safe o (rules b) (IsSwept ls locks h) (sweep settle ls locks) h
  unfolding sweep
  sweep-IsSwept [] locks h v = record {
    outside = λ s n. (refl, refl, refl, refl);
    verdicts = tt;
    still_held = v;
    untaken = λ s. ground arith;
    failing = refl;
  }
  sweep-IsSwept (l ∷ ls) locks h v =
      let n : among (resources_of ls) (resource_of l) ≡ false = ground (arith, v.differ) in
      Safe-bind o (rules b) (RecordPost l locks h) (IsSwept (l ∷ ls) locks h) _ _ h
        (sweep_record-Safe l locks h v.fits.0 (ground (arith, v.held)) (ground (arith, v.listed)))
        (λ g t p.
          Safe-bind o (rules b) (IsSwept ls t.1 g) (IsSwept (l ∷ ls) locks h) _ _ g
            (sweep-IsSwept ls t.1 g (record {
              fits = v.fits.1;
              differ = ground (arith, v.differ);
              listed =
                  all_in-Untouched (resource_of l) locks t.1 (resources_of ls) h g p.0 n
                    (ground (arith, v.listed));
              held =
                  all_locked-Untouched (resource_of l) locks t.1 (resources_of ls) h g p.0 n
                    (ground (arith, v.held));
            }))
            (λ k w s. collect-IsSwept l ls locks t.1 h g k t.0 w n (ground (arith, v.held)) p s))
