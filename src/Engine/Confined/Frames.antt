-- ===== src/Engine/Confined/Frames.antt =====
-- The frame rules of confined programs.
use mathlib.Core.Bool.{false≢true}
use osdns.Prelude.{
  ◌≡◌, refl, sym, subst, ◌∙◌, true, false, List, [], ◌∷◌, arith, Bool-cases, inl, inr,
}
use osdns.Text.{text_eq_eq}
use osdns.Error.{ResourceId, ok, err}
use osdns.Tx.{
  Call, Reply, call_write, call_remove, call_apply_bound, call_restore_bound, call_acquire,
  call_try_acquire, call_release, History, Tx, ret, ask,
}
use osdns.Tx.History.{same_resource, journal_of, locked}
use osdns.Tx.Logic.{Oracle, Post, Safe, Safe-mono, after}
use osdns.Engine.Live.{LiveRecord, resource_of}
use osdns.Engine.Confined.{
  live_in, live_in-covers, among, confined, is_cleared, all_locked, guarded, SealedPost,
}

pub same_resource-eq : (r s : ResourceId) → same_resource r s ≡ true → r ≡ s
same_resource-eq r s h = λ i. record { text = text_eq_eq r.text s.text h i }

-- Resources on either side of a list differ.
pub among-differs :
    (rs : List ResourceId) (r s : ResourceId)
    → among rs r ≡ true
    → among rs s ≡ false
    → same_resource r s ≡ false
among-differs rs r s h k = elim (Bool-cases (same_resource r s)) [
  | inl e ↦ absurd (false≢true (sym k ∙ subst (λ t. among rs t ≡ true) (same_resource-eq r s e) h))
  | inr e ↦ e
]

among-moved :
    (rs : List ResourceId) (r s : ResourceId)
    → among rs r ≡ true
    → among (r ∷ []) s ≡ true
    → among rs s ≡ true
among-moved rs r s a p = subst (λ t. among rs t ≡ true) (same_resource-eq r s (ground arith)) a

module _ {D I : Type 0} where
  all_locked-among :
      (rs : List ResourceId) (r : ResourceId) (h : History D I)
      → all_locked rs h ≡ true
      → among rs r ≡ true
      → locked r h ≡ true
  all_locked-among [] r h l a = absurd (false≢true a)
  all_locked-among (s ∷ rs) r h l a = elim (Bool-cases (same_resource s r)) [
    | inl e ↦ subst (λ t. locked t h ≡ true) (same_resource-eq s r e) (ground arith)
    | inr e ↦ all_locked-among rs r h (ground arith) (ground arith)
  ]

  pub all_locked-same :
      (rs : List ResourceId) (g h : History D I)
      → ((r : ResourceId) → locked r g ≡ locked r h)
      → all_locked rs h ≡ true
      → all_locked rs g ≡ true
  all_locked-same [] g h same l = refl
  all_locked-same (r ∷ rs) g h same l =
      ground (arith, same r, all_locked-same rs g h same (ground arith))

  -- A confined call touches no lock.
  confined-locked :
      (rs : List ResourceId) (c : Call D I) (reply : Reply c) (h : History D I) (r : ResourceId)
      → confined rs h c ≡ true
      → locked r (record { call = c; reply = reply } ∷ h) ≡ locked r h
  confined-locked rs (call_acquire s) reply h r p = absurd (false≢true p)
  confined-locked rs (call_try_acquire s) reply h r p = absurd (false≢true p)
  confined-locked rs (call_release s) reply h r p = absurd (false≢true p)
  confined-locked rs c reply h r p = refl

  confined-guarded :
      (rs : List ResourceId) (c : Call D I) (h : History D I)
      → all_locked rs h ≡ true
      → confined rs h c ≡ true
      → guarded h c ≡ true
  confined-guarded rs (call_write x) h l p = all_locked-among rs x.resource h l p
  confined-guarded rs (call_remove n s) h l p = all_locked-among rs s h l p
  confined-guarded rs (call_apply_bound i expected plan) h l p =
      all_locked-among rs i.resource h l p
  confined-guarded rs (call_restore_bound i evidence target) h l p =
      all_locked-among rs i.resource h l p
  confined-guarded rs c h l p = refl

  confined-is_cleared :
      (rs : List ResourceId) (s : ResourceId) (c : Call D I) (reply : Reply c) (h : History D I)
      → among rs s ≡ false
      → confined rs h c ≡ true
      → is_cleared s (journal_of (record { call = c; reply = reply } ∷ h))
        ≡ is_cleared s (journal_of h)
  confined-is_cleared rs s (call_write x) (ok u) h a p = rw (among-differs rs x.resource s p a) refl
  confined-is_cleared rs s (call_write x) (err e) h a p =
      rw (among-differs rs x.resource s p a) refl
  confined-is_cleared rs s (call_remove n r) (ok u) h a p = rw (among-differs rs r s p a) refl
  confined-is_cleared rs s (call_remove n r) (err e) h a p = rw (among-differs rs r s p a) refl
  confined-is_cleared rs s c reply h a p = refl

  -- A confined program under its locks obeys the locking rule, changes no lock, and leaves what is
  -- known of the records of other resources.
  pub Safe-sealed :
      {A : Type 0} (o : Oracle D I) (rs : List ResourceId) (post : Post D I A) (m : Tx D I A)
      (h : History D I)
      → all_locked rs h ≡ true
      → Safe o (confined rs) post m h
      → Safe o guarded (SealedPost rs h post) m h
  Safe-sealed o rs post (ret a) h l s = ((λ r. refl), (λ r n. refl), s)
  Safe-sealed o rs post (ask c k) h l s = (
    confined-guarded rs c h l s.0,
    Safe-mono o guarded (SealedPost rs (after o h c) post) (SealedPost rs h post) (k (o h c))
        (after o h c)
        (Safe-sealed o rs post (k (o h c)) (after o h c)
          (all_locked-same rs (after o h c) h (λ r. confined-locked rs c (o h c) h r s.0) l) s.1)
        (λ g a p. (
          (λ r. p.0 r ∙ confined-locked rs c (o h c) h r s.0),
          (λ r n. p.1 r n ∙ confined-is_cleared rs r c (o h c) h n s.0),
          p.2,
        )),
  )

  -- What is confined to one resource is confined to any list with it.
  confined-among :
      (rs : List ResourceId) (r : ResourceId) (h : History D I) (c : Call D I)
      → among rs r ≡ true
      → confined (r ∷ []) h c ≡ true
      → confined rs h c ≡ true
  confined-among rs r h (call_write x) a p = among-moved rs r x.resource a p
  confined-among rs r h (call_remove n s) a p = among-moved rs r s a p
  confined-among rs r h (call_apply_bound i expected plan) a p = among-moved rs r i.resource a p
  confined-among rs r h (call_restore_bound i evidence target) a p = among-moved rs r i.resource a p
  confined-among rs r h (call_acquire s) a p = p
  confined-among rs r h (call_try_acquire s) a p = p
  confined-among rs r h (call_release s) a p = p
  confined-among rs r h c a p = refl

  pub Safe-among :
      {A : Type 0} (o : Oracle D I) (rs : List ResourceId) (r : ResourceId) (post : Post D I A)
      (m : Tx D I A) (h : History D I)
      → among rs r ≡ true
      → Safe o (confined (r ∷ [])) post m h
      → Safe o (confined rs) post m h
  Safe-among o rs r post (ret x) h a s = s
  Safe-among o rs r post (ask c k) h a s =
      (confined-among rs r h c a s.0, Safe-among o rs r post (k (o h c)) (after o h c) a s.1)

  -- A live record within one resource is about that resource.
  pub live_in-resource :
      (r : ResourceId) (l : LiveRecord D I)
      → live_in (r ∷ []) l.state l.entry ≡ true
      → r ≡ resource_of l
  live_in-resource r l v =
      same_resource-eq r (resource_of l) (ground (arith, live_in-covers (r ∷ []) l.state l.entry v))
