-- ===== src/Ownership/Sorted.antt =====
-- The order in which the locks of several resources are taken.
use mathlib.Core.Bool.{false≢true}
use osdns.Prelude.{
  ◌≡◌, refl, sym, ap, subst, Bool, true, List, [], ◌∷◌, ◌&&◌, ◌||◌, not, arith, Bool-cases, inl,
  inr,
}
use osdns.Text.{Text, text_eq}
use osdns.Error.{ResourceId}
use osdns.Tx.History.{same_resource}
use osdns.Engine.Confined.{among}
use osdns.Engine.Confined.Frames.{same_resource-eq}
use osdns.Ownership.{text_le, insert, sort, dedup_after, dedup}

text_le_total : (s t : Text) → (text_le s t || text_le t s) ≡ true
unfolding text_le
text_le_total [] t = refl
text_le_total (x ∷ xs) [] = refl
text_le_total (x ∷ xs) (y ∷ ys) = ground (arith, text_le_total xs ys)

text_le_antisym : (s t : Text) → text_le s t ≡ true → text_le t s ≡ true → text_eq s t ≡ true
unfolding text_le text_eq
text_le_antisym [] [] h k = refl
text_le_antisym [] (y ∷ ys) h k = absurd (false≢true k)
text_le_antisym (x ∷ xs) [] h k = absurd (false≢true h)
text_le_antisym (x ∷ xs) (y ∷ ys) h k = ground (arith, text_le_antisym xs ys)

abbrev is_sorted : List ResourceId → Bool
is_sorted [] = true
is_sorted (r ∷ []) = true
is_sorted (r ∷ s ∷ ss) = text_le r.text s.text && is_sorted (s ∷ ss)

-- Each is strictly below the next.
abbrev pub is_ascending : List ResourceId → Bool
is_ascending [] = true
is_ascending (r ∷ []) = true
is_ascending (r ∷ s ∷ ss) = not (text_le s.text r.text) && is_ascending (s ∷ ss)

insert-sorted :
    (r : ResourceId) (ss : List ResourceId) → is_sorted ss ≡ true → is_sorted (insert r ss) ≡ true
unfolding insert
insert-sorted r [] v = refl
insert-sorted r (s ∷ []) v = ground (arith, text_le_total r.text s.text)
insert-sorted r (s ∷ t ∷ ss) v =
    ground (arith, text_le_total r.text s.text, insert-sorted r (t ∷ ss) (ground arith))

sort-sorted : (rs : List ResourceId) → is_sorted (sort rs) ≡ true
unfolding sort
sort-sorted [] = refl
sort-sorted (r ∷ rs) = insert-sorted r (sort rs) (sort-sorted rs)

tail_sorted :
    (r : ResourceId) (rs : List ResourceId) → is_sorted (r ∷ rs) ≡ true → is_sorted rs ≡ true
tail_sorted r [] v = refl
tail_sorted r (s ∷ ss) v = ground arith

dedup_after-ascending :
    (r : ResourceId) (ss : List ResourceId)
    → is_sorted (r ∷ ss) ≡ true
    → is_ascending (r ∷ dedup_after r ss) ≡ true
unfolding dedup_after
dedup_after-ascending r [] v = refl
dedup_after-ascending r (s ∷ ss) v = elim (Bool-cases (same_resource r s)) [
  | inl e ↦ rw e (
      dedup_after-ascending r ss (
        subst (λ t. is_sorted (t ∷ ss) ≡ true) (sym (same_resource-eq r s e))
          (tail_sorted r (s ∷ ss) v)))
  | inr n ↦ rw n (
      ground (
        arith,
        text_le_antisym r.text s.text,
        dedup_after-ascending s ss (tail_sorted r (s ∷ ss) v),
      ))
]

insert-among :
    (r : ResourceId) (ss : List ResourceId) (q : ResourceId)
    → among (insert r ss) q ≡ (same_resource r q || among ss q)
unfolding insert
insert-among r [] q = refl
insert-among r (s ∷ ss) q = ground (arith, insert-among r ss q)

sort-among : (rs : List ResourceId) (q : ResourceId) → among (sort rs) q ≡ among rs q
unfolding sort
sort-among [] q = refl
sort-among (r ∷ rs) q = ground (arith, insert-among r (sort rs) q, sort-among rs q)

dedup_after-among :
    (r : ResourceId) (ss : List ResourceId) (q : ResourceId)
    → among (r ∷ dedup_after r ss) q ≡ among (r ∷ ss) q
unfolding dedup_after
dedup_after-among r [] q = refl
dedup_after-among r (s ∷ ss) q = elim (Bool-cases (same_resource r s)) [
  | inl e ↦ rw e (
      ground
        (arith, dedup_after-among r ss q, ap (λ t. same_resource t q) (same_resource-eq r s e)))
  | inr n ↦ rw n (ground (arith, dedup_after-among s ss q))
]

dedup-among : (rs : List ResourceId) (q : ResourceId) → among (dedup rs) q ≡ among rs q
unfolding dedup
dedup-among [] q = refl
dedup-among (r ∷ rs) q = dedup_after-among r rs q

pub locked_order-among :
    (rs : List ResourceId) (q : ResourceId) → among (dedup (sort rs)) q ≡ among rs q
locked_order-among rs q = rw (dedup-among (sort rs) q) (sort-among rs q)

dedup-ascending : (rs : List ResourceId) → is_sorted rs ≡ true → is_ascending (dedup rs) ≡ true
unfolding dedup
dedup-ascending [] v = refl
dedup-ascending (r ∷ rs) v = dedup_after-ascending r rs v

-- The order in which `acquire_all` takes its locks.
pub locked_order-ascending : (rs : List ResourceId) → is_ascending (dedup (sort rs)) ≡ true
locked_order-ascending rs = dedup-ascending (sort rs) (sort-sorted rs)
