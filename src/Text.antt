-- ===== src/Text.antt =====
-- Text as the list of its bytes: what the code does with `String` and `&str` by their contents.
use osdns.Prelude.{ℕ, ◌≡◌, refl, Bool, true, false, List, [], ◌∷◌, arith, ◌&&◌, ◌==◌}

abbrev pub Text : Type 0
Text = List ℕ

-- `==` of two strings.
unfoldable pub text_eq : Text → Text → Bool
text_eq [] [] = true
text_eq (x ∷ xs) (y ∷ ys) = x == y && text_eq xs ys
text_eq _ _ = false

pub text_eq_refl : (t : Text) → text_eq t t ≡ true
unfolding text_eq
text_eq_refl [] = refl
text_eq_refl (x ∷ xs) = ground (arith, text_eq_refl xs)

pub text_eq_eq : (s t : Text) → text_eq s t ≡ true → s ≡ t
unfolding text_eq
text_eq_eq [] [] h = refl
text_eq_eq [] (y ∷ ys) h = ground arith
text_eq_eq (x ∷ xs) [] h = ground arith
text_eq_eq (x ∷ xs) (y ∷ ys) h = ground (arith, text_eq_eq xs ys)

pub text_eq_comm : (s t : Text) → text_eq s t ≡ text_eq t s
unfolding text_eq
text_eq_comm [] [] = refl
text_eq_comm [] (y ∷ ys) = refl
text_eq_comm (x ∷ xs) [] = refl
text_eq_comm (x ∷ xs) (y ∷ ys) = ground (arith, text_eq_comm xs ys)

-- `==` of two vectors, by that of their items.
unfoldable pub list_eq {ℓ} : {A : Type ℓ} → (A → A → Bool) → List A → List A → Bool
list_eq eq [] [] = true
list_eq eq (x ∷ xs) (y ∷ ys) = eq x y && list_eq eq xs ys
list_eq eq _ _ = false

pub list_eq_refl {ℓ} :
    {A : Type ℓ} (eq : A → A → Bool)
    → ((a : A) → eq a a ≡ true)
    → (xs : List A) → list_eq eq xs xs ≡ true
unfolding list_eq
list_eq_refl eq same [] = refl
list_eq_refl eq same (x ∷ xs) = ground (arith, same x, list_eq_refl eq same xs)
