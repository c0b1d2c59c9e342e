-- ===== src/Normalize/Canonical.antt =====
-- What a normalized domain name looks like.
use osdns.Prelude.{
  ℕ, ◌+◌, ◌-◌, ◌≡◌, refl, Bool, true, false, Option, none, some, List, [], ◌∷◌, not, ◌&&◌, ◌||◌,
  leb, ltb, ◌==◌, length, arith, Bool-cases, inl, inr,
}
use osdns.Text.{Text}
use osdns.Error.{Fallible, ok, err}
use osdns.Normalize.{
  strip_dot, push_char, split, all_allowed, is_allowed, is_blank, check_label, check_labels,
  bounded, check_ascii, normalize_domain,
}

-- Letters, digits, hyphens and dots.
abbrev pub all_name_chars : Text → Bool
all_name_chars [] = true
all_name_chars (c ∷ cs) = (is_allowed c || c == 46) && all_name_chars cs

abbrev pub ends_with_dot : Text → Bool
ends_with_dot [] = false
ends_with_dot (c ∷ []) = c == 46
ends_with_dot (c ∷ d ∷ ds) = ends_with_dot (d ∷ ds)

abbrev fine : List Text → Bool
fine [] = true
fine (l ∷ ls) = not (is_blank l) && leb (length l) 63 && all_allowed l && fine ls

abbrev total_of : List Text → ℕ
total_of [] = 0
total_of (l ∷ ls) = (length l + 1) + total_of ls

abbrev LabelPost : Text → Fallible (Unit {0}) → Type 0
LabelPost l (ok u) = (not (is_blank l) && leb (length l) 63 && all_allowed l) ≡ true
LabelPost l (err e) = Unit {0}

check_label-Label : (l : Text) → LabelPost l (check_label l)
unfolding check_label
check_label-Label l = ground arith

abbrev CheckedPost : List Text → ℕ → Fallible ℕ → Type 0
CheckedPost ls t (ok n) = (fine ls ≡ true) × (n ≡ t + total_of ls)
CheckedPost ls t (err e) = Unit {0}

check_labels-Checked : (ls : List Text) (t : ℕ) → CheckedPost ls t (check_labels ls t)
unfolding check_labels
check_labels-Checked [] t = (refl, omega arith)
check_labels-Checked (l ∷ ls) t =
    go (check_label l) (check_label-Label l) (check_labels-Checked ls (t + (length l + 1)))
  where
    shift :
        (r : Fallible ℕ)
        → (not (is_blank l) && leb (length l) 63 && all_allowed l) ≡ true
        → CheckedPost ls (t + (length l + 1)) r
        → CheckedPost (l ∷ ls) t r
    shift (ok n) v p = (ground (arith, p.0), omega (arith, p.1))
    shift (err e) v p = tt

    go :
        (r : Fallible (Unit {0}))
        → LabelPost l r
        → CheckedPost ls (t + (length l + 1)) (check_labels ls (t + (length l + 1)))
        → CheckedPost
            (l ∷ ls)
            t
            (elim r [ ok u ↦ check_labels ls (t + (length l + 1)) | err e ↦ err e ])
    go (ok u) v p = shift (check_labels ls (t + (length l + 1))) v p
    go (err e) v p = tt

abbrev has_label : List Text → Bool
has_label [] = false
has_label (l ∷ ls) = true

split-has_label : (t : Text) → has_label (split t) ≡ true
unfolding split
split-has_label [] = refl
split-has_label (c ∷ cs) = ground (arith, split-has_label cs)

push_char-total :
    (c : ℕ) (ls : List Text) → has_label ls ≡ true → total_of (push_char c ls) ≡ total_of ls + 1
push_char-total c [] h = ground arith
push_char-total c (l ∷ ls) h = omega arith

-- The labels and the dots between them.
split-total : (t : Text) → total_of (split t) ≡ length t + 1
unfolding split
split-total [] = refl
split-total (c ∷ cs) = elim (Bool-cases (c == 46)) [
  | inl e ↦ rw e (omega (arith, split-total cs))
  | inr n ↦ rw n (omega (arith, split-total cs, push_char-total c (split cs) (split-has_label cs)))
]

abbrev all_chars : List Text → Bool
all_chars [] = true
all_chars (l ∷ ls) = all_allowed l && all_chars ls

fine-chars : (ls : List Text) → fine ls ≡ true → all_chars ls ≡ true
fine-chars [] h = refl
fine-chars (l ∷ ls) h = ground (arith, fine-chars ls (ground arith))

push_char-chars :
    (c : ℕ) (ls : List Text) → all_chars (push_char c ls) ≡ (is_allowed c && all_chars ls)
push_char-chars c [] = ground arith
push_char-chars c (l ∷ ls) = ground arith

split-chars : (t : Text) → all_chars (split t) ≡ true → all_name_chars t ≡ true
unfolding split
split-chars [] h = refl
split-chars (c ∷ cs) h = elim (Bool-cases (c == 46)) [
  | inl e ↦ ground (arith, split-chars cs)
  | inr n ↦ ground (arith, split-chars cs, push_char-chars c (split cs))
]

-- A text that ends with a dot has at least two labels, the last of which is empty.
abbrev last_blank : List Text → Bool
last_blank [] = false
last_blank (l ∷ []) = false
last_blank (l ∷ m ∷ []) = is_blank m
last_blank (l ∷ m ∷ n ∷ ls) = last_blank (m ∷ n ∷ ls)

push_char-last :
    (c : ℕ) (ls : List Text) → last_blank ls ≡ true → last_blank (push_char c ls) ≡ true
push_char-last c [] h = ground arith
push_char-last c (l ∷ []) h = ground arith
push_char-last c (l ∷ m ∷ []) h = h
push_char-last c (l ∷ m ∷ n ∷ ls) h = h

cons-last : (ls : List Text) → last_blank ls ≡ true → last_blank ([] ∷ ls) ≡ true
cons-last [] h = ground arith
cons-last (l ∷ []) h = ground arith
cons-last (l ∷ m ∷ ls) h = h

split-last : (t : Text) → ends_with_dot t ≡ true → last_blank (split t) ≡ true
unfolding split
split-last [] h = ground arith
split-last (c ∷ []) h = ground arith
split-last (c ∷ d ∷ ds) h = elim (Bool-cases (c == 46)) [
  | inl e ↦ rw e (cons-last (split (d ∷ ds)) (split-last (d ∷ ds) h))
  | inr n ↦ rw n (push_char-last c (split (d ∷ ds)) (split-last (d ∷ ds) h))
]

fine-last : (ls : List Text) → fine ls ≡ true → last_blank ls ≡ false
fine-last [] h = refl
fine-last (l ∷ []) h = refl
fine-last (l ∷ m ∷ []) h = ground arith
fine-last (l ∷ m ∷ n ∷ ls) h = fine-last (m ∷ n ∷ ls) (ground arith)

-- At most 253 bytes, all of them name characters, and no dot at the end.
abbrev pub is_canonical : Text → Bool
is_canonical name = leb (length name) 253 && all_name_chars name && not (ends_with_dot name)

abbrev pub CanonicalPost : Fallible Text → Type 0
CanonicalPost (ok name) = is_canonical name ≡ true
CanonicalPost (err e) = Unit {0}

bounded-Canonical :
    (ascii : Text) (r : Fallible ℕ)
    → CheckedPost (split ascii) 0 r
    → CanonicalPost (bounded ascii r)
bounded-Canonical ascii (err e) p = tt
bounded-Canonical ascii (ok n) p = elim (Bool-cases (ltb 253 (n - 1))) [
  | inl e ↦ rw e tt
  | inr s ↦ rw s (
      ground (
        arith,
        p.1,
        split-total ascii,
        split-chars ascii (fine-chars (split ascii) p.0),
        not_dotted,
      ))
]
  where
    not_dotted : not (ends_with_dot ascii) ≡ true
    not_dotted = ground (arith, split-last ascii, fine-last (split ascii) p.0)

pub check_ascii-Canonical : (o : Option Text) → CanonicalPost (check_ascii o)
unfolding check_ascii
check_ascii-Canonical none = tt
check_ascii-Canonical (some ascii) =
    bounded-Canonical ascii (check_labels (split ascii) 0) (check_labels-Checked (split ascii) 0)

-- Whatever trimming and the IDNA mapping do, a name that `normalize_domain` accepts has at most 253
-- bytes, all of them lower-case letters, digits, hyphens or dots, and does not end with a dot.
pub normalize_domain-Canonical :
    (trim : Text → Text) (to_ascii : Text → Option Text) (input : Text)
    → CanonicalPost (normalize_domain trim to_ascii input)
unfolding normalize_domain
normalize_domain-Canonical trim to_ascii input =
    elim (Bool-cases (is_blank (strip_dot (trim input)))) [
      | inl e ↦ rw e refl
      | inr n ↦ rw n (check_ascii-Canonical (to_ascii (strip_dot (trim input))))
    ]
