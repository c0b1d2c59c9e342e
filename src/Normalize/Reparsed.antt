-- ===== src/Normalize/Reparsed.antt =====
-- The printed form of a parsed suffix is parsed to the same suffix.
use osdns.Prelude.{
  ◌≡◌, refl, sym, ap, subst, ◌∙◌, true, false, Option, none, some, [], ◌∷◌, if◌then◌else◌, arith,
  Bool-cases, inl, inr, ℕ,
}
use osdns.Text.{Text}
use osdns.Error.{Fallible, ok, err}
use osdns.Platform.{DnsSuffix}
use osdns.Normalize.{
  strip_dot, is_blank, check_labels, split, bounded, check_ascii, normalize_domain, suffix_of,
  parse, display, display_name,
}
use osdns.Normalize.Canonical.{all_name_chars, ends_with_dot, CanonicalPost, check_ascii-Canonical}

strip_dot_none : (t : Text) → ends_with_dot t ≡ false → strip_dot t ≡ t
unfolding strip_dot
strip_dot_none [] h = refl
strip_dot_none (c ∷ []) h = rw h refl
strip_dot_none (c ∷ d ∷ ds) h = ap (λ t. c ∷ t) (strip_dot_none (d ∷ ds) h)

bounded-eq : (a name : Text) (r : Fallible ℕ) → bounded a r ≡ ok name → name ≡ a
bounded-eq a name (err e) h = cc
bounded-eq a name (ok n) h = ground arith

abbrev name_or_root : Fallible DnsSuffix → Text
name_or_root (ok d) = d.name
name_or_root (err e) = []

module _ (trim : Text → Text) (to_ascii : Text → Option Text)
    (trims : (t : Text) → all_name_chars t ≡ true → trim t ≡ t)
    (ascii_again : (s a : Text) → to_ascii s ≡ some a → to_ascii a ≡ some a) where
  abbrev ReparsedPost : Fallible Text → Type 0
  ReparsedPost (ok name) = normalize_domain trim to_ascii (display_name name) ≡ ok name
  ReparsedPost (err e) = Unit {0}

  root_again : normalize_domain trim to_ascii (46 ∷ []) ≡ ok []
  unfolding normalize_domain strip_dot
  root_again = rw (trims (46 ∷ []) refl) refl

  ascii_reparsed :
      (a : Text)
      → check_ascii (some a) ≡ ok a
      → to_ascii a ≡ some a
      → normalize_domain trim to_ascii (display_name a) ≡ ok a
  unfolding normalize_domain
  ascii_reparsed [] h e = root_again
  ascii_reparsed (c ∷ cs) h e =
      let v : CanonicalPost (ok (c ∷ cs)) =
        subst CanonicalPost h (check_ascii-Canonical (some (c ∷ cs))) in
      ap (λ t. if is_blank (strip_dot t) then ok [] else check_ascii (to_ascii (strip_dot t)))
        (trims (c ∷ cs) (ground arith))
      ∙ ap (λ t. if is_blank t then ok [] else check_ascii (to_ascii t))
          (strip_dot_none (c ∷ cs) (ground arith))
      ∙ ap check_ascii e
      ∙ h

  checked_reparsed :
      (a : Text) (r : Fallible Text)
      → check_ascii (some a) ≡ r
      → to_ascii a ≡ some a
      → ReparsedPost r
  unfolding check_ascii
  checked_reparsed a (err x) h e = tt
  checked_reparsed a (ok name) h e =
      let q = bounded-eq a name (check_labels (split a) 0) h in
      subst (λ t. normalize_domain trim to_ascii (display_name t) ≡ ok t) (sym q)
        (ascii_reparsed a (h ∙ ap ok q) e)

  mapped_reparsed : (s : Text) (o : Option Text) → to_ascii s ≡ o → ReparsedPost (check_ascii o)
  unfolding check_ascii
  mapped_reparsed s none e = tt
  mapped_reparsed s (some a) e = checked_reparsed a (check_ascii (some a)) refl (ascii_again s a e)

  normalize-Reparsed : (input : Text) → ReparsedPost (normalize_domain trim to_ascii input)
  unfolding normalize_domain
  normalize-Reparsed input = elim (Bool-cases (is_blank (strip_dot (trim input)))) [
    | inl e ↦ rw e root_again
    | inr n ↦
        rw n (mapped_reparsed (strip_dot (trim input)) (to_ascii (strip_dot (trim input))) refl)
  ]

  suffix_reparsed :
      (r : Fallible Text) (d : DnsSuffix)
      → ReparsedPost r
      → suffix_of r ≡ ok d
      → parse trim to_ascii (display d) ≡ ok d
  unfolding parse
  suffix_reparsed (err e) d p h = cc
  suffix_reparsed (ok name) d p h =
      subst
        (λ t.
          suffix_of (normalize_domain trim to_ascii (display_name t)) ≡ ok (record { name = t }))
        (ap name_or_root h) (ap suffix_of p)

  -- Where trimming leaves a text of name characters as it is, and the IDNA mapping leaves its own
  -- results as they are, a suffix that was parsed is parsed again from its printed form, the root
  -- from `.`.
  pub parse-display :
      (input : Text) (d : DnsSuffix)
      → parse trim to_ascii input ≡ ok d
      → parse trim to_ascii (display d) ≡ ok d
  unfolding parse
  parse-display input d h =
      suffix_reparsed (normalize_domain trim to_ascii input) d (normalize-Reparsed input) h
