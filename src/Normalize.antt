-- ===== src/Normalize.antt =====
-- normalize.rs: `normalize_domain` and the names of `DnsSuffix`. `str::trim` and the IDNA mapping
-- `idna::domain_to_ascii_cow` are arguments.
pub mod Canonical
pub mod Reparsed
use osdns.Prelude.{
  ℕ, ◌+◌, ◌-◌, Bool, true, false, Option, none, some, List, [], ◌∷◌, not, ◌&&◌, ◌||◌, if◌then◌else◌,
  leb, ltb, ◌==◌, length,
}
use osdns.Text.{Text}
use osdns.Error.{Fallible, Result, ok, err, invalid_config}
use osdns.Platform.{DnsSuffix}

-- `Display` of a suffix: the root is `.`.
abbrev pub display_name : Text → Text
display_name [] = 46 ∷ []
display_name (c ∷ cs) = c ∷ cs

abbrev pub display : DnsSuffix → Text
display d = display_name d.name

-- `strip_suffix('.').unwrap_or(..)`
unfoldable pub strip_dot : Text → Text
strip_dot [] = []
strip_dot (c ∷ []) = if c == 46 then [] else c ∷ []
strip_dot (c ∷ d ∷ ds) = c ∷ strip_dot (d ∷ ds)

abbrev push_char : ℕ → List Text → List Text
push_char c [] = (c ∷ []) ∷ []
push_char c (l ∷ ls) = (c ∷ l) ∷ ls

-- `split('.')`
unfoldable pub split : Text → List Text
split [] = [] ∷ []
split (c ∷ cs) = if c == 46 then [] ∷ split cs else push_char c (split cs)

-- A lower-case letter, a digit or a hyphen.
abbrev is_allowed : ℕ → Bool
is_allowed c = (leb 97 c && leb c 122) || (leb 48 c && leb c 57) || c == 45

abbrev all_allowed : Text → Bool
all_allowed [] = true
all_allowed (c ∷ cs) = is_allowed c && all_allowed cs

abbrev is_blank : Text → Bool
is_blank [] = true
is_blank (c ∷ cs) = false

abbrev starts_with_hyphen : Text → Bool
starts_with_hyphen [] = false
starts_with_hyphen (c ∷ cs) = c == 45

abbrev ends_with_hyphen : Text → Bool
ends_with_hyphen [] = false
ends_with_hyphen (c ∷ []) = c == 45
ends_with_hyphen (c ∷ d ∷ ds) = ends_with_hyphen (d ∷ ds)

-- Hyphens in the third and fourth place, but not after `xn`.
abbrev is_reserved : Text → Bool
is_reserved (a ∷ b ∷ c ∷ d ∷ rest) =
    c == 45 && d == 45 && not (a == 120 && b == 110 && c == 45 && d == 45)
is_reserved _ = false

unfoldable pub check_label : Text → Fallible (Unit {0})
check_label label =
    if is_blank label || ltb 63 (length label)
    then err invalid_config
    else if not (all_allowed label)
    then err invalid_config
    else if starts_with_hyphen label || ends_with_hyphen label
    then err invalid_config
    else if is_reserved label
    then err invalid_config
    else ok tt

-- The loop over the labels, with the total so far.
unfoldable pub check_labels : List Text → ℕ → Fallible ℕ
check_labels [] total = ok total
check_labels (l ∷ ls) total = elim (check_label l) [
  | ok u ↦ check_labels ls (total + (length l + 1))
  | err e ↦ err e
]

abbrev pub bounded : Text → Fallible ℕ → Fallible Text
bounded ascii (err e) = err e
bounded ascii (ok total) = if ltb 253 (total - 1) then err invalid_config else ok ascii

unfoldable pub check_ascii : Option Text → Fallible Text
check_ascii none = err invalid_config
check_ascii (some ascii) = bounded ascii (check_labels (split ascii) 0)

abbrev suffix_of : Fallible Text → Fallible DnsSuffix
suffix_of (ok name) = ok (record { name = name })
suffix_of (err e) = err e

module _ (trim : Text → Text) (to_ascii : Text → Option Text) where
  unfoldable pub normalize_domain : Text → Fallible Text
  normalize_domain input =
      let core = strip_dot (trim input) in
      if is_blank core then ok [] else check_ascii (to_ascii core)

  -- `DnsSuffix::parse`
  unfoldable pub parse : Text → Fallible DnsSuffix
  parse input = suffix_of (normalize_domain input)
