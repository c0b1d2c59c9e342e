-- ===== src/TextConfig/Domains.antt =====
-- The domains of systemd-resolved, there and back.
use osdns.Prelude.{
  ◌≡◌, refl, sym, ap, ◌∙◌, Bool, true, false, List, [], ◌∷◌, ◌++◌, ◌&&◌, ◌||◌, not, All, arith,
  if◌then◌else◌, Bool-cases, inl, inr,
}
use osdns.Text.{Text, text_eq, text_eq_refl}
use osdns.Error.{Fallible, ok}
use osdns.Platform.{DnsSuffix, suffix_eq, suffix_eq_eq, NormalizedConfig}
use osdns.Normalize.{display}
use osdns.TextConfig.{
  contains, contains_suffix, push_domains, resolved_domains_from_plan, push_new, sort_in,
  public_from, resolved_domains_to_public,
}

-- The suffixes whose names were not seen before, each once.
abbrev pub fresh : List Text → List DnsSuffix → List DnsSuffix
fresh seen [] = []
fresh seen (d ∷ ds) =
    let rest = fresh (seen ++ display d ∷ []) ds in
    if contains seen (display d) then fresh seen ds else d ∷ rest

abbrev entries : Bool → List DnsSuffix → List (Text × Bool)
entries route [] = []
entries route (d ∷ ds) = (display d, route) ∷ entries route ds

abbrev pub names : List DnsSuffix → List Text
names [] = []
names (d ∷ ds) = display d ∷ names ds

append_assoc :
    {A : Type 0} (xs : List A) (x : A) (ys : List A) → (xs ++ x ∷ []) ++ ys ≡ xs ++ x ∷ ys
append_assoc [] x ys = refl
append_assoc (z ∷ xs) x ys = ap (λ zs. z ∷ zs) (append_assoc xs x ys)

append_nil : {A : Type 0} (xs : List A) → xs ++ [] ≡ xs
append_nil [] = refl
append_nil (x ∷ xs) = ap (λ ys. x ∷ ys) (append_nil xs)

push_domains-fresh :
    (route : Bool) (ds : List DnsSuffix) (domains : List (Text × Bool)) (seen : List Text)
    → push_domains route ds (domains, seen)
      ≡ (domains ++ entries route (fresh seen ds), seen ++ names (fresh seen ds))
unfolding push_domains
push_domains-fresh route [] domains seen =
    λ i. (sym (append_nil domains) i, sym (append_nil seen) i)
push_domains-fresh route (d ∷ ds) domains seen = elim (Bool-cases (contains seen (display d))) [
  | inl e ↦ rw e (push_domains-fresh route ds domains seen)
  | inr n ↦ rw n (
      push_domains-fresh route ds (domains ++ (display d, route) ∷ []) (seen ++ display d ∷ [])
      ∙ λ i. (
        append_assoc domains (display d, route) (entries route (fresh (seen ++ display d ∷ []) ds))
            i,
        append_assoc seen (display d) (names (fresh (seen ++ display d ∷ []) ds)) i,
      ))
]

-- The suffixes `ds` are new to `es` and to each other.
abbrev are_new : List DnsSuffix → List DnsSuffix → Bool
are_new es [] = true
are_new es (d ∷ ds) = not (contains_suffix es d) && are_new (es ++ d ∷ []) ds

contains-append :
    (ss : List Text) (s t : Text) → contains (ss ++ s ∷ []) t ≡ (contains ss t || text_eq s t)
contains-append [] s t = ground arith
contains-append (r ∷ ss) s t = ground (arith, contains-append ss s t)

contains_suffix-append :
    (es : List DnsSuffix) (e d : DnsSuffix)
    → contains_suffix (es ++ e ∷ []) d ≡ (contains_suffix es d || suffix_eq e d)
contains_suffix-append [] e d = ground arith
contains_suffix-append (f ∷ es) e d = ground (arith, contains_suffix-append es e d)

module _ where
  same-display : (e d : DnsSuffix) → suffix_eq e d ≡ true → text_eq (display e) (display d) ≡ true
  same-display e d h = rw (suffix_eq_eq e d h) (text_eq_refl (display d))

  fresh-are_new :
      (es : List DnsSuffix) (seen : List Text) (ds : List DnsSuffix)
      → ((d : DnsSuffix) → (not (contains_suffix es d) || contains seen (display d)) ≡ true)
      → are_new es (fresh seen ds) ≡ true
  fresh-are_new es seen [] h = refl
  fresh-are_new es seen (d ∷ ds) h = elim (Bool-cases (contains seen (display d))) [
    | inl e ↦ rw e (fresh-are_new es seen ds h)
    | inr n ↦ rw n (
        ground
          (arith, h d, fresh-are_new (es ++ d ∷ []) (seen ++ display d ∷ []) ds (λ f. later f)))
  ]
    where
      later :
          (f : DnsSuffix)
          → (not (contains_suffix (es ++ d ∷ []) f)
              || contains (seen ++ display d ∷ []) (display f))
            ≡ true
      later f = ground (
        arith,
        h f,
        contains-append seen (display d) (display f),
        contains_suffix-append es d f,
        same-display d f,
      )

push_new-new :
    (d : DnsSuffix) (ds : List DnsSuffix)
    → contains_suffix ds d ≡ false
    → push_new d ds ≡ ds ++ d ∷ []
push_new-new d ds n = rw n refl

module _ (parse : Text → Fallible DnsSuffix) where
  -- The printed names are read back.
  abbrev pub AllParsed : List DnsSuffix → Type 0
  AllParsed ds = All (λ (d : DnsSuffix). parse (display d) ≡ ok d) ds

  fresh-AllParsed :
      (seen : List Text) (ds : List DnsSuffix) → AllParsed ds → AllParsed (fresh seen ds)
  fresh-AllParsed seen [] h = tt
  fresh-AllParsed seen (d ∷ ds) h = elim (Bool-cases (contains seen (display d))) [
    | inl e ↦ rw e (fresh-AllParsed seen ds h.1)
    | inr n ↦ rw n (h.0, fresh-AllParsed (seen ++ display d ∷ []) ds h.1)
  ]

  public-search :
      (ds : List DnsSuffix) (rest : List (Text × Bool)) (found routing : List DnsSuffix)
      → AllParsed ds
      → are_new found ds ≡ true
      → public_from parse (entries false ds ++ rest) (found, routing)
        ≡ public_from parse rest (found ++ ds, routing)
  unfolding public_from
  public-search [] rest found routing h n =
      ap (λ s. public_from parse rest (s, routing)) (sym (append_nil found))
  public-search (d ∷ ds) rest found routing h n =
      ap (λ p. public_from parse (entries false ds ++ rest) (sort_in p false (found, routing))) h.0
      ∙ ap (λ s. public_from parse (entries false ds ++ rest) (s, routing))
          (push_new-new d found (ground arith))
      ∙ public-search ds rest (found ++ d ∷ []) routing h.1 (ground arith)
      ∙ ap (λ s. public_from parse rest (s, routing)) (append_assoc found d ds)

  public-routing :
      (ds : List DnsSuffix) (found routing : List DnsSuffix)
      → AllParsed ds
      → are_new routing ds ≡ true
      → public_from parse (entries true ds) (found, routing) ≡ (found, routing ++ ds)
  unfolding public_from
  public-routing [] found routing h n = λ i. (found, sym (append_nil routing) i)
  public-routing (d ∷ ds) found routing h n =
      ap (λ p. public_from parse (entries true ds) (sort_in p true (found, routing))) h.0
      ∙ ap (λ s. public_from parse (entries true ds) (found, s))
          (push_new-new d routing (ground arith))
      ∙ public-routing ds found (routing ++ d ∷ []) h.1 (ground arith)
      ∙ λ i. (found, append_assoc routing d ds i)

  -- When the printed names of a plan's domains parse back to them, the domains read back from what
  -- was written for systemd-resolved are the plan's search domains, each once, and its routing
  -- domains that are no search domains, each once, in their order.
  pub resolved_domains_to_public-from_plan :
      (plan : NormalizedConfig)
      → AllParsed plan.search_domains
      → AllParsed plan.routing_domains
      → resolved_domains_to_public parse (resolved_domains_from_plan plan) ≡ (
        fresh [] plan.search_domains,
        fresh (names (fresh [] plan.search_domains)) plan.routing_domains,
      )
  unfolding resolved_domains_to_public resolved_domains_from_plan
  resolved_domains_to_public-from_plan plan hs hr =
      ap (λ t. public_from parse t.0 ([], []))
        (ap (push_domains true plan.routing_domains)
            (push_domains-fresh false plan.search_domains [] [])
          ∙ push_domains-fresh true plan.routing_domains
              (entries false (fresh [] plan.search_domains)) (names (fresh [] plan.search_domains)))
      ∙ public-search (fresh [] plan.search_domains)
          (entries true (fresh (names (fresh [] plan.search_domains)) plan.routing_domains)) [] []
          (fresh-AllParsed [] plan.search_domains hs)
          (fresh-are_new [] [] plan.search_domains (λ d. refl))
      ∙ public-routing (fresh (names (fresh [] plan.search_domains)) plan.routing_domains)
          (fresh [] plan.search_domains) [] (fresh-AllParsed _ plan.routing_domains hr)
          (fresh-are_new [] (names (fresh [] plan.search_domains)) plan.routing_domains (λ d. refl))
