-- ===== src/Worker/Links/Unique.antt =====
-- What the removal of duplicates keeps.
use bytefetch.Prelude.{
  ◌≡◌, ◌≢◌, refl, sym, ap, subst, ◌∙◌, ◌⊎◌, ◌↔◌, inl, inr, Text, is_empty, has, has_iff,
  not-In_of_has, true, false, ◌||◌, List, [], ◌∷◌, ◌++◌, Bool-cases, All, AllPairs, In, All-In,
  All-of-In, AllPairs-append, In-append, In-append_left, In-append_right, All-map, arith,
}
use bytefetch.Worker.Links.{unique_from, unique_strings, append_unique_links}

is_empty_iff : (s : Text) → (is_empty s ≡ true) ↔ (s ≡ [])
is_empty_iff [] = ((λ h. refl), (λ h. refl))
is_empty_iff (c ∷ s) = ground arith

-- What is kept is not empty, is new, and stands once.
abbrev IsFresh : List Text → Text → Type 0
IsFresh seen v = (v ≢ []) × ¬ In v seen

-- What follows a first link is new once that link has been seen.
IsFresh-cons :
    (seen : List Text) (v : Text) (vs : List Text)
    → All (IsFresh seen) vs
    → All (λ w. v ≢ w) vs
    → All (IsFresh (v ∷ seen)) vs
IsFresh-cons seen v [] h k = tt
IsFresh-cons seen v (w ∷ vs) h k =
    ((h.0.0, λ m. elim m [ inl e ↦ k.0 (sym e) | inr n ↦ h.0.1 n ]), IsFresh-cons seen v vs h.1 k.1)

IsFresh-cases :
    (seen : List Text) (v : Text)
    → ((is_empty v || has seen v) ≡ false) × IsFresh seen v
      ⊎ ((is_empty v || has seen v) ≡ true) × ((v ≡ []) ⊎ In v seen)
IsFresh-cases seen v = elim (Bool-cases (is_empty v)) [
  | inl empty ↦ inr (rw empty, inl ((is_empty_iff v).0 empty))
  | inr full ↦ elim (Bool-cases (has seen v)) [
    | inl old ↦ inr (rw (full, old), inr ((has_iff seen v).0 old))
    | inr new ↦
        inl (
          rw (full, new),
          (λ e. absurd (cc ((is_empty_iff v).1 e, full)), not-In_of_has seen v new),
        )
  ]
]

unique_from-IsFresh : (seen vs : List Text) → All (IsFresh seen) (unique_from seen vs)
unfolding unique_from
unique_from-IsFresh seen [] = tt
unique_from-IsFresh seen (v ∷ vs) = elim (IsFresh-cases seen v) [
  | inl (e, fresh) ↦
      rw e (fresh, All-map (λ w f. (f.0, λ m. f.1 (inr m))) _ (unique_from-IsFresh (v ∷ seen) vs))
  | inr (e, _) ↦ rw e (unique_from-IsFresh seen vs)
]

unique_from-distinct : (seen vs : List Text) → AllPairs ◌≢◌ (unique_from seen vs)
unfolding unique_from
unique_from-distinct seen [] = tt
unique_from-distinct seen (v ∷ vs) = elim (IsFresh-cases seen v) [
  | inl (e, fresh) ↦ rw e (
    All-map (λ w f e. f.1 (inl (sym e))) _ (unique_from-IsFresh (v ∷ seen) vs),
    unique_from-distinct (v ∷ seen) vs,
  )
  | inr (e, _) ↦ rw e (unique_from-distinct seen vs)
]

unique_from_complete :
    (seen vs : List Text) (a : Text) → In a vs → a ≢ [] → In a seen ⊎ In a (unique_from seen vs)
unfolding unique_from
unique_from_complete seen [] a m ne = absurd m
unique_from_complete seen (v ∷ vs) a m ne = elim (IsFresh-cases seen v) [
  | inl (e, fresh) ↦ rw e (elim m [
    | inl here ↦ inr (inl here)
    | inr later ↦ elim (unique_from_complete (v ∷ seen) vs a later ne) [
      | inl (inl here) ↦ inr (inl here)
      | inl (inr old) ↦ inl old
      | inr kept ↦ inr (inr kept)
    ]
  ])
  | inr (e, why) ↦ rw e (elim m [
    | inl here ↦ elim why [
      | inl empty ↦ absurd (ne (here ∙ empty))
      | inr old ↦ inl (subst (λ w. In w seen) (sym here) old)
    ]
    | inr later ↦ unique_from_complete seen vs a later ne
  ])
]

unique_from_sound : (seen vs : List Text) (a : Text) → In a (unique_from seen vs) → In a vs
unfolding unique_from
unique_from_sound seen [] a m = m
unique_from_sound seen (v ∷ vs) a m = elim (IsFresh-cases seen v) [
  | inl (e, _) ↦ elim (rw e at m) [
    | inl here ↦ inl here
    | inr later ↦ inr (unique_from_sound (v ∷ seen) vs a later)
  ]
  | inr (e, _) ↦ inr (unique_from_sound seen vs a (rw e at m))
]

-- Distinct new links that are not empty stay as they are.
unique_from-id :
    (seen vs : List Text) → All (IsFresh seen) vs → AllPairs ◌≢◌ vs → unique_from seen vs ≡ vs
unfolding unique_from
unique_from-id seen [] h d = refl
unique_from-id seen (v ∷ vs) (fresh, h) (apart, d) = elim (IsFresh-cases seen v) [
  | inl (e, _) ↦ rw e (ap (◌∷◌ v) (unique_from-id (v ∷ seen) vs (IsFresh-cons seen v vs h apart) d))
  | inr (_, inl empty) ↦ absurd (fresh.0 empty)
  | inr (_, inr old) ↦ absurd (fresh.1 old)
]

-- `uniqueStrings` keeps every value but the empty one, each once, and makes up none; a second pass
-- changes nothing.
pub unique_strings_lem :
    (values : List Text)
    → ((a : Text) → In a (unique_strings values) ↔ (In a values × (a ≢ [])))
      × AllPairs ◌≢◌ (unique_strings values)
      × (unique_strings (unique_strings values) ≡ unique_strings values)
unfolding unique_strings
unique_strings_lem values = (
  λ a. (
    (λ m. (unique_from_sound [] values a m, (All-In _ _ fresh m).0)),
    (λ (m, ne). elim (unique_from_complete [] values a m ne) [ inl n ↦ absurd n | inr k ↦ k ]),
  ),
  distinct,
  unique_from-id [] (unique_from [] values) fresh distinct,
)
  where
    fresh : All (IsFresh []) (unique_from [] values)
    fresh = unique_from-IsFresh [] values

    distinct : AllPairs ◌≢◌ (unique_from [] values)
    distinct = unique_from-distinct [] values

-- `appendUniqueLinks` keeps the links that were there, in their places, before what it adds; its
-- result holds every link of both lists but empty new ones; and if the first list had no link twice,
-- nor has the result.
pub append_unique_links_lem :
    (existing extra : List Text)
    → ((added : List Text) × (append_unique_links existing extra ≡ existing ++ added))
      × ((a : Text)
          → a ≢ []
          → In a (append_unique_links existing extra) ↔ (In a existing ⊎ In a extra))
      × (AllPairs ◌≢◌ existing → AllPairs ◌≢◌ (append_unique_links existing extra))
unfolding append_unique_links
append_unique_links_lem existing extra = (
  (unique_from existing extra, refl),
  (λ a ne. (
    (λ m. elim (In-append existing _ a m) [
      | inl old ↦ inl old
      | inr new ↦ inr (unique_from_sound existing extra a new)
    ]),
    (λ m. elim m [
      | inl old ↦ In-append_left a existing _ old
      | inr new ↦ elim (unique_from_complete existing extra a new ne) [
        | inl old ↦ In-append_left a existing _ old
        | inr kept ↦ In-append_right a existing _ kept
      ]
    ]),
  )),
  (λ d. AllPairs-append _ existing _ d (unique_from-distinct existing extra) (
      All-of-In _ existing λ a m. All-of-In _ _ λ b n e.
        (All-In _ _ (unique_from-IsFresh existing extra) n).1 (subst (λ c. In c existing) e m))),
)
