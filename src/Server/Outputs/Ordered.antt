-- ===== src/Server/Outputs/Ordered.antt =====
-- internal/server/routes.go: what `orderedOutputs` lists, whatever the order of the iteration.
use bytefetch.Prelude.{
  ◌≡◌, ◌≢◌, ◌↔◌, ◌⊎◌, inl, inr, refl, sym, Text, same, same_iff, to_lower, has, has_iff,
  not-In_of_has, true, false, none, some, List, [], ◌∷◌, ◌++◌, map, Bool-cases, Option-cases, In,
  In-append_right, All, All-In, All-map, AllPairs,
}
use bytefetch.Json.{lookup}
use bytefetch.Server.Outputs.{
  DocumentOutput, Contents, add_outputs, ensure_preferred, ordered_outputs,
}

-- The keys are in lower case, as `extractOutputs` and the lists of formats make them.
abbrev pub IsLower : Contents → Type 0
IsLower outputs = All (λ e. to_lower e.0 ≡ e.0) outputs

-- How one call of `add` goes on.
module _ (outputs : Contents) (seen : List Text) (f : Text) (fs : List Text) where
  pub add_outputs-seen :
      has seen (to_lower f) ≡ true → add_outputs outputs seen (f ∷ fs) ≡ add_outputs outputs seen fs
  unfolding add_outputs
  add_outputs-seen h = rw h refl

  pub add_outputs-missing :
      lookup (to_lower f) outputs ≡ none
      → add_outputs outputs seen (f ∷ fs) ≡ add_outputs outputs seen fs
  unfolding add_outputs
  add_outputs-missing h = elim (Bool-cases (has seen (to_lower f))) [
    | inl e ↦ rw e refl
    | inr e ↦ rw (e, h) refl
  ]

  pub add_outputs-new :
      (content : Text)
      → has seen (to_lower f) ≡ false
      → lookup (to_lower f) outputs ≡ some content
      → add_outputs outputs seen (f ∷ fs)
        ≡ record { format = to_lower f; content = content }
          ∷ add_outputs outputs (to_lower f ∷ seen) fs
  unfolding add_outputs
  add_outputs-new content e h = rw (e, h) refl

  -- The three ways in which it goes on.
  pub add_outputs-cases :
      ((has seen (to_lower f) ≡ true)
        × (add_outputs outputs seen (f ∷ fs) ≡ add_outputs outputs seen fs))
      ⊎ ((lookup (to_lower f) outputs ≡ none)
          × (add_outputs outputs seen (f ∷ fs) ≡ add_outputs outputs seen fs))
      ⊎ ((content : Text) × (has seen (to_lower f) ≡ false)
          × (lookup (to_lower f) outputs ≡ some content)
          × (add_outputs outputs seen (f ∷ fs)
              ≡ record { format = to_lower f; content = content }
                ∷ add_outputs outputs (to_lower f ∷ seen) fs))
  add_outputs-cases = elim (Bool-cases (has seen (to_lower f))) [
    | inl e ↦ inl (e, add_outputs-seen e)
    | inr e ↦ elim (Option-cases (lookup (to_lower f) outputs)) [
      | inl h ↦ inr (inl (h, add_outputs-missing h))
      | inr (content, h) ↦ inr (inr (content, e, h, add_outputs-new content e h))
    ]
  ]

module _ (outputs : Contents) where
  -- Every output is an entry of the map, under a format not seen yet.
  add_outputs-All :
      (seen fs : List Text)
      → All
          (λ o. (lookup o.format outputs ≡ some o.content) × ¬ In o.format seen)
          (add_outputs outputs seen fs)
  unfolding add_outputs
  add_outputs-All seen [] = tt
  add_outputs-All seen (f ∷ fs) = elim (add_outputs-cases outputs seen f fs) [
    | inl (e, step) ↦ rw step (add_outputs-All seen fs)
    | inr (inl (e, step)) ↦ rw step (add_outputs-All seen fs)
    | inr (inr (content, e, h, step)) ↦ rw step (
      (h, not-In_of_has seen (to_lower f) e),
      All-map (λ o k. (k.0, λ m. k.1 (inr m))) _ (add_outputs-All (to_lower f ∷ seen) fs),
    )
  ]

  add_outputs-AllPairs :
      (seen fs : List Text) → AllPairs (λ o p. o.format ≢ p.format) (add_outputs outputs seen fs)
  unfolding add_outputs
  add_outputs-AllPairs seen [] = tt
  add_outputs-AllPairs seen (f ∷ fs) = elim (add_outputs-cases outputs seen f fs) [
    | inl (e, step) ↦ rw step (add_outputs-AllPairs seen fs)
    | inr (inl (e, step)) ↦ rw step (add_outputs-AllPairs seen fs)
    | inr (inr (content, e, h, step)) ↦ rw step (
      All-map (λ o k same_format. k.1 (inl (sym same_format))) _
          (add_outputs-All (to_lower f ∷ seen) fs),
      add_outputs-AllPairs (to_lower f ∷ seen) fs,
    )
  ]

  found_here :
      (o : DocumentOutput) (seen : List Text) (f : Text) (fs : List Text) (content : Text)
      → lookup o.format outputs ≡ some o.content
      → lookup (to_lower f) outputs ≡ some content
      → add_outputs outputs seen (f ∷ fs)
        ≡ record { format = to_lower f; content = content }
          ∷ add_outputs outputs (to_lower f ∷ seen) fs
      → o.format ≡ to_lower f
      → In o (add_outputs outputs seen (f ∷ fs))
  found_here o seen f fs content h k step here = rw step (inl cc)

  -- An entry whose format is asked for is out, now or before.
  add_outputs-In :
      (o : DocumentOutput) (seen fs : List Text)
      → lookup o.format outputs ≡ some o.content
      → In o.format (map to_lower fs)
      → In o.format seen ⊎ In o (add_outputs outputs seen fs)
  add_outputs-In o seen [] h m = absurd m
  add_outputs-In o seen (f ∷ fs) h m = elim (add_outputs-cases outputs seen f fs) [
    | inl (e, step) ↦ elim m [
      | inl here ↦ inl (rw here ((has_iff seen (to_lower f)).0 e))
      | inr later ↦ rw step (add_outputs-In o seen fs h later)
    ]
    | inr (inl (e, step)) ↦ elim m [
      | inl here ↦ absurd (cc (h, e, here))
      | inr later ↦ rw step (add_outputs-In o seen fs h later)
    ]
    | inr (inr (content, e, k, step)) ↦ elim m [
      | inl here ↦ inr (found_here o seen f fs content h k step here)
      | inr later ↦ elim (add_outputs-In o (to_lower f ∷ seen) fs h later) [
        | inl (inl here) ↦ inr (found_here o seen f fs content h k step here)
        | inl (inr before) ↦ inl before
        | inr found ↦ inr (rw step (inr found))
      ]
    ]
  ]

lookup-In :
    (k c : Text) (outputs : Contents) → lookup k outputs ≡ some c → In k (map (λ e. e.0) outputs)
unfolding lookup
lookup-In k c [] h = cc h
lookup-In k c ((j, d) ∷ outputs) h = elim (Bool-cases (same j k)) [
  | inl e ↦ inl (sym ((same_iff j k).0 e))
  | inr e ↦ inr (lookup-In k c outputs (rw e at h))
]

In-key-lower :
    (k : Text) (outputs : Contents)
    → IsLower outputs
    → In k (map (λ e. e.0) outputs)
    → to_lower k ≡ k
In-key-lower k [] lower m = absurd m
In-key-lower k (e ∷ outputs) lower (inl here) = rw here lower.0
In-key-lower k (e ∷ outputs) lower (inr later) = In-key-lower k outputs lower.1 later

In-map-to_lower : (k : Text) (fs : List Text) → to_lower k ≡ k → In k fs → In k (map to_lower fs)
In-map-to_lower k [] low m = absurd m
In-map-to_lower k (f ∷ fs) low (inl here) = inl cc
In-map-to_lower k (f ∷ fs) low (inr later) = inr (In-map-to_lower k fs low later)

-- Whatever the order in which the map is iterated: each entry of the map is listed, once, and
-- nothing else is, where the keys are in lower case.
pub ordered_outputs_lem :
    (outputs : Contents) (preferred : List Text)
    → IsLower outputs
    → AllPairs (λ o p. o.format ≢ p.format) (ordered_outputs outputs preferred)
      × ((o : DocumentOutput)
          → In o (ordered_outputs outputs preferred) ↔ (lookup o.format outputs ≡ some o.content))
unfolding ordered_outputs
ordered_outputs_lem outputs preferred lower =
    let keys = map (λ e. e.0) outputs in
    let asked = ensure_preferred preferred ++ keys in
    (
      add_outputs-AllPairs outputs [] asked,
      λ o. (
        λ m. (All-In _ _ (add_outputs-All outputs [] asked) m).0,
        λ h.
            let key = lookup-In o.format o.content outputs h in
            let low = In-key-lower o.format outputs lower key in
            elim (add_outputs-In outputs o [] asked h (
              In-map-to_lower o.format asked low
                (In-append_right o.format (ensure_preferred preferred) keys key))) [
                  | inl before ↦ absurd before
                  | inr found ↦ found
                ],
      ),
    )
