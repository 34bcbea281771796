-- ===== src/Server/Outputs/Served.antt =====
-- internal/server/routes.go: the order in which `orderedOutputs` serves the formats asked for.
use bytefetch.Prelude.{
  not_has, still_new, ◌≡◌, ◌⊎◌, inl, inr, refl, ap, ◌∙◌, Text, is_empty-false, to_lower, has_iff,
  some, List, [], ◌∷◌, ◌++◌, map, In, All, All-map,
}
use bytefetch.Json.{lookup}
use bytefetch.Types.Normal.{IsNormal}
use bytefetch.Server.Outputs.{DocumentOutput, Contents, preferred_from, add_outputs}
use bytefetch.Server.Outputs.Ordered.{add_outputs-seen, add_outputs-new}

-- Formats of that form are preferred as they stand.
pub preferred_from-IsNormal :
    (seen formats : List Text)
    → IsNormal formats
    → All (λ f. ¬ In f seen) formats
    → preferred_from seen formats ≡ formats
unfolding preferred_from
preferred_from-IsNormal seen [] h out = refl
preferred_from-IsNormal seen (f ∷ fs) h out =
    let low = h.0.0.0 in
    let head = is_empty-false f h.0.0.1 in
    let new = not_has seen f out.0 in
    let rest =
      preferred_from-IsNormal (f ∷ seen) fs (h.0.1, h.1.1) (still_new f seen fs h.1.0 out.1) in
    rw (low, head, new) (ap (λ gs. f ∷ gs) rest)

module _ (P : Text → Text → Type 0) where
  -- The outputs have these formats, in this order, and each of them is right.
  abbrev pub Served : List Text → List DocumentOutput → Type 0
  Served formats found =
      (map (λ o. o.format) found ≡ formats) × All (λ o. P o.format o.content) found

-- `orderedOutputs` serves the formats asked for, where the map has all of them and no other.
module _ (P : Text → Text → Type 0) (outputs : Contents) where
  none_left :
      (seen formats : List Text)
      → All (λ f. In (to_lower f) seen) formats
      → add_outputs outputs seen formats ≡ []
  unfolding add_outputs
  none_left seen [] h = refl
  none_left seen (f ∷ fs) h =
      add_outputs-seen outputs seen f fs ((has_iff seen (to_lower f)).1 h.0) ∙ none_left seen fs h.1

  pub All-Served :
      (seen formats rest : List Text)
      → IsNormal formats
      → All (λ f. ¬ In f seen) formats
      → All (λ f. (c : Text) × (lookup f outputs ≡ some c) × P f c) formats
      → All (λ f. In (to_lower f) formats ⊎ In (to_lower f) seen) rest
      → Served P formats (add_outputs outputs seen (formats ++ rest))
  All-Served seen [] rest normal out known left =
      rw (none_left seen rest (All-map (λ f h. elim h [ inl m ↦ absurd m | inr m ↦ m ]) rest left))
        (refl, tt)
  All-Served seen (f ∷ fs) rest normal out known left =
      let low = normal.0.0.0 in
      let (c, there, p) = known.0 in
      let step =
        add_outputs-new outputs seen f (fs ++ rest) c (rw low (not_has seen f out.0))
          (rw low there) in
      let (same_formats, all_served_rest) =
        All-Served (f ∷ seen) fs rest (normal.0.1, normal.1.1)
          (still_new f seen fs normal.1.0 out.1) known.1
          (All-map
            (λ g h. elim h [
              | inl (inl e) ↦ inr (inl e)
              | inl (inr m) ↦ inl m
              | inr m ↦ inr (inr m)
            ])
            rest left) in
      rw (step, low) (ap (λ gs. f ∷ gs) same_formats, (p, all_served_rest))
