-- ===== src/Server/Outputs/Stored.antt =====
-- internal/server/routes.go: the map of outputs that a document's metadata gives back.
use bytefetch.Prelude.{
  ◌≡◌, ◌≢◌, ◌⊎◌, inl, inr, refl, sym, ◌∙◌, subst, if_true, if_false, same_of_ne, Text, same,
  same_iff, to_lower, some, [], ◌∷◌, map, Bool-cases, In, All, AllPairs,
}
use bytefetch.Json.{lookup, insert, lookup-insert}
use bytefetch.Worker.Pages.{Outputs, members_of}
use bytefetch.Worker.Pages.Made.{formats_of}
use bytefetch.Server.Outputs.{Contents, member_contents}
use bytefetch.Server.Outputs.Ordered.{IsLower}

-- A format that is not among the outputs keeps what the map held.
member_contents-other :
    (f : Text) (outputs : Outputs) (found : Contents)
    → IsLower outputs
    → ¬ In f (formats_of outputs)
    → lookup f (member_contents (members_of outputs) found) ≡ lookup f found
unfolding member_contents
member_contents-other f [] found lower out = refl
member_contents-other f ((k, c) ∷ outputs) found lower out =
    member_contents-other f outputs (insert (to_lower k) c found) lower.1 (λ m. out (inr m))
    ∙ lookup-insert (to_lower k) f c found
    ∙ if_false _ _ _ (same_of_ne (to_lower k) f (λ e. out (inl (sym e ∙ lower.0))))

not-In_formats :
    (f : Text) (outputs : Outputs) → All (λ p. f ≢ p.0) outputs → ¬ In f (formats_of outputs)
not-In_formats f [] h m = absurd m
not-In_formats f (o ∷ outputs) h (inl e) = h.0 e
not-In_formats f (o ∷ outputs) h (inr m) = not-In_formats f outputs h.1 m

-- An output is found under its format.
pub member_contents-lookup :
    (o : Text × Text) (outputs : Outputs) (found : Contents)
    → IsLower outputs
    → AllPairs (λ o p. o.0 ≢ p.0) outputs
    → In o outputs
    → lookup o.0 (member_contents (members_of outputs) found) ≡ some o.1
unfolding member_contents
member_contents-lookup o [] found lower distinct m = absurd m
member_contents-lookup o ((k, c) ∷ outputs) found lower distinct (inr later) =
    member_contents-lookup o outputs (insert (to_lower k) c found) lower.1 distinct.1 later
member_contents-lookup o ((k, c) ∷ outputs) found lower distinct (inl here) =
    subst
      (λ p.
        lookup p.0 (member_contents (members_of outputs) (insert (to_lower k) c found)) ≡ some p.1)
      (sym here)
      (member_contents-other k outputs (insert (to_lower k) c found) lower.1
          (not-In_formats k outputs distinct.0)
        ∙ lookup-insert (to_lower k) k c found
        ∙ if_true _ _ _ ((same_iff (to_lower k) k).1 lower.0))

insert-keys :
    (f k c : Text) (found : Contents)
    → In f (map (λ e. e.0) (insert k c found))
    → (f ≡ k) ⊎ In f (map (λ e. e.0) found)
unfolding insert
insert-keys f k c [] m = m
insert-keys f k c ((j, d) ∷ found) m = elim (Bool-cases (same j k)) [
  | inl e ↦ elim (rw e at m) [ inl here ↦ inl here | inr later ↦ inr (inr later) ]
  | inr e ↦ elim (rw e at m) [
    | inl here ↦ inr (inl here)
    | inr later ↦ elim (insert-keys f k c found later) [ inl h ↦ inl h | inr h ↦ inr (inr h) ]
  ]
]

-- Every key of the map is the format of an output.
pub member_contents-keys :
    (f : Text) (outputs : Outputs) (found : Contents)
    → IsLower outputs
    → In f (map (λ e. e.0) (member_contents (members_of outputs) found))
    → In f (formats_of outputs) ⊎ In f (map (λ e. e.0) found)
unfolding member_contents
member_contents-keys f [] found lower m = inr m
member_contents-keys f ((k, c) ∷ outputs) found lower m =
    elim (member_contents-keys f outputs (insert (to_lower k) c found) lower.1 m) [
      | inl later ↦ inl (inr later)
      | inr there ↦ elim (insert-keys f (to_lower k) c found there) [
        | inl e ↦ inl (inl (e ∙ lower.0))
        | inr before ↦ inr before
      ]
    ]
