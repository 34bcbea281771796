-- ===== src/Worker/Pages/Made.antt =====
-- internal/worker/worker.go: the outputs that a page is stored with.
use bytefetch.Prelude.{
  ◌≡◌, ◌≢◌, ◌↔◌, ◌⊎◌, inl, inr, refl, subst, arith, Text, is_empty-false, same_iff, true, false,
  List, [], ◌∷◌, map, Bool-cases, In, All, AllPairs,
}
use bytefetch.Exec.{Result, ok, err, World, pure, raise, ◌>>=◌}
use bytefetch.Exec.Steps.{bind-inv}
use bytefetch.Worker.Pages.{
  Extracted, Answer, Outputs, lift, has_output, primary_of, make_outputs, or_markdown,
}

abbrev pub formats_of : Outputs → List Text
formats_of outputs = map (λ o. o.0) outputs

lift-inv :
    {A : Type 0} (r : Result A) (w : World) (a : A) (v : World)
    → lift r w ≡ (ok a, v)
    → (r ≡ ok a) × (w ≡ v)
unfolding lift pure raise
lift-inv (ok b) w a v h = (cc h, cc h)
lift-inv (err e) w a v h = cc h

has_output_iff :
    (f : Text) (outputs : Outputs) → (has_output f outputs ≡ true) ↔ In f (formats_of outputs)
unfolding has_output
has_output_iff f [] = ((λ h. cc h), (λ m. absurd m))
has_output_iff f (o ∷ outputs) =
    ground (arith, same_iff o.0 f, same_iff f o.0, has_output_iff f outputs)

not_output :
    (f : Text) (outputs : Outputs) → has_output f outputs ≡ false → All (λ o. f ≢ o.0) outputs
unfolding has_output
not_output f [] h = tt
not_output f (o ∷ outputs) h = ground (arith, same_iff o.0 f, not_output f outputs)

module _ (answer : Answer) (ext : Extracted) where
  -- The outputs are what `format.FormatContent` made, for each of the formats once, beside those
  -- that were there before.
  pub record Made (before : Outputs) (formats : List Text) (outputs : Outputs) : Type 0 where
    pub served : All (λ o. answer.format_content ext o.0 ≡ ok o.1) outputs
    pub distinct : AllPairs (λ o p. o.0 ≢ p.0) outputs
    pub members : (f : Text) → In f (formats_of outputs) ↔ (In f formats ⊎ In f (formats_of before))

  -- A format that is there already asks for nothing.
  Made-skip :
      (before : Outputs) (f : Text) (formats : List Text) (outputs : Outputs)
      → In f (formats_of before)
      → Made before formats outputs
      → Made before (f ∷ formats) outputs
  Made-skip before f formats outputs m made = record {
    served = made.served;
    distinct = made.distinct;
    members = λ g. (
      λ k. elim ((made.members g).0 k) [ inl a ↦ inl (inr a) | inr b ↦ inr b ],
      λ k. (made.members g).1 (elim k [
        | inl (inl here) ↦ inr (rw here m)
        | inl (inr later) ↦ inl later
        | inr b ↦ inr b
      ]),
    );
  }

  Made-next :
      (before : Outputs) (f content : Text) (formats : List Text) (outputs : Outputs)
      → Made ((f, content) ∷ before) formats outputs
      → Made before (f ∷ formats) outputs
  Made-next before f content formats outputs made = record {
    served = made.served;
    distinct = made.distinct;
    members = λ g. (
      λ k. elim ((made.members g).0 k) [
        | inl later ↦ inl (inr later)
        | inr (inl here) ↦ inl (inl here)
        | inr (inr b) ↦ inr b
      ],
      λ k. (made.members g).1 (elim k [
        | inl (inl here) ↦ inr (inl here)
        | inl (inr later) ↦ inl later
        | inr b ↦ inr (inr b)
      ]),
    );
  }

  make_outputs-Made :
      (before : Outputs) (formats : List Text) (primary : Text) (w : World) (outputs : Outputs)
      (p : Text) (w' : World)
      → All (λ f. f ≢ []) formats
      → All (λ o. answer.format_content ext o.0 ≡ ok o.1) before
      → AllPairs (λ o p. o.0 ≢ p.0) before
      → make_outputs answer ext formats before primary w ≡ (ok (outputs, p), w')
      → Made before formats outputs
  unfolding make_outputs pure
  make_outputs-Made before [] primary w outputs p w' named served distinct h =
      let e : before ≡ outputs = cc h in
      record {
        served = subst (λ l. All (λ o. answer.format_content ext o.0 ≡ ok o.1) l) e served;
        distinct = subst (λ l. AllPairs (λ o p. o.0 ≢ p.0) l) e distinct;
        members = λ g.
            subst (λ l. In g (formats_of l) ↔ (⊥ ⊎ In g (formats_of before))) e
              ((λ m. inr m), (λ k. elim k [ inl m ↦ absurd m | inr m ↦ m ]));
      }
  make_outputs-Made before (f ∷ formats) primary w outputs p w' named served distinct h =
      let h' = rw (is_empty-false f named.0) at h in
      elim (Bool-cases (has_output f before)) [
        | inl there ↦ Made-skip before f formats outputs ((has_output_iff f before).0 there) (
            make_outputs-Made before formats primary w outputs p w' named.1 served distinct
              (rw there at h'))
        | inr new ↦
            let (content, v, lifted, rest) = bind-inv _ _ w _ w' (rw new at h') in
            let (served_f, same_world) = lift-inv _ w content v lifted in
            Made-next before f content formats outputs (
              make_outputs-Made ((f, content) ∷ before) formats (primary_of primary content) v
                outputs p w' named.1 (served_f, served) (not_output f before new, distinct) rest)
      ]

  or_markdown-Made :
      (f : Text) (formats : List Text) (made : Outputs) (q : Text) (v : World) (outputs : Outputs)
      (p : Text) (w' : World)
      → Made [] (f ∷ formats) made
      → or_markdown answer ext (made, q) v ≡ (ok (outputs, p), w')
      → Made [] (f ∷ formats) outputs
  unfolding or_markdown pure
  or_markdown-Made f formats [] q v outputs p w' start rest =
      absurd ((start.members f).1 (inl (inl refl)))
  or_markdown-Made f formats (o ∷ made) q v outputs p w' start rest =
      let e : o ∷ made ≡ outputs = cc rest in subst (Made [] (f ∷ formats)) e start

  -- The worker's outputs for a list of formats that is not empty.
  pub outputs-Made :
      (formats : List Text) (w : World) (outputs : Outputs) (p : Text) (w' : World)
      → formats ≢ []
      → All (λ g. g ≢ []) formats
      → (make_outputs answer ext formats [] [] >>= or_markdown answer ext) w ≡ (ok (outputs, p), w')
      → Made [] formats outputs
  outputs-Made [] w outputs p w' some_format named h = absurd (some_format refl)
  outputs-Made (f ∷ formats) w outputs p w' some_format named h =
      let (found, v, first, rest) = bind-inv _ _ w _ w' h in
      or_markdown-Made f formats found.0 found.1 v outputs p w'
        (make_outputs-Made [] (f ∷ formats) [] w found.0 found.1 v named tt tt first) rest
