-- ===== src/Types/Formats.antt =====
-- internal/types/requests.go: what is left of a list of formats.
use bytefetch.Prelude.{
  ◌≡◌, ◌≢◌, ◌↔◌, refl, sym, ap, subst, Text, to_lower, trim_space, is_empty, has, ◌||◌, List, [],
  ◌∷◌, map, Bool-cases, inl, inr, In, AllPairs,
}
use bytefetch.Types.{normalize_from, normalize_formats}
use bytefetch.Worker.Links.{unique_from, unique_strings}
use bytefetch.Worker.Links.Unique.{unique_strings_lem}

abbrev pub normal_format : Text → Text
normal_format v = trim_space (to_lower v)

normalize_from-map :
    (seen formats : List Text)
    → normalize_from seen formats ≡ unique_from seen (map normal_format formats)
unfolding normalize_from unique_from
normalize_from-map seen [] = refl
normalize_from-map seen (v ∷ vs) =
    elim (Bool-cases (is_empty (normal_format v) || has seen (normal_format v))) [
      | inl out ↦ rw out (normalize_from-map seen vs)
      | inr kept ↦
          rw kept (ap (λ ws. normal_format v ∷ ws) (normalize_from-map (normal_format v ∷ seen) vs))
    ]

-- `normalizeFormats` is `uniqueStrings` of the formats in lower case without white space around them:
-- each that is not blank is there once, and nothing else is.
pub normalize_formats_lem :
    (formats : List Text)
    → (normalize_formats formats ≡ unique_strings (map normal_format formats))
      × ((a : Text)
          → In a (normalize_formats formats) ↔ (In a (map normal_format formats) × (a ≢ [])))
      × AllPairs ◌≢◌ (normalize_formats formats)
unfolding normalize_formats unique_strings
normalize_formats_lem formats =
    let same_list = normalize_from-map [] formats in
    let (members, distinct, _) = unique_strings_lem (map normal_format formats) in
    (
      same_list,
      λ a.
          subst (λ l. In a l ↔ (In a (map normal_format formats) × (a ≢ []))) (sym same_list)
            (members a),
      subst (AllPairs ◌≢◌) (sym same_list) distinct,
    )
