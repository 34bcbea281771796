-- ===== src/Types/Normal.antt =====
-- internal/types/requests.go: the form of the formats that a list of formats gives.
use bytefetch.Prelude.{
  not_has, still_new, is_empty-false, ◌≡◌, ◌≢◌, refl, sym, ap, ◌∙◌, Text, to_lower, to_lower_idem,
  trim_space, List, [], ◌∷◌, map, In, inl, inr, All, All-of-In, AllPairs, Option, none, some,
}
use bytefetch.Prelude.Trimmed.{trim_space-to_lower, trim_space_idem}
use bytefetch.Json.{Json, null, bool, num, str, arr, obj, Elems}
use bytefetch.Types.{
  normalize_from, normalize_formats, values_or, format_values, list_or, elems_of, formats_from_any,
}
use bytefetch.Types.Formats.{normal_format, normalize_formats_lem}

-- In lower case, not empty, and each there once.
abbrev pub IsNormal : List Text → Type 0
IsNormal formats = All (λ f. (to_lower f ≡ f) × (f ≢ [])) formats × AllPairs ◌≢◌ formats

-- The same of a list that is not empty.
abbrev pub IsChoice : List Text → Type 0
IsChoice formats = IsNormal formats × (formats ≢ [])

In-normal_format :
    (f : Text) (formats : List Text) → In f (map normal_format formats) → to_lower f ≡ f
In-normal_format f [] m = absurd m
In-normal_format f (v ∷ vs) (inl e) =
    rw e (sym (trim_space-to_lower (to_lower v)) ∙ ap trim_space (to_lower_idem v))
In-normal_format f (v ∷ vs) (inr m) = In-normal_format f vs m

normalize_formats-IsNormal : (formats : List Text) → IsNormal (normalize_formats formats)
normalize_formats-IsNormal formats =
    let (_, members, distinct) = normalize_formats_lem formats in
    (
      All-of-In _ _
          (λ f m. let (k, named) = (members f).0 m in (In-normal_format f formats k, named)),
      distinct,
    )

module _ (d : Text) (named : to_lower d ≢ []) where
  default-IsChoice : IsChoice (to_lower d ∷ [])
  default-IsChoice = ((((to_lower_idem d, named), tt), (tt, tt)), λ e. cc e)

  values_or-IsChoice : (formats : List Text) → IsNormal formats → IsChoice (values_or d formats)
  values_or-IsChoice [] h = default-IsChoice
  values_or-IsChoice (f ∷ fs) h = (h, λ e. cc e)

  format_values-IsChoice : (formats : List Text) → IsChoice (format_values formats d)
  unfolding format_values
  format_values-IsChoice formats = values_or-IsChoice _ (normalize_formats-IsNormal formats)

  list_or-IsChoice : (o : Option (List Text)) → IsChoice (list_or d o)
  unfolding list_or
  list_or-IsChoice none = default-IsChoice
  list_or-IsChoice (some fs) = format_values-IsChoice (normalize_formats fs)

  pub formats_from_any-IsChoice : (raw : Json) → IsChoice (formats_from_any raw d)
  unfolding formats_from_any
  formats_from_any-IsChoice null = default-IsChoice
  formats_from_any-IsChoice (bool b) = default-IsChoice
  formats_from_any-IsChoice (num n) = default-IsChoice
  formats_from_any-IsChoice (str s) = format_values-IsChoice (s ∷ [])
  formats_from_any-IsChoice (arr vs) = list_or-IsChoice (elems_of vs)
  formats_from_any-IsChoice (obj ms) = default-IsChoice

-- A list that is in that form already is left as it is.
normalize_from-normal :
    (seen formats : List Text)
    → All (λ f. (normal_format f ≡ f) × (f ≢ [])) formats
    → AllPairs ◌≢◌ formats
    → All (λ f. ¬ In f seen) formats
    → normalize_from seen formats ≡ formats
unfolding normalize_from
normalize_from-normal seen [] h distinct new = refl
normalize_from-normal seen (f ∷ fs) h distinct new =
    let rest =
      normalize_from-normal (f ∷ seen) fs h.1 distinct.1 (still_new f seen fs distinct.0 new.1) in
    rw (h.0.0, is_empty-false f h.0.1, not_has seen f new.0) (ap (λ gs. f ∷ gs) rest)

In-normal_format_idem :
    (f : Text) (formats : List Text) → In f (map normal_format formats) → normal_format f ≡ f
In-normal_format_idem f [] m = absurd m
In-normal_format_idem f (v ∷ vs) (inl e) = rw e (
    ap trim_space (sym (trim_space-to_lower (to_lower v)) ∙ ap trim_space (to_lower_idem v))
    ∙ trim_space_idem (to_lower v))
In-normal_format_idem f (v ∷ vs) (inr m) = In-normal_format_idem f vs m

pub normalize_formats_idem :
    (formats : List Text)
    → normalize_formats (normalize_formats formats) ≡ normalize_formats formats
unfolding normalize_formats
normalize_formats_idem formats =
    let (_, members, distinct) = normalize_formats_lem formats in
    normalize_from-normal [] (normalize_formats formats)
      (All-of-In _ _
        (λ f m. let (k, named) = (members f).0 m in (In-normal_format_idem f formats k, named)))
      distinct (All-of-In _ _ (λ f m k. k))

-- A list of strings gives the values of the formats that it has.
pub formats_from_any-arr :
    (vs : Elems) (formats : List Text) (d : Text)
    → elems_of vs ≡ some formats
    → formats_from_any (arr vs) d ≡ format_values formats d
unfolding formats_from_any list_or format_values
formats_from_any-arr vs formats d h = rw h (ap (values_or d) (normalize_formats_idem formats))
