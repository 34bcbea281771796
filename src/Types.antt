-- ===== src/Types.antt =====
-- internal/types/requests.go: the lists of output formats.
pub mod Formats
pub mod Normal
use bytefetch.Prelude.{
  Text, codes, is_empty, has, to_lower, trim_space, Bool, true, false, ◌||◌, Option, none, some,
  List, [], ◌∷◌, if◌then◌else◌,
}
use bytefetch.Json.{Json, null, bool, num, str, arr, obj, Elems, nil, cons}

-- The loop of `normalizeFormats`; `seen` holds what it has kept.
unfoldable pub normalize_from : List Text → List Text → List Text
normalize_from seen [] = []
normalize_from seen (v ∷ vs) =
    let w = trim_space (to_lower v) in
    let skipped = normalize_from seen vs in
    let kept = w ∷ normalize_from (w ∷ seen) vs in
    if is_empty w || has seen w then skipped else kept

unfoldable pub normalize_formats : List Text → List Text
unfolding normalize_from
normalize_formats formats = normalize_from [] formats

abbrev pub values_or : Text → List Text → List Text
values_or default_format [] = to_lower default_format ∷ []
values_or default_format (v ∷ vs) = v ∷ vs

-- `FormatList.Values`
unfoldable pub format_values : List Text → Text → List Text
unfolding normalize_formats
format_values formats default_format = values_or default_format (normalize_formats formats)

-- `json.Unmarshal` into a `[]string`: a null element is the empty string.
unfoldable pub elems_of : Elems → Option (List Text)
elems_of nil = some []
elems_of (cons v vs) =
    let rest = elems_of vs in
    elim v [
      | null ↦ elim rest [ none ↦ none | some ss ↦ some ([] ∷ ss) ]
      | bool b ↦ none
      | num n ↦ none
      | str s ↦ elim rest [ none ↦ none | some ss ↦ some (s ∷ ss) ]
      | arr es ↦ none
      | obj ms ↦ none
    ]

abbrev pub list_or : Text → Option (List Text) → List Text
unfolding format_values
list_or default_format none = to_lower default_format ∷ []
list_or default_format (some formats) = format_values (normalize_formats formats) default_format

-- `FormatsFromAny` of a value that `json.Unmarshal` has made. A list goes through
-- `FormatList.UnmarshalJSON`, which normalises it once more.
unfoldable pub formats_from_any : Json → Text → List Text
unfolding elems_of
formats_from_any null default_format = to_lower default_format ∷ []
formats_from_any (str s) default_format = format_values (s ∷ []) default_format
formats_from_any (arr es) default_format = list_or default_format (elems_of es)
formats_from_any _ default_format = to_lower default_format ∷ []
