-- ===== src/Server/Outputs.antt =====
-- internal/server/routes.go: the outputs of a page, as a response shows them.
pub mod Ordered
pub mod Stored
pub mod Served
pub mod RoundTrip
use bytefetch.Prelude.{
  ℕ, Text, codes, is_empty, to_lower, has, Bool, ◌||◌, Option, none, some, List, [], ◌∷◌, ◌++◌, map,
  if◌then◌else◌,
}
use bytefetch.Json.{
  Json, str, arr, obj, Elems, nil, cons, Members, end, member, Object, lookup, insert, delete,
}
use bytefetch.Exec.{Result, ok, err}
use bytefetch.Store.Rows.{Job, DocumentRow}
use bytefetch.Types.{formats_from_any}

pub record DocumentOutput : Type 0 where
  pub format : Text
  pub content : Text

-- `documentResponse`
pub record DocumentResponse : Type 0 where
  pub id : ℕ
  pub job_id : ℕ
  pub outputs : List DocumentOutput
  pub meta : Object

-- `defaultOutputFormat`
abbrev pub default_format : Text
default_format = codes "markdown"

-- The loop of `ensurePreferred`; `seen` holds what it has kept.
unfoldable pub preferred_from : List Text → List Text → List Text
preferred_from seen [] = []
preferred_from seen (f ∷ fs) =
    let low = to_lower f in
    let skipped = preferred_from seen fs in
    let kept = low ∷ preferred_from (low ∷ seen) fs in
    if is_empty low || has seen low then skipped else kept

abbrev pub or_default : List Text → List Text
or_default [] = default_format ∷ []
or_default (f ∷ fs) = f ∷ fs

unfoldable pub ensure_preferred : List Text → List Text
ensure_preferred preferred = or_default (preferred_from [] preferred)

abbrev pub Contents : Type 0
Contents = List (Text × Text)

-- The calls of `add` in `orderedOutputs`, one for each format; `seen` holds those that are out.
unfoldable pub add_outputs : Contents → List Text → List Text → List DocumentOutput
add_outputs outputs seen [] = []
add_outputs outputs seen (f ∷ fs) =
    let low = to_lower f in
    let skipped = add_outputs outputs seen fs in
    let kept = add_outputs outputs (low ∷ seen) fs in
    if has seen low then skipped else elim (lookup low outputs) [
      | none ↦ skipped
      | some content ↦ record { format = low; content = content } ∷ kept
    ]

-- `orderedOutputs`: the preferred formats first, then those that the map holds, in the order of the
-- iteration over it.
unfoldable pub ordered_outputs : Contents → List Text → List DocumentOutput
ordered_outputs outputs preferred =
    add_outputs outputs [] (ensure_preferred preferred ++ map (λ o. o.0) outputs)

abbrev first_or : Text → List Text → Text
first_or d [] = d
first_or d (f ∷ fs) = f

-- `fallbackOutputs`; the preferred formats are never none at all.
unfoldable pub fallback_outputs : List Text → Text → List DocumentOutput
fallback_outputs preferred content =
    record { format = first_or default_format (ensure_preferred preferred); content = content } ∷ []

-- The members of an object that are strings, under their keys in lower case.
unfoldable pub member_contents : Members → Contents → Contents
member_contents end outputs = outputs
member_contents (member key (str content) ms) outputs =
    member_contents ms (insert (to_lower key) content outputs)
member_contents (member key v ms) outputs = member_contents ms outputs

-- `s, _ := v.(string)`
abbrev text_or_empty : Option Json → Text
text_or_empty (some (str s)) = s
text_or_empty _ = []

abbrev entries : Members → Object
entries end = []
entries (member key v ms) = (key, v) ∷ entries ms

unfoldable pub item_content : Members → Contents → Contents
item_content ms outputs =
    let format = text_or_empty (lookup (codes "format") (entries ms)) in
    let content = text_or_empty (lookup (codes "content") (entries ms)) in
    if is_empty format || is_empty content
    then outputs
    else insert (to_lower format) content outputs

unfoldable pub item_contents : Elems → Contents → Contents
item_contents nil outputs = outputs
item_contents (cons (obj ms) vs) outputs = item_contents vs (item_content ms outputs)
item_contents (cons v vs) outputs = item_contents vs outputs

-- The `switch` over the value that the metadata holds under "outputs".
unfoldable pub contents_of : Json → Contents
contents_of (obj ms) = member_contents ms []
contents_of (arr vs) = item_contents vs []
contents_of v = []

abbrev pub or_fallback : List Text → Text → List DocumentOutput → List DocumentOutput
or_fallback preferred fallback [] = fallback_outputs preferred fallback
or_fallback preferred fallback (o ∷ os) = o ∷ os

abbrev pub extract_from : Option Json → Object → List Text → Text → List DocumentOutput × Object
extract_from none meta preferred fallback = (fallback_outputs preferred fallback, meta)
extract_from (some raw) meta preferred fallback = (
  or_fallback preferred fallback (ordered_outputs (contents_of raw) preferred),
  delete (codes "outputs") meta,
)

-- `extractOutputs`
unfoldable pub extract_outputs : Object → List Text → Text → List DocumentOutput × Object
extract_outputs meta preferred fallback =
    extract_from (lookup (codes "outputs") meta) meta preferred fallback

-- `formatsFromJob`
unfoldable pub formats_from_job : Job → List Text
formats_from_job job = elim (lookup (codes "output_format") job.params) [
  | none ↦ default_format ∷ []
  | some raw ↦ formats_from_any raw default_format
]

-- `renderOutputs`, `format_content` being `format.FormatContent` of the page; `outputs` are those
-- that it has made.
unfoldable pub render_outputs : (Text → Result Text) → List Text → Contents → Result Contents
render_outputs format_content [] outputs = ok outputs
render_outputs format_content (f ∷ fs) outputs = elim (lookup f outputs) [
  | some content ↦ render_outputs format_content fs outputs
  | none ↦ elim (format_content f) [
    | err e ↦ err e
    | ok content ↦ render_outputs format_content fs (insert f content outputs)
  ]
]

-- `time.Time.Format` with the layout RFC 3339.
module _ (format_time : ℕ → Text) where
  abbrev pub with_expiry : Option ℕ → Object → Object
  with_expiry none meta = meta
  with_expiry (some t) meta = insert (codes "expires_at") (str (format_time t)) meta

  -- `buildMeta`
  unfoldable pub build_meta : Object → Job → Text → Text → Object
  build_meta raw job requested_url final_url = with_expiry job.expires_at (
      insert (codes "final_url") (str final_url)
        (insert (codes "requested_url") (str requested_url) raw))

  -- `documentFromRow`
  unfoldable pub document_from_row : DocumentRow → Job → List Text → DocumentResponse
  document_from_row r job preferred =
      let found =
        extract_outputs (build_meta r.meta job r.requested_url r.final_url) preferred
          r.content_md in
      record { id = r.id; job_id = r.job_id; outputs = found.0; meta = found.1 }
