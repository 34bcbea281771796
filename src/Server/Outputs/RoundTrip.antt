-- ===== src/Server/Outputs/RoundTrip.antt =====
-- internal/worker/worker.go and internal/server/routes.go: the outputs that the worker stores in the
-- metadata of a document, and the response that shows them.
use bytefetch.Prelude.{
  ℕ, ◌≡◌, ◌≢◌, ◌⊎◌, inl, inr, refl, sym, ap, ◌∙◌, Text, codes, same, to_lower, lower_byte, Option,
  none, some, List, [], ◌∷◌, map, In, All, All-In, All-of-In, All-map,
}
use bytefetch.Json.{Json, str, obj, Object, lookup, insert, delete, lookup-insert, lookup-delete}
use bytefetch.Exec.{ok, World, ◌>>=◌}
use bytefetch.Store.Rows.{Job, JobType, DocumentRow}
use bytefetch.Types.Normal.{IsChoice, formats_from_any-IsChoice}
use bytefetch.Types.{formats_from_any}
use bytefetch.Worker.Pages.{
  Extracted, Answer, Outputs, members_of, requested_formats, make_outputs, or_markdown, with_start,
  strings_of, document_meta,
}
use bytefetch.Worker.Pages.Made.{formats_of, Made, outputs-Made}
use bytefetch.Server.Outputs.{
  DocumentOutput, or_default, ensure_preferred, ordered_outputs, or_fallback, with_expiry,
  contents_of, extract_outputs, formats_from_job, build_meta, document_from_row,
}
use bytefetch.Server.Outputs.Ordered.{IsLower}
use bytefetch.Server.Outputs.Stored.{member_contents-lookup, member_contents-keys}
use bytefetch.Server.Outputs.Served.{Served, preferred_from-IsNormal, All-Served}

or_default-ne : (formats : List Text) → formats ≢ [] → or_default formats ≡ formats
or_default-ne [] h = absurd (h refl)
or_default-ne (f ∷ fs) h = refl

ensure_preferred-IsChoice :
    (formats : List Text) → IsChoice formats → ensure_preferred formats ≡ formats
unfolding ensure_preferred
ensure_preferred-IsChoice formats h =
    rw (preferred_from-IsNormal [] formats h.0 (All-of-In _ _ (λ f m k. k)))
      (or_default-ne formats h.1)

-- The formats that the worker makes outputs for are those that the response prefers.
formats_from_job_lem : (job : Job) → formats_from_job job ≡ requested_formats job.params
unfolding formats_from_job requested_formats
formats_from_job_lem job = refl

requested_formats-IsChoice : (params : Object) → IsChoice (requested_formats params)
unfolding requested_formats lower_byte to_lower
requested_formats-IsChoice params = from_entry (lookup (codes "output_format") params)
  where
    from_entry :
        (o : Option Json)
        → IsChoice (elim o [
          | some v ↦ formats_from_any v (codes "markdown")
          | none ↦ codes "markdown" ∷ []
        ])
    from_entry none = ((((refl, λ e. cc e), tt), (tt, tt)), λ e. cc e)
    from_entry (some v) = formats_from_any-IsChoice (codes "markdown") (λ e. cc e) v

In-formats_of : (o : Text × Text) (outputs : Outputs) → In o outputs → In o.0 (formats_of outputs)
In-formats_of o [] m = absurd m
In-formats_of o (q ∷ outputs) (inl e) = inl (ap (λ x. x.0) e)
In-formats_of o (q ∷ outputs) (inr m) = inr (In-formats_of o outputs m)

formats_of-In :
    (f : Text) (outputs : Outputs) → In f (formats_of outputs) → (c : Text) × In (f, c) outputs
formats_of-In f [] m = absurd m
formats_of-In f ((k, c) ∷ outputs) (inl e) = (c, inl (rw e refl))
formats_of-In f (q ∷ outputs) (inr m) = let (c, k) = formats_of-In f outputs m in (c, inr k)

module _ (answer : Answer) (ext : Extracted) where
  -- What `format.FormatContent` makes of the page.
  abbrev IsContent : Text → Text → Type 0
  IsContent f c = answer.format_content ext f ≡ ok c

  module _ (formats : List Text) (outputs : Outputs) (choice : IsChoice formats)
      (made : Made answer ext [] formats outputs) where
    asked : (f : Text) → In f (formats_of outputs) → In f formats
    asked f m = elim ((made.members f).0 m) [ inl k ↦ k | inr k ↦ absurd k ]

    made-IsLower : IsLower outputs
    made-IsLower =
        All-of-In _ _
          (λ o m. (All-In _ formats choice.0.0 (asked o.0 (In-formats_of o outputs m))).0)

    made-known :
        All
          (λ f.
            (c : Text) × (lookup f (contents_of (obj (members_of outputs))) ≡ some c)
            × IsContent f c)
          formats
    unfolding contents_of
    made-known = All-of-In _ _ (λ f m.
        let (c, there) = formats_of-In f outputs ((made.members f).1 (inl m)) in
        (
          c,
          member_contents-lookup (f, c) outputs [] made-IsLower made.distinct there,
          All-In _ outputs made.served there,
        ))

    made-left :
        All
          (λ f. In (to_lower f) formats ⊎ In (to_lower f) [])
          (map (λ o. o.0) (contents_of (obj (members_of outputs))))
    unfolding contents_of
    made-left = All-of-In _ _ (λ f m. elim (member_contents-keys f outputs [] made-IsLower m) [
      | inl k ↦ let there = asked f k in inl (rw ((All-In _ formats choice.0.0 there).0) there)
      | inr k ↦ absurd k
    ])

    made-Served :
        Served IsContent formats (ordered_outputs (contents_of (obj (members_of outputs))) formats)
    unfolding ordered_outputs
    made-Served = rw (ensure_preferred-IsChoice formats choice) (
        All-Served IsContent (contents_of (obj (members_of outputs))) [] formats _ choice.0
          (All-of-In _ _ (λ f m k. k)) made-known made-left)

module _ (format_time : ℕ → Text) where
  with_expiry-outputs :
      (o : Option ℕ) (meta : Object)
      → lookup (codes "outputs") (with_expiry format_time o meta) ≡ lookup (codes "outputs") meta
  unfolding same
  with_expiry-outputs none meta = refl
  with_expiry-outputs (some t) meta =
      lookup-insert (codes "expires_at") (codes "outputs") (str (format_time t)) meta

  build_meta-outputs :
      (meta : Object) (job : Job) (requested_url final_url : Text)
      → lookup (codes "outputs") (build_meta format_time meta job requested_url final_url)
        ≡ lookup (codes "outputs") meta
  unfolding build_meta same
  build_meta-outputs meta job requested_url final_url =
      with_expiry-outputs job.expires_at _
      ∙ lookup-insert (codes "final_url") (codes "outputs") (str final_url)
          (insert (codes "requested_url") (str requested_url) meta)
      ∙ lookup-insert (codes "requested_url") (codes "outputs") (str requested_url) meta

or_fallback-ne :
    (formats : List Text) (fallback : Text) (found : List DocumentOutput)
    → found ≢ []
    → or_fallback formats fallback found ≡ found
or_fallback-ne formats fallback [] h = absurd (h refl)
or_fallback-ne formats fallback (o ∷ found) h = refl

Served-ne :
    (P : Text → Text → Type 0) (formats : List Text) (found : List DocumentOutput)
    → formats ≢ []
    → Served P formats found
    → found ≢ []
Served-ne P formats [] asked served e = asked (sym served.0)
Served-ne P formats (o ∷ found) asked served e = cc e

-- Where some format is asked for, the outputs in the metadata are those that are served.
extract_outputs-stored :
    (P : Text → Text → Type 0) (raw : Json) (meta : Object) (formats : List Text) (fallback : Text)
    → formats ≢ []
    → lookup (codes "outputs") meta ≡ some raw
    → Served P formats (ordered_outputs (contents_of raw) formats)
    → Served P formats (extract_outputs meta formats fallback).0
      × (lookup (codes "outputs") (extract_outputs meta formats fallback).1 ≡ none)
unfolding extract_outputs
extract_outputs-stored P raw meta formats fallback asked there served =
    let ne = Served-ne P formats _ asked served in
    rw (there, or_fallback-ne formats fallback _ ne) (served, lookup-delete (codes "outputs") meta)

document_meta-outputs :
    (type : JobType) (params : Object) (ext : Extracted) (outputs : Outputs)
    → outputs ≢ []
    → lookup (codes "outputs") (document_meta type params ext outputs)
      ≡ some (obj (members_of outputs))
unfolding document_meta same
document_meta-outputs type params ext [] h = absurd (h refl)
document_meta-outputs type params ext (o ∷ outputs) h =
    lookup-insert (codes "outputs") (codes "outputs") (obj (members_of (o ∷ outputs)))
      (with_start type params (delete (codes "url") (strings_of ext.meta)))

Made-ne :
    (answer : Answer) (ext : Extracted) (formats : List Text) (outputs : Outputs)
    → formats ≢ []
    → Made answer ext [] formats outputs
    → outputs ≢ []
Made-ne answer ext [] outputs asked made e = asked refl
Made-ne answer ext (f ∷ fs) [] asked made e = absurd ((made.members f).1 (inl (inl refl)))
Made-ne answer ext (f ∷ fs) (o ∷ outputs) asked made e = cc e

document_from_row-Served :
    (format_time : ℕ → Text) (answer : Answer) (ext : Extracted) (type : JobType) (job : Job)
    (r : DocumentRow) (formats : List Text) (outputs : Outputs)
    → IsChoice formats
    → Made answer ext [] formats outputs
    → r.meta ≡ document_meta type job.params ext outputs
    → let shown = document_from_row format_time r job formats in
      Served (IsContent answer ext) formats shown.outputs
      × (lookup (codes "outputs") shown.meta ≡ none)
unfolding document_from_row
document_from_row-Served format_time answer ext type job r formats outputs choice made meta =
    extract_outputs-stored (IsContent answer ext) (obj (members_of outputs))
      (build_meta format_time r.meta job r.requested_url r.final_url) formats r.content_md choice.1
      (build_meta-outputs format_time r.meta job r.requested_url r.final_url
        ∙ ap (lookup (codes "outputs")) meta
        ∙ document_meta-outputs type job.params ext outputs
            (Made-ne answer ext formats outputs choice.1 made))
      (made-Served answer ext formats outputs choice made)

-- A response shows a document that the worker has stored with one output for each format that the
-- job asks for, in that order, each with the content that `format.FormatContent` made of the page,
-- and its metadata holds the outputs no more.
pub outputs_round_trip :
    (format_time : ℕ → Text) (answer : Answer) (ext : Extracted) (type : JobType) (job : Job)
    (r : DocumentRow) (outputs : Outputs) (primary : Text) (w w' : World)
    → (make_outputs answer ext (requested_formats job.params) [] [] >>= or_markdown answer ext) w
      ≡ (ok (outputs, primary), w')
    → r.meta ≡ document_meta type job.params ext outputs
    → let shown = document_from_row format_time r job (formats_from_job job) in
      (map (λ o. o.format) shown.outputs ≡ formats_from_job job)
      × All (λ o. answer.format_content ext o.format ≡ ok o.content) shown.outputs
      × (lookup (codes "outputs") shown.meta ≡ none)
outputs_round_trip format_time answer ext type job r outputs primary w w' stored meta =
    let formats = requested_formats job.params in
    let choice = requested_formats-IsChoice job.params in
    let made =
      outputs-Made answer ext formats w outputs primary w' choice.1
        (All-map (λ f h. h.1) formats choice.0.0) stored in
    let (served, gone) =
      document_from_row-Served format_time answer ext type job r formats outputs choice made meta in
    rw (formats_from_job_lem job) (served.0, served.1, gone)
