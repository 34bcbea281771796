-- ===== src/Worker/Pages.antt =====
-- internal/worker/worker.go: a page from its fetch to its document.
pub mod Made
pub mod Stored
use bytefetch.Prelude.{
  ℕ, ◌+◌, Text, codes, is_empty, same, contains, Bool, true, false, not, ◌&&◌, Option, none, some,
  List, [], ◌∷◌, any, length, ltb, max, if◌then◌else◌,
}
use bytefetch.Int.{ℤ, pos, negsuc, pos_part, to_float, int_of_float}
use bytefetch.Json.{
  Json, null, bool, num, str, arr, obj, Members, end, member, Object, lookup, insert, delete,
}
use bytefetch.Exec.{
  Error, too_large, blocked_by_robots, Result, ok, err, Exec, pure, raise, ignore, ◌>>=◌, ◌>>◌,
}
use bytefetch.Store.Rows.{JobType, Task, Document}
use bytefetch.Store.Tasks.{update_task_final_url}
use bytefetch.Store.Documents.{insert_document, mark_canonical}
use bytefetch.Types.{formats_from_any}
use bytefetch.Url.Net.{UrlPackage}
use bytefetch.Url.Canonical.{canonicalize}
use bytefetch.Config.{Config}

-- `fetch.Result`
pub record Page : Type 0 where
  pub body : Text
  pub final_url : Text

-- `extract.Extracted`, of which the worker reads these fields.
pub record Extracted : Type 0 where
  pub title : Text
  pub html : Text
  pub meta : List (Text × Text)
  pub links : List Text

-- What the worker asks of the other components while it works on one task: the robots client, the
-- limiter with the fetcher, `extract.Extract`, `format.FormatContent` and the walk over the sitemaps.
pub record Answer : Type 0 where
  pub allowed : Text → Bool
  pub wait : Text → Result Unit
  pub fetch : Text → Bool → Result Page
  pub extract : Text → Text → Result Extracted
  pub format_content : Extracted → Text → Result Text
  pub sitemap_urls : Text → List Text

unfoldable pub get_bool : Object → Text → Bool
get_bool params key = elim (lookup key params) [ some (bool b) ↦ b | _ ↦ false ]

unfoldable pub get_string : Object → Text → Text
get_string params key = elim (lookup key params) [ some (str s) ↦ s | _ ↦ [] ]

-- What `getInt` makes of a number, which `json.Unmarshal` has read as a `float64`. A negative number is
-- 0 here: the depths that it is compared with are no less than either.
unfoldable pub whole_part : ℤ → ℕ
whole_part (pos n) = pos_part (int_of_float (to_float n))
whole_part (negsuc n) = 0

unfoldable pub get_int : Object → Text → ℕ
get_int params key = elim (lookup key params) [ some (num n) ↦ whole_part n | _ ↦ 0 ]

unfoldable pub requested_formats : Object → List Text
requested_formats params = elim (lookup (codes "output_format") params) [
  | some v ↦ formats_from_any v (codes "markdown")
  | none ↦ codes "markdown" ∷ []
]

-- A result of another component.
unfoldable pub lift : {A : Type 0} → Result A → Exec A
unfolding pure raise
lift (ok a) = pure a
lift (err e) = raise e

abbrev pub Outputs : Type 0
Outputs = List (Text × Text)

unfoldable pub has_output : Text → Outputs → Bool
has_output format outputs = any (λ o. same o.0 format) outputs

-- The first output that is not empty, or the one at hand.
abbrev pub primary_of : Text → Text → Text
primary_of primary content = if is_empty primary then content else primary

module _ (answer : Answer) (ext : Extracted) where
  -- The loop over the formats: the outputs, the last one first, and the primary one.
  unfoldable pub make_outputs : List Text → Outputs → Text → Exec (Outputs × Text)
  make_outputs [] outputs primary = pure (outputs, primary)
  make_outputs (format ∷ formats) outputs primary =
      let skip = make_outputs formats outputs primary in
      let next = λ (content : Text).
        make_outputs formats ((format, content) ∷ outputs) (primary_of primary content) in
      if is_empty format
      then skip
      else if has_output format outputs
      then skip
      else (do content ← lift (answer.format_content ext format); next content)

  -- Where there is no format at all, there is Markdown.
  unfoldable pub or_markdown : Outputs × Text → Exec (Outputs × Text)
  or_markdown ([], primary) = do
    content ← lift (answer.format_content ext (codes "markdown"))
    pure ((codes "markdown", content) ∷ [], content)
  or_markdown (o ∷ outputs, primary) = pure (o ∷ outputs, primary)

abbrev pub strings_of : List (Text × Text) → Object
strings_of [] = []
strings_of ((k, v) ∷ m) = (k, str v) ∷ strings_of m

abbrev pub members_of : Outputs → Members
members_of [] = end
members_of ((k, v) ∷ m) = member k (str v) (members_of m)

abbrev pub with_start : JobType → Object → Object → Object
with_start JobType.crawl params meta =
    let start = get_string params (codes "url") in
    if is_empty start then meta else insert (codes "crawl_url") (str start) meta
with_start _ params meta = meta

abbrev pub with_outputs : Outputs → Object → Object
with_outputs [] meta = meta
with_outputs (o ∷ outputs) meta = insert (codes "outputs") (obj (members_of (o ∷ outputs))) meta

-- The metadata of the document.
unfoldable pub document_meta : JobType → Object → Extracted → Outputs → Object
unfolding get_string insert delete
document_meta type params ext outputs =
    with_outputs outputs (with_start type params (delete (codes "url") (strings_of ext.meta)))

unfoldable pub max_length : ℕ → Outputs → ℕ
max_length n [] = n
max_length n ((format, content) ∷ outputs) = max_length (max n (length content)) outputs

module _ (net : UrlPackage) (cfg : Config) where
  abbrev pub mark_if_any : ℕ → Option Text → Exec Unit
  mark_if_any now none = pure tt
  mark_if_any now (some canon) = ignore (mark_canonical now canon)

  -- The end of `storeDocument`: the page counts as seen.
  unfoldable pub mark_page : ℕ → Text → Exec Unit
  mark_page now final_url =
      if cfg.crawl.dedupe_cache
      then mark_if_any now (canonicalize net final_url cfg.crawl.strip_query)
      else pure tt

  abbrev pub page_document : Task → Text → Outputs → Text → Extracted → Object → JobType → Document
  page_document task final_url outputs primary ext params type = record {
    job_id = task.job_id;
    requested_url = task.requested_url;
    final_url = final_url;
    title = ext.title;
    content_md = primary;
    content_raw = primary;
    meta = document_meta type params ext outputs;
  }

  -- `storeDocument`
  unfoldable pub store_document :
      ℕ → Task → Text → Outputs → Text → Extracted → Object → JobType → Exec Unit
  store_document now task final_url outputs primary ext params type =
      if ltb 0 cfg.job_defaults.max_bytes
        && ltb cfg.job_defaults.max_bytes (max_length (length primary) outputs)
      then raise too_large
      else (do
        insert_document now (page_document task final_url outputs primary ext params type)
        mark_page now final_url)

  unfoldable pub canonical_or : Text → Text
  canonical_or url = elim (canonicalize net url cfg.crawl.strip_query) [
    | none ↦ url
    | some canon ↦ canon
  ]

  -- The update of the task where the page has another address than the task.
  unfoldable pub move_task : ℕ → Task → Text → Exec Unit
  move_task now task canon =
      if not (is_empty canon) && not (same canon task.final_url)
      then ignore (update_task_final_url now task.id canon)
      else pure tt

  abbrev pub says_nofollow : List (Text × Text) → Bool
  says_nofollow meta = any (λ m. same m.0 (codes "robots") && contains m.1 (codes "nofollow")) meta

  unfoldable pub without_nofollow : Extracted → Extracted
  without_nofollow ext =
      if cfg.crawl.respect_nofollow && says_nofollow ext.meta
      then record ext { links = [] }
      else ext

  -- `fetchExtractAndStore`; `now` is the time after the fetch.
  unfoldable pub fetch_extract_and_store : Answer → ℕ → Task → Object → JobType → Exec Extracted
  fetch_extract_and_store answer now task params type = do
    page ← lift (answer.fetch task.requested_url (get_bool params (codes "use_js")))
    move_task now task (canonical_or page.final_url)
    found ← lift (answer.extract (canonical_or page.final_url) page.body)
    made ← make_outputs answer (without_nofollow found) (requested_formats params) [] []
    outputs ← or_markdown answer (without_nofollow found) made
    store_document now task (canonical_or page.final_url) outputs.0 outputs.1
        (without_nofollow found) params type
    pure (without_nofollow found)

  -- `ensureRobotsAllowed`
  unfoldable pub ensure_robots_allowed : Answer → Text → Exec Unit
  ensure_robots_allowed answer url =
      if cfg.crawl.respect_robots && not (answer.allowed url)
      then raise blocked_by_robots
      else pure tt

  -- `processDocumentTask`
  unfoldable pub process_document_task : Answer → ℕ → Task → Object → JobType → Exec Extracted
  process_document_task answer now task params type = do
    ensure_robots_allowed answer task.requested_url
    lift (answer.wait task.requested_url)
    fetch_extract_and_store answer now task params type
