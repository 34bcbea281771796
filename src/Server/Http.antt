-- ===== src/Server/Http.antt =====
-- internal/server/routes.go and errors.go: responses, and how a handler goes on after a call.
use bytefetch.Prelude.{ℕ, Text, codes, Option, none, some, List, []}
use bytefetch.Exec.{Error, Result, ok, err, World, Exec}
use bytefetch.Store.Rows.{Job, JobType, JobStatus, JobStats, MappedRow}
use bytefetch.Worker.Process.{error_text}
use bytefetch.Server.Outputs.{DocumentOutput, DocumentResponse}
use bytefetch.Server.Validate.{Invalid, bad_url, bad_format, bad_depth, no_urls}

-- What the handler of `GET /jobs/:id` shows of a job.
pub record JobView : Type 0 where
  pub id : ℕ
  pub status : JobStatus
  pub type : JobType
  pub expires_at : Option ℕ
  pub deadline : Option ℕ
  pub created_at : ℕ
  pub error : Text
  pub stats : JobStats

unfoldable pub view_of : Job → JobStats → JobView
view_of job stats = record {
  id = job.id;
  status = job.status;
  type = job.type;
  expires_at = job.expires_at;
  deadline = job.deadline;
  created_at = job.created_at;
  error = error_string job.error;
  stats = stats;
}
  where
    error_string : Option Text → Text
    error_string none = []
    error_string (some msg) = msg

-- The bodies of the responses. `refused` has an error beside an empty job id; the last two are
-- lines of documents or of mapped URLs, with the line of `writeCursorLine` after them.
pub data Body : Type 0 where
  message : Text → Body
  scraped : List DocumentOutput → List (Text × Text) → Body
  created : ℕ → Body
  refused : Text → Body
  job_view : JobView → Body
  documents : List DocumentResponse → ℕ → Body
  links : List MappedRow → ℕ → List Text → Body
  document_lines : List DocumentResponse → ℕ → Text → Text → Body
  mapped_lines : List MappedRow → ℕ → Text → Text → Body

-- `next_cursor` is the header `X-Next-Cursor`.
pub record Response : Type 0 where
  pub status : ℕ
  pub next_cursor : Option Text
  pub body : Body

abbrev pub respond : ℕ → Body → Response
respond status body = record { status = status; next_cursor = none; body = body }

-- errors.go: `badRequest`, `notFound`, `internalError`.
unfoldable pub bad_request : Text → Response
bad_request msg = respond 400 (message msg)

unfoldable pub not_found : Text → Response
not_found msg = respond 404 (message msg)

unfoldable pub internal_error : Text → Response
internal_error msg = respond 500 (message msg)

-- `none` where the rounds of an export ran out.
abbrev pub Handler : Type 0
Handler = World → Option Response × World

unfoldable pub reply : Response → Handler
reply r w = (some r, w)

module _ {A : Type 0} where
  abbrev pub on_result :
      (Error → Response) → (A → Handler) → Result A → World → Option Response × World
  on_result fail next (ok a) w = next a w
  on_result fail next (err e) w = (some (fail e), w)

  -- `if err != nil { return … }` after a call.
  unfoldable pub after_call : Exec A → (Error → Response) → (A → Handler) → Handler
  after_call m fail next w = let (r, w') = m w in on_result fail next r w'

unfoldable pub failed : Error → Response
failed e = internal_error (error_text e)

unfoldable pub invalid_text : Invalid → Text
invalid_text bad_url = codes "invalid url"
invalid_text bad_format = codes "invalid output_format"
invalid_text bad_depth = codes "invalid max_depth"
invalid_text no_urls = codes "no urls provided"

abbrev pub checked_as : Handler → Option Invalid → Handler
checked_as next none = next
checked_as next (some e) = reply (bad_request (invalid_text e))

-- The check of a request before its handler goes on.
unfoldable pub checked : {R : Type 0} → (R → Option Invalid) → Option R → (R → Handler) → Handler
checked validate none next = reply (bad_request (codes "invalid request"))
checked validate (some req) next = checked_as (next req) (validate req)
