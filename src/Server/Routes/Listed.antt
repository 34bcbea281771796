-- ===== src/Server/Routes/Listed.antt =====
-- internal/server/routes.go: the answers to a request for a page of documents.
use bytefetch.Prelude.{
  ℕ, ◌≡◌, ◌≢◌, refl, ap, ◌∙◌, codes, none, some, List, [], ◌∷◌, take, drop, find, ◌==◌,
}
use bytefetch.Exec.{ok, err, no_rows, statement, Exec, Result, Error, World}
use bytefetch.Store.Rows.{Job, DocumentRow}
use bytefetch.Store.Db.{Db}
use bytefetch.Store.Finish.{quiet}
use bytefetch.Store.Invariant.{IsValid}
use bytefetch.Store.Jobs.{get_job, get_job_row}
use bytefetch.Store.Listing.{Direction, Column, document_keys, order_dir, document_order_column}
use bytefetch.Store.Listing.Order.{rows_after}
use bytefetch.Server.Http.{
  Response, respond, documents, Handler, reply, after_call, on_result, not_found,
}
use bytefetch.Server.Paging.{last_id}
use bytefetch.Server.Paging.Complete.{document_page-quiet}
use bytefetch.Server.Paging.Rounds.{rows_after-next}
use bytefetch.Server.Request.{Query, pagination, sort_of, order_of}
use bytefetch.Server.Routes.{HandlerDeps, handle_documents, responses}

module _ {A : Type 0} (m : Exec A) (fail : Error → Response) (next : A → Handler) (w : World) where
  after_call-ok : {a : A} {w' : World} → m w ≡ (ok a, w') → after_call m fail next w ≡ next a w'
  unfolding after_call
  after_call-ok e = ap (λ (r : Result A × World). on_result fail next r.0 r.1) e

  after_call-err :
      {e : Error} {w' : World} → m w ≡ (err e, w') → after_call m fail next w ≡ (some (fail e), w')
  unfolding after_call
  after_call-err e = ap (λ (r : Result A × World). on_result fail next r.0 r.1) e

get_job-found :
    (id : ℕ) (db : Db) (job : Job)
    → find (λ j. j.id == id) db.jobs ≡ some job
    → get_job id (quiet db) ≡ (ok job, quiet db)
unfolding get_job get_job_row statement
get_job-found id db job h = rw h refl

get_job-missing :
    (id : ℕ) (db : Db)
    → find (λ j. j.id == id) db.jobs ≡ none
    → get_job id (quiet db) ≡ (err no_rows, quiet db)
unfolding get_job get_job_row statement
get_job-missing id db h = rw h refl

module _ (deps : HandlerDeps) (id : ℕ) (q : Query) (db : Db) (valid : IsValid db) where
  next_page :
      (page : List DocumentRow)
      → take (pagination q).limit (rows_after document_keys id db.documents (pagination q).after)
        ≡ page
      → page ≢ []
      → rows_after document_keys id db.documents (last_id document_keys 0 page)
        ≡ drop (pagination q).limit (rows_after document_keys id db.documents (pagination q).after)
  unfolding last_id
  next_page [] e some_row = absurd (some_row refl)
  next_page (r ∷ rs) e some_row =
      rows_after-next document_keys id (pagination q).limit (pagination q).after db.documents r rs
        valid.documents_valid.0 e

-- From a valid database and with no fault of it, a request for the documents of a job by their ids
-- is answered 404 where there is no such job; else by as many of the rows after the cursor as the
-- limit says, with the outputs of each, and where there are some, the rows after the cursor that it
-- announces are those that it left out. The database is left alone.
pub documents_listed :
    (deps : HandlerDeps) (id : ℕ) (q : Query) (db : Db)
    → order_dir (sort_of q) ≡ Direction.asc
    → document_order_column (order_of q) ≡ Column.id
    → IsValid db
    → let left = rows_after document_keys id db.documents in
      let page = take (pagination q).limit (left (pagination q).after) in
      let next = last_id document_keys 0 page in
      (find (λ j. j.id == id) db.jobs ≡ none
        → handle_documents deps id q (quiet db)
          ≡ (some (not_found (codes "job not found")), quiet db))
      × ((job : Job)
          → find (λ j. j.id == id) db.jobs ≡ some job
          → (handle_documents deps id q (quiet db)
              ≡ (some (respond 200 (documents (responses deps job page) next)), quiet db))
            × (page ≢ [] → left next ≡ drop (pagination q).limit (left (pagination q).after)))
unfolding handle_documents reply
documents_listed deps id q db asc by_id valid = (
  (λ gone. after_call-err _ _ _ (quiet db) (get_job-missing id db gone)),
  λ job found. (
    after_call-ok _ _ _ (quiet db) (get_job-found id db job found)
        ∙ after_call-ok _ _ _ (quiet db) (
            document_page-quiet deps.collate id (pagination q).limit (sort_of q) (order_of q) db asc
              by_id valid (pagination q).after),
    λ some_row. next_page deps id q db valid _ refl some_row,
  ),
)
