-- ===== src/Server/Paging/Ends.antt =====
-- The export loop ends, whatever the order that the request asks for.
use bytefetch.Prelude.{
  ℕ, ◌+◌, ◌<◌, ◌≡◌, inl, inr, Text, Bool, some, List, [], length, ltb, Bool-cases, All-map, arith,
}
use bytefetch.Exec.{ok, query}
use bytefetch.Store.Db.{Db}
use bytefetch.Store.Rows.{DocumentRow, MappedRow}
use bytefetch.Store.Finish.{quiet}
use bytefetch.Store.Invariant.{IsValid}
use bytefetch.Store.Listing.{
  document_keys, mapped_keys, order_dir, document_order_column, map_order_column, order_by,
  list_documents, list_documents_after, list_mapped, list_mapped_after,
}
use bytefetch.Server.Paging.{document_page, mapped_page, export_documents, export_mapped}
use bytefetch.Server.Paging.Falls.{
  export_loop_ends, left_over, left_over-le, page_rows, page_rows_falls,
}

module _ (collate : Text → Text → Bool) (job_id limit : ℕ) (sort order_by : Text) (db : Db) where
  document_page-rows :
      (c : ℕ)
      → document_page collate job_id limit sort order_by c (quiet db) ≡ (
        ok (
            page_rows document_keys collate
              (record { direction = order_dir sort; column = document_order_column order_by })
              job_id
              limit
              db.documents
              c),
        quiet db,
      )
  unfolding document_page list_documents list_documents_after query page_rows
  document_page-rows c = elim (Bool-cases (ltb 0 c)) [ inl later ↦ rw later | inr first ↦ rw first ]

  mapped_page-rows :
      (c : ℕ)
      → mapped_page collate job_id limit sort order_by c (quiet db) ≡ (
        ok (
            page_rows mapped_keys collate
              (record { direction = order_dir sort; column = map_order_column order_by })
              job_id
              limit
              db.mapped
              c),
        quiet db,
      )
  unfolding mapped_page list_mapped list_mapped_after query page_rows
  mapped_page-rows c = elim (Bool-cases (ltb 0 c)) [ inl later ↦ rw later | inr first ↦ rw first ]

-- An export of a job's documents ends, in whatever order and direction, of one page or of all,
-- when the database is valid and no statement fails: two rounds more than there are rows are enough.
pub export_documents_ends :
    (collate : Text → Text → Bool) (rounds job_id limit : ℕ) (sort order_by : Text) (after : ℕ)
    (all : Bool) (db : Db)
    → IsValid db
    → length db.documents + 1 < rounds
    → (found : List DocumentRow × ℕ) × (export_documents collate rounds job_id limit sort order_by
          after all
          (quiet db)
        ≡ (ok (some found), quiet db))
unfolding export_documents
export_documents_ends collate rounds job_id limit sort order_by after all db v enough =
    let d = order_dir sort in
    let column = document_order_column order_by in
    export_loop_ends document_keys (document_page collate job_id limit sort order_by)
      (page_rows document_keys collate (record { direction = d; column = column }) job_id limit
        db.documents)
      (left_over document_keys d db.documents) all db
      (document_page-rows collate job_id limit sort order_by db)
      (page_rows_falls document_keys collate d column job_id limit db.documents
        (All-map (λ r h. h.0) db.documents v.documents_valid.1))
      rounds after [] (let le = left_over-le document_keys d db.documents after in omega arith)

-- An export of a job's mapped URLs ends, in whatever order and direction, of one page or of all,
-- when the database is valid and no statement fails: two rounds more than there are rows are enough.
pub export_mapped_ends :
    (collate : Text → Text → Bool) (rounds job_id limit : ℕ) (sort order_by : Text) (after : ℕ)
    (all : Bool) (db : Db)
    → IsValid db
    → length db.mapped + 1 < rounds
    → (found : List MappedRow × ℕ) × (export_mapped collate rounds job_id limit sort order_by after
          all
          (quiet db)
        ≡ (ok (some found), quiet db))
unfolding export_mapped
export_mapped_ends collate rounds job_id limit sort order_by after all db v enough =
    let d = order_dir sort in
    let column = map_order_column order_by in
    export_loop_ends mapped_keys (mapped_page collate job_id limit sort order_by)
      (page_rows mapped_keys collate (record { direction = d; column = column }) job_id limit
        db.mapped)
      (left_over mapped_keys d db.mapped) all db
      (mapped_page-rows collate job_id limit sort order_by db)
      (page_rows_falls mapped_keys collate d column job_id limit db.mapped
        (All-map (λ r h. h.0) db.mapped v.mapped_valid.1))
      rounds after [] (let le = left_over-le mapped_keys d db.mapped after in omega arith)
