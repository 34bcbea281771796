-- ===== src/Server/Paging/Complete.antt =====
-- An export of everything by id writes every row once, in the order of the ids.
use bytefetch.Prelude.{
  ℕ, ◌<◌, ◌≡◌, ap, inl, inr, Text, Bool, true, ◌&&◌, some, [], length, take, ltb, ◌==◌, Bool-cases,
  All-map, arith, length-filter-le,
}
use bytefetch.Exec.{ok, query}
use bytefetch.Store.Db.{Db}
use bytefetch.Store.Finish.{quiet}
use bytefetch.Store.Invariant.{IsValid}
use bytefetch.Store.Listing.{
  Direction, Column, document_keys, mapped_keys, order_dir, document_order_column, map_order_column,
  list_documents, list_documents_after, list_mapped, list_mapped_after,
}
use bytefetch.Store.Listing.Order.{rows_after, select_after-by_id, select_page-by_id}
use bytefetch.Server.Paging.{last_id, document_page, mapped_page, export_documents, export_mapped}
use bytefetch.Server.Paging.Rounds.{export_loop_all, rows_after-next}

module _ (collate : Text → Text → Bool) (job_id limit : ℕ) (sort order_by : Text) (db : Db) where
  pub document_page-quiet :
      order_dir sort ≡ Direction.asc
      → document_order_column order_by ≡ Column.id
      → IsValid db
      → (c : ℕ)
      → document_page collate job_id limit sort order_by c (quiet db)
        ≡ (ok (take limit (rows_after document_keys job_id db.documents c)), quiet db)
  unfolding document_page list_documents list_documents_after query
  document_page-quiet dir col v c = elim (Bool-cases (ltb 0 c)) [
    | inl later ↦
        rw (later, dir, col)
          (ap (λ rows. (ok rows, quiet db))
            (select_after-by_id document_keys collate job_id limit c db.documents
              v.documents_valid.0))
    | inr first ↦
        let start : c ≡ 0 = ground arith in
        rw (start, dir, col)
          (ap (λ rows. (ok rows, quiet db))
            (select_page-by_id document_keys collate job_id limit db.documents v.documents_valid.0
              (All-map (λ r h. h.0) db.documents v.documents_valid.1)))
  ]

-- From a valid database and with no fault of it, an export of all documents by id in ascending
-- order, with a positive page size and as many rounds as there are rows and one more, writes the
-- job's rows after the cursor, each once and in the order of their ids, and ends with the id of the
-- last.
pub export_documents_all :
    (collate : Text → Text → Bool) (rounds job_id limit : ℕ) (sort order_by : Text) (after : ℕ)
    (db : Db)
    → order_dir sort ≡ Direction.asc
    → document_order_column order_by ≡ Column.id
    → IsValid db
    → 0 < limit
    → length db.documents < rounds
    → let rows = rows_after document_keys job_id db.documents after in
      export_documents collate rounds job_id limit sort order_by after true (quiet db)
      ≡ (ok (some (rows, last_id document_keys after rows)), quiet db)
unfolding export_documents rows_after
export_documents_all collate rounds job_id limit sort order_by after db dir col v pos enough =
    export_loop_all document_keys (document_page collate job_id limit sort order_by)
      (rows_after document_keys job_id db.documents) limit db
      (document_page-quiet collate job_id limit sort order_by db dir col v)
      (λ c r rs e.
        rows_after-next document_keys job_id limit c db.documents r rs v.documents_valid.0 e)
      pos rounds after []
      (let fewer =
          length-filter-le (λ r. document_keys.job_id r == job_id && ltb after (document_keys.id r))
            db.documents in
        omega arith)

module _ (collate : Text → Text → Bool) (job_id limit : ℕ) (sort order_by : Text) (db : Db) where
  mapped_page-quiet :
      order_dir sort ≡ Direction.asc
      → map_order_column order_by ≡ Column.id
      → IsValid db
      → (c : ℕ)
      → mapped_page collate job_id limit sort order_by c (quiet db)
        ≡ (ok (take limit (rows_after mapped_keys job_id db.mapped c)), quiet db)
  unfolding mapped_page list_mapped list_mapped_after query
  mapped_page-quiet dir col v c = elim (Bool-cases (ltb 0 c)) [
    | inl later ↦
        rw (later, dir, col)
          (ap (λ rows. (ok rows, quiet db))
            (select_after-by_id mapped_keys collate job_id limit c db.mapped v.mapped_valid.0))
    | inr first ↦
        let start : c ≡ 0 = ground arith in
        rw (start, dir, col)
          (ap (λ rows. (ok rows, quiet db))
            (select_page-by_id mapped_keys collate job_id limit db.mapped v.mapped_valid.0
              (All-map (λ r h. h.0) db.mapped v.mapped_valid.1)))
  ]

-- From a valid database and with no fault of it, an export of all mapped URLs by id in ascending
-- order, with a positive page size and as many rounds as there are rows and one more, writes the
-- job's rows after the cursor, each once and in the order of their ids, and ends with the id of the
-- last.
pub export_mapped_all :
    (collate : Text → Text → Bool) (rounds job_id limit : ℕ) (sort order_by : Text) (after : ℕ)
    (db : Db)
    → order_dir sort ≡ Direction.asc
    → map_order_column order_by ≡ Column.id
    → IsValid db
    → 0 < limit
    → length db.mapped < rounds
    → let rows = rows_after mapped_keys job_id db.mapped after in
      export_mapped collate rounds job_id limit sort order_by after true (quiet db)
      ≡ (ok (some (rows, last_id mapped_keys after rows)), quiet db)
unfolding export_mapped rows_after
export_mapped_all collate rounds job_id limit sort order_by after db dir col v pos enough =
    export_loop_all mapped_keys (mapped_page collate job_id limit sort order_by)
      (rows_after mapped_keys job_id db.mapped) limit db
      (mapped_page-quiet collate job_id limit sort order_by db dir col v)
      (λ c r rs e. rows_after-next mapped_keys job_id limit c db.mapped r rs v.mapped_valid.0 e) pos
      rounds after []
      (let fewer =
          length-filter-le (λ r. mapped_keys.job_id r == job_id && ltb after (mapped_keys.id r))
            db.mapped in
        omega arith)
