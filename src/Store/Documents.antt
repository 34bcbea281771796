-- ===== src/Store/Documents.antt =====
-- internal/store/store.go and dedupe.go: the tables `documents`, `mapped_urls` and `dedupe_cache`.
use bytefetch.Prelude.{
  ℕ, suc, Text, is_empty, same, Bool, false, List, [], ◌∷◌, ◌++◌, any, count_if, update_where, ltb,
  if◌then◌else◌,
}
use bytefetch.Exec.{Result, ok, err, no_such_job, Exec, pure, statement, query, update, ◌>>◌}
use bytefetch.Store.Rows.{Document, MappedInsert, SeenUrl}
use bytefetch.Store.Db.{Db, has_job}

-- `InsertDocument`. Here and below the foreign key refuses a job that is gone.
unfoldable pub insert_document_row : ℕ → Document → Db → Result Unit × Db
unfolding has_job
insert_document_row now doc db =
    if has_job doc.job_id db
    then (
      ok tt,
      record db {
        documents =
            db.documents ++ record { id = db.next_document; document = doc; created_at = now } ∷ [];
        next_document = suc db.next_document;
      },
    )
    else (err no_such_job, db)

unfoldable pub insert_document : ℕ → Document → Exec Unit
unfolding insert_document_row
insert_document now doc = statement (insert_document_row now doc)

unfoldable pub insert_mapped_row : ℕ → MappedInsert → Db → Result Unit × Db
unfolding has_job
insert_mapped_row now e db =
    if has_job e.job_id db
    then (
      ok tt,
      record db {
        mapped = db.mapped ++ record { id = db.next_mapped; entry = e; created_at = now } ∷ [];
        next_mapped = suc db.next_mapped;
      },
    )
    else (err no_such_job, db)

unfoldable pub insert_mapped_rows : ℕ → List MappedInsert → Exec Unit
insert_mapped_rows now [] = pure tt
insert_mapped_rows now (e ∷ es) = statement (insert_mapped_row now e) >> insert_mapped_rows now es

-- `InsertMappedBatch`
unfoldable pub insert_mapped_batch : ℕ → List MappedInsert → Exec Unit
unfolding insert_mapped_rows
insert_mapped_batch now [] = pure tt
insert_mapped_batch now (e ∷ es) = do update (λ db. db); insert_mapped_rows now (e ∷ es)

-- `InsertMapped`
unfoldable pub insert_mapped : ℕ → MappedInsert → Exec Unit
insert_mapped now e = insert_mapped_batch now (e ∷ [])

-- `HasSeenCanonical`
unfoldable pub has_seen_canonical : Text → Exec Bool
has_seen_canonical url = query (λ db. ltb 0 (count_if (λ s. same s.canonical_url url) db.dedupe))

unfoldable pub mark_seen : ℕ → Text → List SeenUrl → List SeenUrl
mark_seen now url seen =
    if any (λ s. same s.canonical_url url) seen
    then update_where (λ s. same s.canonical_url url) (λ s. record s { last_seen = now }) seen
    else seen ++ record { canonical_url = url; last_seen = now } ∷ []

-- `MarkCanonical`: `INSERT … ON CONFLICT (canonical_url) DO UPDATE SET last_seen`.
unfoldable pub mark_canonical : ℕ → Text → Exec Unit
unfolding mark_seen
mark_canonical now url = update (λ db. record db { dedupe = mark_seen now url db.dedupe })

-- `ShouldSkipCanonical`, with the method of the `DedupeChecker` that it is given.
unfoldable pub should_skip_canonical : (Text → Exec Bool) → Text → Exec Bool
should_skip_canonical has_seen url = if is_empty url then pure false else has_seen url
