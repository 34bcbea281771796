-- ===== src/Store/Invariant/Documents.antt =====
-- The statements over `documents`, `mapped_urls` and `dedupe_cache` keep the invariant.
use bytefetch.Prelude.{
  ℕ, suc, ◌<◌, ◌≡◌, ◌≢◌, refl, Text, same, same_iff, false, List, [], ◌∷◌, ◌++◌, any, Bool-cases,
  inl, inr, All, AllPairs, All-append, All-map, AllPairs-append, AllPairs-map, arith,
}
use bytefetch.Exec.Keeps.{Keeps, pure-Keeps, bind-Keeps, statement-Keeps, update-Keeps}
use bytefetch.Store.Rows.{Document, MappedInsert, SeenUrl}
use bytefetch.Store.Db.{Db, has_job}
use bytefetch.Store.Documents.{
  insert_document_row, insert_document, insert_mapped_row, insert_mapped_rows, insert_mapped_batch,
  mark_seen, mark_canonical,
}
use bytefetch.Store.Invariant.Defs.{Owned, IsValid}

module _ {A : Type 0} (id : A → ℕ) (Rest : A → Type 0) where
  -- A row with the next id comes after all the others.
  concat_ids :
      (next : ℕ) (rows : List A) (r : A)
      → AllPairs (λ r s. id r < id s) rows × All (λ r. (0 < id r) × (id r < next) × Rest r) rows
      → id r ≡ next
      → 0 < next
      → Rest r
      → AllPairs (λ r s. id r < id s) (rows ++ r ∷ [])
        × All (λ r. (0 < id r) × (id r < suc next) × Rest r) (rows ++ r ∷ [])
  concat_ids next rows r (sorted, within) e pos rest = (
    AllPairs-append _ rows (r ∷ []) sorted (tt, tt)
        (All-map (λ s h. (omega arith, tt)) rows within),
    All-append _ rows (r ∷ []) (All-map (λ s h. (h.0, omega arith, h.2)) rows within)
        ((omega arith, omega arith, rest), tt),
  )

insert_document_row-IsValid :
    (now : ℕ) (doc : Document) (db : Db) → IsValid db → IsValid (insert_document_row now doc db).1
unfolding insert_document_row
insert_document_row-IsValid now doc db v = elim (Bool-cases (has_job doc.job_id db)) [
  | inl own ↦ rw own (record {
    jobs_distinct = v.jobs_distinct;
    tasks_valid = v.tasks_valid;
    documents_valid =
        concat_ids (λ r. r.id) (λ r. Owned db.jobs r.job_id) db.next_document db.documents _
          v.documents_valid refl v.next_positive.0 own;
    mapped_valid = v.mapped_valid;
    dedupe_distinct = v.dedupe_distinct;
    next_positive = (omega arith, v.next_positive.1);
  })
  | inr gone ↦ rw gone v
]

insert_mapped_row-IsValid :
    (now : ℕ) (e : MappedInsert) (db : Db) → IsValid db → IsValid (insert_mapped_row now e db).1
unfolding insert_mapped_row
insert_mapped_row-IsValid now e db v = elim (Bool-cases (has_job e.job_id db)) [
  | inl own ↦ rw own (record {
    jobs_distinct = v.jobs_distinct;
    tasks_valid = v.tasks_valid;
    documents_valid = v.documents_valid;
    mapped_valid =
        concat_ids (λ r. r.id) (λ r. Owned db.jobs r.job_id) db.next_mapped db.mapped _
          v.mapped_valid refl v.next_positive.1 own;
    dedupe_distinct = v.dedupe_distinct;
    next_positive = (v.next_positive.0, omega arith);
  })
  | inr gone ↦ rw gone v
]

-- `InsertDocument` keeps the invariant: a document has its job, and the ids stay in order.
pub insert_document-IsValid : (now : ℕ) (doc : Document) → Keeps IsValid (insert_document now doc)
unfolding insert_document
insert_document-IsValid now doc = statement-Keeps _ (insert_document_row-IsValid now doc)

insert_mapped_rows-IsValid :
    (now : ℕ) (es : List MappedInsert) → Keeps IsValid (insert_mapped_rows now es)
unfolding insert_mapped_rows
insert_mapped_rows-IsValid now [] = pure-Keeps tt
insert_mapped_rows-IsValid now (e ∷ es) =
    bind-Keeps _ _ (statement-Keeps _ (insert_mapped_row-IsValid now e))
      (λ _. insert_mapped_rows-IsValid now es)

pub insert_mapped_batch-IsValid :
    (now : ℕ) (es : List MappedInsert) → Keeps IsValid (insert_mapped_batch now es)
unfolding insert_mapped_batch
insert_mapped_batch-IsValid now [] = pure-Keeps tt
insert_mapped_batch-IsValid now (e ∷ es) =
    bind-Keeps _ _ (update-Keeps _ (λ db v. v)) (λ _. insert_mapped_rows-IsValid now (e ∷ es))

unseen :
    (url : Text) (seen : List SeenUrl)
    → any (λ s. same s.canonical_url url) seen ≡ false
    → All (λ s. s.canonical_url ≢ url) seen
unseen url [] h = tt
unseen url (s ∷ seen) h = ground (arith, same_iff s.canonical_url url, unseen url seen)

-- A URL stands once in the cache, however often it is marked.
mark_seen-distinct :
    (now : ℕ) (url : Text) (seen : List SeenUrl)
    → AllPairs (λ s t. s.canonical_url ≢ t.canonical_url) seen
    → AllPairs (λ s t. s.canonical_url ≢ t.canonical_url) (mark_seen now url seen)
unfolding mark_seen
mark_seen-distinct now url seen h = elim (Bool-cases (any (λ s. same s.canonical_url url) seen)) [
  | inl old ↦ rw old (AllPairs-map _ _ seen (λ s t _ _ ne. ground arith) h)
  | inr new ↦
      rw new (
        AllPairs-append _ seen _ h (tt, tt) (All-map (λ s ne. (ne, tt)) seen (unseen url seen new)))
]

pub mark_canonical-IsValid : (now : ℕ) (url : Text) → Keeps IsValid (mark_canonical now url)
unfolding mark_canonical
mark_canonical-IsValid now url = update-Keeps _ (λ db v. record {
  jobs_distinct = v.jobs_distinct;
  tasks_valid = v.tasks_valid;
  documents_valid = v.documents_valid;
  mapped_valid = v.mapped_valid;
  dedupe_distinct = mark_seen-distinct now url db.dedupe v.dedupe_distinct;
  next_positive = v.next_positive;
})
