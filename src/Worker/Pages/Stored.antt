-- ===== src/Worker/Pages/Stored.antt =====
-- internal/worker/worker.go: the size of what `storeDocument` stores.
use bytefetch.Prelude.{
  ℕ, ◌<◌, ◌≤◌, ◌≡◌, Text, false, ◌&&◌, Option, none, some, [], ◌∷◌, length, ltb, max, Bool-cases,
  inl, inr, All, All-append, arith,
}
use bytefetch.Json.{Object}
use bytefetch.Exec.Keeps.{
  Keeps, pure-Keeps, if-Keeps, ignore-Keeps, bind-Keeps, update-Keeps, statement-Keeps, raise-Keeps,
}
use bytefetch.Store.Rows.{JobType, Task, Document}
use bytefetch.Store.Db.{Db, has_job}
use bytefetch.Store.Documents.{insert_document_row, insert_document, mark_canonical}
use bytefetch.Url.Net.{UrlPackage}
use bytefetch.Url.Canonical.{canonicalize}
use bytefetch.Config.{Config}
use bytefetch.Worker.Pages.{
  Extracted, Outputs, max_length, mark_if_any, mark_page, page_document, store_document,
}

-- No document has more content than `max_bytes`, where that limit is set.
abbrev pub IsSmall : Config → Db → Type 0
IsSmall cfg db =
    0 < cfg.job_defaults.max_bytes
    → All (λ r. length r.content_md ≤ cfg.job_defaults.max_bytes) db.documents

le_max_length : (n : ℕ) (outputs : Outputs) → n ≤ max_length n outputs
unfolding max_length
le_max_length n [] = omega arith
le_max_length n ((format, content) ∷ outputs) =
    let step = le_max_length (max n (length content)) outputs in omega arith

insert_document_row-IsSmall :
    (cfg : Config) (now : ℕ) (doc : Document) (db : Db)
    → (0 < cfg.job_defaults.max_bytes → length doc.content_md ≤ cfg.job_defaults.max_bytes)
    → IsSmall cfg db
    → IsSmall cfg (insert_document_row now doc db).1
unfolding insert_document_row
insert_document_row-IsSmall cfg now doc db fits h = elim (Bool-cases (has_job doc.job_id db)) [
  | inl known ↦ rw known λ limited. All-append _ db.documents _ (h limited) (fits limited, tt)
  | inr gone ↦ rw gone h
]

module _ (net : UrlPackage) (cfg : Config) where
  mark_canonical-IsSmall : (now : ℕ) (url : Text) → Keeps (IsSmall cfg) (mark_canonical now url)
  unfolding mark_canonical
  mark_canonical-IsSmall now url = update-Keeps _ (λ d h. h)

  mark_if_any-IsSmall :
      (now : ℕ) (o : Option Text) → Keeps (IsSmall cfg) (mark_if_any net cfg now o)
  mark_if_any-IsSmall now none = pure-Keeps tt
  mark_if_any-IsSmall now (some canon) = ignore-Keeps _ (mark_canonical-IsSmall now canon)

  mark_page-IsSmall : (now : ℕ) (url : Text) → Keeps (IsSmall cfg) (mark_page net cfg now url)
  unfolding mark_page
  mark_page-IsSmall now url =
      if-Keeps cfg.crawl.dedupe_cache _ _
        (λ _. mark_if_any-IsSmall now (canonicalize net url cfg.crawl.strip_query))
        (λ _. pure-Keeps tt)

  within :
      (n : ℕ) (outputs : Outputs)
      → (ltb 0 cfg.job_defaults.max_bytes && ltb cfg.job_defaults.max_bytes (max_length n outputs))
        ≡ false
      → 0 < cfg.job_defaults.max_bytes
      → n ≤ cfg.job_defaults.max_bytes
  within n outputs fits limited = let step = le_max_length n outputs in ground arith

  pub store_document-IsSmall :
      (now : ℕ) (task : Task) (final_url : Text) (outputs : Outputs) (primary : Text)
      (ext : Extracted) (params : Object) (type : JobType)
      → Keeps
          (IsSmall cfg)
          (store_document net cfg now task final_url outputs primary ext params type)
  unfolding store_document insert_document
  store_document-IsSmall now task final_url outputs primary ext params type =
      if-Keeps
        (ltb 0 cfg.job_defaults.max_bytes
          && ltb cfg.job_defaults.max_bytes (max_length (length primary) outputs))
        _ _ (λ _. raise-Keeps _)
        (λ fits.
          bind-Keeps _ _
            (statement-Keeps _ λ db h.
              insert_document_row-IsSmall cfg now
                (page_document net cfg task final_url outputs primary ext params type) db
                (within (length primary) outputs fits) h)
            (λ _. mark_page-IsSmall now final_url))
