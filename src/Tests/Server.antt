-- ===== src/Tests/Server.antt =====
-- Runs of internal/server: exports, and jobs made of seeds.
use bytefetch.Prelude.{
  ℕ, ◌≡◌, refl, Text, codes, Bool, true, false, some, List, [], ◌∷◌, any, All, arith, same,
  to_lower,
}
use bytefetch.Exec.{ok, err, seed_already_processed}
use bytefetch.Store.Rows.{JobType, DocumentRow}
use bytefetch.Store.Db.{Db, has_job}
use bytefetch.Store.Listing.{
  Direction, Column, document_keys, order_dir, order_column, document_order_column,
  map_order_column,
}
use bytefetch.Store.Listing.Order.{rows_after}
use bytefetch.Store.Finish.{quiet}
use bytefetch.Server.Paging.{last_id, export_documents}
use bytefetch.Server.Paging.Complete.{export_documents_all}
use bytefetch.Server.Paging.Ends.{export_documents_ends}
use bytefetch.Server.Seeds.{TaskSeed, seed_url, create_job_with_seeds}
use bytefetch.Server.Seeds.Inserts.{HasTask}
use bytefetch.Server.Seeds.Verdict.{was_seen, refused, create_job_with_seeds_lem}
use bytefetch.Tests.Data.{sample, sample-IsValid, config, hosts_only}

by_bytes : Text → Text → Bool
by_bytes s t = false

abbrev seed : TaskSeed
seed = record { requested_url = codes "b"; depth = 0; abort_if_duplicate = true }

default_order :
    (order_dir [] ≡ Direction.asc)
    × (document_order_column [] ≡ Column.id)
    × (map_order_column [] ≡ Column.id)
unfolding order_dir document_order_column map_order_column order_column same to_lower
default_order = (refl, refl, refl)

export_documents_all_example :
    let rows = rows_after document_keys 2 sample.documents 0 in
    export_documents by_bytes 3 2 1 [] [] 0 true (quiet sample)
    ≡ (ok (some (rows, last_id document_keys 0 rows)), quiet sample)
export_documents_all_example =
    export_documents_all by_bytes 3 2 1 [] [] 0 sample default_order.0 default_order.1
      sample-IsValid (omega arith) (omega arith)

export_documents_ends_example :
    (found : List DocumentRow × ℕ) × (export_documents by_bytes 4 2 1
        (codes "desc")
        (codes "final_url")
        0
        true
        (quiet sample)
      ≡ (ok (some found), quiet sample))
export_documents_ends_example =
    export_documents_ends by_bytes 4 2 1 (codes "desc") (codes "final_url") 0 true sample
      sample-IsValid (omega arith)

create_job_with_seeds_lem_example :
    (any (refused hosts_only config sample) (seed ∷ []) ≡ true
      → create_job_with_seeds hosts_only config 60 3 JobType.crawl [] (seed ∷ []) (quiet sample)
        ≡ (err seed_already_processed, quiet sample))
    × (any (refused hosts_only config sample) (seed ∷ []) ≡ false
        → (db' : Db) × (create_job_with_seeds hosts_only config 60 3 JobType.crawl []
              (seed ∷ [])
              (quiet sample)
            ≡ (ok 3, quiet db'))
          × All
              (λ s.
                was_seen hosts_only config sample s ≡ false
                → HasTask 3 (seed_url hosts_only config s) db')
              (seed ∷ []))
unfolding has_job
create_job_with_seeds_lem_example =
    create_job_with_seeds_lem hosts_only config 60 3 JobType.crawl [] (seed ∷ []) sample refl
