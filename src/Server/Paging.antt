-- ===== src/Server/Paging.antt =====
-- internal/server/routes.go: the cursor of the listings and the export loop.
pub mod Rounds
pub mod Complete
pub mod Falls
pub mod Ends
use bytefetch.Prelude.{
  ℕ, zero, suc, Text, Bool, true, false, Option, none, some, List, [], ◌∷◌, ◌++◌, ltb,
  if◌then◌else◌,
}
use bytefetch.Exec.{Exec, pure, ◌>>=◌}
use bytefetch.Store.Rows.{DocumentRow, MappedRow}
use bytefetch.Store.Listing.{
  Keys, document_keys, mapped_keys, list_documents, list_documents_after, list_mapped,
  list_mapped_after,
}

-- The id of the last row, or the given number.
unfoldable pub last_id : {A : Type 0} → Keys A → ℕ → List A → ℕ
last_id k n [] = n
last_id k n (r ∷ rows) = last_id k (k.id r) rows

module _ (collate : Text → Text → Bool) where
  -- One page: from the cursor if there is one, else from the start.
  unfoldable pub document_page : ℕ → ℕ → Text → Text → ℕ → Exec (List DocumentRow)
  document_page job_id limit sort order_by cursor =
      if ltb 0 cursor
      then list_documents_after collate job_id limit cursor sort order_by
      else list_documents collate job_id limit 0 sort order_by

  unfoldable pub mapped_page : ℕ → ℕ → Text → Text → ℕ → Exec (List MappedRow)
  mapped_page job_id limit sort order_by cursor =
      if ltb 0 cursor
      then list_mapped_after collate job_id limit cursor sort order_by
      else list_mapped collate job_id limit 0 sort order_by

-- The loop of the export: the rows that it writes, after those already written, and its last
-- cursor. `none` means that the rounds ran out.
module _ {A : Type 0} (k : Keys A) (page : ℕ → Exec (List A)) (all : Bool) where
  unfoldable pub export_loop : ℕ → ℕ → List A → Exec (Option (List A × ℕ))
  unfolding last_id
  export_loop zero cursor out = pure none
  export_loop (suc rounds) cursor out =
      let rest = λ (rows : List A). export_loop rounds (last_id k cursor rows) (out ++ rows) in
      page cursor >>= λ rows. elim rows [
        | [] ↦ pure (some (out, cursor))
        | r ∷ rs ↦
            if all then rest (r ∷ rs) else pure (some (out ++ r ∷ rs, last_id k cursor (r ∷ rs)))
      ]

module _ (collate : Text → Text → Bool) where
  -- The export of a job's documents, `after` being the cursor of the request.
  unfoldable pub export_documents :
      ℕ → ℕ → ℕ → Text → Text → ℕ → Bool → Exec (Option (List DocumentRow × ℕ))
  export_documents rounds job_id limit sort order_by after all =
      export_loop document_keys (document_page collate job_id limit sort order_by) all rounds after
        []

  unfoldable pub export_mapped :
      ℕ → ℕ → ℕ → Text → Text → ℕ → Bool → Exec (Option (List MappedRow × ℕ))
  export_mapped rounds job_id limit sort order_by after all =
      export_loop mapped_keys (mapped_page collate job_id limit sort order_by) all rounds after []
