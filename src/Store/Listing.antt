-- ===== src/Store/Listing.antt =====
-- internal/store/store.go: the paged queries over documents and mapped URLs, and the assembly of
-- their `ORDER BY`. `collate` is the strict order of the database's collation on texts.
pub mod Order
pub mod Members
use bytefetch.Prelude.{
  ℕ, Text, codes, same, to_lower, Bool, true, false, ◌&&◌, List, [], ◌∷◌, filter, take, drop, ltb,
  ◌==◌, if◌then◌else◌,
}
use bytefetch.Exec.{Exec, query}
use bytefetch.Store.Rows.{DocumentRow, MappedRow}
use bytefetch.Store.Db.{Db}

pub data Direction : Type 0 where
  asc desc : Direction

-- `url` is `final_url` of a document and `target_url` of a mapped row.
pub data Column : Type 0 where
  id created_at url : Column

-- "column direction, id direction"
pub record OrderClause : Type 0 where
  pub direction : Direction
  pub column : Column

unfoldable pub order_dir : Text → Direction
unfolding same to_lower
order_dir sort = if same (to_lower sort) (codes "desc") then Direction.desc else Direction.asc

unfoldable pub order_column : Text → Text → Column
unfolding same to_lower
order_column url_name order_by =
    if same (to_lower order_by) (codes "created_at")
    then Column.created_at
    else if same (to_lower order_by) url_name
    then Column.url
    else Column.id

unfoldable pub document_order_column : Text → Column
unfolding order_column
document_order_column = order_column (codes "final_url")

unfoldable pub map_order_column : Text → Column
unfolding order_column
map_order_column = order_column (codes "target_url")

unfoldable pub make_order_clause : Direction → Column → OrderClause
make_order_clause order column = record { direction = order; column = column }

-- The columns of a row that the queries sort and select by.
pub record Keys (A : Type 0) : Type 0 where
  pub id : A → ℕ
  pub job_id : A → ℕ
  pub created_at : A → ℕ
  pub url : A → Text

abbrev pub document_keys : Keys DocumentRow
document_keys = record {
  id = λ r. r.id;
  job_id = λ r. r.job_id;
  created_at = λ r. r.created_at;
  url = λ r. r.final_url;
}

abbrev pub mapped_keys : Keys MappedRow
mapped_keys = record {
  id = λ r. r.id;
  job_id = λ r. r.job_id;
  created_at = λ r. r.created_at;
  url = λ r. r.target_url;
}

module _ {A : Type 0} (k : Keys A) (collate : Text → Text → Bool) where
  unfoldable pub column_before : Column → A → A → Bool
  column_before Column.id r s = ltb (k.id r) (k.id s)
  column_before Column.created_at r s = ltb (k.created_at r) (k.created_at s)
  column_before Column.url r s = collate (k.url r) (k.url s)

  -- `r` stands before `s` in ascending order of the column, then of the id.
  unfoldable pub ascending : Column → A → A → Bool
  unfolding column_before
  ascending c r s =
      if column_before c r s
      then true
      else if column_before c s r
      then false
      else ltb (k.id r) (k.id s)

  unfoldable pub before : OrderClause → A → A → Bool
  unfolding ascending
  before clause r s = elim clause.direction [
    | Direction.asc ↦ ascending clause.column r s
    | Direction.desc ↦ ascending clause.column s r
  ]

  -- The comparison with the cursor, `id > $2` or `id < $2`.
  unfoldable pub beyond : Direction → ℕ → A → Bool
  beyond Direction.asc cursor r = ltb cursor (k.id r)
  beyond Direction.desc cursor r = ltb (k.id r) cursor

module _ {A : Type 0} (lt : A → A → Bool) where
  unfoldable pub insert_sorted : A → List A → List A
  insert_sorted x [] = x ∷ []
  insert_sorted x (y ∷ ys) = if lt y x then y ∷ insert_sorted x ys else x ∷ y ∷ ys

  -- `ORDER BY`
  unfoldable pub order_by : List A → List A
  unfolding insert_sorted
  order_by [] = []
  order_by (x ∷ xs) = insert_sorted x (order_by xs)

module _ {A : Type 0} (k : Keys A) (collate : Text → Text → Bool) where
  -- `WHERE job_id = $1 ORDER BY … LIMIT $2 OFFSET $3`
  unfoldable pub select_page : OrderClause → ℕ → ℕ → ℕ → List A → List A
  unfolding before order_by
  select_page clause job_id limit offset rows =
      take limit
        (drop offset (order_by (before k collate clause) (filter (λ r. k.job_id r == job_id) rows)))

  -- `WHERE job_id = $1 AND id … $2 ORDER BY … LIMIT $3`
  unfoldable pub select_after : OrderClause → ℕ → ℕ → ℕ → List A → List A
  unfolding before order_by beyond
  select_after clause job_id limit cursor rows = take limit (
      order_by (before k collate clause)
        (filter (λ r. k.job_id r == job_id && beyond k collate clause.direction cursor r) rows))

module _ (collate : Text → Text → Bool) where
  unfoldable pub list_documents : ℕ → ℕ → ℕ → Text → Text → Exec (List DocumentRow)
  unfolding make_order_clause
  list_documents job_id limit offset sort order_by =
      let clause = make_order_clause (order_dir sort) (document_order_column order_by) in
      query (λ db. select_page document_keys collate clause job_id limit offset db.documents)

  unfoldable pub list_documents_after : ℕ → ℕ → ℕ → Text → Text → Exec (List DocumentRow)
  unfolding make_order_clause
  list_documents_after job_id limit cursor sort order_by =
      let clause = make_order_clause (order_dir sort) (document_order_column order_by) in
      query (λ db. select_after document_keys collate clause job_id limit cursor db.documents)

  unfoldable pub list_mapped : ℕ → ℕ → ℕ → Text → Text → Exec (List MappedRow)
  unfolding make_order_clause
  list_mapped job_id limit offset sort order_by =
      let clause = make_order_clause (order_dir sort) (map_order_column order_by) in
      query (λ db. select_page mapped_keys collate clause job_id limit offset db.mapped)

  unfoldable pub list_mapped_after : ℕ → ℕ → ℕ → Text → Text → Exec (List MappedRow)
  unfolding make_order_clause
  list_mapped_after job_id limit cursor sort order_by =
      let clause = make_order_clause (order_dir sort) (map_order_column order_by) in
      query (λ db. select_after mapped_keys collate clause job_id limit cursor db.mapped)
