-- ===== src/Sql.antt =====
-- What the SQL statements of internal/store/*/*.go do with the rows of one table: SELECT, UPDATE and
-- DELETE with a WHERE clause, the rows affected, COUNT, MAX, ORDER BY, LIMIT and OFFSET.
pub mod Laws
use high_concurrency_ticketi.Prelude.{
  ℕ, zero, suc, Bool, negate, Option, none, some, List, [], ◌∷◌, take, drop, leb, if◌then◌else◌,
}

module _ {ℓ} {A : Type ℓ} where
  -- `SELECT … WHERE p`, in the order of the table.
  abbrev pub select_where : (A → Bool) → List A → List A
  select_where p [] = []
  select_where p (r ∷ rs) = if p r then r ∷ select_where p rs else select_where p rs

  -- The one row that `QueryRow` reads.
  abbrev pub first_where : (A → Bool) → List A → Option A
  first_where p [] = none
  first_where p (r ∷ rs) = if p r then some r else first_where p rs

  -- `UPDATE … SET f WHERE p`
  abbrev pub update_where : (A → Bool) → (A → A) → List A → List A
  update_where p f [] = []
  update_where p f (r ∷ rs) = (if p r then f r else r) ∷ update_where p f rs

  -- `DELETE … WHERE p`
  abbrev pub delete_where : (A → Bool) → List A → List A
  delete_where p [] = []
  delete_where p (r ∷ rs) = if p r then delete_where p rs else r ∷ delete_where p rs

  -- The rows affected by a statement, and `COUNT(*)`.
  abbrev pub count_where : (A → Bool) → List A → ℕ
  count_where p [] = 0
  count_where p (r ∷ rs) = if p r then suc (count_where p rs) else count_where p rs

  -- `COALESCE(MAX(f), 0)` over the rows with p.
  abbrev pub max_where : (A → Bool) → (A → ℕ) → List A → ℕ
  max_where p f [] = 0
  max_where p f (r ∷ rs) =
      let m = max_where p f rs in if p r then (if leb m (f r) then f r else m) else m

  -- A stable insertion; `before x y` says that x may stand before y.
  abbrev pub insert_by : (A → A → Bool) → A → List A → List A
  insert_by before x [] = x ∷ []
  insert_by before x (y ∷ ys) = if before x y then x ∷ y ∷ ys else y ∷ insert_by before x ys

  -- `ORDER BY`, with rows of one key in the order of the table.
  abbrev pub order_by : (A → A → Bool) → List A → List A
  order_by before [] = []
  order_by before (x ∷ xs) = insert_by before x (order_by before xs)

  -- `LIMIT limit OFFSET offset`
  abbrev pub page : ℕ → ℕ → List A → List A
  page limit offset rows = take limit (drop offset rows)

  abbrev pub first_row : List A → Option A
  first_row [] = none
  first_row (x ∷ xs) = some x
