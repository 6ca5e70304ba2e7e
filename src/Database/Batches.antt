-- ===== src/Database/Batches.antt =====
-- `batchInsert` of scanner-core/database/db.go. Its rows are a flat list of the values; the text of
-- the statement is the number of its groups of placeholders.
use bjorn2scan.Base.{
  ℕ, zero, suc, ◌+◌, ◌-◌, ◌*◌, ◌/◌, String, List, [], ◌∷◌, ◌++◌, Option, none, some, length, ltb,
  if◌then◌else◌,
}
use bjorn2scan.Database.Tables.{Engine, Db, M, ◌>>=◌, return, write}

-- What follows a statement that has not failed.
abbrev pub go_next : M (Option String) → Option String → M (Option String)
go_next k (some x) = return (some x)
go_next k none = k

module _ {A : Type 0} where
  unfoldable pub take : ℕ → List A → List A
  take zero xs = []
  take (suc n) [] = []
  take (suc n) (x ∷ xs) = x ∷ take n xs

  unfoldable pub drop : ℕ → List A → List A
  drop zero xs = xs
  drop (suc n) [] = []
  drop (suc n) (x ∷ xs) = drop n xs

  -- `end`, for the round at `i`.
  unfoldable pub end_of : ℕ → ℕ → ℕ → List A → ℕ
  end_of ncols batch_size i rows =
      if ltb (length rows) (i + ncols * batch_size) then length rows else i + ncols * batch_size

  -- `rows[i:end]`.
  unfoldable pub slice : ℕ → ℕ → List A → List A
  unfolding take drop
  slice i end rows = take (end - i) (drop i rows)

  -- The loop from `i` on, for at most the number of rounds.
  unfoldable pub batch_loop :
      Engine → (ℕ → List A → Db → Db) → ℕ → ℕ → ℕ → ℕ → List A → M (Option String)
  unfolding end_of slice
  batch_loop e exec ncols batch_size zero i rows = return none
  batch_loop e exec ncols batch_size (suc rounds) i rows =
      let rest = batch_loop e exec ncols batch_size rounds (i + ncols * batch_size) rows in
      let chunk = slice i (end_of ncols batch_size i rows) rows in
      if ltb i (length rows)
      then (do r ← write e (exec (length chunk / ncols) chunk); go_next rest r)
      else return none

  -- `exec` is what the statement does, with its groups of placeholders and its arguments.
  unfoldable pub batch_insert : Engine → (ℕ → List A → Db → Db) → ℕ → ℕ → List A → M (Option String)
  unfolding batch_loop
  batch_insert e exec ncols batch_size [] = return none
  batch_insert e exec ncols batch_size (x ∷ xs) =
      batch_loop e exec ncols batch_size (length (x ∷ xs)) 0 (x ∷ xs)

-- The flat list of rows, by the values of one.
abbrev pub flat : {R A : Type 0} → (R → List A) → List R → List A
flat values [] = []
flat values (r ∷ rs) = values r ++ flat values rs

module _ {R : Type 0} where
  -- The values of a row, from a column on: a value is its row and its column.
  abbrev pub cells : ℕ → ℕ → R → List (R × ℕ)
  cells zero column r = []
  cells (suc n) column r = (r, column) ∷ cells n (suc column) r

  -- The rows whose first values are among the arguments.
  abbrev pub rows_of : List (R × ℕ) → List R
  rows_of [] = []
  rows_of ((r, zero) ∷ cs) = r ∷ rows_of cs
  rows_of ((r, suc column) ∷ cs) = rows_of cs

  -- A call with typed rows.
  unfoldable pub insert_rows : Engine → (List R → Db → Db) → ℕ → ℕ → List R → M (Option String)
  unfolding batch_insert
  insert_rows e insert ncols batch_size rs =
      batch_insert e (λ n args. insert (rows_of args)) ncols batch_size (flat (cells ncols 0) rs)
