-- ===== src/Database/BatchRows.antt =====
-- What the loop of `batchInsert` of scanner-core/database/db.go does, by rows.
use bjorn2scan.Base.{
  ℕ, zero, suc, ◌+◌, ◌-◌, ◌*◌, ◌/◌, ◌≡◌, ◌≤◌, refl, sym, ap, ◌∙◌, String, true, false, List, [],
  ◌∷◌, ◌++◌, Option, none, length, length-append, arith, All, ltb, if◌then◌else◌, inl, inr,
  Bool-cases,
}
use native.Mathlib.Nat.{mul-div_cancel, mul-suc, suc-mul, mul-zero}
use bjorn2scan.Database.Tables.{Engine, Db, M, ◌>>=◌, return, write}
use bjorn2scan.Database.Batches.{
  go_next, take, drop, end_of, slice, batch_loop, batch_insert, flat, cells, rows_of, insert_rows,
}
use bjorn2scan.Database.Chunks.{
  chunks, insert_chunks, concat, Fits, chunks-Fits, length-drop, drop_none, drop-drop, take_all,
  take-append, drop-append,
}

module _ {A : Type 0} where
  -- A slice that starts at `i` is the head of what is left there, however its end is clamped.
  slice-end_of :
      (ncols size i : ℕ) (rows : List A)
      → slice i (end_of ncols size i rows) rows ≡ take (ncols * size) (drop i rows)
  unfolding slice end_of
  slice-end_of ncols size i rows = elim (Bool-cases (ltb (length rows) (i + ncols * size))) [
    | inl h ↦
        ap (λ b. take ((if b then length rows else i + ncols * size) - i) (drop i rows)) h
        ∙ take_all (length rows - i) (drop i rows) (ground (arith, length-drop i rows))
        ∙ sym (take_all (ncols * size) (drop i rows) (ground (arith, length-drop i rows)))
    | inr h ↦
        ap (λ b. take ((if b then length rows else i + ncols * size) - i) (drop i rows)) h
        ∙ ap (λ k. take k (drop i rows)) (omega arith)
  ]

module _ {R A : Type 0} (values : R → List A) (ncols : ℕ)
    (whole : (r : R) → length (values r) ≡ suc ncols) where
  length-flat : (rs : List R) → length (flat values rs) ≡ length rs * suc ncols
  length-flat [] = omega arith
  length-flat (r ∷ rs) =
      length-append (values r) (flat values rs)
      ∙ omega (arith, whole r, length-flat rs, suc-mul (length rs) (suc ncols))

  more : (size : ℕ) (r : R) → suc ncols * suc size ≡ length (values r) + suc ncols * size
  more size r = omega (arith, whole r, mul-suc (suc ncols) size)

  take-flat :
      (size : ℕ) (rs : List R)
      → take (suc ncols * size) (flat values rs) ≡ flat values (take size rs)
  unfolding take
  take-flat zero rs = ap (λ k. take k (flat values rs)) (mul-zero (suc ncols))
  take-flat (suc size) [] = take_all (suc ncols * suc size) [] (omega arith)
  take-flat (suc size) (r ∷ rs) =
      ap (λ k. take k (values r ++ flat values rs)) (more size r)
      ∙ take-append (suc ncols * size) (values r) (flat values rs)
      ∙ ap (λ l. values r ++ l) (take-flat size rs)

  drop-flat :
      (size : ℕ) (rs : List R)
      → drop (suc ncols * size) (flat values rs) ≡ flat values (drop size rs)
  unfolding drop
  drop-flat zero rs = ap (λ k. drop k (flat values rs)) (mul-zero (suc ncols))
  drop-flat (suc size) [] = drop_none (suc ncols * suc size)
  drop-flat (suc size) (r ∷ rs) =
      ap (λ k. drop k (values r ++ flat values rs)) (more size r)
      ∙ drop-append (suc ncols * size) (values r) (flat values rs)
      ∙ drop-flat size rs

  left_lem :
      (i : ℕ) (rows : List A) (rs : List R)
      → drop i rows ≡ flat values rs
      → length rows - i ≡ length rs * suc ncols
  left_lem i rows rs at = sym (length-drop i rows) ∙ ap length at ∙ length-flat rs

  goes_on :
      (i : ℕ) (rows : List A) (r : R) (rs : List R)
      → drop i rows ≡ flat values (r ∷ rs)
      → ltb i (length rows) ≡ true
  goes_on i rows r rs at =
      ground (arith, left_lem i rows (r ∷ rs) at, suc-mul (length rs) (suc ncols))

  stops : (i : ℕ) (rows : List A) → drop i rows ≡ [] → ltb i (length rows) ≡ false
  stops i rows at = ground (arith, left_lem i rows [] at)

  -- A round of the loop, and what follows it.
  abbrev round :
      Engine → (ℕ → List A → Db → Db) → ℕ → List A → M (Option String) → M (Option String)
  round e exec n chunk rest = do r ← write e (exec n chunk); go_next rest r

  loop_round :
      (e : Engine) (exec : ℕ → List A → Db → Db) (size k i : ℕ) (rows : List A)
      → ltb i (length rows) ≡ true
      → batch_loop e exec (suc ncols) (suc size) (suc k) i rows
        ≡ round e exec
            (length (slice i (end_of (suc ncols) (suc size) i rows) rows) / suc ncols)
            (slice i (end_of (suc ncols) (suc size) i rows) rows)
            (batch_loop e exec (suc ncols) (suc size) k (i + suc ncols * suc size) rows)
  unfolding batch_loop
  loop_round e exec size k i rows h =
      let chunk = slice i (end_of (suc ncols) (suc size) i rows) rows in
      let rest = batch_loop e exec (suc ncols) (suc size) k (i + suc ncols * suc size) rows in
      ap (λ b. if b then round e exec (length chunk / suc ncols) chunk rest else return none) h

  loop_end :
      (e : Engine) (exec : ℕ → List A → Db → Db) (size k i : ℕ) (rows : List A)
      → ltb i (length rows) ≡ false
      → batch_loop e exec (suc ncols) (suc size) (suc k) i rows ≡ return none
  unfolding batch_loop
  loop_end e exec size k i rows h =
      let chunk = slice i (end_of (suc ncols) (suc size) i rows) rows in
      let rest = batch_loop e exec (suc ncols) (suc size) k (i + suc ncols * suc size) rows in
      ap (λ b. if b then round e exec (length chunk / suc ncols) chunk rest else return none) h

  -- The loop at the place where the values of the rows are left.
  batch_loop-rows :
      (e : Engine) (exec : ℕ → List A → Db → Db) (size k j i : ℕ) (rows : List A) (rs : List R)
      → length rs ≤ k
      → length rs ≤ j
      → drop i rows ≡ flat values rs
      → batch_loop e exec (suc ncols) (suc size) k i rows
        ≡ insert_chunks e (λ c. exec (length c) (flat values c)) (chunks (suc size) j rs)
  unfolding batch_loop insert_chunks chunks take drop
  batch_loop-rows e exec size zero zero i rows [] hk hj at = refl
  batch_loop-rows e exec size zero (suc j) i rows [] hk hj at = refl
  batch_loop-rows e exec size (suc k) zero i rows [] hk hj at =
      loop_end e exec size k i rows (stops i rows at)
  batch_loop-rows e exec size (suc k) (suc j) i rows [] hk hj at =
      loop_end e exec size k i rows (stops i rows at)
  batch_loop-rows e exec size zero j i rows (r ∷ rs) hk hj at = ground arith
  batch_loop-rows e exec size (suc k) zero i rows (r ∷ rs) hk hj at = ground arith
  batch_loop-rows e exec size (suc k) (suc j) i rows (r ∷ rs) hk hj at =
      let width = suc ncols in
      let head = take (suc size) (r ∷ rs) in
      let rest = batch_loop e exec width (suc size) k (i + width * suc size) rows in
      loop_round e exec size k i rows (goes_on i rows r rs at)
      ∙ ap (λ c. round e exec (length c / width) c rest)
          (slice-end_of width (suc size) i rows
            ∙ ap (take (width * suc size)) at
            ∙ take-flat (suc size) (r ∷ rs))
      ∙ ap (λ n. round e exec n (flat values head) rest)
          (ap (λ n. n / width) (length-flat head) ∙ mul-div_cancel (length head) (omega arith))
      ∙ ap (round e exec (length head) (flat values head)) (
          batch_loop-rows e exec size k j (i + width * suc size) rows (drop (suc size) (r ∷ rs))
            (ground (arith, length-drop size rs)) (ground (arith, length-drop size rs))
            (drop-drop i (width * suc size) rows
              ∙ ap (drop (width * suc size)) at
              ∙ drop-flat (suc size) (r ∷ rs)))

  batch_insert_loop :
      (e : Engine) (exec : ℕ → List A → Db → Db) (size : ℕ) (rows : List A)
      → batch_insert e exec (suc ncols) (suc size) rows
        ≡ batch_loop e exec (suc ncols) (suc size) (length rows) 0 rows
  unfolding batch_insert batch_loop
  batch_insert_loop e exec size [] = refl
  batch_insert_loop e exec size (x ∷ xs) = refl

  enough : (rs : List R) → length rs ≤ length (flat values rs)
  enough [] = omega arith
  enough (r ∷ rs) = omega (arith, enough rs, whole r, length-append (values r) (flat values rs))

  pub batch_insert-rows :
      (e : Engine) (exec : ℕ → List A → Db → Db) (size : ℕ) (rs : List R)
      → (cs : List (List R)) × (batch_insert e exec (suc ncols) (suc size) (flat values rs)
          ≡ insert_chunks e (λ c. exec (length c) (flat values c)) cs)
        × (concat cs ≡ rs)
        × All (Fits (suc size)) cs
  unfolding drop
  batch_insert-rows e exec size rs =
      let (all, fits) = chunks-Fits size (length rs) rs (ground arith) in
      (
        chunks (suc size) (length rs) rs,
        batch_insert_loop e exec size (flat values rs)
            ∙ batch_loop-rows e exec size (length (flat values rs)) (length rs) 0 (flat values rs)
                rs (enough rs) (ground arith) refl,
        all,
        fits,
      )

module _ {R : Type 0} where
  length-cells : (n column : ℕ) (r : R) → length (cells n column r) ≡ n
  length-cells zero column r = refl
  length-cells (suc n) column r = ap suc (length-cells n (suc column) r)

  rows_of-cells :
      (n column : ℕ) (r : R) (xs : List (R × ℕ))
      → rows_of (cells n (suc column) r ++ xs) ≡ rows_of xs
  rows_of-cells zero column r xs = refl
  rows_of-cells (suc n) column r xs = rows_of-cells n (suc column) r xs

  rows_of-flat : (ncols : ℕ) (rs : List R) → rows_of (flat (cells (suc ncols) 0) rs) ≡ rs
  rows_of-flat ncols [] = refl
  rows_of-flat ncols (r ∷ rs) =
      ap (◌∷◌ r) (rows_of-cells ncols 0 r (flat (cells (suc ncols) 0) rs) ∙ rows_of-flat ncols rs)

  -- A call with typed rows inserts them in chunks.
  pub insert_rows-chunks :
      (e : Engine) (insert : List R → Db → Db) (ncols size : ℕ) (rs : List R)
      → (cs : List (List R)) × (insert_rows e insert (suc ncols) (suc size) rs
          ≡ insert_chunks e insert cs)
        × (concat cs ≡ rs)
  unfolding insert_rows
  insert_rows-chunks e insert ncols size rs =
      let (cs, loop, all, fits) =
        batch_insert-rows (cells (suc ncols) 0) ncols (length-cells (suc ncols) 0) e
          (λ n args. insert (rows_of args)) size rs in
      (cs, loop ∙ ap (λ f. insert_chunks e f cs) (λ i c. insert (rows_of-flat ncols c i)), all)
