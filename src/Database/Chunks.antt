-- ===== src/Database/Chunks.antt =====
-- The rows of `batchInsert` of scanner-core/database/db.go, in chunks.
use bjorn2scan.Base.{
  ℕ, zero, suc, ◌+◌, ◌-◌, ◌≡◌, ◌≤◌, refl, sym, ap, ◌∙◌, String, List, [], ◌∷◌, ◌++◌, Option, none,
  length, arith, All,
}
use bjorn2scan.Database.Tables.{Engine, Db, M, ◌>>=◌, return, write}
use bjorn2scan.Database.Batches.{go_next, take, drop}

module _ {R : Type 0} where
  -- At most `rounds` chunks of at most `size` rows.
  unfoldable pub chunks : ℕ → ℕ → List R → List (List R)
  unfolding take drop
  chunks size zero rs = []
  chunks size (suc rounds) [] = []
  chunks size (suc rounds) (r ∷ rs) = take size (r ∷ rs) ∷ chunks size rounds (drop size (r ∷ rs))

  -- A statement for each chunk; a failed one ends the loop.
  unfoldable pub insert_chunks : Engine → (List R → Db → Db) → List (List R) → M (Option String)
  insert_chunks e insert [] = return none
  insert_chunks e insert (c ∷ cs) =
      let rest = insert_chunks e insert cs in do r ← write e (insert c); go_next rest r

  unfoldable pub concat : List (List R) → List R
  concat [] = []
  concat (c ∷ cs) = c ++ concat cs

  -- A chunk that is not empty, and at most of the size.
  abbrev pub Fits : ℕ → List R → Type 0
  Fits size c = (1 ≤ length c) × (length c ≤ size)

suc_add : (m n : ℕ) → suc m + n ≡ suc (m + n)
suc_add m n = omega arith

module _ {A : Type 0} where
  take-drop : (n : ℕ) (rs : List A) → take n rs ++ drop n rs ≡ rs
  unfolding take drop
  take-drop zero rs = refl
  take-drop (suc n) [] = refl
  take-drop (suc n) (r ∷ rs) = ground (arith, take-drop n rs)

  length-take : (n : ℕ) (rs : List A) → length (take n rs) ≤ n
  unfolding take
  length-take zero rs = ground arith
  length-take (suc n) [] = ground arith
  length-take (suc n) (r ∷ rs) = ground (arith, length-take n rs)

  pub length-drop : (n : ℕ) (rs : List A) → length (drop n rs) ≡ length rs - n
  unfolding drop
  length-drop zero rs = ground arith
  length-drop (suc n) [] = ground arith
  length-drop (suc n) (r ∷ rs) = ground (arith, length-drop n rs)

  pub drop_none : (n : ℕ) → drop {A = A} n [] ≡ []
  unfolding drop
  drop_none zero = refl
  drop_none (suc n) = refl

  pub drop-drop : (m n : ℕ) (xs : List A) → drop (m + n) xs ≡ drop n (drop m xs)
  unfolding drop
  drop-drop zero n xs = ap (λ k. drop k xs) (omega arith)
  drop-drop (suc m) n [] = drop_none (suc m + n) ∙ sym (drop_none n)
  drop-drop (suc m) n (x ∷ xs) = ap (λ k. drop k (x ∷ xs)) (suc_add m n) ∙ drop-drop m n xs

  pub take_all : (n : ℕ) (xs : List A) → length xs ≤ n → take n xs ≡ xs
  unfolding take
  take_all zero [] h = refl
  take_all zero (x ∷ xs) h = ground arith
  take_all (suc n) [] h = refl
  take_all (suc n) (x ∷ xs) h = ground (arith, take_all n xs)

  pub take-append : (n : ℕ) (xs ys : List A) → take (length xs + n) (xs ++ ys) ≡ xs ++ take n ys
  unfolding take
  take-append n [] ys = ap (λ k. take k ys) (omega arith)
  take-append n (x ∷ xs) ys =
      ap (λ k. take k (x ∷ (xs ++ ys))) (suc_add (length xs) n) ∙ ap (◌∷◌ x) (take-append n xs ys)

  pub drop-append : (n : ℕ) (xs ys : List A) → drop (length xs + n) (xs ++ ys) ≡ drop n ys
  unfolding drop
  drop-append n [] ys = ap (λ k. drop k ys) (omega arith)
  drop-append n (x ∷ xs) ys =
      ap (λ k. drop k (x ∷ (xs ++ ys))) (suc_add (length xs) n) ∙ drop-append n xs ys

module _ {R : Type 0} where
  pub chunks-Fits :
      (size rounds : ℕ) (rs : List R)
      → length rs ≤ rounds
      → (concat (chunks (suc size) rounds rs) ≡ rs)
        × All (Fits (suc size)) (chunks (suc size) rounds rs)
  unfolding chunks concat take drop
  chunks-Fits size zero [] h = (refl, tt)
  chunks-Fits size zero (r ∷ rs) h = ground arith
  chunks-Fits size (suc rounds) [] h = (refl, tt)
  chunks-Fits size (suc rounds) (r ∷ rs) h =
      let (all, fits) =
        chunks-Fits size rounds (drop size rs) (ground (arith, length-drop size rs)) in
      (
        ground (arith, take-drop size rs),
        ((ground arith, ground (arith, length-take size rs)), fits),
      )
