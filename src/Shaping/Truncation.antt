-- ===== src/Shaping/Truncation.antt =====
-- src/lib.rs: a response and the rows beyond `max_rows`.
use mcpg_plugin_backend_sql.Common.{
  ℕ, zero, suc, ◌≤◌, ◌≡◌, refl, ap, inl, inr, false, List, [], ◌∷◌, length, take, ltb, Bool-cases,
  arith,
}
use mcpg_plugin_backend_sql.Config.{RowMode}
use mcpg_plugin_backend_sql.Shaping.{Json, RowBatch, shape_rows, shape_response}

take_all : {A : Type 0} (n : ℕ) (xs : List A) → length xs ≤ n → take n xs ≡ xs
take_all zero [] h = refl
take_all zero (x ∷ xs) h = absurd (omega arith)
take_all (suc n) [] h = refl
take_all (suc n) (x ∷ xs) h = ap (λ r. x ∷ r) (take_all n xs (omega arith))

module _ (json : Json) where
  -- Whatever the mode, the response is the shape of the first `max_rows` rows, and the flag handed to
  -- the shaping says whether there were more.
  pub shape_response-take :
      (batch : RowBatch json) (mode : RowMode) (max_rows : ℕ)
      → shape_response json batch mode max_rows
        ≡ shape_rows json mode batch.rows_affected
            (take max_rows batch.rows)
            (ltb max_rows (length batch.rows))
  unfolding shape_response
  shape_response-take batch mode max_rows = elim (Bool-cases (ltb max_rows (length batch.rows))) [
    | inl h ↦ rw h refl
    | inr h ↦ rw (h, take_all max_rows batch.rows (small max_rows (length batch.rows) h)) refl
  ]
    where
      small : (n m : ℕ) → ltb n m ≡ false → m ≤ n
      small n m h = ground arith
