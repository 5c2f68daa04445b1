-- ===== src/Cdc/Advance.antt =====
-- src/watch_pg_cdc.rs: how far `advance` goes.
use mcpg_plugin_backend_sql.Common.{
  ℕ, ◌≤◌, ◌≡◌, refl, ap, true, false, List, [], ◌∷◌, ◌++◌, Option, none, some, arith, length, All,
  inl, inr, Bool-cases, max,
}
use mcpg_plugin_backend_sql.Cdc.{Transaction, Progress, is_pending, forget, advance_loop, advance}

abbrev pub Settled : ℕ × Transaction → Type 0
Settled (e, t) = (t.complete ≡ true) × (length t.changes ≤ length t.acked)

abbrev pub PendingFirst : List (ℕ × Transaction) → Type 0
PendingFirst [] = Unit
PendingFirst ((e, t) ∷ ts) = is_pending t ≡ true

abbrev pub last_end : List (ℕ × Transaction) → Option ℕ → Option ℕ
last_end [] to = to
last_end ((e, t) ∷ ts) to = last_end ts (some e)

not_pending :
    (t : Transaction)
    → is_pending t ≡ false
    → (t.complete ≡ true) × (length t.changes ≤ length t.acked)
unfolding is_pending
not_pending t h = ground arith

abbrev pub Splits : List (ℕ × Transaction) → Option ℕ → Progress × Option ℕ → Type 0
Splits ts to r =
    (passed : List (ℕ × Transaction)) × (ts ≡ passed ++ r.0.transactions)
    × All Settled passed
    × PendingFirst r.0.transactions
    × (r.1 ≡ last_end passed to)

advance_loop-Splits :
    (ts : List (ℕ × Transaction)) (p : Progress) (to : Option ℕ)
    → Splits ts to (advance_loop ts p to)
unfolding advance_loop
advance_loop-Splits [] p to = ([], refl, tt, tt, refl)
advance_loop-Splits ((e, t) ∷ ts) p to = elim (Bool-cases (is_pending t)) [
  | inl pending ↦ rw pending ([], refl, tt, pending, refl)
  | inr settled ↦
      let q = record (forget t.changes p) { consumed = max p.consumed e } in
      let (passed, split, all_settled, first, last) = advance_loop-Splits ts q (some e) in
      rw settled (
        (e, t) ∷ passed,
        ap (λ l. (e, t) ∷ l) split,
        (not_pending t settled, all_settled),
        first,
        last,
      )
]

-- `advance` takes off the front of the transactions, in commit order, a run of complete ones with
-- as many acknowledgements as changes, keeps the rest as it was, stops only at one that is not so,
-- and answers the end LSN of the last one taken, or none if it took none.
pub advance-Splits : (p : Progress) → Splits p.transactions none (advance p)
unfolding advance
advance-Splits p = advance_loop-Splits p.transactions p none
