-- ===== src/Cdc/Settle.antt =====
-- src/watch_pg_cdc.rs: what `settle` asks the server for, over rounds whose advance may fail.
use mcpg_plugin_backend_sql.Common.{
  ℕ, ◌≤◌, ◌<◌, ◌≡◌, refl, max, ◌⊎◌, inl, inr, Bool, true, false, List, [], ◌∷◌, Option, none, some,
  arith, Bool-cases,
}
use mcpg_plugin_backend_sql.Cdc.{
  Transaction, Progress, Source, is_pending, forget, advance_loop, advance, settle,
}

-- The end LSNs rise, from above `low` on.
abbrev pub Rising : ℕ → List (ℕ × Transaction) → Type 0
Rising low [] = Unit
Rising low ((e, t) ∷ ts) = (low < e) × Rising e ts

consumed-forget : (cs : List ℕ) (p : Progress) → (forget cs p).consumed ≡ p.consumed
unfolding forget
consumed-forget [] p = refl
consumed-forget (c ∷ cs) p = consumed-forget cs _

-- The transactions left rise above the new position, and the answer is that position if it moved.
abbrev Advanced : Progress → Option ℕ → Progress × Option ℕ → Type 0
Advanced p to r =
    Rising r.0.consumed r.0.transactions
    × (p.consumed ≤ r.0.consumed)
    × (((r.1 ≡ to) × (r.0.consumed ≡ p.consumed)) ⊎ (r.1 ≡ some r.0.consumed))

advance_loop-Advanced :
    (ts : List (ℕ × Transaction)) (p : Progress) (to : Option ℕ)
    → Rising p.consumed ts
    → Advanced p to (advance_loop ts p to)
unfolding advance_loop
advance_loop-Advanced [] p to h = (tt, omega arith, inl (refl, refl))
advance_loop-Advanced ((e, t) ∷ ts) p to h = elim (Bool-cases (is_pending t)) [
  | inl pending ↦ rw pending (h, omega arith, inl (refl, refl))
  | inr settled ↦
      let q = record (forget t.changes p) { consumed = max p.consumed e } in
      let e_next : max p.consumed e ≡ e = omega arith in
      let next = advance_loop-Advanced ts q (some e) (rw e_next h.1) in
      rw settled (next.0, omega arith, ground (arith, next.2))
]

-- The advance that failed is to the position consumed, and the transactions left lie beyond it.
pub record Inv (s : Source) : Type 0 where
  pub rising : Rising s.progress.consumed s.progress.transactions
  pub pending_advance : (s.unadvanced ≡ none) ⊎ (s.unadvanced ≡ some s.progress.consumed)

advance-Advanced : (p : Progress) → Rising p.consumed p.transactions → Advanced p none (advance p)
unfolding advance
advance-Advanced p h = advance_loop-Advanced p.transactions p none h

-- One round of `settle`, whether the server takes the advance or not: the invariant holds again,
-- the position consumed does not fall, the server is asked for exactly that position or for nothing,
-- and a request that it takes leaves none open, while one that it refuses stays open.
pub settle-Inv :
    (accepted : Bool) (s : Source)
    → Inv s
    → let r = settle accepted s in
      Inv r.0
      × (s.progress.consumed ≤ r.0.progress.consumed)
      × ((r.1 ≡ none) ⊎ (r.1 ≡ some r.0.progress.consumed))
      × (accepted ≡ true → r.0.unadvanced ≡ none)
      × (accepted ≡ false → r.0.unadvanced ≡ r.1)
unfolding settle
settle-Inv true s v =
    let a = advance-Advanced s.progress v.rising in
    (ground (arith, a), ground (arith, a), ground (arith, a), ground (arith, a), λ e. cc)
settle-Inv false s v =
    let a = advance-Advanced s.progress v.rising in
    (ground (arith, a), ground (arith, a), ground (arith, a), (λ e. cc), ground (arith, a))
