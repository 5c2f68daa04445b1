-- ===== src/Cdc/Reading.antt =====
-- src/watch_pg_cdc.rs: the rounds in which a peek widens.
use native.Mathlib.Nat.{pow-suc, one-le-pow}
use native.Mathlib.Decide.{dec_le}
use mcpg_plugin_backend_sql.Common.{
  ap, ℕ, zero, suc, ◌*◌, ◌^◌, ◌≤◌, ◌≡◌, ◌≢◌, refl, min, List, Option, none, some, Result, ok, err,
  arith,
}
use mcpg_plugin_backend_sql.Pgoutput.Decode.{Message}
use mcpg_plugin_backend_sql.Cdc.{Progress}
use mcpg_plugin_backend_sql.Cdc.Events.{CdcError, Env}
use mcpg_plugin_backend_sql.Cdc.Peek.{Query, read_loop, peeked, max_peek_rows, first_limit, peek}

wider_enough :
    (limit fuel : ℕ)
    → max_peek_rows ≤ limit * 4 ^ suc fuel
    → max_peek_rows ≤ min (limit * 4) max_peek_rows * 4 ^ fuel
wider_enough limit fuel h = elim (dec_le (limit * 4) max_peek_rows) [
  | yes small ↦
      let e : min (limit * 4) max_peek_rows ≡ limit * 4 = omega arith in
      rw e (omega (arith, ap (λ (t : ℕ). limit * t) (pow-suc 4 fuel)))
  | no large ↦
      let e : min (limit * 4) max_peek_rows ≡ max_peek_rows = omega arith in
      rw e (omega (arith, one-le-pow fuel 4 (omega arith)))
]

-- Each round that goes on multiplies the limit by four; at the largest limit a round ends the loop.
read_loop-ends :
    (env : Env) (query : Query) (p : Progress) (max_new fuel limit : ℕ)
    → max_peek_rows ≤ limit * 4 ^ fuel
    → limit ≤ max_peek_rows
    → read_loop env query p max_new (suc fuel) limit ≢ none
unfolding read_loop
read_loop-ends env query p max_new zero limit h k = ground arith
read_loop-ends env query p max_new (suc fuel) limit h k = ground (
  arith,
  read_loop-ends env query p max_new fuel (min (limit * 4) max_peek_rows)
      (wider_enough limit fuel h) (omega arith),
)

first_limit_bounds :
    (p : Progress) (n : ℕ) → (1 ≤ first_limit p n) × (first_limit p n ≤ max_peek_rows)
unfolding first_limit
first_limit_bounds p n = (omega arith, omega arith)

peeked_of_none :
    (env : Env) (max_new : ℕ) (p : Progress) (r : Option (Result CdcError (List (ℕ × Message))))
    → peeked env max_new p r ≡ none
    → r ≡ none
unfolding peeked
peeked_of_none env max_new p none h = refl
peeked_of_none env max_new p (some (err e)) h = cc
peeked_of_none env max_new p (some (ok ms)) h = cc

-- For every answer of the server, every progress and every number of changes asked for, nine rounds
-- of the widening loop are enough: `peek` returns deliveries or an error.
pub peek_returns :
    (env : Env) (query : Query) (max_new : ℕ) (p : Progress) → peek env query max_new p ≢ none
unfolding peek
peek_returns env query max_new p e =
    let limit = first_limit p max_new in
    let bounds = first_limit_bounds p max_new in
    read_loop-ends env query p max_new 8 limit (omega arith) bounds.1
      (peeked_of_none env max_new p (read_loop env query p max_new 9 limit) e)
