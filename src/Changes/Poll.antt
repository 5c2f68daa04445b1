-- ===== src/Changes/Poll.antt =====
-- src/watch_changes.rs: the first key, the loop of a poll, and the waiting between failures. What the
-- outside does in one round of the loop is a `Round`: the time, the answer of the database to the
-- arguments it is given, and whether the watch is cancelled before that answer or after its rows.
use mcpg_plugin_backend_sql.Common.{
  ℕ, zero, suc, ◌+◌, ◌-◌, ◌^◌, min, Bool, not, ◌||◌, List, [], ◌∷◌, ◌++◌, Option, none, some,
  Result, ok, err, length, take, ltb, leb, if◌then◌else◌, Text,
}
use mcpg_plugin_backend_sql.Common.Int.{ℤ}
use mcpg_plugin_backend_sql.Errors.{SqlError, timeout, invalid_spec}
use mcpg_plugin_backend_sql.Params.{BoundParam}
use mcpg_plugin_backend_sql.Changes.{
  Env, WatchEvent, Plan, latest, beginning, Refusal, no_key_value, max_rows_per_tick,
  max_event_bytes,
}
use mcpg_plugin_backend_sql.Changes.Rows.{page_args, row_key, row_event}

abbrev pub PollError : Type 0
PollError = SqlError Refusal

-- `tokio::time::timeout`: no answer within the limit.
unfoldable pub timed : {A : Type 0} → ℕ → Option (Result PollError A) → Result PollError A
timed limit none = err (timeout limit)
timed limit (some r) = r

module _ (env : Env) where
  abbrev pub Rows : Type 0
  Rows = Result PollError (List env.Value)

  pub record Round : Type 0 where
    pub now : ℤ
    pub cancelled : Bool
    pub reply : List (BoundParam env.Value) → Option Rows
    pub cancelled_after : Bool

  -- The key, the events that the sink took, and how many they are in this poll.
  pub record Polled : Type 0 where
    pub key : List env.Value
    pub sink : List (WatchEvent env.Value)
    pub emitted : ℕ

  -- `panicked` is an index out of range, `unfinished` the end of the rounds given.
  pub data Poll : Type 0 where
    returned : Result PollError (Unit {0}) → Polled → Poll
    panicked unfinished : Polled → Poll

  -- `map_or(usize::MAX, ..)`.
  event_size : Option ℕ → ℕ
  event_size none = 2 ^ 64 - 1
  event_size (some n) = n

  unfoldable pub is_small : WatchEvent env.Value → Bool
  unfolding event_size
  is_small e = not (ltb max_event_bytes (event_size (env.size_of e)))

  -- A row's event goes to the sink unless there is none or it is too large.
  unfoldable pub offer : Option (WatchEvent env.Value) → Polled → Polled
  offer none s = s
  offer (some e) s =
      if is_small e then record s { sink = s.sink ++ e ∷ []; emitted = s.emitted + 1 } else s

  module _ (plan : Plan env.Value) where
    unfoldable pub start_rows :
        Result PollError (List env.Value) → Result PollError (List env.Value)
    start_rows (err e) = err e
    start_rows (ok []) = ok plan.initial
    start_rows (ok (row ∷ rows)) = elim (row_key env plan row) [
      | none ↦ ok plan.initial
      | some key ↦ ok key
    ]

    -- `Ok(None)` is a watch that is cancelled.
    unfoldable pub start_key : Bool → Option Rows → Result PollError (Option (List env.Value))
    unfolding start_rows timed
    start_key cancelled answer =
        let newest : Result PollError (Option (List env.Value)) =
          if cancelled then ok none else elim (start_rows (timed plan.timeout answer)) [
            | err e ↦ err e
            | ok k ↦ ok (some k)
          ] in
        elim plan.start [
          | beginning ↦ ok (some plan.initial)
          | latest ↦ elim plan.latest_stmt [ none ↦ ok (some plan.initial) | some s ↦ newest ]
        ]

    module _ (uri : Text) where
      unfoldable pub rows_loop : List env.Value → Polled → Result PollError (Unit {0}) × Polled
      rows_loop [] s = (ok tt, s)
      rows_loop (row ∷ rows) s = elim (row_key env plan row) [
        | none ↦ (err (invalid_spec (no_key_value plan.key_columns)), s)
        | some next ↦
            rows_loop rows (record (offer (row_event env plan uri row next) s) { key = next })
      ]

      -- What follows an answer: the rows, and whether there is another round.
      unfoldable pub after_rows :
          Bool → Bool → Result PollError (Unit {0}) × Polled → (Polled → Poll) → Poll
      after_rows full cancelled_after (err e, s) again = returned (err e) s
      after_rows full cancelled_after (ok u, s) again =
          let next = again s in
          if not full || leb max_rows_per_tick s.emitted || cancelled_after
          then returned (ok tt) s
          else next

      unfoldable pub after_reply : Bool → Rows → Polled → (Polled → Poll) → Poll
      after_reply cancelled_after (err e) s again = returned (err e) s
      after_reply cancelled_after (ok rows) s again =
          after_rows (leb plan.batch_size (length rows)) cancelled_after
            (rows_loop (take plan.batch_size rows) s) again

      unfoldable pub poll_round :
          Round → Option (List (BoundParam env.Value)) → Polled → (Polled → Poll) → Poll
      poll_round r none s again = panicked s
      poll_round r (some args) s again =
          if r.cancelled
          then returned (ok tt) s
          else after_reply r.cancelled_after (timed plan.timeout (r.reply args)) s again

      unfoldable pub poll_loop : List Round → Polled → Poll
      poll_loop [] s = unfinished s
      poll_loop (r ∷ rs) s = poll_round r (page_args env plan s.key r.now) s (poll_loop rs)

      unfoldable pub poll : List Round → List env.Value → List (WatchEvent env.Value) → Poll
      poll rounds key sink = poll_loop rounds (record { key = key; sink = sink; emitted = 0 })

-- `Backoff`, its waits in seconds: the wait, and the attempts after it.
abbrev pub max_backoff : ℕ
max_backoff = 60

unfoldable pub backoff_delay : ℕ → ℕ
backoff_delay attempts = min (2 ^ min attempts 6) max_backoff

-- `saturating_add` on 32 bits.
unfoldable pub backoff_next : ℕ → ℕ
backoff_next attempts = min (attempts + 1) (2 ^ 32 - 1)

-- The waits of that many failures in a row.
unfoldable pub backoff_waits : ℕ → ℕ → List ℕ
backoff_waits attempts zero = []
backoff_waits attempts (suc failures) =
    backoff_delay attempts ∷ backoff_waits (backoff_next attempts) failures
