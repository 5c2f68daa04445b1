-- ===== src/Changes/Delivery.antt =====
-- src/watch_changes.rs: what the loop over the rows of a page emits, on rows in the order of their keys.
use mcpg_plugin_backend_sql.Common.{
  suc, ◌+◌, ◌≤◌, ◌≡◌, refl, sym, ap, ◌∙◌, subst, inl, inr, List, [], ◌∷◌, ◌++◌, append-nil,
  append_assoc, Option, none, some, ok, length, length-append, if◌then◌else◌, Text, Bool-cases,
  arith,
}
use mcpg_plugin_backend_sql.Common.Options.{bind-some}
use mcpg_plugin_backend_sql.Changes.{Env, WatchEvent, Plan}
use mcpg_plugin_backend_sql.Changes.Rows.{row_key_loop, row_key, row_event, not_null}
use mcpg_plugin_backend_sql.Changes.Poll.{Polled, is_small, offer, rows_loop}

module _ (env : Env) where
  row_key_loop-length :
      (cs : List Text) (row : env.Value) (key : List env.Value)
      → row_key_loop env cs row ≡ some key
      → length key ≡ length cs
  unfolding row_key_loop
  row_key_loop-length [] row key h = let same : [] ≡ key = cc in subst (λ k. length k ≡ 0) same refl
  row_key_loop-length (c ∷ cs) row key h =
      let (v, one, rest) = bind-some (not_null env (env.get row c)) _ key h in
      let (vs, two, last) = bind-some (row_key_loop env cs row) _ key rest in
      let same : v ∷ vs ≡ key = cc in
      subst (λ k. length k ≡ suc (length cs)) same (ap suc (row_key_loop-length cs row vs two))

  pub row_key-length :
      (plan : Plan env.Value) (row : env.Value) (key : List env.Value)
      → row_key env plan row ≡ some key
      → length key ≡ length plan.key_columns
  unfolding row_key
  row_key-length plan row key h = row_key_loop-length plan.key_columns row key h

module _ (env : Env) (plan : Plan env.Value) (uri : Text) where
  -- The event of a row, if it has one that is not too large.
  abbrev small_event : Option (WatchEvent env.Value) → List (WatchEvent env.Value)
  small_event none = []
  small_event (some e) = if is_small env e then e ∷ [] else []

  abbrev events_of : env.Value → Option (List env.Value) → List (WatchEvent env.Value)
  events_of row none = []
  events_of row (some key) = small_event (row_event env plan uri row key)

  -- The events of rows, in the order of the rows.
  unfoldable pub events : List env.Value → List (WatchEvent env.Value)
  events [] = []
  events (row ∷ rows) = events_of row (row_key env plan row) ++ events rows

  events-append : (xs ys : List env.Value) → events (xs ++ ys) ≡ events xs ++ events ys
  unfolding events
  events-append [] ys = refl
  events-append (x ∷ xs) ys =
      ap (λ r. events_of x (row_key env plan x) ++ r) (events-append xs ys)
      ∙ sym (append_assoc (events_of x (row_key env plan x)) (events xs) (events ys))

  small_event-le : (o : Option (WatchEvent env.Value)) → length (small_event o) ≤ 1
  small_event-le none = omega arith
  small_event-le (some e) = ground arith

  events-one :
      (row : env.Value) (next : List env.Value)
      → row_key env plan row ≡ some next
      → events (row ∷ []) ≡ small_event (row_event env plan uri row next)
  unfolding events
  events-one row next h = rw h (append-nil _)

  events_of-le : (row : env.Value) (o : Option (List env.Value)) → length (events_of row o) ≤ 1
  events_of-le row none = omega arith
  events_of-le row (some key) = small_event-le (row_event env plan uri row key)

  pub events-le : (rows : List env.Value) → length (events rows) ≤ length rows
  unfolding events
  events-le [] = omega arith
  events-le (row ∷ rows) = omega (
    arith,
    length-append (events_of row (row_key env plan row)) (events rows),
    events_of-le row (row_key env plan row),
    events-le rows,
  )

  offer-sink :
      (o : Option (WatchEvent env.Value)) (s : Polled env)
      → (offer env o s).sink ≡ s.sink ++ small_event o
  unfolding offer
  offer-sink none s = sym (append-nil s.sink)
  offer-sink (some e) s = elim (Bool-cases (is_small env e)) [
    | inl h ↦ rw h refl
    | inr h ↦ rw h (sym (append-nil s.sink))
  ]

  offer-emitted :
      (o : Option (WatchEvent env.Value)) (s : Polled env)
      → (offer env o s).emitted ≡ s.emitted + length (small_event o)
  unfolding offer
  offer-emitted none s = omega arith
  offer-emitted (some e) s = elim (Bool-cases (is_small env e)) [
    | inl h ↦ rw h refl
    | inr h ↦ rw h (omega arith)
  ]

  -- The state behind a row.
  abbrev passed : env.Value → List env.Value → Polled env → Polled env
  passed row next s = record (offer env (row_event env plan uri row next) s) { key = next }

  rows_loop-cons :
      (row : env.Value) (rows next : List env.Value) (s : Polled env)
      → row_key env plan row ≡ some next
      → rows_loop env plan uri (row ∷ rows) s ≡ rows_loop env plan uri rows (passed row next s)
  unfolding rows_loop
  rows_loop-cons row rows next s h = rw (h, rows_loop) refl

  rows_loop_nil : (s : Polled env) → rows_loop env plan uri [] s ≡ (ok tt, s)
  unfolding rows_loop
  rows_loop_nil s = refl

  module _ (after : List env.Value → List env.Value) where
    -- The rows behind a key, row by row: the first of them has a key, and the rest is behind it.
    abbrev pub Keyset : Type 0
    Keyset =
        (key rest : List env.Value) (row : env.Value)
        → after key ≡ row ∷ rest
        → (next : List env.Value) × (row_key env plan row ≡ some next) × (after next ≡ rest)

    -- From one state to the other, the rows taken are the next ones, and their events are emitted.
    pub record Delivered (taken : List env.Value) (s t : Polled env) : Type 0 where
      pub split : after s.key ≡ taken ++ after t.key
      pub sink : t.sink ≡ s.sink ++ events taken
      pub emitted : t.emitted ≡ s.emitted + length (events taken)
      pub width : length t.key ≡ length plan.key_columns

    Delivered-nil : (s : Polled env) → length s.key ≡ length plan.key_columns → Delivered [] s s
    unfolding events
    Delivered-nil s width = record {
      split = refl;
      sink = sym (append-nil s.sink);
      emitted = omega arith;
      width = width;
    }

    pub Delivered-trans :
        (xs ys : List env.Value) (s t u : Polled env)
        → Delivered xs s t
        → Delivered ys t u
        → Delivered (xs ++ ys) s u
    Delivered-trans xs ys s t u a b = record {
      split = a.split ∙ ap (λ r. xs ++ r) b.split ∙ sym (append_assoc xs ys (after u.key));
      sink =
          b.sink
          ∙ ap (λ r. r ++ events ys) a.sink
          ∙ append_assoc s.sink (events xs) (events ys)
          ∙ ap (λ r. s.sink ++ r) (sym (events-append xs ys));
      emitted = omega (
        arith,
        a.emitted,
        b.emitted,
        length-append (events xs) (events ys),
        ap length (events-append xs ys),
      );
      width = b.width;
    }

    passed-Delivered :
        (row : env.Value) (next rest : List env.Value) (s : Polled env)
        → row_key env plan row ≡ some next
        → after s.key ≡ row ∷ rest
        → after next ≡ rest
        → Delivered (row ∷ []) s (passed row next s)
    passed-Delivered row next rest s h here below = record {
      split = here ∙ ap (λ r. row ∷ r) (sym below);
      sink =
          offer-sink (row_event env plan uri row next) s
          ∙ ap (λ r. s.sink ++ r) (sym (events-one row next h));
      emitted =
          offer-emitted (row_event env plan uri row next) s
          ∙ ap (λ r. s.emitted + length r) (sym (events-one row next h));
      width = row_key-length env plan row next h;
    }

    pub rows_loop-Delivered :
        Keyset
        → (rows left : List env.Value) (s : Polled env) → length s.key ≡ length plan.key_columns
        → after s.key ≡ rows ++ left
        → (t : Polled env) × (rows_loop env plan uri rows s ≡ (ok tt, t))
          × (after t.key ≡ left)
          × Delivered rows s t
    rows_loop-Delivered keyset [] left s width h = (s, rows_loop_nil s, h, Delivered-nil s width)
    rows_loop-Delivered keyset (row ∷ rows) left s width h =
        let (next, k, below) = keyset s.key (rows ++ left) row h in
        let (t, run, end, d) =
          rows_loop-Delivered keyset rows left (passed row next s)
            (row_key-length env plan row next k) below in
        (
          t,
          rows_loop-cons row rows next s k ∙ run,
          end,
          Delivered-trans (row ∷ []) rows s (passed row next s) t
              (passed-Delivered row next (rows ++ left) s k h below) d,
        )
