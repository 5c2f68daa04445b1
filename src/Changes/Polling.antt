-- ===== src/Changes/Polling.antt =====
-- src/watch_changes.rs: what a poll delivers from a database that answers each page with the rows
-- behind its key.
use mcpg_plugin_backend_sql.Common.{
  ℕ, suc, ◌+◌, ◌≤◌, ◌<◌, ◌≡◌, refl, sym, ap, ◌∙◌, ◌⊎◌, inl, inr, Bool, true, false, List, [], ◌∷◌,
  ◌++◌, some, ok, All, length, take, drop, take-append-drop, take-take, length-take-le, drop-short,
  length-drop, leb, Text, Bool-cases, leb→le, arith,
}
use mcpg_plugin_backend_sql.Params.{BoundParam}
use mcpg_plugin_backend_sql.Changes.{Env, WatchEvent, Plan}
use mcpg_plugin_backend_sql.Changes.Rows.{page_args}
use mcpg_plugin_backend_sql.Changes.Poll.{
  Round, Polled, Poll, returned, timed, rows_loop, after_rows, after_reply, poll_round, poll_loop,
  poll,
}
use mcpg_plugin_backend_sql.Changes.Plans.{IsPlan}
use mcpg_plugin_backend_sql.Changes.Binding.{page_args-collect}
use mcpg_plugin_backend_sql.Changes.Delivery.{
  events-le, Keyset, Delivered, Delivered-trans, rows_loop-Delivered,
}

module _ (env : Env) (plan : Plan env.Value) (uri : Text)
    (after : List env.Value → List env.Value) where
  -- A round without a cancel, whose database answers with the rows behind the key that it is given,
  -- a batch of them.
  pub record Steady (r : Round env) : Type 0 where
    pub cancelled : r.cancelled ≡ false
    pub cancelled_after : r.cancelled_after ≡ false
    pub serves :
        (key : List env.Value) (args : List (BoundParam env.Value))
        → page_args env plan key r.now ≡ some args
        → r.reply args ≡ some (ok (take plan.batch_size (after key)))

  -- The state at the end of a poll, and why it ended.
  pub record Finished (s t : Polled env) : Type 0 where
    pub taken : List env.Value
    pub delivered : Delivered env plan uri after taken s t
    pub done : (after t.key ≡ []) ⊎ (500 ≤ t.emitted)
    pub bound : t.emitted < 500 + plan.batch_size

  poll_loop-cons :
      (r : Round env) (rs : List (Round env)) (s : Polled env) (args : List (BoundParam env.Value))
      → Steady r
      → page_args env plan s.key r.now ≡ some args
      → poll_loop env plan uri (r ∷ rs) s
        ≡ after_rows env plan uri
            (leb plan.batch_size (length (take plan.batch_size (after s.key))))
            false
            (rows_loop env plan uri (take plan.batch_size (after s.key)) s)
            (poll_loop env plan uri rs)
  unfolding poll_loop poll_round after_reply timed
  poll_loop-cons r rs s args steady h =
      rw
        (
          h,
          poll_loop,
          steady.cancelled,
          steady.cancelled_after,
          steady.serves s.key args h,
          take-take plan.batch_size (after s.key),
        )
        refl

  stops :
      (full : Bool) (t : Polled env) (again : Polled env → Poll env)
      → (full ≡ false) ⊎ (500 ≤ t.emitted)
      → after_rows env plan uri full false (ok tt, t) again ≡ returned (ok tt) t
  unfolding after_rows
  stops full t again h = ground arith

  goes_on :
      (full : Bool) (t : Polled env) (again : Polled env → Poll env)
      → full ≡ true
      → t.emitted < 500
      → after_rows env plan uri full false (ok tt, t) again ≡ again t
  unfolding after_rows
  goes_on full t again h low = ground arith

  -- One round reads a page and then decides whether there is another.
  page-Delivered :
      Keyset env plan uri after
      → IsPlan env plan
      → (r : Round env) (rs : List (Round env)) (s : Polled env) → Steady r
      → length s.key ≡ length plan.key_columns
      → (t : Polled env) × (poll_loop env plan uri (r ∷ rs) s
          ≡ after_rows env plan uri
              (leb plan.batch_size (length (take plan.batch_size (after s.key))))
              false
              (ok tt, t)
              (poll_loop env plan uri rs))
        × (after t.key ≡ drop plan.batch_size (after s.key))
        × Delivered env plan uri after (take plan.batch_size (after s.key)) s t
  page-Delivered keyset is r rs s steady width =
      let (args, h, _) = page_args-collect env plan s.key r.now is width in
      let page : List env.Value = take plan.batch_size (after s.key) in
      let (t, run, end, d) =
        rows_loop-Delivered env plan uri after keyset page (drop plan.batch_size (after s.key)) s
          width (sym (take-append-drop plan.batch_size (after s.key))) in
      (
        t,
        poll_loop-cons r rs s args steady h
            ∙ ap
                (λ x.
                  after_rows env plan uri (leb plan.batch_size (length page)) false x
                    (poll_loop env plan uri rs))
                run,
        end,
        d,
      )

  page-bound :
      (s t : Polled env)
      → Delivered env plan uri after (take plan.batch_size (after s.key)) s t
      → s.emitted < 500
      → t.emitted < 500 + plan.batch_size
  page-bound s t d low = omega (
    arith,
    d.emitted,
    events-le env plan uri (take plan.batch_size (after s.key)),
    length-take-le plan.batch_size (after s.key),
  )

  Finished-trans :
      (xs : List env.Value) (s t u : Polled env)
      → Delivered env plan uri after xs s t
      → Finished t u
      → Finished s u
  Finished-trans xs s t u d f = record {
    taken = xs ++ f.taken;
    delivered = Delivered-trans env plan uri after xs f.taken s t u d f.delivered;
    done = f.done;
    bound = f.bound;
  }

  leb-false : (a b : ℕ) → leb a b ≡ false → b < a
  leb-false a b h = ground arith

  -- A full page leaves fewer rows than there were.
  fewer_left :
      (n rounds : ℕ) (xs left : List env.Value)
      → 1 ≤ n
      → leb n (length (take n xs)) ≡ true
      → left ≡ drop n xs
      → length xs < suc rounds
      → length left < rounds
  fewer_left n rounds xs left positive full e h =
      rw e (omega (arith, length-drop n xs (leb→le n (length (take n xs)) full)))

  page-Finished :
      (s t : Polled env)
      → Delivered env plan uri after (take plan.batch_size (after s.key)) s t
      → (after t.key ≡ []) ⊎ (500 ≤ t.emitted)
      → s.emitted < 500
      → Finished s t
  page-Finished s t d done low = record {
    taken = take plan.batch_size (after s.key);
    delivered = d;
    done = done;
    bound = page-bound s t d low;
  }

  poll_loop-Finished :
      Keyset env plan uri after
      → IsPlan env plan
      → (rounds : List (Round env)) (s : Polled env) → All Steady rounds
      → length s.key ≡ length plan.key_columns
      → s.emitted < 500
      → length (after s.key) < length rounds
      → (t : Polled env) × (poll_loop env plan uri rounds s ≡ returned (ok tt) t) × Finished s t
  poll_loop-Finished keyset is [] s steady width low fuel = absurd (omega arith)
  poll_loop-Finished keyset is (r ∷ rs) s (here, steady) width low fuel =
      let again : Polled env → Poll env = poll_loop env plan uri rs in
      let (t, run, end, d) = page-Delivered keyset is r rs s here width in
      elim (Bool-cases (leb plan.batch_size (length (take plan.batch_size (after s.key))))) [
        | inr short ↦
            let left = end ∙ drop-short plan.batch_size (after s.key) (leb-false _ _ short) in
            (t, run ∙ stops _ t again (inl short), page-Finished s t d (inl left) low)
        | inl full ↦ elim (Bool-cases (leb 500 t.emitted)) [
          | inl many ↦
              let enough = leb→le 500 t.emitted many in
              (t, run ∙ stops _ t again (inr enough), page-Finished s t d (inr enough) low)
          | inr few ↦
              let below = leb-false 500 t.emitted few in
              let left =
                fewer_left plan.batch_size (length rs) (after s.key) (after t.key) is.batch_low full
                  end fuel in
              let (u, rest, f) = poll_loop-Finished keyset is rs t steady d.width below left in
              (u, run ∙ goes_on _ t again full below ∙ rest, Finished-trans _ s t u d f)
        ]
      ]

  -- From a key of the plan's width, with a database that answers each page with the rows behind its
  -- key in the order of their keys, no cancel, and more rounds than rows: a poll of a compiled plan
  -- returns without an error. It has emitted the events of the next rows behind the key, each once
  -- and in their order, behind what the sink held, and the rows behind its key at the end are those
  -- that it did not take. It ends when none are left or when it has emitted at least 500 events, and
  -- it emits fewer than 500 and the size of a batch.
  pub poll-Finished :
      (keyset : Keyset env plan uri after)
      → IsPlan env plan
      → (rounds : List (Round env)) (key : List env.Value) (sink : List (WatchEvent env.Value))
      → All Steady rounds
      → length key ≡ length plan.key_columns
      → length (after key) < length rounds
      → (t : Polled env) × (poll env plan uri rounds key sink ≡ returned (ok tt) t)
        × Finished (record { key = key; sink = sink; emitted = 0 }) t
  unfolding poll
  poll-Finished keyset is rounds key sink steady width fuel =
      poll_loop-Finished keyset is rounds (record { key = key; sink = sink; emitted = 0 }) steady
        width (omega arith) fuel
