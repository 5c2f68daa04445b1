-- ===== src/Cdc/Delivery.antt =====
-- src/watch_pg_cdc.rs: what the loop of `peek` delivers.
use mcpg_plugin_backend_sql.Common.{
  ℕ, ◌≤◌, ◌≡◌, refl, sym, subst, ◌∙◌, ◌⊎◌, inl, inr, true, false, ◌||◌, List, [], ◌∷◌, ◌++◌,
  append-nil, none, some, Result, ok, err, arith, length, All, contains, ltb, leb, ◌==◌, Bool-cases,
  Option-cases, ==_iff,
}
use mcpg_plugin_backend_sql.Pgoutput.Decode.{Message}
use mcpg_plugin_backend_sql.Cdc.{Progress, set_insert}
use mcpg_plugin_backend_sql.Cdc.Events.{CdcError, Env, WatchEvent, change_events}
use mcpg_plugin_backend_sql.Cdc.Peek.{
  Delivery, PeekState, receipts, deliver, on_change, on_commit, on_message, peek_loop,
  peek_messages,
}

-- The LSNs that the deliveries settle.
abbrev pub settled_lsns : (env : Env) → List (Delivery env) → List ℕ
settled_lsns env [] = []
settled_lsns env (d ∷ ds) = elim d.receipt [
  | none ↦ settled_lsns env ds
  | some l ↦ l ∷ settled_lsns env ds
]

settled-append :
    (env : Env) (xs ys : List (Delivery env))
    → settled_lsns env (xs ++ ys) ≡ settled_lsns env xs ++ settled_lsns env ys
settled-append env [] ys = refl
settled-append env (x ∷ xs) ys = ground (arith, settled-append env xs ys)

-- A change settles its own LSN once, if it has events at all.
settled-receipts :
    (env : Env) (lsn : ℕ) (es : List (WatchEvent env))
    → (settled_lsns env (receipts env lsn es) ≡ [])
      ⊎ (settled_lsns env (receipts env lsn es) ≡ lsn ∷ [])
unfolding receipts
settled-receipts env lsn [] = inl refl
settled-receipts env lsn (e ∷ []) = inr refl
settled-receipts env lsn (e ∷ f ∷ es) = settled-receipts env lsn (f ∷ es)

contains-set_insert :
    (x y : ℕ) (xs : List ℕ) → contains y (set_insert x xs) ≡ ((x == y) || contains y xs)
unfolding set_insert
contains-set_insert x y xs = elim (Bool-cases (contains x xs)) [
  | inl there ↦ rw there (ground (arith, contains_eq x y xs))
  | inr new ↦ rw new
]
  where
    contains_eq :
        (x y : ℕ) (xs : List ℕ) → contains x xs ≡ true → (x == y) ≡ true → contains y xs ≡ true
    contains_eq x y xs h e = subst (λ z. contains z xs ≡ true) (ground arith) h

abbrev pub Distinct : List ℕ → Type 0
Distinct [] = Unit
Distinct (x ∷ xs) = (contains x xs ≡ false) × Distinct xs

contains-snoc : (x l : ℕ) (xs : List ℕ) → contains x (xs ++ l ∷ []) ≡ (contains x xs || (l == x))
contains-snoc x l [] = ground arith
contains-snoc x l (y ∷ xs) = ground (arith, contains-snoc x l xs)

Distinct-snoc :
    (l : ℕ) (xs : List ℕ) → Distinct xs → contains l xs ≡ false → Distinct (xs ++ l ∷ [])
Distinct-snoc l [] d h = (refl, tt)
Distinct-snoc l (x ∷ xs) d h =
    (ground (arith, contains-snoc x l xs), Distinct-snoc l xs d.1 (ground arith))

All-snoc : (P : ℕ → Type 0) (l : ℕ) (xs : List ℕ) → All P xs → P l → All P (xs ++ l ∷ [])
All-snoc P l [] h k = (k, tt)
All-snoc P l (x ∷ xs) h k = (h.0, All-snoc P l xs h.1 k)

abbrev pub Within : List ℕ → List ℕ → Type 0
Within ys = All (λ l. contains l ys ≡ true)

Within-set_insert : (l : ℕ) (xs ys : List ℕ) → Within ys xs → Within (set_insert l ys) xs
Within-set_insert l [] ys h = tt
Within-set_insert l (x ∷ xs) ys h =
    (ground (arith, contains-set_insert l x ys), Within-set_insert l xs ys h.1)

not-contains_of_Within :
    (l : ℕ) (xs ys : List ℕ) → Within ys xs → contains l ys ≡ false → contains l xs ≡ false
not-contains_of_Within l [] ys h k = refl
not-contains_of_Within l (x ∷ xs) ys h k =
    ground (arith, not-contains_of_Within l xs ys h.1 k, ==_iff x l)

-- A change that the peek of `p` may deliver: not consumed, and not in flight.
abbrev pub Fresh : Progress → ℕ → Type 0
Fresh p l = (p.consumed ≤ l) × (contains l p.delivered ≡ false)

module _ (env : Env) (p : Progress) where
  abbrev settled : PeekState env → List ℕ
  settled st = settled_lsns env st.deliveries

  -- What holds of the state of the loop, begun at `p`.
  record Kept (st : PeekState env) : Type 0 where
    same_position : st.progress.consumed ≡ p.consumed
    in_flight : (l : ℕ) → contains l st.progress.delivered ≡ false → contains l p.delivered ≡ false
    fresh : All (Fresh p) (settled st)
    flagged : Within st.progress.delivered (settled st)
    distinct : Distinct (settled st)

  deliver-Kept :
      (lsn : ℕ) (st : PeekState env) (r : Result CdcError (List (WatchEvent env)))
      → Kept st
      → st.progress.consumed ≤ lsn
      → contains lsn st.progress.delivered ≡ false
      → Kept (deliver env lsn st r).0
  unfolding deliver
  deliver-Kept lsn st (err e) k h n = k
  deliver-Kept lsn st (ok es) k h n = record {
    same_position = k.same_position;
    in_flight =
        λ l e. k.in_flight l (ground (arith, contains-set_insert lsn l st.progress.delivered));
    fresh = onto (All (Fresh p)) k.fresh (
        All-snoc (Fresh p) lsn (settled st) k.fresh
          (omega (arith, k.same_position), k.in_flight lsn n));
    flagged = onto (Within now) kept (
        All-snoc (λ l. contains l now ≡ true) lsn (settled st) kept
          (ground (arith, contains-set_insert lsn lsn st.progress.delivered, ==_iff lsn lsn)));
    distinct = onto Distinct k.distinct (
        Distinct-snoc lsn (settled st) k.distinct
          (not-contains_of_Within lsn (settled st) st.progress.delivered k.flagged n));
  }
    where
      now : List ℕ
      now = set_insert lsn st.progress.delivered

      kept : Within now (settled st)
      kept = Within-set_insert lsn (settled st) st.progress.delivered k.flagged

      -- What holds of the old list and of the list with this LSN behind it holds of the new one.
      onto :
          (P : List ℕ → Type 0)
          → P (settled st)
          → P (settled st ++ lsn ∷ [])
          → P (settled_lsns env (st.deliveries ++ receipts env lsn es))
      onto P old more = elim (settled-receipts env lsn es) [
        | inl e ↦
            subst P (sym (settled-append env st.deliveries (receipts env lsn es))) (
              subst (λ l. P (settled st ++ l)) (sym e)
                (subst P (sym (append-nil (settled st))) old))
        | inr e ↦
            subst P (sym (settled-append env st.deliveries (receipts env lsn es)))
              (subst (λ l. P (settled st ++ l)) (sym e) more)
      ]

  -- Steps that touch neither the deliveries nor the marks.
  Kept-same :
      (st st' : PeekState env)
      → Kept st
      → st'.progress.consumed ≡ st.progress.consumed
      → st'.progress.delivered ≡ st.progress.delivered
      → st'.deliveries ≡ st.deliveries
      → Kept st'
  Kept-same st st' k c d e = record {
    same_position = c ∙ k.same_position;
    in_flight = rw d k.in_flight;
    fresh = rw e k.fresh;
    flagged = rw (d, e) k.flagged;
    distinct = rw e k.distinct;
  }

  on_commit-Kept : (end_lsn : ℕ) (st : PeekState env) → Kept st → Kept (on_commit env end_lsn st)
  unfolding on_commit
  on_commit-Kept end_lsn st k = elim (Bool-cases (leb end_lsn st.progress.consumed)) [
    | inl old ↦ rw old (Kept-same st _ k refl refl refl)
    | inr new ↦ rw new (Kept-same st _ k refl refl refl)
  ]

  on_change-Kept :
      (max_new lsn : ℕ) (m : Message) (st : PeekState env)
      → Kept st
      → Kept (on_change env max_new lsn m st).0
  unfolding on_change
  on_change-Kept max_new lsn m st k =
      let st' = record st { transaction = st.transaction ++ lsn ∷ [] } in
      let k' = Kept-same st st' k refl refl refl in
      elim (Bool-cases (
        ltb lsn st.progress.consumed
        || contains lsn st.progress.delivered
        || leb max_new (length st.deliveries))) [
          | inl skipped ↦ rw skipped k'
          | inr taken ↦ rw taken (
              deliver-Kept lsn st' (change_events env lsn st.begun st.relations m) k' (ground arith)
                (ground arith))
        ]

  on_message-Kept :
      (max_new : ℕ) (st : PeekState env) (m : ℕ × Message)
      → Kept st
      → Kept (on_message env max_new st m).0
  unfolding on_message
  on_message-Kept max_new st (lsn, Message.begin f c x) k = Kept-same st _ k refl refl refl
  on_message-Kept max_new st (lsn, Message.commit e) k = on_commit-Kept e st k
  on_message-Kept max_new st (lsn, Message.relation oid r) k = Kept-same st _ k refl refl refl
  on_message-Kept max_new st (lsn, Message.other) k = k
  on_message-Kept max_new st (lsn, Message.insert oid n) k =
      on_change-Kept max_new lsn (Message.insert oid n) st k
  on_message-Kept max_new st (lsn, Message.update oid o n) k =
      on_change-Kept max_new lsn (Message.update oid o n) st k
  on_message-Kept max_new st (lsn, Message.delete oid o f) k =
      on_change-Kept max_new lsn (Message.delete oid o f) st k
  on_message-Kept max_new st (lsn, Message.truncate os c r) k =
      on_change-Kept max_new lsn (Message.truncate os c r) st k

  peek_loop-Kept :
      (max_new : ℕ) (ms : List (ℕ × Message)) (st : PeekState env)
      → Kept st
      → Kept (peek_loop env max_new ms st).0
  unfolding peek_loop
  peek_loop-Kept max_new [] st k = k
  peek_loop-Kept max_new (m ∷ ms) st k = elim (Option-cases (on_message env max_new st m).1) [
    | inl go ↦
        rw (go, peek_loop)
          (peek_loop-Kept max_new ms (on_message env max_new st m).0
            (on_message-Kept max_new st m k))
    | inr (e, stop) ↦ rw (stop, peek_loop) (on_message-Kept max_new st m k)
  ]

-- Whatever messages a peek reads, the changes that it delivers are each delivered once, none of
-- them was in flight or consumed before, and all of them are in flight afterwards; the position
-- consumed is as it was.
pub peek_messages-Fresh :
    (env : Env) (max_new : ℕ) (ms : List (ℕ × Message)) (p : Progress)
    → let st = (peek_messages env max_new ms p).0 in
      All (Fresh p) (settled_lsns env st.deliveries)
      × Distinct (settled_lsns env st.deliveries)
      × Within st.progress.delivered (settled_lsns env st.deliveries)
      × (st.progress.consumed ≡ p.consumed)
unfolding peek_messages
peek_messages-Fresh env max_new ms p =
    let k = peek_loop-Kept env p max_new ms _ (record {
      same_position = refl;
      in_flight = λ l e. e;
      fresh = tt;
      flagged = tt;
      distinct = tt;
    }) in
    (k.fresh, k.distinct, k.flagged, k.same_position)
