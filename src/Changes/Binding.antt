-- ===== src/Changes/Binding.antt =====
-- src/watch_changes.rs with src/params.rs: the arguments of a page and the table of what the loop has
-- to bind.
use mcpg_plugin_backend_sql.Common.{
  ℕ, suc, ◌≡◌, ◌≢◌, refl, sym, ◌∙◌, subst, inl, inr, Bool, true, false, ◌||◌, List, [], ◌∷◌, ◌++◌,
  Option, none, some, ok, All, length, map, Text, text_eq, text_eq→eq, text_eq_self, text_eq_comm,
  Bool-cases, arith,
}
use mcpg_plugin_backend_sql.Common.Int.{ℤ, pos}
use mcpg_plugin_backend_sql.Common.TextMaps.{lookup}
use mcpg_plugin_backend_sql.Params.{BoundParam, object, collect_bound_params}
use mcpg_plugin_backend_sql.Params.Binding.{collect_bound_params_nil, collect_bound_params_cons}
use mcpg_plugin_backend_sql.Changes.{
  Env, Plan, is_among, limit_placeholder, settle_placeholder, after_prefix,
}
use mcpg_plugin_backend_sql.Changes.Compile.{settle_names, allowed}
use mcpg_plugin_backend_sql.Changes.Rows.{
  minus, settle_secs, slice_from, position, get_elem?, unwrap_or_default, key_argument, page_value,
  page_args_loop, page_args,
}
use mcpg_plugin_backend_sql.Changes.Plans.{IsPlan}

-- The placeholder of each key column with its value in the key.
abbrev pub key_bindings {ℓ} : {V : Type ℓ} → List Text → List V → List (Text × V)
key_bindings [] vs = []
key_bindings (c ∷ cs) [] = []
key_bindings (c ∷ cs) (v ∷ vs) = (after_prefix ++ c, v) ∷ key_bindings cs vs

among_head : (c : Text) (cs : List Text) → is_among c (c ∷ cs) ≡ true
unfolding is_among
among_head c cs = rw (text_eq_self c) refl

among_tail : (d c : Text) (cs : List Text) → is_among d cs ≡ true → is_among d (c ∷ cs) ≡ true
unfolding is_among
among_tail d c cs found = ground arith

or_rest : (a b : Bool) → a ≡ false → (a || b) ≡ true → b ≡ true
or_rest a b e h = ground arith

-- A name among those of the key columns, or of the rest.
among_append :
    (name : Text) (cs rest : List Text)
    → is_among name (map (λ c. after_prefix ++ c) cs ++ rest) ≡ true
    → is_among name rest ≡ false
    → (c : Text) × (name ≡ after_prefix ++ c) × (is_among c cs ≡ true)
unfolding is_among
among_append name [] rest h absent = absurd cc
among_append name (c ∷ cs) rest h absent = elim (Bool-cases (text_eq (after_prefix ++ c) name)) [
  | inl e ↦ (c, sym (text_eq→eq _ _ e), among_head c cs)
  | inr e ↦
      let (d, same, found) = among_append name cs rest (or_rest _ _ e h) absent in
      (d, same, among_tail d c cs found)
]

module _ {V : Type 0} where
  lookup-limit :
      (cs : List Text) (vs : List V) (rest : List (Text × V))
      → lookup limit_placeholder (key_bindings cs vs ++ rest) ≡ lookup limit_placeholder rest
  unfolding lookup text_eq
  lookup-limit [] vs rest = refl
  lookup-limit (c ∷ cs) [] rest = refl
  lookup-limit (c ∷ cs) (v ∷ vs) rest = lookup-limit cs vs rest

  lookup-settle :
      (cs : List Text) (vs : List V) (rest : List (Text × V))
      → lookup settle_placeholder (key_bindings cs vs ++ rest) ≡ lookup settle_placeholder rest
  unfolding lookup text_eq
  lookup-settle [] vs rest = refl
  lookup-settle (c ∷ cs) [] rest = refl
  lookup-settle (c ∷ cs) (v ∷ vs) rest = lookup-settle cs vs rest

  lookup-key :
      (c : Text) (cs : List Text) (vs : List V) (rest : List (Text × V))
      → length vs ≡ length cs
      → is_among c cs ≡ true
      → (i : ℕ) × (v : V) × (position c cs ≡ some i)
        × (get_elem? i vs ≡ some v)
        × (lookup (after_prefix ++ c) (key_bindings cs vs ++ rest) ≡ some v)
  unfolding lookup is_among position get_elem? text_eq
  lookup-key c [] vs rest size h = absurd cc
  lookup-key c (d ∷ cs) [] rest size h = absurd (omega arith)
  lookup-key c (d ∷ cs) (v ∷ vs) rest size h = elim (Bool-cases (text_eq d c)) [
    | inl e ↦ (0, v, rw e refl, refl, rw e refl)
    | inr e ↦
        let (i, w, at, got, found) = lookup-key c cs vs rest (omega arith) (or_rest _ _ e h) in
        (suc i, w, rw (e, at) refl, got, rw e found)
  ]

-- Without a time to settle its placeholder is not allowed.
settle_absent :
    (cs : List Text) (settle : Option ℕ)
    → settle ≡ none
    → is_among settle_placeholder (allowed cs settle) ≢ true
unfolding allowed is_among text_eq
settle_absent [] none e h = absurd cc
settle_absent (c ∷ cs) none e h = settle_absent cs none e h
settle_absent cs (some ms) e h = absurd cc

unnamed :
    (name : Text) (settle : Option ℕ)
    → text_eq name limit_placeholder ≡ false
    → text_eq name settle_placeholder ≡ false
    → is_among name (limit_placeholder ∷ settle_names settle) ≡ false
unfolding is_among
unnamed name none a b = rw (text_eq_comm limit_placeholder name, a) refl
unnamed name (some ms) a b =
    rw (text_eq_comm limit_placeholder name, a, text_eq_comm settle_placeholder name, b) refl

module _ (env : Env) (plan : Plan env.Value) (key : List env.Value) (now_secs : ℤ) where
  settle_bindings : Option ℕ → List (Text × env.Value)
  settle_bindings none = []
  settle_bindings (some ms) =
      (settle_placeholder, env.of_int (minus now_secs (settle_secs (some ms)))) ∷ []

  -- What the loop has to bind: the key, the size of the batch, and the time to settle if any.
  unfoldable pub bindings : List (Text × env.Value)
  unfolding settle_bindings
  bindings =
      key_bindings plan.key_columns key
      ++ (limit_placeholder, env.of_int (pos plan.batch_size)) ∷ settle_bindings plan.settle

  abbrev Bound : Text → Type 0
  Bound name =
      (v : env.Value) × (page_value env plan key now_secs name ≡ some v)
      × (lookup name bindings ≡ some v)

  limit-Bound : (name : Text) → text_eq name limit_placeholder ≡ true → Bound name
  unfolding page_value bindings lookup text_eq
  limit-Bound name e =
      subst Bound (sym (text_eq→eq _ _ e)) (_, refl, lookup-limit plan.key_columns key _)

  settle_bindings-found :
      (settle : Option ℕ) (v : env.Value)
      → settle ≢ none
      → lookup settle_placeholder ((limit_placeholder, v) ∷ settle_bindings settle)
        ≡ some (env.of_int (minus now_secs (settle_secs settle)))
  unfolding settle_bindings lookup text_eq
  settle_bindings-found none v there = absurd (there refl)
  settle_bindings-found (some ms) v there = refl

  settle-Bound :
      (name : Text)
      → text_eq name settle_placeholder ≡ true
      → is_among name (allowed plan.key_columns plan.settle) ≡ true
      → Bound name
  unfolding page_value bindings text_eq allowed
  settle-Bound name e h =
      let same : settle_placeholder ≡ name = sym (text_eq→eq _ _ e) in
      let there : plan.settle ≢ none = λ x.
        settle_absent plan.key_columns plan.settle x
          (subst (λ n. is_among n (allowed plan.key_columns plan.settle) ≡ true) (sym same) h) in
      subst Bound same
        (_, refl, lookup-settle plan.key_columns key _ ∙ settle_bindings-found plan.settle _ there)

  key-Bound :
      (c : Text)
      → length key ≡ length plan.key_columns
      → is_among c plan.key_columns ≡ true
      → Bound (after_prefix ++ c)
  unfolding page_value bindings key_argument slice_from unwrap_or_default text_eq
  key-Bound c size h =
      let (i, v, at, got, found) = lookup-key c plan.key_columns key _ size h in
      (v, rw at got, found)

  page_args_loop_nil : page_args_loop env plan key now_secs [] ≡ some []
  unfolding page_args_loop
  page_args_loop_nil = refl

  page_args_loop_cons :
      (name : Text) (v : env.Value) (names : List Text) (args : List (BoundParam env.Value))
      → page_value env plan key now_secs name ≡ some v
      → page_args_loop env plan key now_secs names ≡ some args
      → page_args_loop env plan key now_secs (name ∷ names)
        ≡ some (record { name = name; value = v } ∷ args)
  unfolding page_args_loop
  page_args_loop_cons name v names args value below = rw (value, below) refl

  name-Bound :
      (name : Text)
      → length key ≡ length plan.key_columns
      → is_among name (allowed plan.key_columns plan.settle) ≡ true
      → Bound name
  unfolding allowed
  name-Bound name size h = elim (Bool-cases (text_eq name limit_placeholder)) [
    | inl e ↦ limit-Bound name e
    | inr a ↦ elim (Bool-cases (text_eq name settle_placeholder)) [
      | inl e ↦ settle-Bound name e h
      | inr b ↦
          let (c, same, found) =
            among_append name plan.key_columns _ h (unnamed name plan.settle a b) in
          subst Bound (sym same) (key-Bound c size found)
    ]
  ]

  page_args_loop-Bound :
      (names : List Text)
      → length key ≡ length plan.key_columns
      → All (λ n. is_among n (allowed plan.key_columns plan.settle) ≡ true) names
      → (args : List (BoundParam env.Value)) × (page_args_loop env plan key now_secs names
          ≡ some args)
        × (collect_bound_params (object bindings) names ≡ ok args)
  page_args_loop-Bound [] size known = ([], page_args_loop_nil, collect_bound_params_nil bindings)
  page_args_loop-Bound (name ∷ names) size (here, known) =
      let (v, value, found) = name-Bound name size here in
      let (args, below, collected) = page_args_loop-Bound names size known in
      (
        record { name = name; value = v } ∷ args,
        page_args_loop_cons name v names args value below,
        collect_bound_params_cons bindings name v names args found collected,
      )

  -- With a compiled plan and a key of its width, no index of `page_args` is out of range, and the
  -- arguments are those that `collect_bound_params` takes for the statement's placeholders from the
  -- table of what the loop binds: each key column's value, the size of a batch and, where rows have
  -- a time to settle, the time less that many whole seconds.
  pub page_args-collect :
      IsPlan env plan
      → length key ≡ length plan.key_columns
      → (args : List (BoundParam env.Value)) × (page_args env plan key now_secs ≡ some args)
        × (collect_bound_params (object bindings) plan.stmt.param_order ≡ ok args)
  unfolding page_args
  page_args-collect is size = page_args_loop-Bound plan.stmt.param_order size is.only
