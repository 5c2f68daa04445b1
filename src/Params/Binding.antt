-- ===== src/Params/Binding.antt =====
-- src/params.rs: what `collect_bound_params` returns for the names that the rewriting left.
use mcpg_plugin_backend_sql.Common.{
  ◌≡◌, ◌≢◌, refl, sym, ap, ◌∙◌, subst, ◌⊎◌, inl, inr, List, [], ◌∷◌, none, some, Result, ok, err,
  ◌>>=◌, Text, Option-cases,
}
use mcpg_plugin_backend_sql.Common.TextMaps.{lookup}
use mcpg_plugin_backend_sql.Params.{
  object, BoundParam, BindError, not_an_object, no_arguments, missing_parameter, bind_each,
  collect_bound_params,
}

module _ {V : Type 0} where
  -- The names of the list, in order, each with its value in the arguments.
  abbrev pub Bound : List (Text × V) → List Text → List (BoundParam V) → Type 0
  Bound m [] [] = Unit
  Bound m (name ∷ names) (b ∷ bs) =
      (b.name ≡ name) × (lookup name m ≡ some b.value) × Bound m names bs
  Bound m _ _ = ⊥

  -- The first name that has no value, behind names that have one.
  abbrev pub FirstMissing : List (Text × V) → List Text → Text → Type 0
  FirstMissing m [] missing = ⊥
  FirstMissing m (name ∷ names) missing =
      ((lookup name m ≡ none) × (missing ≡ name))
      ⊎ ((lookup name m ≢ none) × FirstMissing m names missing)

  -- What the outcome says of the arguments.
  abbrev pub Outcome : List (Text × V) → List Text → Result BindError (List (BoundParam V)) → Type 0
  Outcome m order (ok bs) = Bound m order bs
  Outcome m order (err (missing_parameter name)) = FirstMissing m order name
  Outcome m order (err _) = ⊥

  cons-Outcome :
      (m : List (Text × V)) (name : Text) (v : V) (names : List Text)
      (rest : Result BindError (List (BoundParam V)))
      → lookup name m ≡ some v
      → Outcome m names rest
      → Outcome m (name ∷ names) (rest >>= λ bs. ok (record { name = name; value = v } ∷ bs))
  cons-Outcome m name v names (ok bs) h o = (refl, h, o)
  cons-Outcome m name v names (err (missing_parameter x)) h o = inr ((λ e. cc), o)
  cons-Outcome m name v names (err not_an_object) h o = absurd o
  cons-Outcome m name v names (err (no_arguments x)) h o = absurd o

  bind_each-missing :
      (m : List (Text × V)) (name : Text) (names : List Text)
      → lookup name m ≡ none
      → bind_each m (name ∷ names) ≡ err (missing_parameter name)
  unfolding bind_each
  bind_each-missing m name names h = rw (h, bind_each) refl

  bind_each-found :
      (m : List (Text × V)) (name : Text) (v : V) (names : List Text)
      → lookup name m ≡ some v
      → bind_each m (name ∷ names)
        ≡ (bind_each m names >>= λ bs. ok (record { name = name; value = v } ∷ bs))
  unfolding bind_each
  bind_each-found m name v names h = rw (h, bind_each) refl

  bind_each_empty : (m : List (Text × V)) → bind_each m [] ≡ ok []
  unfolding bind_each
  bind_each_empty m = refl

  bind_each-Outcome :
      (m : List (Text × V)) (order : List Text) → Outcome m order (bind_each m order)
  bind_each-Outcome m [] = subst (Outcome m []) (sym (bind_each_empty m)) tt
  bind_each-Outcome m (name ∷ names) = elim (Option-cases (lookup name m)) [
    | inl h ↦
        subst (Outcome m (name ∷ names)) (sym (bind_each-missing m name names h)) (inl (h, refl))
    | inr (v, h) ↦
        subst (Outcome m (name ∷ names)) (sym (bind_each-found m name v names h))
          (cons-Outcome m name v names (bind_each m names) h (bind_each-Outcome m names))
  ]

  -- From an object, the arguments bound are those named, in order and as often as they are named,
  -- each with its value; or the refusal names the first one that is missing.
  pub collect_bound_params-Outcome :
      (m : List (Text × V)) (order : List Text)
      → Outcome m order (collect_bound_params (object m) order)
  unfolding collect_bound_params
  collect_bound_params-Outcome m order = bind_each-Outcome m order

  pub collect_bound_params_nil : (m : List (Text × V)) → collect_bound_params (object m) [] ≡ ok []
  unfolding collect_bound_params
  collect_bound_params_nil m = bind_each_empty m

  pub collect_bound_params_cons :
      (m : List (Text × V)) (name : Text) (v : V) (names : List Text) (bs : List (BoundParam V))
      → lookup name m ≡ some v
      → collect_bound_params (object m) names ≡ ok bs
      → collect_bound_params (object m) (name ∷ names) ≡ ok (record { name = name; value = v } ∷ bs)
  unfolding collect_bound_params
  collect_bound_params_cons m name v names bs found below =
      bind_each-found m name v names found
      ∙ ap (λ r. r >>= λ rest. ok (record { name = name; value = v } ∷ rest)) below
