-- ===== src/InFlight/Guards.antt =====
-- src/in_flight.rs: the registry after registrations, drops and backend ids told.
use mcpg_plugin_backend_sql.Common.{
  ℕ, ◌≡◌, refl, ap, ◌∙◌, Bool, true, false, List, [], ◌∷◌, Option, none, some, if◌then◌else◌, Text,
  text_eq, text_eq_iff, arith,
}
use mcpg_plugin_backend_sql.Common.TextMaps.{lookup, lookup-insert, lookup-remove}
use mcpg_plugin_backend_sql.Params.{DriverKind}
use mcpg_plugin_backend_sql.InFlight.{
  BackendId, InFlightEntry, Registry, set_backend_id, register, drop_guard,
}

-- What happens to the guards, in order.
pub data GuardEvent : Type 0 where
  registers : (now_wall now_mono : ℕ) → (request_id backend_name : Text) → DriverKind → GuardEvent
  drops : Text → GuardEvent
  learns : Text → BackendId → GuardEvent

unfoldable pub apply : GuardEvent → Registry → Registry
apply (registers now_wall now_mono r b d) reg = register now_wall now_mono r b d reg
apply (drops r) reg = drop_guard r reg
apply (learns r id) reg = set_backend_id r id reg

unfoldable pub apply_each : List GuardEvent → Registry → Registry
apply_each [] reg = reg
apply_each (e ∷ es) reg = apply_each es (apply e reg)

-- What the registry has of a request: nothing, or the backend id of its entry.
abbrev pub id_held : Option InFlightEntry → Option (Option BackendId)
id_held none = none
id_held (some e) = some e.backend_id

abbrev pub held : Text → Registry → Option (Option BackendId)
held r reg = id_held (lookup r reg)

abbrev pub told : BackendId → Option (Option BackendId) → Option (Option BackendId)
told id none = none
told id (some old) = some (some id)

-- The same by the events of the request alone: it is there from a registration to the next drop, with
-- the last backend id told in between.
abbrev pub history : Text → List GuardEvent → Option (Option BackendId) → Option (Option BackendId)
history r [] state = state
history r (registers w m q b d ∷ es) state = history r es (if text_eq q r then some none else state)
history r (drops q ∷ es) state = history r es (if text_eq q r then none else state)
history r (learns q id ∷ es) state = history r es (if text_eq q r then told id state else state)

held-register :
    (w m : ℕ) (q b r : Text) (d : DriverKind) (reg : Registry)
    → held r (register w m q b d reg) ≡ (if text_eq q r then some none else held r reg)
unfolding register
held-register w m q b r d reg =
    ap id_held (lookup-insert q r _ reg) ∙ choose (text_eq q r) _ (lookup r reg)
  where
    choose :
        (c : Bool) (e : InFlightEntry) (o : Option InFlightEntry)
        → id_held (if c then some e else o) ≡ (if c then some e.backend_id else id_held o)
    choose true e o = refl
    choose false e o = refl

held-drop_guard :
    (q r : Text) (reg : Registry)
    → held r (drop_guard q reg) ≡ (if text_eq q r then none else held r reg)
unfolding drop_guard
held-drop_guard q r reg = ap id_held (lookup-remove q r reg) ∙ choose (text_eq q r) (lookup r reg)
  where
    choose :
        (c : Bool) (o : Option InFlightEntry)
        → id_held (if c then none else o) ≡ (if c then none else id_held o)
    choose true o = refl
    choose false o = refl

held-set_backend_id :
    (q r : Text) (id : BackendId) (reg : Registry)
    → held r (set_backend_id q id reg) ≡ (if text_eq q r then told id (held r reg) else held r reg)
unfolding set_backend_id lookup
held-set_backend_id q r id [] = ground arith
held-set_backend_id q r id ((k, e) ∷ reg) =
    ground
      (arith, text_eq_iff q r, text_eq_iff k q, text_eq_iff k r, held-set_backend_id q r id reg)

held-apply :
    (r : Text) (e : GuardEvent) (es : List GuardEvent) (reg : Registry)
    → history r es (held r (apply e reg)) ≡ history r (e ∷ es) (held r reg)
unfolding apply
held-apply r (registers w m q b d) es reg = ap (history r es) (held-register w m q b r d reg)
held-apply r (drops q) es reg = ap (history r es) (held-drop_guard q r reg)
held-apply r (learns q id) es reg = ap (history r es) (held-set_backend_id q r id reg)

-- After any registrations, drops and backend ids told, in any order, a request is in the registry
-- exactly when the last of its registrations and drops is a registration, and its backend id is the
-- last one told since then; the events of other requests change nothing.
pub held-apply_each :
    (r : Text) (es : List GuardEvent) (reg : Registry)
    → held r (apply_each es reg) ≡ history r es (held r reg)
unfolding apply_each
held-apply_each r [] reg = refl
held-apply_each r (e ∷ es) reg = held-apply_each r es (apply e reg) ∙ held-apply r e es reg
