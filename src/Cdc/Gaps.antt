-- ===== src/Cdc/Gaps.antt =====
-- src/watch_pg_cdc.rs: the report of a gap over calls of `receive`.
use mcpg_plugin_backend_sql.Common.{
  ℕ, ◌+◌, ◌≡◌, refl, ap, sym, subst, ◌∙◌, Bool, true, false, ◌&&◌, List, [], ◌∷◌, ◌++◌, Option,
  none, some, Result, ok, err, arith, is_ok, if◌then◌else◌,
}
use mcpg_plugin_backend_sql.Cdc.{Progress, Source, request_advance, settle}
use mcpg_plugin_backend_sql.Cdc.Events.{CdcError, Env}
use mcpg_plugin_backend_sql.Cdc.Peek.{Query, Delivery, peek}
use mcpg_plugin_backend_sql.Cdc.Marks.{AllPlain, PeekPlain, peek-PeekPlain}
use mcpg_plugin_backend_sql.Cdc.Receive.{received, gap_report, receive}

request_advance-gap :
    (accepted : Bool) (s : Source) (to : Option ℕ) → (request_advance accepted s to).0.gap ≡ s.gap
unfolding request_advance
request_advance-gap accepted s none = refl
request_advance-gap true s (some to) = refl
request_advance-gap false s (some to) = refl

settle-gap : (accepted : Bool) (s : Source) → (settle accepted s).0.gap ≡ s.gap
unfolding settle
settle-gap accepted s = request_advance-gap accepted _ _

module _ (env : Env) where
  abbrev one_if : Bool → ℕ
  one_if b = if b then 1 else 0

  -- The gaps that an answer reports.
  unfoldable pub gaps_in : List (Delivery env) → ℕ
  gaps_in [] = 0
  gaps_in (d ∷ ds) = one_if d.event.gap + gaps_in ds

  abbrev pub reported : Result CdcError (List (Delivery env)) → ℕ
  reported (err e) = 0
  reported (ok ds) = gaps_in ds

  abbrev pub all_reported : List (Result CdcError (List (Delivery env))) → ℕ
  all_reported [] = 0
  all_reported (r ∷ rs) = reported r + all_reported rs

  -- Calls of `receive` one after the other, without a new connection: their answers, and the source
  -- behind them.
  pub data Calls : Source → List (Result CdcError (List (Delivery env))) → Source → Type 0 where
    stop : {s : Source} → Calls s [] s
    call :
        {s t u : Source} {r : Result CdcError (List (Delivery env))}
        {rs : List (Result CdcError (List (Delivery env)))} (query : Query) (accepted : Bool)
        (max_new : ℕ)
        → receive env query accepted max_new s ≡ some (r, t)
        → Calls t rs u
        → Calls s (r ∷ rs) u

  gaps_in-plain : (ds : List (Delivery env)) → AllPlain env ds → gaps_in ds ≡ 0
  unfolding gaps_in
  gaps_in-plain [] a = refl
  gaps_in-plain (d ∷ ds) a = rw a.0 (omega (arith, gaps_in-plain ds a.1))

  -- What one call reports, and the flag behind it.
  abbrev Told : Source → Option (Result CdcError (List (Delivery env)) × Source) → Type 0
  Told s none = Unit
  Told s (some (r, t)) = (reported r ≡ one_if (s.gap && is_ok r)) × (t.gap ≡ false)

  gap_report-gaps_in :
      (gap : Bool) (ds : List (Delivery env))
      → AllPlain env ds
      → gaps_in (gap_report env gap ++ ds) ≡ one_if (gap && true)
  unfolding gaps_in
  gap_report-gaps_in true ds a = rw (gaps_in-plain ds a) refl
  gap_report-gaps_in false ds a = gaps_in-plain ds a

  and_nothing : (gap : Bool) → one_if (gap && false) ≡ 0
  and_nothing true = refl
  and_nothing false = refl

  received-Told :
      (accepted : Bool) (s : Source) (o : Result CdcError (List (Delivery env)) × Progress)
      → PeekPlain env (some o)
      → Told s (some (received env accepted (record s { gap = false }) (gap_report env s.gap) o))
  unfolding received
  received-Told accepted s (err e, p) a = (sym (and_nothing s.gap), refl)
  received-Told accepted s (ok ds, p) a = (gap_report-gaps_in s.gap ds a, settle-gap accepted _)

  answer-Told :
      (accepted : Bool) (s : Source) (o : Option (Result CdcError (List (Delivery env)) × Progress))
      → PeekPlain env o
      → Told s (elim o [
        | none ↦ none
        | some answer ↦
            some (received env accepted (record s { gap = false }) (gap_report env s.gap) answer)
      ])
  answer-Told accepted s none a = tt
  answer-Told accepted s (some o) a = received-Told accepted s o a

  receive-Told :
      (accepted : Bool) (s : Source) (query : Query) (max_new : ℕ)
      → Told s (receive env query accepted max_new s)
  unfolding receive
  receive-Told accepted s query max_new =
      answer-Told accepted s (peek env query max_new s.progress)
        (peek-PeekPlain env query max_new s.progress)

  one_call :
      (s t : Source) (r : Result CdcError (List (Delivery env))) (query : Query) (accepted : Bool)
      (max_new : ℕ)
      → receive env query accepted max_new s ≡ some (r, t)
      → (reported r ≡ one_if (s.gap && is_ok r)) × (t.gap ≡ false)
  one_call s t r query accepted max_new h = subst (Told s) h (receive-Told accepted s query max_new)

  unflagged :
      {s u : Source} (rs : List (Result CdcError (List (Delivery env))))
      → Calls s rs u
      → s.gap ≡ false
      → (all_reported rs ≡ 0) × (u.gap ≡ false)
  unflagged [] stop h = (refl, h)
  unflagged (r ∷ rs) (call {s} {t} query accepted max_new run rest) h =
      let (told, next) = one_call s t r query accepted max_new run in
      let (none_left, flag) = unflagged rs rest next in
      let told_none : reported r ≡ 0 = told ∙ ap (λ b. one_if (b && is_ok r)) h in
      (omega (arith, told_none, none_left), flag)

  -- Over any calls of `receive` on one connection, at least one, all their answers together report a
  -- gap once if one was flagged before the first call and that call succeeds, and else none, also when
  -- one was flagged and a later call succeeds; and none is flagged behind them.
  pub Calls-all_reported :
      {s u : Source} (r : Result CdcError (List (Delivery env)))
      (rs : List (Result CdcError (List (Delivery env))))
      → Calls s (r ∷ rs) u
      → (all_reported (r ∷ rs) ≡ (if s.gap && is_ok r then 1 else 0)) × (u.gap ≡ false)
  Calls-all_reported r rs (call {s} {t} query accepted max_new run rest) =
      let (told, next) = one_call s t r query accepted max_new run in
      let (none_left, flag) = unflagged rs rest next in (omega (arith, told, none_left), flag)
