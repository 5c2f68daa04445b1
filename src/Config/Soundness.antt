-- ===== src/Config/Soundness.antt =====
-- src/config.rs: what an accepted profile satisfies, concern by concern.
use mcpg_plugin_backend_sql.Common.{
  ◌≡◌, refl, sym, ap, ◌∙◌, Bool, true, false, not, List, [], ◌∷◌, Option, some, ok, err, ◌>>◌,
  refuse_if, All, Text,
}
use mcpg_plugin_backend_sql.Config.{Libraries, Reason, SqlBackendConfig}
use mcpg_plugin_backend_sql.Config.Parts.{
  Check, check_each, check_option, validate_list_query, validate_await, validate_cost,
}
use mcpg_plugin_backend_sql.Config.Validate.{
  check_pool, check_stream, check_result_sets, check_heartbeat, check_breaker, check_cache,
  check_session_vars, check_body, check_isolation, check_with_url, check_shape, check_features,
  check_texts, validate,
}

-- Both of two checks in sequence pass.
pub both_pass : (m k : Check) → (m >> k) ≡ ok tt → (m ≡ ok tt) × (k ≡ ok tt)
both_pass (ok tt) k h = (refl, h)
both_pass (err e) k h = absurd cc

pub refuse_if-passes : (b : Bool) (r : Reason) → refuse_if b r ≡ ok tt → b ≡ false
refuse_if-passes true r h = absurd cc
refuse_if-passes false r h = refl

pub not-false : (b : Bool) → not b ≡ false → b ≡ true
not-false true h = refl
not-false false h = cc

pub check_each-All :
    {Q : Text → Type 0} (f : Text → Check) (ts : List Text)
    → ((t : Text) → f t ≡ ok tt → Q t)
    → check_each f ts ≡ ok tt
    → All Q ts
unfolding check_each
check_each-All f [] q h = tt
check_each-All f (t ∷ ts) q h =
    let (one, rest) = both_pass (f t) (check_each f ts) h in (q t one, check_each-All f ts q rest)

pub check_option-some :
    {A : Type 0} (f : A → Check) (o : Option A) (a : A)
    → o ≡ some a
    → check_option f o ≡ ok tt
    → f a ≡ ok tt
unfolding check_option
check_option-some f o a e h = sym (ap (check_option f) e) ∙ h

-- The sections of an accepted profile.
pub record Passed {F : Type 0} (libraries : Libraries F) (c : SqlBackendConfig) : Type 0 where
  pub with_url : check_with_url libraries c (libraries.parse_url c.url) ≡ ok tt
  pub pool : check_pool c.pool ≡ ok tt
  pub stream : check_stream c.query ≡ ok tt
  pub sets : check_result_sets c.driver c.query ≡ ok tt
  pub heartbeat : check_option check_heartbeat c.query.progress_heartbeat_ms ≡ ok tt
  pub breaker : check_option check_breaker c.circuit_breaker ≡ ok tt
  pub listing : check_option validate_list_query c.list_query ≡ ok tt
  pub waiting : check_option validate_await c.await ≡ ok tt
  pub caching : check_option (check_cache c.query) c.cache ≡ ok tt
  pub costing : check_option (validate_cost libraries) c.cost ≡ ok tt
  pub variables : check_session_vars c.driver c.session_vars ≡ ok tt
  pub body : check_body c.query.body ≡ ok tt
  pub isolation : check_option (check_isolation c.driver) c.isolation_level ≡ ok tt

pub validate-Passed :
    {F : Type 0} (libraries : Libraries F) (c : SqlBackendConfig)
    → validate libraries c ≡ ok tt
    → Passed libraries c
unfolding validate check_shape check_features check_texts
validate-Passed libraries c h =
    let (u, rest) = both_pass _ _ h in
    let (shape, rest) = both_pass _ _ rest in
    let (features, texts) = both_pass _ _ rest in
    let (p, shape) = both_pass _ _ shape in
    let (s, shape) = both_pass _ _ shape in
    let (r, shape) = both_pass _ _ shape in
    let (hb, br) = both_pass _ _ shape in
    let (l, features) = both_pass _ _ features in
    let (a, features) = both_pass _ _ features in
    let (ca, co) = both_pass _ _ features in
    let (v, texts) = both_pass _ _ texts in
    let (b, i) = both_pass _ _ texts in
    record {
      with_url = u;
      pool = p;
      stream = s;
      sets = r;
      heartbeat = hb;
      breaker = br;
      listing = l;
      waiting = a;
      caching = ca;
      costing = co;
      variables = v;
      body = b;
      isolation = i;
    }
