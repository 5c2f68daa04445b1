-- ===== src/Config/Inlined.antt =====
-- src/config.rs: the statements that stand in a profile and the names that it puts into statements.
use mcpg_plugin_backend_sql.Common.{
  ◌≡◌, ◌≢◌, refl, sym, ap, ◌∙◌, Bool, true, false, not, List, [], ◌∷◌, ◌++◌, Option, none, some,
  Result, ok, err, refuse_if, All, Text,
}
use mcpg_plugin_backend_sql.Guards.{
  is_safe_sql_identifier, is_whitespace, reject_multi_statement, reject_privileged_ddl,
}
use mcpg_plugin_backend_sql.Guards as Guards
use mcpg_plugin_backend_sql.Guards.Statements.{
  quotes, breakers, IsNot, reject_multi_statement-ends, is_safe_sql_identifier-IsNot,
}
use mcpg_plugin_backend_sql.Params.{DriverKind}
use mcpg_plugin_backend_sql.Config.{
  Libraries, Reason, QueryBody, sql_body, procedure_body, sql_file, ListQueryConfig, AwaitConfig,
  CacheInvalidateOn, CacheSpec, QueryShape, SqlBackendConfig,
}
use mcpg_plugin_backend_sql.Config.Parts.{
  statement_result, ddl_result, check_statement, check_each, check_option, check_step,
  validate_list_query, validate_await, validate_invalidate_on,
}
use mcpg_plugin_backend_sql.Config.Validate.{check_session_vars, check_body, check_cache, validate}
use mcpg_plugin_backend_sql.Config.Soundness.{
  validate-Passed, both_pass, refuse_if-passes, check_each-All, not-false,
}

statement_result-ok :
    (r : Result Guards.Refusal (Unit {0})) → statement_result r ≡ ok tt → r ≡ ok tt
unfolding statement_result
statement_result-ok (ok tt) h = refl
statement_result-ok (err e) h = cc

ddl_result-ok :
    (o : Option (Result Guards.Refusal (Unit {0}))) → ddl_result o ≡ ok tt → o ≡ some (ok tt)
unfolding ddl_result
ddl_result-ok none h = cc
ddl_result-ok (some r) h = ap some (statement_result-ok r h)

check_statement-ok :
    (sql : Text)
    → check_statement sql ≡ ok tt
    → (reject_multi_statement sql ≡ ok tt) × (reject_privileged_ddl sql ≡ some (ok tt))
unfolding check_statement
check_statement-ok sql h =
    let (one, ddl) = both_pass _ _ h in (statement_result-ok _ one, ddl_result-ok _ ddl)

keys_of :
    (d : DriverKind) (keys : List Text)
    → check_session_vars d keys ≡ ok tt
    → check_each (λ k. refuse_if (not (is_safe_sql_identifier k)) Reason.unsafe_identifier) keys
      ≡ ok tt
unfolding check_session_vars
keys_of d keys h = (both_pass _ _ h).0

safe_key :
    (k : Text)
    → refuse_if (not (is_safe_sql_identifier k)) Reason.unsafe_identifier ≡ ok tt
    → (k ≢ []) × All (λ c. IsNot c breakers) k
safe_key k h = is_safe_sql_identifier-IsNot k (not-false _ (refuse_if-passes _ _ h))

-- A name without quotes, blanks or separators.
abbrev pub Identifier : Text → Type 0
Identifier k = (k ≢ []) × All (λ c. IsNot c breakers) k

-- A statement that passes both checks of its text: nothing but blanks behind a `;` outside quotes, as
-- the quotes are counted from the start of the text, comments included; and no privileged words.
pub record Screened (sql : Text) : Type 0 where
  pub one_statement :
      (before after : Text)
      → sql ≡ before ++ b';' ∷ after
      → quotes false false before ≡ (false, false)
      → All (λ c. is_whitespace c ≡ true) after
  pub not_privileged : reject_privileged_ddl sql ≡ some (ok tt)

check_statement-Screened : (sql : Text) → check_statement sql ≡ ok tt → Screened sql
check_statement-Screened sql h =
    let (one, ddl) = check_statement-ok sql h in
    record {
      one_statement = λ before after e q.
          reject_multi_statement-ends before after (sym (ap reject_multi_statement e) ∙ one) q;
      not_privileged = ddl;
    }

-- The statements that stand in a profile, and the names that it puts into statements. What a file
-- holds is not in the profile.
abbrev body_statements : QueryBody → List Text
body_statements (sql_body sql) = sql ∷ []
body_statements _ = []

abbrev body_names : QueryBody → List Text
body_names (procedure_body p) = p ∷ []
body_names _ = []

abbrev listing_statements : Option ListQueryConfig → List Text
listing_statements none = []
listing_statements (some q) = q.sql ∷ []

abbrev trigger_statements : Option Text → List Text
trigger_statements none = []
trigger_statements (some sql) = sql ∷ []

abbrev await_statements : Option AwaitConfig → List Text
await_statements none = []
await_statements (some a) = a.check ∷ trigger_statements a.trigger

abbrev tracking_statements : Bool → Option CacheInvalidateOn → List Text
tracking_statements true (some w) = w.sql ∷ []
tracking_statements _ _ = []

abbrev cache_statements : Option CacheSpec → List Text
cache_statements none = []
cache_statements (some k) = tracking_statements k.enabled k.invalidate_on

abbrev pub statements_of : SqlBackendConfig → List Text
statements_of c =
    body_statements c.query.body
    ++ (listing_statements c.list_query ++ (await_statements c.await ++ cache_statements c.cache))

abbrev pub names_of : SqlBackendConfig → List Text
names_of c = c.session_vars ++ body_names c.query.body

All-append : (Q : Text → Type 0) (ss ts : List Text) → All Q ss → All Q ts → All Q (ss ++ ts)
All-append Q [] ts a b = b
All-append Q (s ∷ ss) ts a b = (a.0, All-append Q ss ts a.1 b)

check_body-statements :
    (b : QueryBody)
    → check_body b ≡ ok tt
    → All Screened (body_statements b) × All Identifier (body_names b)
unfolding check_body
check_body-statements (procedure_body p) h = (tt, (safe_key p h, tt))
check_body-statements (sql_body sql) h = ((check_statement-Screened sql h, tt), tt)
check_body-statements (sql_file path) h = (tt, tt)

check_step-Screened : (sql : Text) → check_step sql ≡ ok tt → Screened sql
unfolding check_step
check_step-Screened sql h = check_statement-Screened sql (both_pass _ _ h).1

listing-Screened :
    (o : Option ListQueryConfig)
    → check_option validate_list_query o ≡ ok tt
    → All Screened (listing_statements o)
unfolding check_option validate_list_query
listing-Screened none h = tt
listing-Screened (some q) h =
    (check_statement-Screened q.sql (both_pass _ _ (both_pass _ _ h).1).0, tt)

trigger-Screened :
    (o : Option Text) → check_option check_step o ≡ ok tt → All Screened (trigger_statements o)
unfolding check_option
trigger-Screened none h = tt
trigger-Screened (some sql) h = (check_step-Screened sql h, tt)

await-Screened :
    (o : Option AwaitConfig)
    → check_option validate_await o ≡ ok tt
    → All Screened (await_statements o)
unfolding check_option validate_await
await-Screened none h = tt
await-Screened (some a) h =
    let (one, rest) = both_pass _ _ h in
    (check_step-Screened a.check one, trigger-Screened a.trigger (both_pass _ _ rest).0)

tracking-Screened :
    (o : Option CacheInvalidateOn)
    → check_option validate_invalidate_on o ≡ ok tt
    → All Screened (tracking_statements true o)
unfolding check_option validate_invalidate_on
tracking-Screened none h = tt
tracking-Screened (some w) h = (check_step-Screened w.sql (both_pass _ _ h).0, tt)

enabled-Screened :
    (q : QueryShape) (enabled : Bool) (o : Option CacheInvalidateOn)
    → check_cache q (record { enabled = enabled; invalidate_on = o }) ≡ ok tt
    → All Screened (tracking_statements enabled o)
unfolding check_cache
enabled-Screened q false o h = tt
enabled-Screened q true o h = tracking-Screened o (both_pass _ _ h).1

cache-Screened :
    (q : QueryShape) (o : Option CacheSpec)
    → check_option (check_cache q) o ≡ ok tt
    → All Screened (cache_statements o)
unfolding check_option
cache-Screened q none h = tt
cache-Screened q (some k) h = enabled-Screened q k.enabled k.invalidate_on h

-- Of an accepted profile: each name that it puts into a statement, of a session variable or of a
-- procedure, is an identifier without quotes, blanks or separators. Each statement that stands in it
-- (the query's, the listing's, those of the wait, and that of the cache if it is enabled) has nothing
-- but blanks behind a `;` outside quotes, where a quote inside a comment counts as a quote, and is not
-- refused as privileged.
pub validate-Screened :
    {F : Type 0} (libraries : Libraries F) (c : SqlBackendConfig)
    → validate libraries c ≡ ok tt
    → All Identifier (names_of c) × All Screened (statements_of c)
validate-Screened libraries c h =
    let p = validate-Passed libraries c h in
    let (texts, names) = check_body-statements c.query.body p.body in
    (
      All-append Identifier c.session_vars (body_names c.query.body)
          (check_each-All _ c.session_vars safe_key (keys_of c.driver c.session_vars p.variables))
          names,
      All-append Screened (body_statements c.query.body) _ texts (
          All-append Screened (listing_statements c.list_query) _
            (listing-Screened c.list_query p.listing)
            (All-append Screened (await_statements c.await) _ (await-Screened c.await p.waiting)
              (cache-Screened c.query c.cache p.caching))),
    )
