-- ===== src/CacheKey/Session.antt =====
-- src/cache.rs: session variables that share a cache key.
use mcpg_plugin_backend_sql.Common.{ℕ, ◌≡◌, refl, ap, ◌∙◌, List, ◌∷◌, ◌++◌, append_assoc, Text}
use mcpg_plugin_backend_sql.Params.{BoundParam}
use mcpg_plugin_backend_sql.CacheKey.{Value, write_session_vars, cache_key_bytes, build_cache_key}

-- The value of a variable that spells out a second one.
abbrev pub spelled : Text → Text → Text → Text
spelled v k w = v ++ b';' ∷ (k ++ b'=' ∷ w)

write_session_vars-spelled :
    (k v l w : Text) (vars : List (Text × Text))
    → write_session_vars ((k, spelled v l w) ∷ vars) ≡ write_session_vars ((k, v) ∷ (l, w) ∷ vars)
unfolding write_session_vars
write_session_vars-spelled k v l w vars =
    let rest : Text = b';' ∷ write_session_vars vars in
    ap (λ x. k ++ b'=' ∷ x)
      (append_assoc v (b';' ∷ (l ++ b'=' ∷ w)) rest
        ∙ ap (λ x. v ++ b';' ∷ x) (append_assoc l (b'=' ∷ w) rest))

-- Whatever the hash, a call with a session variable whose value spells out `;l=w` behind its own and
-- a call with the two variables have the same cache key, if they agree in everything else.
pub build_cache_key-spelled :
    (hex_hash : Text → Text) (backend_name sql_text : Text) (bound_params : List (BoundParam Value))
    (version : ℕ) (k v l w : Text) (vars : List (Text × Text))
    → build_cache_key hex_hash backend_name sql_text bound_params
        ((k, spelled v l w) ∷ vars)
        version
      ≡ build_cache_key hex_hash backend_name sql_text bound_params ((k, v) ∷ (l, w) ∷ vars) version
unfolding build_cache_key cache_key_bytes
build_cache_key-spelled hex_hash backend_name sql_text bound_params version k v l w vars =
    rw (write_session_vars-spelled k v l w vars) refl
