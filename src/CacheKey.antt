-- ===== src/CacheKey.antt =====
-- src/cache.rs: `build_cache_key`. The hash is a parameter on the bytes that the source feeds to it, in
-- order. The entries of an object stand in the order of their keys, as `serde_json::Map` keeps them,
-- so the sort of the keys is left out; a number is its text.
pub mod Session
mod Tests
use mcpg_plugin_backend_sql.Common.{
  ℕ, zero, suc, ◌+◌, ◌/◌, ◌%◌, ◌^◌, List, [], ◌∷◌, ◌++◌, Text, codes,
}
use mcpg_plugin_backend_sql.Params.{BoundParam}

mutual
  pub data Value : Type 0 where
    null true_value false_value : Value
    number string : Text → Value
    array : Values → Value
    object : Entries → Value

  pub data Values : Type 0 where
    no_value : Values
    and_value : Value → Values → Values

  pub data Entries : Type 0 where
    no_entry : Entries
    and_entry : Text → Value → Entries → Entries

-- `to_le_bytes` of a word of that many bytes.
unfoldable pub to_le_bytes : ℕ → ℕ → List ℕ
to_le_bytes zero n = []
to_le_bytes (suc bytes) n = n % 256 ∷ to_le_bytes bytes (n / 256)

-- `(i as u32).to_le_bytes()`.
unfoldable pub index_bytes : ℕ → List ℕ
index_bytes i = to_le_bytes 4 (i % 2 ^ 32)

unfoldable mutual
  pub write_value : Value → Text
  write_value null = codes "n"
  write_value true_value = codes "t"
  write_value false_value = codes "f"
  write_value (number n) = b'#' ∷ n
  write_value (string s) = b'"' ∷ (s ++ b'"' ∷ [])
  write_value (array vs) = b'[' ∷ (write_items 0 vs ++ b']' ∷ [])
  write_value (object es) = b'{' ∷ (write_entries es ++ b'}' ∷ [])

  pub write_items : ℕ → Values → Text
  write_items i no_value = []
  write_items i (and_value v vs) = index_bytes i ++ (write_value v ++ write_items (i + 1) vs)

  pub write_entries : Entries → Text
  write_entries no_entry = []
  write_entries (and_entry k v es) = k ++ b':' ∷ (write_value v ++ b';' ∷ write_entries es)

write_params_from : ℕ → List (BoundParam Value) → Text
write_params_from i [] = []
write_params_from i (p ∷ ps) =
    index_bytes i ++ (p.name ++ b'=' ∷ (write_value p.value ++ b';' ∷ write_params_from (i + 1) ps))

unfoldable pub write_canonical_params : List (BoundParam Value) → Text
unfolding write_params_from write_value index_bytes to_le_bytes
write_canonical_params ps = write_params_from 0 ps

-- The variables in the order of their names.
unfoldable pub write_session_vars : List (Text × Text) → Text
write_session_vars [] = []
write_session_vars ((k, v) ∷ vars) = k ++ b'=' ∷ (v ++ b';' ∷ write_session_vars vars)

unfoldable pub cache_key_bytes :
    Text → Text → List (BoundParam Value) → List (Text × Text) → ℕ → Text
cache_key_bytes backend_name sql_text bound_params session_vars version =
    codes "sql"
    ++ 0
      ∷ (backend_name
          ++ 0
            ∷ (sql_text
                ++ 0
                  ∷ (write_canonical_params bound_params
                      ++ 0 ∷ (write_session_vars session_vars ++ 0 ∷ to_le_bytes 8 version))))

unfoldable pub build_cache_key :
    (Text → Text) → Text → Text → List (BoundParam Value) → List (Text × Text) → ℕ → Text
build_cache_key hex_hash backend_name sql_text bound_params session_vars version =
    hex_hash (cache_key_bytes backend_name sql_text bound_params session_vars version)
