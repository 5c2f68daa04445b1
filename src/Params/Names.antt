-- ===== src/Params/Names.antt =====
-- src/params.rs: the walk of `rewrite_placeholders` over any statement, and the names that it binds.
use mcpg_plugin_backend_sql.Common.{ℕ, ◌≤◌, ◌≡◌, ◌≢◌, true, [], All, length, Text}
use mcpg_plugin_backend_sql.Params.{Scan, is_name_byte}

-- Not empty, and of ASCII letters, digits and `_` only.
abbrev pub IsName : Text → Type 0
IsName name = (name ≢ []) × All (λ c. is_name_byte c ≡ true) name

-- What a round leaves: names only, and no more bytes than there were.
record Walked (limit : ℕ) (p : Scan × Text) : Type 0 where
  names : All IsName p.0.order
  shorter : length p.1 ≤ limit
