-- ===== src/Streams/Keysets.antt =====
-- src/lib.rs: a cursor minted for a page and handed back.
use mcpg_plugin_backend_sql.Common.{◌≡◌, List, [], ◌++◌, some, Text, codes}
use mcpg_plugin_backend_sql.Common.TextMaps.{lookup}
use mcpg_plugin_backend_sql.Streams.{Codec, StreamRuntime, encode_cursor, put_keyset, row_keyset}

module _ (codec : Codec) (rt : StreamRuntime codec.Value) (backend_name : Text) where
  abbrev Row : Type 0
  Row = List (Text × codec.Value)

  -- The placeholder of the column has the row's value.
  abbrev Follows : Row → Text → Row → Type 0
  Follows row c obj = lookup (codes "_after_" ++ c) obj ≡ lookup c row

  abbrev put : List Text → List codec.Value → Row → Row
  put cs vs obj = put_keyset codec rt backend_name cs vs obj

  Keyset : Row → List Text → List codec.Value → Type 0
  Keyset row cs vs = row_keyset codec rt backend_name row cs ≡ some vs

  abbrev token : List codec.Value → Text
  token vs =
      encode_cursor codec
        (record { version = 1; binding = backend_name; profile = []; keyset = vs }) rt.key
