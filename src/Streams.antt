-- ===== src/Streams.antt =====
-- src/stream.rs and src/lib.rs: the tokens that resume a paged query, `encode_cursor` and
-- `decode_cursor`, and the keyset of a page, `apply_stream_cursor` and `mint_next_cursor`. Base64, the
-- MAC and JSON are the record `Codec`.
pub mod Tokens
pub mod Keysets
pub mod Sealed
mod Tests
use Prim.Native.Nat.{bit_or, bit_xor}
use mcpg_plugin_backend_sql.Common.{
  ℕ, zero, suc, ◌≡◌, ◌≢◌, Bool, true, false, not, ◌||◌, List, [], ◌∷◌, ◌++◌, map, Option, none,
  some, Result, ok, err, length, All, ◌==◌, if◌then◌else◌, Text, codes, text_eq,
}
use mcpg_plugin_backend_sql.Common.Options.{◌>>=◌}
use mcpg_plugin_backend_sql.Common.TextMaps.{lookup, insert, remove}
use mcpg_plugin_backend_sql.Params.{Args, object, null, other}

pub record StreamCursorPayload (V : Type 0) : Type 0 where
  pub version : ℕ
  pub binding : Text
  pub profile : Text
  pub keyset : List V

-- `URL_SAFE_NO_PAD`, the HMAC under a key, and `serde_json` on payloads and on values.
pub record Codec : Type 1 where
  pub Value : Type 0
  pub encode_b64 : Text → Text
  pub decode_b64 : Text → Option Text
  pub mac : Text → Text → Text
  pub to_vec : StreamCursorPayload Value → Text
  pub from_slice : Text → Option (StreamCursorPayload Value)
  pub null_value : Value
  pub of_text : Text → Value
  pub is_null : Value → Bool
  pub as_str : Value → Option Text
  pub as_object : Value → Option (List (Text × Value))

-- `split_once('.')`.
unfoldable pub split_once : Text → Option (Text × Text)
split_once [] = none
split_once (c ∷ s) =
    let rest = split_once s in
    if c == b'.' then some ([], s) else elim rest [ none ↦ none | some (a, b) ↦ some (c ∷ a, b) ]

-- `strip_prefix("s.")`.
unfoldable pub strip_prefix : Text → Option Text
strip_prefix (c ∷ d ∷ s) = if c == b's' then (if d == b'.' then some s else none) else none
strip_prefix _ = none

unfoldable pub fold_diff : ℕ → List ℕ → List ℕ → ℕ
fold_diff diff [] ys = diff
fold_diff diff (x ∷ xs) [] = diff
fold_diff diff (x ∷ xs) (y ∷ ys) = fold_diff (bit_or diff (bit_xor x y)) xs ys

unfoldable pub constant_time_eq : List ℕ → List ℕ → Bool
constant_time_eq a b = if not (length a == length b) then false else fold_diff 0 a b == 0

pub record StreamRuntime (V : Type 0) : Type 0 where
  pub cursor_columns : List Text
  pub initial : List (Text × V)
  pub key : Text

pub data CursorRefusal : Type 0 where
  args_not_an_object failed_verification config_drift cursor_not_a_string : CursorRefusal
  other_binding : Text → CursorRefusal

module _ (codec : Codec) where
  unfoldable pub encode_cursor : StreamCursorPayload codec.Value → Text → Text
  encode_cursor payload key =
      let payload_b64 : Text = codec.encode_b64 (codec.to_vec payload) in
      b's' ∷ b'.' ∷ (payload_b64 ++ b'.' ∷ codec.encode_b64 (codec.mac payload_b64 key))

  -- The payload of a text whose MAC is right.
  unfoldable pub open_payload : Text → Option (StreamCursorPayload codec.Value)
  open_payload payload_b64 = do
    json ← codec.decode_b64 payload_b64
    payload ← codec.from_slice json
    if payload.version == 1 then some payload else none

  unfoldable pub check_mac : Text → Text → Text → Option (StreamCursorPayload codec.Value)
  check_mac key payload_b64 actual =
      let payload : Option (StreamCursorPayload codec.Value) = open_payload payload_b64 in
      if constant_time_eq (codec.mac payload_b64 key) actual then payload else none

  unfoldable pub decode_cursor : Text → Text → Option (StreamCursorPayload codec.Value)
  decode_cursor token key = do
    body ← strip_prefix token
    parts ← split_once body
    actual ← codec.decode_b64 parts.1
    check_mac key parts.0 actual

  -- `initial[col]`, or null.
  unfoldable pub initial_of : List (Text × codec.Value) → Text → codec.Value
  initial_of initial column = elim (lookup column initial) [ none ↦ codec.null_value | some v ↦ v ]

  module _ (rt : StreamRuntime codec.Value) (backend_name : Text) where
    unfoldable pub verified :
        Option (StreamCursorPayload codec.Value) → Result CursorRefusal (List codec.Value)
    verified none = err failed_verification
    verified (some p) =
        if not (text_eq p.binding backend_name)
        then err (other_binding p.binding)
        else if not (length p.keyset == length rt.cursor_columns)
        then err config_drift
        else ok p.keyset

    -- A string that is not empty.
    unfoldable pub token_keyset : Option Text → Result CursorRefusal (List codec.Value)
    token_keyset none = err cursor_not_a_string
    token_keyset (some []) = err cursor_not_a_string
    token_keyset (some (c ∷ s)) = verified (decode_cursor (c ∷ s) rt.key)

    unfoldable pub first_page : List codec.Value
    first_page = map (initial_of rt.initial) rt.cursor_columns

    unfoldable pub keyset_values : Option codec.Value → Result CursorRefusal (List codec.Value)
    keyset_values none = ok first_page
    keyset_values (some v) =
        let token : Result CursorRefusal (List codec.Value) = token_keyset (codec.as_str v) in
        if codec.is_null v then ok first_page else token

    -- Insertion of `_after_<col>` for each column and value of the zip.
    unfoldable pub put_keyset :
        List Text → List codec.Value → List (Text × codec.Value) → List (Text × codec.Value)
    put_keyset [] vs obj = obj
    put_keyset (c ∷ cs) [] obj = obj
    put_keyset (c ∷ cs) (v ∷ vs) obj = put_keyset cs vs (insert (codes "_after_" ++ c) v obj)

    unfoldable pub bind_keyset :
        Result CursorRefusal (List codec.Value)
        → List (Text × codec.Value)
        → Result CursorRefusal (List (Text × codec.Value))
    bind_keyset (err e) obj = err e
    bind_keyset (ok vs) obj = ok (put_keyset rt.cursor_columns vs obj)

    unfoldable pub apply_to_object :
        List (Text × codec.Value) → Result CursorRefusal (List (Text × codec.Value))
    apply_to_object obj =
        bind_keyset (keyset_values (lookup (codes "_cursor") obj)) (remove (codes "_cursor") obj)

    unfoldable pub apply_stream_cursor :
        Args codec.Value → Result CursorRefusal (List (Text × codec.Value))
    apply_stream_cursor (object obj) = apply_to_object obj
    apply_stream_cursor null = apply_to_object []
    apply_stream_cursor other = err args_not_an_object

    unfoldable pub last_row : List codec.Value → Option codec.Value
    last_row [] = none
    last_row (row ∷ []) = some row
    last_row (row ∷ next ∷ rows) = last_row (next ∷ rows)

    unfoldable pub row_keyset : List (Text × codec.Value) → List Text → Option (List codec.Value)
    row_keyset row [] = some []
    row_keyset row (c ∷ cs) = do v ← lookup c row; rest ← row_keyset row cs; some (v ∷ rest)

    unfoldable pub minted : Option (List codec.Value) → codec.Value
    minted none = codec.null_value
    minted (some keyset) = codec.of_text (
        encode_cursor
          (record { version = 1; binding = backend_name; profile = []; keyset = keyset }) rt.key)

    -- On the rows of the response, if it has an array of them.
    unfoldable pub mint_next_cursor : Option (List codec.Value) → codec.Value
    mint_next_cursor none = codec.null_value
    mint_next_cursor (some rows) =
        minted
          (do last ← last_row rows; row ← codec.as_object last; row_keyset row rt.cursor_columns)
