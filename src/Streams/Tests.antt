-- ===== src/Streams/Tests.antt =====
-- src/stream.rs and src/lib.rs over a codec that writes lengths in front of texts.
use mcpg_plugin_backend_sql.Common.{
  ℕ, zero, suc, ◌+◌, ◌-◌, ◌≡◌, ◌≢◌, refl, ap, Bool, true, false, List, [], ◌∷◌, ◌++◌, Option, none,
  some, length, take, drop, take-length_append, drop-length_append, All, ltb, if◌then◌else◌, Text,
  codes, arith,
}
use mcpg_plugin_backend_sql.Streams.{
  StreamCursorPayload, Codec, StreamRuntime, encode_cursor, mint_next_cursor,
}
use mcpg_plugin_backend_sql.Streams.Tokens.{IsFaithful, decode_cursor-encode_cursor}
use mcpg_plugin_backend_sql.Streams.Sealed.{Sealed, decode_cursor-Sealed}

data Word : Type 0 where
  nothing : Word
  word : Text → Word

abbrev shift : Text → Text
shift [] = []
shift (c ∷ s) = (c + 47) ∷ shift s

abbrev prefixed : ℕ → Option Text → Option Text
prefixed c none = none
prefixed c (some s) = some (c ∷ s)

abbrev unshift : Text → Option Text
unshift [] = some []
unshift (c ∷ s) = let rest = unshift s in if ltb c 47 then none else prefixed (c - 47) rest

unshift-shift : (s : Text) → unshift (shift s) ≡ some s
unshift-shift [] = refl
unshift-shift (c ∷ s) = rw (unshift-shift s) (ground arith)

shift-no_dot : (s : Text) → All (λ c. c ≢ b'.') (shift s)
shift-no_dot [] = tt
shift-no_dot (c ∷ s) = (λ e. omega arith, shift-no_dot s)

abbrev put_text : Text → Text → Text
put_text s rest = length s ∷ (s ++ rest)

abbrev put_words : List Word → Text
put_words [] = []
put_words (nothing ∷ ws) = 0 ∷ put_words ws
put_words (word s ∷ ws) = suc (length s) ∷ (s ++ put_words ws)

abbrev get_words : ℕ → Text → List Word
get_words zero s = []
get_words (suc n) [] = []
get_words (suc n) (zero ∷ s) = nothing ∷ get_words n s
get_words (suc n) (suc k ∷ s) = word (take k s) ∷ get_words n (drop k s)

get_words-put_words : (ws : List Word) → get_words (length ws) (put_words ws) ≡ ws
get_words-put_words [] = refl
get_words-put_words (nothing ∷ ws) = ap (λ x. nothing ∷ x) (get_words-put_words ws)
get_words-put_words (word s ∷ ws) =
    rw (take-length_append s (put_words ws), drop-length_append s (put_words ws))
      (ap (λ x. word s ∷ x) (get_words-put_words ws))

abbrev put_payload : StreamCursorPayload Word → Text
put_payload p =
    p.version ∷ put_text p.binding (put_text p.profile (length p.keyset ∷ put_words p.keyset))

abbrev get_keyset : ℕ → Text → Text → Text → Option (StreamCursorPayload Word)
get_keyset v b p [] = none
get_keyset v b p (n ∷ s) =
    some (record { version = v; binding = b; profile = p; keyset = get_words n s })

abbrev get_profile : ℕ → Text → Text → Option (StreamCursorPayload Word)
get_profile v b [] = none
get_profile v b (n ∷ s) = get_keyset v b (take n s) (drop n s)

abbrev get_payload : Text → Option (StreamCursorPayload Word)
get_payload [] = none
get_payload (v ∷ []) = none
get_payload (v ∷ n ∷ s) = get_profile v (take n s) (drop n s)

get_payload-put_payload : (p : StreamCursorPayload Word) → get_payload (put_payload p) ≡ some p
get_payload-put_payload p =
    let tail : Text = length p.keyset ∷ put_words p.keyset in
    rw
      (
        take-length_append p.binding (put_text p.profile tail),
        drop-length_append p.binding (put_text p.profile tail),
        take-length_append p.profile tail,
        drop-length_append p.profile tail,
        get_words-put_words p.keyset,
      )
      refl

abbrev word_of : Word → Option Text
word_of nothing = none
word_of (word s) = some s

abbrev is_nothing : Word → Bool
is_nothing nothing = true
is_nothing (word s) = false

abbrev codec : Codec
codec = record {
  Value = Word;
  encode_b64 = shift;
  decode_b64 = unshift;
  mac = λ s key. s ++ key;
  to_vec = put_payload;
  from_slice = get_payload;
  null_value = nothing;
  of_text = word;
  is_null = is_nothing;
  as_str = word_of;
  as_object = λ v. some ((codes "id", v) ∷ []);
}

faithful : IsFaithful codec
faithful = record {
  base64 = unshift-shift;
  no_dot = shift-no_dot;
  json = get_payload-put_payload;
  text = λ s. refl;
  not_null = λ s. refl;
}

abbrev one_mac : List ℕ
one_mac = 1 ∷ 2 ∷ []

abbrev other_mac : List ℕ
other_mac = 1 ∷ 3 ∷ []

abbrev payload : StreamCursorPayload Word
payload = record {
  version = 1;
  binding = codes "orders";
  profile = [];
  keyset = word (codes "7") ∷ nothing ∷ [];
}

decode_cursor-Sealed_example :
    Sealed codec (encode_cursor codec payload (codes "k")) (codes "k") payload
decode_cursor-Sealed_example =
    decode_cursor-Sealed codec (encode_cursor codec payload (codes "k")) (codes "k") payload
      (decode_cursor-encode_cursor codec faithful payload (codes "k") refl)

abbrev runtime : StreamRuntime Word
runtime = record { cursor_columns = codes "id" ∷ []; initial = []; key = codes "k" }

abbrev page : List Word
page = word (codes "6") ∷ word (codes "7") ∷ []

-- The caller's own `_after_id` is overwritten.
abbrev args : List (Text × Word)
args =
    (codes "_after_id", word (codes "0"))
    ∷ (codes "_cursor", mint_next_cursor codec runtime (codes "orders") (some page))
    ∷ []
