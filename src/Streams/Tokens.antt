-- ===== src/Streams/Tokens.antt =====
-- src/stream.rs: the comparison of MACs, and tokens encoded and decoded.
use Prim.Native.Nat.{bit_or, bit_xor}
use mcpg_plugin_backend_sql.Common.{
  ℕ, ◌≡◌, ◌≢◌, refl, subst, ◌↔◌, Bool, true, false, not, List, [], ◌∷◌, ◌++◌, some, length, All,
  ◌==◌, ==_iff, ==_self, if◌then◌else◌, Text, arith,
}
use mcpg_plugin_backend_sql.Common.Xor.{bit_or_zero, bit_xor_zero, bit_xor_self}
use mcpg_plugin_backend_sql.Streams.{
  StreamCursorPayload, Codec, split_once, strip_prefix, fold_diff, constant_time_eq, encode_cursor,
  open_payload, check_mac, decode_cursor,
}

fold_diff_zero :
    (d : ℕ) (xs ys : List ℕ) → length xs ≡ length ys → fold_diff d xs ys ≡ 0 → (d ≡ 0) × (xs ≡ ys)
unfolding fold_diff
fold_diff_zero d [] [] size h = (h, refl)
fold_diff_zero d [] (y ∷ ys) size h = absurd (omega arith)
fold_diff_zero d (x ∷ xs) [] size h = absurd (omega arith)
fold_diff_zero d (x ∷ xs) (y ∷ ys) size h =
    let (here, rest) = fold_diff_zero (bit_or d (bit_xor x y)) xs ys (omega arith) h in
    let (before, differs) = bit_or_zero d (bit_xor x y) here in
    let head : x ≡ y = bit_xor_zero x y differs in (before, cc)

fold_diff_self : (xs : List ℕ) → fold_diff 0 xs xs ≡ 0
unfolding fold_diff
fold_diff_self [] = refl
fold_diff_self (x ∷ xs) = rw (bit_xor_self x) (fold_diff_self xs)

both_tests : (p : Bool) (n : ℕ) → (if not p then false else n == 0) ≡ true → (p ≡ true) × (n ≡ 0)
both_tests p n h = ground arith

constant_time_eq_sound : (a b : List ℕ) → constant_time_eq a b ≡ true → a ≡ b
unfolding constant_time_eq
constant_time_eq_sound a b h =
    let (size, same) = both_tests (length a == length b) (fold_diff 0 a b) h in
    (fold_diff_zero 0 a b ((==_iff (length a) (length b)).0 size) same).1

constant_time_eq_self : (a : List ℕ) → constant_time_eq a a ≡ true
unfolding constant_time_eq
constant_time_eq_self a = rw (==_self (length a), fold_diff_self a) refl

-- The comparison of two MACs, which always looks at every byte of texts of one length, says that they
-- are the same exactly when they are.
pub constant_time_eq_iff : (a b : List ℕ) → (constant_time_eq a b ≡ true) ↔ (a ≡ b)
constant_time_eq_iff a b = (
  constant_time_eq_sound a b,
  λ e. subst (λ x. constant_time_eq a x ≡ true) e (constant_time_eq_self a),
)

-- What the codec's documentation promises: decoding undoes encoding, and Base64 has no dot.
pub record IsFaithful (codec : Codec) : Type 0 where
  pub base64 : (s : Text) → codec.decode_b64 (codec.encode_b64 s) ≡ some s
  pub no_dot : (s : Text) → All (λ c. c ≢ b'.') (codec.encode_b64 s)
  pub json : (p : StreamCursorPayload codec.Value) → codec.from_slice (codec.to_vec p) ≡ some p
  pub text : (s : Text) → codec.as_str (codec.of_text s) ≡ some s
  pub not_null : (s : Text) → codec.is_null (codec.of_text s) ≡ false

split_once-dot : (a b : Text) → All (λ c. c ≢ b'.') a → split_once (a ++ b'.' ∷ b) ≡ some (a, b)
unfolding split_once
split_once-dot [] b h = refl
split_once-dot (c ∷ a) b (here, rest) = rw (split_once-dot a b rest, not_dot c here) refl
  where
    not_dot : (c : ℕ) → c ≢ b'.' → (c == b'.') ≡ false
    not_dot c h = ground arith

module _ (codec : Codec) (faithful : IsFaithful codec) where
  open_payload-to_vec :
      (p : StreamCursorPayload codec.Value)
      → p.version ≡ 1
      → open_payload codec (codec.encode_b64 (codec.to_vec p)) ≡ some p
  unfolding open_payload
  open_payload-to_vec p v = rw (faithful.base64 (codec.to_vec p), faithful.json p, v) refl

  -- Where decoding undoes encoding and Base64 has no dot, a token of version 1 decodes under its key
  -- to the payload that it was made of.
  pub decode_cursor-encode_cursor :
      (p : StreamCursorPayload codec.Value) (key : Text)
      → p.version ≡ 1
      → decode_cursor codec (encode_cursor codec p key) key ≡ some p
  unfolding decode_cursor encode_cursor strip_prefix check_mac
  decode_cursor-encode_cursor p key v =
      let payload : Text = codec.encode_b64 (codec.to_vec p) in
      rw
        (
          split_once-dot payload (codec.encode_b64 (codec.mac payload key))
              (faithful.no_dot (codec.to_vec p)),
          faithful.base64 (codec.mac payload key),
          constant_time_eq_self (codec.mac payload key),
          open_payload-to_vec p v,
        )
        refl
