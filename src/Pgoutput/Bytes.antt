-- ===== src/Pgoutput/Bytes.antt =====
-- src/pgoutput.rs: `Reader` and its reads of bytes, of big-endian numbers and of strings.
use mcpg_plugin_backend_sql.Common.{
  ℕ, zero, suc, ◌+◌, ◌*◌, ◌^◌, List, [], ◌∷◌, Result, ok, err, length, take, drop, leb, ◌==◌,
  if◌then◌else◌, Text,
}
use mcpg_plugin_backend_sql.Common.Int.{ℤ, of_word}

pub data DecodeError : Type 0 where
  ends_early string_not_terminated negative_length : DecodeError
  value_kind insert_tuple update_tuple delete_tuple : ℕ → DecodeError

abbrev pub Reader : Type 0 → Type 0
Reader A = Text → Result DecodeError (A × Text)

abbrev pub pure : {A : Type 0} → A → Reader A
pure a r = ok (a, r)

abbrev pub fail : {A : Type 0} → DecodeError → Reader A
fail e r = err e

infixl 5 ◌>>=◌ ◌>>◌
abbrev pub ◌>>=◌ : {A B : Type 0} → Reader A → (A → Reader B) → Reader B
◌>>=◌ m f r = elim (m r) [ ok (a, r') ↦ f a r' | err e ↦ err e ]

abbrev pub ◌>>◌ : {A B : Type 0} → Reader A → Reader B → Reader B
m >> k = m >>= λ _. k

unfoldable pub take_bytes : ℕ → Reader Text
take_bytes n r = if leb n (length r) then ok (take n r, drop n r) else err ends_early

-- `from_be_bytes`.
unfoldable pub from_be : ℕ → Text → ℕ
from_be acc [] = acc
from_be acc (b ∷ bs) = from_be (acc * 256 + b) bs

unfoldable pub u8 : Reader ℕ
u8 = do bs ← take_bytes 1; pure (from_be 0 bs)

unfoldable pub u16 : Reader ℕ
u16 = do bs ← take_bytes 2; pure (from_be 0 bs)

unfoldable pub u32 : Reader ℕ
u32 = do bs ← take_bytes 4; pure (from_be 0 bs)

unfoldable pub i32 : Reader ℤ
i32 = do bs ← take_bytes 4; pure (of_word (2 ^ 31) (from_be 0 bs))

unfoldable pub u64 : Reader ℕ
u64 = do bs ← take_bytes 8; pure (from_be 0 bs)

unfoldable pub i64 : Reader ℤ
i64 = do bs ← take_bytes 8; pure (of_word (2 ^ 63) (from_be 0 bs))

-- The bytes before the first NUL, and those behind it.
unfoldable pub until_nul : Reader Text
until_nul [] = err string_not_terminated
until_nul (b ∷ bs) =
    let rest = until_nul bs in
    if b == 0 then ok ([], bs) else elim rest [ ok (s, r) ↦ ok (b ∷ s, r) | err e ↦ err e ]

unfoldable pub string : (Text → Text) → Reader Text
string lossy = do s ← until_nul; pure (lossy s)

-- A counted loop that pushes what `p` reads and stops at its first error.
unfoldable pub repeat : {A : Type 0} → ℕ → Reader A → Reader (List A)
repeat zero p = pure []
repeat (suc n) p = do x ← p; xs ← repeat n p; pure (x ∷ xs)
