-- ===== src/Base/Memory.antt =====
-- Little-endian integers in memory: what a load or a store through a pointer to a packed struct
-- does to the bytes under it.
use mathlib.Core.Path.{◌≡◌, refl}
use native.Mathlib.Omega.{arith}
use kfs.Base.Lists.{length}
use Prim.Native.Nat.{ℕ, zero, suc, ◌<◌, ◌+◌, ◌*◌, ◌/◌, ◌%◌, ◌^◌}
use mathlib.Core.List.{List, [], ◌∷◌, ◌++◌}
use kfs.Base.Result.{Res, ok, fault, out_of_range, load, store, ◌>>=◌}

abbrev pub u16_at : List ℕ → ℕ → Res ℕ
u16_at bytes off = do lo ← load bytes off; hi ← load bytes (off + 1); ok (lo + 2 ^ 8 * hi)

abbrev pub u32_at : List ℕ → ℕ → Res ℕ
u32_at bytes off = do lo ← u16_at bytes off; hi ← u16_at bytes (off + 2); ok (lo + 2 ^ 16 * hi)

-- The value is cut to the width of the field.
abbrev pub put_u16 : List ℕ → ℕ → ℕ → Res (List ℕ)
put_u16 bytes off v = do
  bytes' ← store bytes off (v % 2 ^ 8)
  store bytes' (off + 1) (v / 2 ^ 8 % 2 ^ 8)

abbrev pub put_u32 : List ℕ → ℕ → ℕ → Res (List ℕ)
put_u32 bytes off v = do bytes' ← put_u16 bytes off v; put_u16 bytes' (off + 2) (v / 2 ^ 16)

-- The bytes of an integer, and a cursor that takes the fields of a packed struct one by one.
abbrev pub le16 : ℕ → List ℕ
le16 v = v % 2 ^ 8 ∷ v / 2 ^ 8 % 2 ^ 8 ∷ []

abbrev pub le32 : ℕ → List ℕ
le32 v = le16 v ++ le16 (v / 2 ^ 16)

pub next_u16 : List ℕ → Res (ℕ × List ℕ)
next_u16 [] = fault out_of_range
next_u16 (lo ∷ []) = fault out_of_range
next_u16 (lo ∷ (hi ∷ rest)) = ok (lo + 2 ^ 8 * hi, rest)

pub next_u32 : List ℕ → Res (ℕ × List ℕ)
next_u32 bytes = do
  (lo, rest) ← next_u16 bytes
  (hi, rest') ← next_u16 rest
  ok (lo + 2 ^ 16 * hi, rest')

pub next_bytes : ℕ → List ℕ → Res (List ℕ × List ℕ)
next_bytes zero rest = ok ([], rest)
next_bytes (suc n) [] = fault out_of_range
next_bytes (suc n) (b ∷ rest) = do (bs, rest') ← next_bytes n rest; ok (b ∷ bs, rest')

pub next_u16-le16 : (v : ℕ) (rest : List ℕ) → v < 2 ^ 16 → next_u16 (le16 v ++ rest) ≡ ok (v, rest)
unfolding next_u16
next_u16-le16 v rest h = ground arith

pub next_u32-le32 : (v : ℕ) (rest : List ℕ) → v < 2 ^ 32 → next_u32 (le32 v ++ rest) ≡ ok (v, rest)
unfolding next_u32 next_u16
next_u32-le32 v rest h = ground arith

pub next_bytes-append :
    (n : ℕ) (bytes rest : List ℕ)
    → length bytes ≡ n
    → next_bytes n (bytes ++ rest) ≡ ok (bytes, rest)
unfolding next_bytes
next_bytes-append zero [] rest h = refl
next_bytes-append zero (b ∷ bytes) rest h = absurd (omega arith)
next_bytes-append (suc n) [] rest h = absurd (omega arith)
next_bytes-append (suc n) (b ∷ bytes) rest h = rw (next_bytes-append n bytes rest (omega arith))
