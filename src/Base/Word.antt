-- ===== src/Base/Word.antt =====
-- Unsigned casts and shifts of C, and the masks of ext4/ext4_basic.h.
use Prim.Native.Nat.{ℕ, ◌+◌, ◌-◌, ◌*◌, ◌/◌, ◌%◌, ◌^◌, ◌<◌}
use mathlib.Core.Path.{◌≡◌, refl}
use native.Mathlib.Omega.{arith}
use kfs.Base.Tests.{ltb, ltb-true, if◌then◌else◌}

abbrev pub u8 : ℕ → ℕ
u8 n = n % 2 ^ 8

abbrev pub u16 : ℕ → ℕ
u16 n = n % 2 ^ 16

abbrev pub u32 : ℕ → ℕ
u32 n = n % 2 ^ 32

abbrev pub u64 : ℕ → ℕ
u64 n = n % 2 ^ 64

-- A number that passes through an `int` on its way to 64 bits: the lower 32 bits, their sign extended.
abbrev pub as_int : ℕ → ℕ
as_int n = if ltb (u32 n) (2 ^ 31) then u32 n else u32 n + (2 ^ 64 - 2 ^ 32)

infixl 75 ◌<<<◌ ◌>>>◌
abbrev pub ◌<<<◌ : ℕ → ℕ → ℕ
x <<< k = x * 2 ^ k

abbrev pub ◌>>>◌ : ℕ → ℕ → ℕ
x >>> k = x / 2 ^ k

abbrev pub mask_16 : ℕ
mask_16 = 0xFFFF

abbrev pub mask_32 : ℕ
mask_32 = 0xFFFFFFFF

pub as_int-small : (n : ℕ) → n < 2 ^ 31 → as_int n ≡ n
as_int-small n lt = let e : u32 n ≡ n = omega arith in rw (e, ltb-true n (2 ^ 31) lt) refl
