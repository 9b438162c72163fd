-- ===== src/Base/Slots.antt =====
-- Rows of `p` slots counted through: slot `j` of row `k` is `k * p + j`.
use Prim.Native.Nat.{ℕ, ◌+◌, ◌*◌, ◌/◌, ◌%◌, ◌<◌}
use mathlib.Core.Path.{◌≡◌, ap}
use native.Mathlib.Nat.{div-eq_of_lt-le, mod_def, div-lt_iff_lt-mul, div-add-mod}
use native.Mathlib.Omega.{arith}

pub div-slot : (p k j : ℕ) → j < p → (k * p + j) / p ≡ k
div-slot p k j lt = div-eq_of_lt-le p (omega arith) (omega arith)

pub mod-slot : (p k j : ℕ) → j < p → (k * p + j) % p ≡ j
mod-slot p k j lt = ground (arith, mod_def (k * p + j) p, ap (λ t. p * t) (div-slot p k j lt))

pub slot-lt : (p n k j : ℕ) → k < n → j < p → k * p + j < n * p
slot-lt p n k j hk hj = grind arith

pub div-lt_rows : (p n m : ℕ) → 0 < p → m < n * p → m / p < n
div-lt_rows p n m pos lt = (div-lt_iff_lt-mul pos).1 lt

pub eq_of_div_mod : (p m n : ℕ) → m / p ≡ n / p → m % p ≡ n % p → m ≡ n
eq_of_div_mod p m n d r = omega (arith, div-add-mod m p, div-add-mod n p, ap (λ t. p * t) d)

-- In one row the slots are in the order of the numbers.
pub mod-lt_same_row : (p m n : ℕ) → m / p ≡ n / p → m < n → m % p < n % p
mod-lt_same_row p m n same lt =
    omega (arith, div-add-mod m p, div-add-mod n p, ap (λ t. p * t) same)
