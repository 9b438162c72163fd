-- ===== src/Base/Bits.antt =====
-- `|`, `&` and single bits as arithmetic, at every width, and tables over a byte.
use Prim.Native.Nat.{ℕ, zero, suc, ◌+◌, ◌-◌, ◌*◌, ◌/◌, ◌%◌, ◌^◌, ◌≤◌, ◌<◌, min, max}
use Prim.Native.Nat.{bit_and, bit_or, digits, bit_and-bitwise, bit_or-bitwise}
use mathlib.Core.Path.{◌≡◌, refl, ap}
use mathlib.Core.Bool.{Bool, true, ◌&&◌}
use native.Mathlib.Nat.{mod-lt, div-add-mod', pow-succ', one-le-pow, div-div-eq-div-mul, mod_def}
use native.Mathlib.Omega.{arith}

-- Enough rounds of the digit recursion are as good as any.
rounds_enough :
    (z : ℕ → ℕ) (f : ℕ → ℕ → ℕ) (a b n m : ℕ) → a ≤ n → a ≤ m → digits z f n a b ≡ digits z f m a b
rounds_enough z f a b n m p q = go n m a b p q
  where
    go : (n m a b : ℕ) → a ≤ n → a ≤ m → digits z f n a b ≡ digits z f m a b
    go zero zero zero b p q = refl
    go zero (suc m) zero b p q = refl
    go (suc n) zero zero b p q = refl
    go (suc n) (suc m) zero b p q = refl
    go (suc n) (suc m) (suc a) b p q =
        ap (λ t. t * 2 + f (suc a % 2) (b % 2))
          (go n m (suc a / 2) (b / 2) (omega arith) (omega arith))
    go zero m (suc a) b p q = absurd (omega arith)
    go (suc n) zero (suc a) b p q = absurd (omega arith)

-- The lowest digit of `|` and `&`, and the rest.
pub bit_or_digit : (a b : ℕ) → bit_or a b ≡ bit_or (a / 2) (b / 2) * 2 + max (a % 2) (b % 2)
bit_or_digit zero b = simp bit_or-bitwise (omega arith)
bit_or_digit (suc a) b = simp bit_or-bitwise (
    omega (
      arith,
      rounds_enough (λ t. t) max (suc a / 2) (b / 2) a (suc a / 2) (omega arith) (omega arith),
    ))

pub bit_and_digit : (x y : ℕ) → bit_and x y ≡ 2 * bit_and (x / 2) (y / 2) + min (x % 2) (y % 2)
bit_and_digit zero y = simp bit_and-bitwise (omega arith)
bit_and_digit (suc x) y = simp bit_and-bitwise (
    omega (
      arith,
      rounds_enough (λ _. 0) min (suc x / 2) (y / 2) x (suc x / 2) (omega arith) (omega arith),
    ))

below_all : (n a : ℕ) → a ≤ n → (bit_or a 0 ≡ a) × (bit_and a 0 ≡ 0)
below_all n zero h = (refl, refl)
below_all zero (suc a) h = absurd (omega arith)
below_all (suc n) (suc a) h =
    omega (
      arith,
      bit_or_digit (suc a) 0,
      bit_and_digit (suc a) 0,
      below_all n (suc a / 2) (omega arith),
    )

pub bit_or-zero : (a : ℕ) → bit_or a 0 ≡ a
bit_or-zero a = (below_all a a (omega arith)).0

pub bit_and-zero : (a : ℕ) → bit_and a 0 ≡ 0
bit_and-zero a = (below_all a a (omega arith)).1

or_comm_below : (n a b : ℕ) → a ≤ n → bit_or a b ≡ bit_or b a
or_comm_below n zero b h = omega (arith, bit_or-zero b, bit_or-bitwise 0 b)
or_comm_below zero (suc a) b h = absurd (omega arith)
or_comm_below (suc n) (suc a) b h = omega (
  arith,
  bit_or_digit (suc a) b,
  bit_or_digit b (suc a),
  or_comm_below n (suc a / 2) (b / 2) (omega arith),
)

pub bit_or_comm : (a b : ℕ) → bit_or a b ≡ bit_or b a
bit_or_comm a b = or_comm_below a a b (omega arith)

or_halved :
    (p hi lo : ℕ)
    → bit_or (hi * p) (lo / 2) ≡ hi * p + lo / 2
    → bit_or (hi * (2 * p)) lo ≡ hi * (2 * p) + lo
or_halved p hi lo ih = ground (arith, bit_or_digit (hi * (2 * p)) lo)

-- `(hi << k) | lo` is a sum where `lo` has at most `k` bits.
pub bit_or-shifted : (k hi lo : ℕ) → lo < 2 ^ k → bit_or (hi * 2 ^ k) lo ≡ hi * 2 ^ k + lo
bit_or-shifted zero hi lo h = ground (arith, bit_or-zero (hi * 1))
bit_or-shifted (suc k) hi lo h =
    rw (pow-succ' 2 k)
      (or_halved (2 ^ k) hi lo (bit_or-shifted k hi (lo / 2) (omega (arith, pow-succ' 2 k))))

-- The low `k` bits and the rest, put together again.
pub bit_or_split : (k x : ℕ) → bit_or (x % 2 ^ k) (x / 2 ^ k * 2 ^ k) ≡ x
bit_or_split k x = ground (
  arith,
  bit_or_comm (x % 2 ^ k) (x / 2 ^ k * 2 ^ k),
  bit_or-shifted k (x / 2 ^ k) (x % 2 ^ k),
  mod-lt x (one-le-pow k 2 (omega arith)),
  div-add-mod' x (2 ^ k),
)

and_halved :
    (p a : ℕ)
    → bit_and (a / 2) p ≡ a / 2 / p % 2 * p
    → bit_and a (2 * p) ≡ a / (2 * p) % 2 * (2 * p)
and_halved p a ih = rw (← div-div-eq-div-mul a 2 p) (ground (arith, bit_and_digit a (2 * p)))

-- `a & (1 << k)` keeps digit `k` alone.
pub bit_and-bit : (k a : ℕ) → bit_and a (2 ^ k) ≡ a / 2 ^ k % 2 * 2 ^ k
bit_and-bit zero a = ground (arith, bit_and_digit a 1, bit_and-zero (a / 2))
bit_and-bit (suc k) a = rw (pow-succ' 2 k) (and_halved (2 ^ k) a (bit_and-bit k (a / 2)))

mask_halved :
    (p a : ℕ) → 0 < p → bit_and (a / 2) (p - 1) ≡ a / 2 % p → bit_and a (2 * p - 1) ≡ a % (2 * p)
mask_halved p a pos ih = ground (
  arith,
  bit_and_digit a (2 * p - 1),
  mod_def a (2 * p),
  mod_def (a / 2) p,
  div-div-eq-div-mul a 2 p,
)

-- `a & ((1 << k) - 1)` is the remainder.
pub bit_and-mask : (k a : ℕ) → bit_and a (2 ^ k - 1) ≡ a % 2 ^ k
bit_and-mask zero a = omega (arith, bit_and-zero a)
bit_and-mask (suc k) a =
    rw (pow-succ' 2 k)
      (mask_halved (2 ^ k) a (one-le-pow k 2 (omega arith)) (bit_and-mask k (a / 2)))

and_doubled :
    (q x m : ℕ)
    → bit_and (x / 2) (m * q) ≡ bit_and (x / 2 / q) m * q
    → bit_and x (m * (2 * q)) ≡ bit_and (x / (2 * q)) m * (2 * q)
and_doubled q x m ih =
    rw (← div-div-eq-div-mul x 2 q) (ground (arith, bit_and_digit x (m * (2 * q))))

-- `a & (m << k)` looks at the digits from `k` on.
pub bit_and-shifted : (k x m : ℕ) → bit_and x (m * 2 ^ k) ≡ bit_and (x / 2 ^ k) m * 2 ^ k
bit_and-shifted zero x m =
    let same : m * 1 ≡ m = omega arith in
    let whole : x / 1 ≡ x = omega arith in rw (same, whole) (omega arith)
bit_and-shifted (suc k) x m =
    rw (pow-succ' 2 k) (and_doubled (2 ^ k) x m (bit_and-shifted k (x / 2) m))

-- A check of every value below `bound`, by evaluation.
unfoldable pub all_below : ℕ → (ℕ → Bool) → Bool
all_below zero test = true
all_below (suc bound) test = test bound && all_below bound test

pub all_below_sound :
    (bound : ℕ) (test : ℕ → Bool) (i : ℕ) → i < bound → all_below bound test ≡ true → test i ≡ true
unfolding all_below
all_below_sound zero test i lt h = absurd (omega arith)
all_below_sound (suc bound) test i lt h = ground (arith, all_below_sound bound test i)
