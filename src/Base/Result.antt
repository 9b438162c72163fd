-- ===== src/Base/Result.antt =====
-- What a run of the C code comes to: a value, or the way in which it stops short.
use Prim.Native.Nat.{ℕ}
use mathlib.Core.Bool.{Bool, true, false}
use mathlib.Core.List.{List}
use mathlib.Core.Option.{Option, none, some}
use kfs.Base.Lists.{get_elem?, set}

-- `assert_failed` is a failed ASSERT of logging.h, which aborts (no build sets NDEBUG);
-- `out_of_range` an access outside an array; `out_of_fuel` a loop that did not end in its rounds.
pub data Fault : Type 0 where
  assert_failed out_of_range out_of_fuel : Fault

pub data Res {ℓ} (A : Type ℓ) : Type ℓ where
  ok : A → Res A
  fault : Fault → Res A

infixl 5 ◌>>=◌ ◌>>◌
abbrev pub ◌>>=◌ {ℓ κ} : {A : Type ℓ} {B : Type κ} → Res A → (A → Res B) → Res B
ok a >>= f = f a
fault e >>= f = fault e

abbrev pub ◌>>◌ {ℓ} : {B : Type ℓ} → Res (Unit {0}) → Res B → Res B
m >> k = m >>= λ _. k

-- ASSERT(b)
abbrev pub assert : Bool → Res (Unit {0})
assert true = ok tt
assert false = fault assert_failed

abbrev pub or_out_of_range {ℓ} : {A : Type ℓ} → Option A → Res A
or_out_of_range none = fault out_of_range
or_out_of_range (some a) = ok a

-- `xs[i]` and `xs[i] = v`
abbrev pub load {ℓ} : {A : Type ℓ} → List A → ℕ → Res A
load xs i = or_out_of_range (get_elem? xs i)

abbrev pub store {ℓ} : {A : Type ℓ} → List A → ℕ → A → Res (List A)
store xs i v = load xs i >>= λ _. ok (set xs i v)
