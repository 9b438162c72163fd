-- ===== src/Base/Runs.antt =====
-- Where a run that returns has come from.
use mathlib.Core.Path.{◌≡◌, refl}
use kfs.Base.Result.{Res, ok, fault, ◌>>=◌}

-- A run that returns has returned from its first part.
pub first_part {ℓ κ} :
    {A : Type ℓ} {B : Type κ} (m : Res A) (next : A → Res B) (b : B)
    → (m >>= next) ≡ ok b
    → (a : A) × (m ≡ ok a) × (next a ≡ ok b)
first_part (ok a) next b run = (a, refl, run)
first_part (fault why) next b run = cc

pub ok_injective {ℓ} : {A : Type ℓ} {a b : A} → ok a ≡ ok b → a ≡ b
ok_injective e = cc
