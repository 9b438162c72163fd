-- ===== src/Read/Runs.antt =====
-- Runs of consecutive bytes (for src/op_read.c).
use kfs.Base.{ℕ, zero, suc, ◌+◌, ◌<◌, ◌≡◌, refl, ap, ◌∙◌, List, [], ◌∷◌, ◌++◌, length, arith}

-- `f a`, `f (a + 1)`, ...: `n` of them.
abbrev pub run : (ℕ → ℕ) → ℕ → ℕ → List ℕ
run f a zero = []
run f a (suc n) = f a ∷ run f (a + 1) n

pub length-run : (f : ℕ → ℕ) (a n : ℕ) → length (run f a n) ≡ n
length-run f a zero = refl
length-run f a (suc n) = ap suc (length-run f (a + 1) n)

pub run-add : (f : ℕ → ℕ) (a m n : ℕ) → run f a m ++ run f (a + m) n ≡ run f a (m + n)
run-add f a zero n = ap (λ t. run f t n) (omega arith) ∙ ap (λ t. run f a t) (omega arith)
run-add f a (suc m) n =
    let rest = run-add f (a + 1) m n in
    let e : a + suc m ≡ a + 1 + m = omega arith in
    let l : suc m + n ≡ suc (m + n) = omega arith in rw (e, l) (ap (λ (t : List ℕ). f a ∷ t) rest)

pub run-shift :
    (f g : ℕ → ℕ) (a b n : ℕ) → ((j : ℕ) → j < n → f (a + j) ≡ g (b + j)) → run f a n ≡ run g b n
run-shift f g a b zero h = refl
run-shift f g a b (suc n) h =
    let first : f a ≡ g b = ap f (omega arith) ∙ h 0 (omega arith) ∙ ap g (omega arith) in
    let rest =
      run-shift f g (a + 1) (b + 1) n
        (λ j lt. ap f (omega arith) ∙ h (j + 1) (omega arith) ∙ ap g (omega arith)) in
    rw (first, rest) refl
