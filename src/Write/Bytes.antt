-- ===== src/Write/Bytes.antt =====
-- A device as bytes at addresses (what src/op_write.c relies on of `pwrite`), and what a write leaves.
use kfs.Base.{
  ℕ, zero, suc, ◌+◌, ◌-◌, ◌^◌, ◌<◌, ◌≤◌, ◌≡◌, ◌≢◌, ◌⊎◌, inl, inr, Bool-cases, ◌*◌, refl, ap, ◌∙◌,
  some, Bool, ◌&&◌, take, drop, arith, leb, ltb, if◌then◌else◌,
}
use kfs.Disk.{Device}
use kfs.Read.Runs.{run}

-- `a ≤ x < a + n`
abbrev pub inside : (a n x : ℕ) → Bool
inside a n x = leb a x && ltb x (a + n)

-- The documented behaviour of `pread` and `pwrite` on a device of `size` bytes, byte by byte.
pub record IsBytes (dev : Device) (size : ℕ) : Type 0 where
  pub byte : dev.Disk → ℕ → ℕ
  pub pread_in : (d : dev.Disk) (a n : ℕ) → a + n ≤ size → dev.pread d a n ≡ some (run (byte d) a n)
  pub pwrite_in :
      (d : dev.Disk) (src : ℕ → ℕ) (a n : ℕ)
      → a + n ≤ size
      → ((x : ℕ) → src x < 2 ^ 8)
      → (d' : dev.Disk) × (dev.pwrite d a (run src a n) ≡ some (n, d'))
        × ((x : ℕ) → byte d' x ≡ (if inside a n x then src x else byte d x))

pub take-run : (f : ℕ → ℕ) (a m n : ℕ) → m ≤ n → take m (run f a n) ≡ run f a m
take-run f a zero n le = refl
take-run f a (suc m) zero le = absurd (omega arith)
take-run f a (suc m) (suc n) le = rw (take-run f (a + 1) m n (omega arith)) refl

pub drop-run : (f : ℕ → ℕ) (a m n : ℕ) → m ≤ n → drop m (run f a n) ≡ run f (a + m) (n - m)
drop-run f a zero n le = ap (λ t. run f a t) (omega arith) ∙ ap (λ t. run f t (n - 0)) (omega arith)
drop-run f a (suc m) zero le = absurd (omega arith)
drop-run f a (suc m) (suc n) le =
    drop-run f (a + 1) m n (omega arith)
    ∙ ap (λ t. run f t (n - m)) (omega arith)
    ∙ ap (λ t. run f (a + suc m) t) (omega arith)

pub row_le : (bs p q : ℕ) → p < q → p * bs + bs ≤ q * bs
row_le bs p q lt =
    let r : (p + 1) * bs ≤ q * bs = grind arith in
    let e : (p + 1) * bs ≡ p * bs + bs = grind arith in omega arith

-- Two rows of `bs` bytes are the same or do not meet.
pub rows_apart : (bs p q : ℕ) → p ≢ q → (p * bs + bs ≤ q * bs) ⊎ (q * bs + bs ≤ p * bs)
rows_apart bs p q ne = elim (Bool-cases (ltb p q)) [
  | inl y ↦ let lt : p < q = ground arith in inl (row_le bs p q lt)
  | inr x ↦ let lt : q < p = grind arith in inr (row_le bs q p lt)
]
