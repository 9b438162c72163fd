-- ===== src/Tests/Memory.antt =====
-- A device held in memory: what the program relies on of `pread` and `pwrite` can be met.
use mathlib.Core.Option.{some-injective}
use kfs.Base.{
  ℕ, zero, suc, ◌+◌, ◌%◌, ◌^◌, ◌<◌, ◌≤◌, ◌≡◌, refl, sym, ap, ◌∙◌, List, [], ◌∷◌, none, some, arith,
  ◌⊎◌, inl, inr, length, All, ◌==◌, ==-true, ==-false, leb, leb-true, leb→le, if◌then◌else◌,
  Bool-cases,
}
use kfs.Disk.{Device}
use kfs.Disk.Laws.{IsDevice, Apart}

abbrev pub Mem : Type 0
Mem = ℕ → ℕ

abbrev pub update : Mem → ℕ → ℕ → Mem
update mem a b x = if x == a then b else mem x

abbrev pub gather : Mem → ℕ → ℕ → List ℕ
gather mem a zero = []
gather mem a (suc n) = mem a % 2 ^ 8 ∷ gather mem (a + 1) n

abbrev pub scatter : Mem → ℕ → List ℕ → Mem
scatter mem a [] = mem
scatter mem a (b ∷ bytes) = scatter (update mem a b) (a + 1) bytes

outside :
    (mem : Mem) (a : ℕ) (bytes : List ℕ) (x : ℕ)
    → (x < a) ⊎ (a + length bytes ≤ x)
    → scatter mem a bytes x ≡ mem x
outside mem a [] x h = refl
outside mem a (b ∷ bytes) x (inl h) =
    outside (update mem a b) (a + 1) bytes x (inl (omega arith)) ∙ rw (==-false x a (omega arith))
outside mem a (b ∷ bytes) x (inr h) =
    outside (update mem a b) (a + 1) bytes x (inr (omega arith)) ∙ rw (==-false x a (omega arith))

gather_same :
    (m m' : Mem) (a n : ℕ)
    → ((x : ℕ) → a ≤ x → x < a + n → m x ≡ m' x)
    → gather m a n ≡ gather m' a n
gather_same m m' a zero h = refl
gather_same m m' a (suc n) h = rw (
  h a (omega arith) (omega arith),
  gather_same m m' (a + 1) n (λ x lo hi. h x (omega arith) (omega arith)),
)

pub gather-scatter :
    (mem : Mem) (a : ℕ) (bytes : List ℕ)
    → All (λ b. b < 2 ^ 8) bytes
    → gather (scatter mem a bytes) a (length bytes) ≡ bytes
gather-scatter mem a [] small = refl
gather-scatter mem a (b ∷ bytes) (lt, small) =
    let first : scatter (update mem a b) (a + 1) bytes a ≡ b =
      outside (update mem a b) (a + 1) bytes a (inl (omega arith)) ∙ rw (==-true a a refl) in
    let byte : b % 2 ^ 8 ≡ b = omega arith in
    rw (first, byte, gather-scatter (update mem a b) (a + 1) bytes small)

gather_props :
    (mem : Mem) (a n : ℕ) → (length (gather mem a n) ≡ n) × All (λ b. b < 2 ^ 8) (gather mem a n)
gather_props mem a zero = (refl, tt)
gather_props mem a (suc n) =
    let (len, small) = gather_props mem (a + 1) n in (ap suc len, (omega arith, small))

no_value : {x : ℕ × Mem} → none ≡ some x → ⊥
no_value h = cc

side : (a n b m x : ℕ) → Apart a n b m → b ≤ x → x < b + m → (x < a) ⊎ (a + n ≤ x)
side a n b m x (inl before) lo hi = inr (omega arith)
side a n b m x (inr after) lo hi = inl (omega arith)

module _ (size : ℕ) where
  abbrev pub memory : Device
  memory = record {
    Disk = Mem;
    pread = λ mem a n. if leb (a + n) size then some (gather mem a n) else none;
    pwrite = λ mem a bytes.
        if leb (a + length bytes) size then some (length bytes, scatter mem a bytes) else none;
  }

  -- What a write that succeeds leaves.
  written :
      (mem mem' : Mem) (a : ℕ) (bytes : List ℕ)
      → memory.pwrite mem a bytes ≡ some (length bytes, mem')
      → (a + length bytes ≤ size) × (scatter mem a bytes ≡ mem')
  written mem mem' a bytes h = elim (Bool-cases (leb (a + length bytes) size)) [
    | inl fits ↦ (leb→le _ _ fits, ap (λ (t : ℕ × Mem). t.1) (some-injective _ _ (rw fits at h)))
    | inr over ↦ absurd (no_value (rw over at h))
  ]

  pub memory-IsDevice : IsDevice memory size
  memory-IsDevice = record {
    pread_in = λ mem a n h. (
      gather mem a n,
      rw (leb-true (a + n) size h),
      (gather_props mem a n).0,
      (gather_props mem a n).1,
    );
    pwrite_in = λ mem a bytes h. (scatter mem a bytes, rw (leb-true (a + length bytes) size h));
    read_back = λ mem mem' a bytes small done.
        let (fits, same) = written mem mem' a bytes done in
        rw (leb-true (a + length bytes) size fits) (
          ap some (
            ap (λ (t : Mem). gather t a (length bytes)) (sym same)
            ∙ gather-scatter mem a bytes small));
    elsewhere = λ mem mem' a bytes b m done apart.
        let (fits, same) = written mem mem' a bytes done in
        ap (λ t. if leb (b + m) size then some t else none)
          (ap (λ (t : Mem). gather t b m) (sym same)
            ∙ gather_same _ _ b m
                (λ x lo hi. outside mem a bytes x (side a (length bytes) b m x apart lo hi)));
  }
