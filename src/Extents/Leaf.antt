-- ===== src/Extents/Leaf.antt =====
-- A leaf of the extent tree as a map from logical to physical blocks:
-- `extent_get_block_from_ees` and the address macros (src/extents.c, src/ext4/ext4_extents.h).
use native.Mathlib.Decide.{ℕ_discrete, dec_le, dec_lt}
use mathlib.Core.Path.{subst}
use kfs.Base.{
  ℕ, zero, suc, ◌+◌, ◌-◌, ◌*◌, ◌/◌, ◌%◌, ◌^◌, ◌<◌, ◌≤◌, ◌≡◌, refl, ap, ◌∙◌, Option, none, some, Res,
  ok, arith, ◌⊎◌, inl, inr, ltb, ltb→lt, Bool-cases, u32, u64, bit_or-shifted, bit_and-mask,
}
use kfs.Extents.{Extent, get_paddr, set_paddr, find_extent, block_from_ees}

-- Entry `i` of an array of `n` is `es i`, its fields are in the range of their types, and no extent
-- ends behind the end of the logical address space.
pub record IsArray (ee : ℕ → Res Extent) (n : ℕ) (es : ℕ → Extent) : Type 0 where
  pub held : (i : ℕ) → i < n → ee i ≡ ok (es i)
  pub fits : (i : ℕ) → i < n → (es i).ee_block + (es i).ee_len < 2 ^ 32
  pub hi_in : (i : ℕ) → i < n → (es i).ee_start_hi < 2 ^ 16
  pub lo_in : (i : ℕ) → i < n → (es i).ee_start_lo < 2 ^ 32

-- The extents are in order, and no two of them overlap.
abbrev pub Sorted : ℕ → (ℕ → Extent) → Type 0
Sorted n es = (i j : ℕ) → i < j → j < n → (es i).ee_block + (es i).ee_len ≤ (es j).ee_block

abbrev pub Covers : Extent → ℕ → Type 0
Covers e lblock = (e.ee_block ≤ lblock) × (lblock < e.ee_block + e.ee_len)

abbrev pub start : Extent → ℕ
start e = e.ee_start_hi * 2 ^ 32 + e.ee_start_lo

-- The extents of [lo, hi) end at or before `lblock`.
abbrev pub Before : (ℕ → Extent) → ℕ → ℕ → ℕ → Type 0
Before es lblock lo hi = (j : ℕ) → lo ≤ j → j < hi → (es j).ee_block + (es j).ee_len ≤ lblock

get_paddr-start : (e : Extent) → e.ee_start_lo < 2 ^ 32 → get_paddr e ≡ start e
unfolding get_paddr
get_paddr-start e lo = bit_or-shifted 32 e.ee_start_hi e.ee_start_lo lo

-- EXT4_EXT_GET_PADDR after EXT4_EXT_SET_PADDR gives back every address of at most 48 bits, and the
-- logical part of the extent is kept.
pub get_paddr-set_paddr :
    (e : Extent) (addr : ℕ)
    → addr < 2 ^ 48
    → (get_paddr (set_paddr e addr) ≡ addr)
      × ((set_paddr e addr).ee_block ≡ e.ee_block)
      × ((set_paddr e addr).ee_len ≡ e.ee_len)
unfolding get_paddr set_paddr
get_paddr-set_paddr e addr h = (
  rw (bit_and-mask 16 (addr / 2 ^ 32), bit_and-mask 32 addr)
      (omega (arith, bit_or-shifted 32 (addr / 2 ^ 32 % 2 ^ 16) (addr % 2 ^ 32) (omega arith))),
  refl,
  refl,
)

module _ (ee : ℕ → Res Extent) (es : ℕ → Extent) (n lblock : ℕ) (v : IsArray ee n es) where
  -- Where the loop stops.
  abbrev Stops : ℕ → Res (Option Extent) → Type 0
  Stops i r =
      ((r ≡ ok none) × Before es lblock i n)
      ⊎ ((k : ℕ) × (k < n)
          × (r ≡ ok (some (es k)))
          × (i ≤ k)
          × (lblock < (es k).ee_block + (es k).ee_len)
          × Before es lblock i k)

  Before-cons :
      (i hi : ℕ)
      → (es i).ee_block + (es i).ee_len ≤ lblock
      → Before es lblock (i + 1) hi
      → Before es lblock i hi
  Before-cons i hi h rest j p q = elim (ℕ_discrete i j) [
    | yes same ↦ subst (λ t. (es t).ee_block + (es t).ee_len ≤ lblock) same h
    | no other ↦ rest j (omega arith) q
  ]

  find_extent-Stops : (rounds i : ℕ) → i + rounds ≡ n → Stops i (find_extent ee lblock rounds i)
  unfolding find_extent
  find_extent-Stops zero i e = inl (refl, λ j p q. absurd (omega arith))
  find_extent-Stops (suc rounds) i e =
      let w : u32 ((es i).ee_block + (es i).ee_len) ≡ (es i).ee_block + (es i).ee_len =
        omega (arith, v.fits i (omega arith)) in
      elim (Bool-cases (ltb lblock (u32 ((es i).ee_block + (es i).ee_len)))) [
        | inl yes_ ↦ inr (
          i,
          omega arith,
          rw (v.held i (omega arith)) (ground arith),
          omega arith,
          omega (arith, ltb→lt _ _ yes_),
          λ j p q. absurd (omega arith),
        )
        | inr no_ ↦ elim (find_extent-Stops rounds (i + 1) (omega arith)) [
          | inl (r, before) ↦ inl (
            rw (v.held i (omega arith)) (ground (arith, r)),
            Before-cons i n (ground arith) before,
          )
          | inr (k, kn, r, lo, hit, before) ↦ inr (
            k,
            kn,
            rw (v.held i (omega arith)) (ground (arith, r)),
            omega arith,
            hit,
            Before-cons i k (ground arith) before,
          )
        ]
      ]

  -- What `extent_get_block_from_ees` returns where the loop stops at `e`.
  abbrev pub answer : Extent → ℕ × Option ℕ
  answer e = (u64 (start e + u32 (lblock + 2 ^ 32 - e.ee_block)), some e.ee_len)

  stop_at :
      (k : ℕ)
      → k < n
      → find_extent ee lblock n 0 ≡ ok (some (es k))
      → block_from_ees ee n lblock ≡ ok (answer (es k))
  unfolding block_from_ees
  stop_at k kn r = rw (r, get_paddr-start (es k) (v.lo_in k kn))

  inside :
      (k : ℕ)
      → k < n
      → Covers (es k) lblock
      → answer (es k) ≡ (start (es k) + (lblock - (es k).ee_block), some (es k).ee_len)
  inside k kn (lo, hi) =
      ap (λ (t : ℕ). (t, some (es k).ee_len))
        (omega (arith, v.fits k kn, v.hi_in k kn, v.lo_in k kn))

  pub block_from_ees_lem :
      lblock < 2 ^ 32
      → ((k : ℕ) × (k < n)
          × Covers (es k) lblock
          × (block_from_ees ee n lblock
              ≡ ok (start (es k) + (lblock - (es k).ee_block), some (es k).ee_len)))
        ⊎ (((k : ℕ) × (k < n)
              × (lblock < (es k).ee_block)
              × (block_from_ees ee n lblock
                  ≡ ok (start (es k) + (2 ^ 32 - ((es k).ee_block - lblock)), some (es k).ee_len)))
            ⊎ (Before es lblock 0 n × (block_from_ees ee n lblock ≡ ok (0, none))))
  unfolding block_from_ees
  block_from_ees_lem in_range = elim (find_extent-Stops n 0 (omega arith)) [
    | inl (r, before) ↦ inr (inr (before, rw r))
    | inr (k, kn, r, lo, hit, before) ↦ elim (dec_le (es k).ee_block lblock) [
      | yes covers ↦ inl (k, kn, (covers, hit), stop_at k kn r ∙ ap ok (inside k kn (covers, hit)))
      | no hole ↦ inr (
          inl (
            k,
            kn,
            omega arith,
            stop_at k kn r
                ∙ ap (λ (t : ℕ). ok (t, some (es k).ee_len))
                    (omega (arith, v.fits k kn, v.hi_in k kn, v.lo_in k kn)),
          ))
    ]
  ]

  -- On a sorted array whose extents are all initialised, that is, of a length of at most 32768, a block
  -- that some extent covers is mapped to the block at the same distance from the start of that extent,
  -- and the length is that of the whole extent.
  pub mapped_block :
      Sorted n es
      → ((i : ℕ) → i < n → (es i).ee_len ≤ 32768)
      → (k : ℕ) → k < n
      → Covers (es k) lblock
      → block_from_ees ee n lblock
        ≡ ok (start (es k) + (lblock - (es k).ee_block), some (es k).ee_len)
  mapped_block sorted initialised k kn (lo, hi) = elim (find_extent-Stops n 0 (omega arith)) [
    | inl (r, before) ↦ absurd (omega (arith, before k (omega arith) kn))
    | inr (k', kn', r, _, hit, before) ↦
        stop_at k kn (r ∙ ap (λ (t : ℕ). ok (some (es t))) (same k' kn' hit before))
        ∙ ap ok (inside k kn (lo, hi))
  ]
    where
      same :
          (k' : ℕ)
          → k' < n
          → lblock < (es k').ee_block + (es k').ee_len
          → Before es lblock 0 k'
          → k' ≡ k
      same k' kn' hit before = elim (dec_lt k k') [
        | yes after ↦ absurd (omega (arith, before k (omega arith) after))
        | no not_after ↦ elim (dec_lt k' k) [
          | yes earlier ↦ absurd (omega (arith, sorted k' k earlier kn))
          | no not_earlier ↦ omega arith
        ]
      ]
