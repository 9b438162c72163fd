-- ===== src/Bitmap/Nibbles.antt =====
-- SET_BIT4 and BIT4 in terms of single bits (macros of src/ext4/ext4.h): nibble `n` is the bits 4n
-- to 4n + 3.
use kfs.Base.{
  ℕ, ◌+◌, ◌*◌, ◌/◌, ◌%◌, ◌^◌, ◌<◌, ◌≡◌, refl, bit_and, List, some, Bool, true, false, not, ap, set,
  length-set, ok, ◌>>=◌, length, get_elem?-some, get_elem?, get_elem?-set_self, get_elem?-set_ne,
  arith, ◌==◌, if◌then◌else◌, all_below, all_below_sound, ◌&&◌,
}
use native.Mathlib.Decide.{ℕ_discrete}
use kfs.Bitmap.{bit1, bit4, set_bit4}
use kfs.Bitmap.Bits.{AllBytes, same, same→eq, write_mask, write_mask-IsByte, byte_table}

-- A nibble's mask is clear exactly where its four bits are.
four_table :
    all_below 256 (λ b. all_below 2 (λ i. same (bit_and b (15 * 2 ^ (i * 4)) == 0) (
      (bit_and b (2 ^ (i * 4)) == 0)
      && (bit_and b (2 ^ (i * 4 + 1)) == 0)
      && (bit_and b (2 ^ (i * 4 + 2)) == 0)
      && (bit_and b (2 ^ (i * 4 + 3)) == 0))))
    ≡ true
unfolding all_below same
four_table = refl

abbrev nibble : ℕ → ℕ
nibble i = 15 * 2 ^ (i * 4)

abbrev mixed_table : Bool → Bool
mixed_table v = all_below 256 (λ b. all_below 2 (λ i. all_below 8 (λ j.
    same (bit_and (write_mask b (nibble i) v) (2 ^ j) == 0)
      (if j / 4 == i then not v else bit_and b (2 ^ j) == 0))))

nibble_table : (v : Bool) → (mixed_table v ≡ true) × (byte_table 2 nibble v ≡ true)
unfolding all_below same
nibble_table true = (refl, refl)
nibble_table false = (refl, refl)

mixed_read :
    (v : Bool) (b i j : ℕ)
    → b < 256
    → i < 2
    → j < 8
    → (bit_and (write_mask b (nibble i) v) (2 ^ j) == 0)
      ≡ (if j / 4 == i then not v else bit_and b (2 ^ j) == 0)
mixed_read v b i j hb hi hj = same→eq _ _ (
    all_below_sound 8 _ j hj
      (all_below_sound 2 _ i hi (all_below_sound 256 _ b hb (nibble_table v).0)))

-- A nibble write as the reader of single bits sees it.
abbrev pub SetsNibble : List ℕ → ℕ → Bool → List ℕ → Type 0
SetsNibble bitmap n v out =
    (length out ≡ length bitmap)
    × AllBytes out
    × ((m : ℕ)
        → m < length bitmap * 8
        → bit1 out m ≡ (if m / 4 == n then ok (not v) else bit1 bitmap m))

-- SET_BIT4 inside the array writes the four bits of the nibble that it names: BIT1 then finds each
-- clear exactly if the value was 0, finds every other bit as before, and the array keeps its length
-- and stays bytes.
pub set_bit4-bit1 :
    (bitmap : List ℕ) (n : ℕ) (v : Bool)
    → AllBytes bitmap
    → n < length bitmap * 2
    → (out : List ℕ) × (set_bit4 bitmap n v ≡ ok out) × SetsNibble bitmap n v out
unfolding set_bit4 bit1
set_bit4-bit1 bitmap n v bytes lt =
    let (b, e) = get_elem?-some bitmap (n / 2) (omega arith) in
    let w = write_mask b (nibble (n % 2)) v in
    let byte_w =
      write_mask-IsByte 2 nibble v (nibble_table v).1 b (n % 2) (bytes _ _ e) (omega arith) in
    let at_n = get_elem?-set_self bitmap (n / 2) w (omega arith) in
    (
      set bitmap (n / 2) w,
      rw e,
      (
        length-set bitmap (n / 2) w,
        (λ i c h. elim (ℕ_discrete (n / 2) i) [
          | yes here ↦
              let eq : c ≡ w =
                ground (arith, ap (λ (k : ℕ). get_elem? (set bitmap (n / 2) w) k) here, at_n) in
              rw eq byte_w
          | no other ↦ bytes i c (rw (get_elem?-set_ne bitmap (n / 2) i w other) at h)
        ]),
        λ m h. elim (ℕ_discrete (n / 2) (m / 8)) [
          | yes here ↦
              let at_m : get_elem? bitmap (m / 8) ≡ some b = rw here at e in
              let index : (m / 4 == n) ≡ (m % 8 / 4 == n % 2) = ground arith in
              let read = mixed_read v b (n % 2) (m % 8) (bytes _ _ e) (omega arith) (omega arith) in
              rw (← here, at_n, e, index) (ground (arith, read))
          | no other ↦
              let apart : (m / 4 == n) ≡ false = ground arith in
              rw (get_elem?-set_ne bitmap _ _ w other, apart)
        ],
      ),
    )

-- BIT4 of nibble `n` is BIT1 of the bits 4n to 4n + 3 together.
pub bit4-bit1 :
    (bitmap : List ℕ) (n : ℕ)
    → AllBytes bitmap
    → n < length bitmap * 2
    → bit4 bitmap n ≡ (do
      a ← bit1 bitmap (n * 4)
      b ← bit1 bitmap (n * 4 + 1)
      c ← bit1 bitmap (n * 4 + 2)
      d ← bit1 bitmap (n * 4 + 3)
      ok (a && b && c && d))
unfolding bit4 bit1
bit4-bit1 bitmap n bytes lt =
    let (b, e) = get_elem?-some bitmap (n / 2) (omega arith) in
    let d0 : n * 4 / 8 ≡ n / 2 = omega arith in
    let d1 : (n * 4 + 1) / 8 ≡ n / 2 = omega arith in
    let d2 : (n * 4 + 2) / 8 ≡ n / 2 = omega arith in
    let d3 : (n * 4 + 3) / 8 ≡ n / 2 = omega arith in
    let m0 : n * 4 % 8 ≡ n % 2 * 4 = omega arith in
    let m1 : (n * 4 + 1) % 8 ≡ n % 2 * 4 + 1 = omega arith in
    let m2 : (n * 4 + 2) % 8 ≡ n % 2 * 4 + 2 = omega arith in
    let m3 : (n * 4 + 3) % 8 ≡ n % 2 * 4 + 3 = omega arith in
    rw (d0, d1, d2, d3, m0, m1, m2, m3, e)
      (ap ok (
        same→eq _ _ (
          all_below_sound 2 _ (n % 2) (omega arith)
            (all_below_sound 256 _ b (bytes _ _ e) four_table))))
