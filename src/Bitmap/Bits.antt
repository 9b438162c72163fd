-- ===== src/Bitmap/Bits.antt =====
-- SET_BIT1 and SET_BIT4 against BIT1 and BIT4: a write changes the bit or nibble that it names and
-- no other, and a nibble is four bits (macros of src/ext4/ext4.h).
use kfs.Base.{
  ℕ, ◌-◌, ◌*◌, ◌/◌, ◌%◌, ◌^◌, ◌<◌, ◌≡◌, refl, bit_and, bit_or, List, some, Bool, true, false, not,
  Res, ok, load, store, ◌>>=◌, ap, ltb, ltb→lt, length, length-set, get_elem?, set, get_elem?-some,
  get_elem?-set_self, get_elem?-set_ne, arith, ◌==◌, if◌then◌else◌, all_below, all_below_sound,
}
use native.Mathlib.Nat.{div-lt_iff_lt-mul, div-add-mod, mod-lt}
use native.Mathlib.Decide.{ℕ_discrete}
use kfs.Bitmap.{bit1, set_bit1}

abbrev pub IsByte : ℕ → Type 0
IsByte b = b < 256

abbrev pub AllBytes : List ℕ → Type 0
AllBytes bitmap = (i b : ℕ) → get_elem? bitmap i ≡ some b → IsByte b

unfoldable pub same : Bool → Bool → Bool
same true b = b
same false b = not b

pub same→eq : (a b : Bool) → same a b ≡ true → a ≡ b
unfolding same
same→eq true b h = ground arith
same→eq false b h = ground arith

-- One byte, all values: writing the mask `p i` and reading under the mask `p j`.
abbrev pub write_mask : ℕ → ℕ → Bool → ℕ
write_mask byte m v = if v then bit_or byte m else bit_and byte (255 - m)

abbrev table : ℕ → (ℕ → ℕ) → Bool → Bool
table width p v = all_below 256 (λ b. all_below width (λ i. all_below width (λ j.
    same (bit_and (write_mask b (p i) v) (p j) == 0)
      (if i == j then not v else bit_and b (p j) == 0))))

table_read :
    (width : ℕ) (p : ℕ → ℕ) (v : Bool)
    → table width p v ≡ true
    → (b i j : ℕ) → b < 256
    → i < width
    → j < width
    → (bit_and (write_mask b (p i) v) (p j) == 0) ≡ (if i == j then not v else bit_and b (p j) == 0)
table_read width p v t b i j hb hi hj =
    same→eq _ _
      (all_below_sound width _ j hj (all_below_sound width _ i hi (all_below_sound 256 _ b hb t)))

-- What is written is a byte again.
abbrev pub byte_table : ℕ → (ℕ → ℕ) → Bool → Bool
byte_table width p v = all_below 256 (λ b. all_below width (λ i. ltb (write_mask b (p i) v) 256))

pub write_mask-IsByte :
    (width : ℕ) (p : ℕ → ℕ) (v : Bool)
    → byte_table width p v ≡ true
    → (b i : ℕ) → b < 256
    → i < width
    → IsByte (write_mask b (p i) v)
write_mask-IsByte width p v t b i hb hi =
    ltb→lt _ _ (all_below_sound width _ i hi (all_below_sound 256 _ b hb t))

bit_table : (v : Bool) → (table 8 (λ i. 2 ^ i) v ≡ true) × (byte_table 8 (λ i. 2 ^ i) v ≡ true)
unfolding all_below same
bit_table true = (refl, refl)
bit_table false = (refl, refl)

-- Reading after a write, for a field of `width` to the byte and masks `p`.
module _ (width : ℕ) (p : ℕ → ℕ) where
  read_field : List ℕ → ℕ → Res Bool
  read_field bitmap n = load bitmap (n / width) >>= λ b. ok (bit_and b (p (n % width)) == 0)

  write_field : List ℕ → ℕ → Bool → Res (List ℕ)
  write_field bitmap n v =
      load bitmap (n / width) >>= λ b. store bitmap (n / width) (write_mask b (p (n % width)) v)

  -- The write succeeds inside the array; it keeps the length and the bytes.
  record Written (bitmap : List ℕ) (n : ℕ) (v : Bool) (out : List ℕ) : Type 0 where
    done : write_field bitmap n v ≡ ok out
    same_length : length out ≡ length bitmap
    bytes : AllBytes out
    reads :
        (m : ℕ)
        → m < length bitmap * width
        → read_field out m ≡ (if m == n then ok (not v) else read_field bitmap m)

  same_index : (n m : ℕ) → 0 < width → n / width ≡ m / width → (m == n) ≡ (n % width == m % width)
  same_index n m pos e =
      ground (arith, div-add-mod n width, div-add-mod m width, ap (λ k. width * k) e)

  write_field-Written :
      (bitmap : List ℕ) (n : ℕ) (v : Bool)
      → 0 < width
      → (table width p v ≡ true) × (byte_table width p v ≡ true)
      → AllBytes bitmap
      → n < length bitmap * width
      → (out : List ℕ) × Written bitmap n v out
  unfolding read_field write_field
  write_field-Written bitmap n v pos t bytes lt =
      let inside : n / width < length bitmap = (div-lt_iff_lt-mul pos).1 lt in
      let (b, e) = get_elem?-some bitmap (n / width) inside in
      (
        set bitmap (n / width) (write_mask b (p (n % width)) v),
        record {
          done = rw e;
          same_length = length-set bitmap (n / width) _;
          bytes = λ i c h. elim (ℕ_discrete (n / width) i) [
            | yes here ↦
                let got =
                  get_elem?-set_self bitmap (n / width) (write_mask b (p (n % width)) v) inside in
                let eq : c ≡ write_mask b (p (n % width)) v = ground (
                  arith,
                  ap (λ k. get_elem? (set bitmap (n / width) (write_mask b (p (n % width)) v)) k)
                      here,
                ) in
                rw eq (write_mask-IsByte width p v t.1 b (n % width) (bytes _ _ e) (mod-lt n pos))
            | no other ↦ bytes i c (rw (get_elem?-set_ne bitmap (n / width) i _ other) at h)
          ];
          reads = λ m h. elim (ℕ_discrete (n / width) (m / width)) [
            | yes here ↦
                let at_m : get_elem? bitmap (m / width) ≡ some b = rw here at e in
                rw
                  (
                    ← here,
                    get_elem?-set_self bitmap (n / width) _ inside,
                    e,
                    same_index n m pos here,
                  )
                  (simp
                    (table_read width p v t.0 b (n % width) (m % width) (bytes _ _ e) (mod-lt n pos)
                      (mod-lt m pos))
                    (ground arith))
            | no other ↦
                rw (get_elem?-set_ne bitmap _ _ _ other)
                  (let apart : (m == n) ≡ false = ground arith in rw apart)
          ];
        },
      )

-- A field write of SET_BIT1 or SET_BIT4 as its reader sees it.
abbrev pub Sets : (List ℕ → ℕ → Res Bool) → ℕ → List ℕ → ℕ → Bool → List ℕ → Type 0
Sets read width bitmap n v out =
    (length out ≡ length bitmap)
    × AllBytes out
    × ((m : ℕ)
        → m < length bitmap * width
        → read out m ≡ (if m == n then ok (not v) else read bitmap m))

-- SET_BIT1 inside the array writes the bit that it names: BIT1 then finds it clear exactly if the
-- value was 0, finds every other bit as before, and the array keeps its length and stays bytes.
pub set_bit1-bit1 :
    (bitmap : List ℕ) (n : ℕ) (v : Bool)
    → AllBytes bitmap
    → n < length bitmap * 8
    → (out : List ℕ) × (set_bit1 bitmap n v ≡ ok out) × Sets bit1 8 bitmap n v out
unfolding set_bit1 bit1 write_field read_field
set_bit1-bit1 bitmap n v bytes lt =
    let (out, w) =
      write_field-Written 8 (λ i. 2 ^ i) bitmap n v (omega arith) (bit_table v) bytes lt in
    (out, w.done, (w.same_length, w.bytes, w.reads))
