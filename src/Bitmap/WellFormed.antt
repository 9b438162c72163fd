-- ===== src/Bitmap/WellFormed.antt =====
-- What the two bitmaps of src/bitmap.c have in common: their shape, and the update of one group.
use kfs.Base.{
  ℕ, ◌*◌, ◌/◌, ◌%◌, ◌^◌, ◌<◌, ◌≤◌, ◌≡◌, List, some, ◌≢◌, Bool, ok, bit_and, ap, get_elem?,
  get_elem?-some, get_elem?-set_self, get_elem?-set_ne, set, length, length-set, arith, ◌==◌, u32,
  lt-length_of_some,
}
use native.Mathlib.Decide.{ℕ_discrete}
use kfs.Ext4.Super.{SuperBlock, n_block_groups}
use kfs.Bitmap.{Bitmap, BitmapGroup, dirty, bit1, put_bits}
use kfs.Bitmap.Bits.{AllBytes}

abbrev pub group_count : SuperBlock → ℕ
group_count sb = u32 (n_block_groups sb)

-- A bitmap with a group of bytes for each block group, with a bit at least for each of the
-- `per_group` objects of a group, whose numbers fit `uint32_t`.
pub record IsBitmap (per_group count : ℕ) (bm : Bitmap) : Type 0 where
  pub per_pos : 0 < per_group
  pub fits : count * per_group < 2 ^ 32
  pub held : length bm.group ≡ count
  pub room :
      (k : ℕ) (g : BitmapGroup) → get_elem? bm.group k ≡ some g → per_group ≤ length g.bitmap * 8
  pub bytes : (k : ℕ) (g : BitmapGroup) → get_elem? bm.group k ≡ some g → AllBytes g.bitmap

pub bit1-defined :
    (bitmap : List ℕ) (n : ℕ) → n < length bitmap * 8 → (b : Bool) × (bit1 bitmap n ≡ ok b)
unfolding bit1
bit1-defined bitmap n lt =
    let (b, e) = get_elem?-some bitmap (n / 8) (omega arith) in (bit_and b (2 ^ (n % 8)) == 0, rw e)

module _ {per count : ℕ} {bm : Bitmap} (v : IsBitmap per count bm) (k : ℕ) (g : BitmapGroup)
    (e : get_elem? bm.group k ≡ some g) (bits : List ℕ) where
  abbrev pub new_group : BitmapGroup
  new_group = record g { bitmap = bits; status = dirty }

  abbrev pub with_bits : Bitmap
  with_bits = record bm { group = set bm.group k new_group }

  pub group_at : get_elem? with_bits.group k ≡ some new_group
  group_at = get_elem?-set_self bm.group k new_group (lt-length_of_some bm.group k e)

  pub group_elsewhere : (m : ℕ) → k ≢ m → get_elem? with_bits.group m ≡ get_elem? bm.group m
  group_elsewhere m ne = get_elem?-set_ne bm.group k m new_group ne

  new_bits :
      (m : ℕ) (h : BitmapGroup) → k ≡ m → get_elem? with_bits.group m ≡ some h → h.bitmap ≡ bits
  new_bits m h here eh = ground (arith, ap (λ (t : ℕ). get_elem? with_bits.group t) here, group_at)

  pub put_bits-ok : put_bits bm k bits ≡ ok with_bits
  put_bits-ok = rw e

  pub with_bits-IsBitmap :
      length bits ≡ length g.bitmap → AllBytes bits → IsBitmap per count with_bits
  with_bits-IsBitmap len bytes' = record {
    per_pos = v.per_pos;
    fits = v.fits;
    held = rw length-set v.held;
    room = λ m h eh. elim (ℕ_discrete k m) [
      | yes here ↦ rw (new_bits m h here eh, len) (v.room k g e)
      | no other ↦ v.room m h (rw (group_elsewhere m other) at eh)
    ];
    bytes = λ m h eh. elim (ℕ_discrete k m) [
      | yes here ↦ rw (new_bits m h here eh) bytes'
      | no other ↦ v.bytes m h (rw (group_elsewhere m other) at eh)
    ];
  }
