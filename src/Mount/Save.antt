-- ===== src/Mount/Save.antt =====
-- What the disk holds once the bitmaps are written back (src/op_destory.c).
use mathlib.Core.Path.{subst}
use kfs.Base.{
  ℕ, zero, suc, ◌+◌, ◌^◌, ◌<◌, ◌≤◌, ◌≡◌, inl, inr, refl, sym, ap, ◌∙◌, List, [], ◌∷◌, ◌==◌, some,
  Bool, true, false, Bool-cases, ok, get_elem?, ◌>>=◌, leb-true, length, take, All, arith,
  if◌then◌else◌,
}
use kfs.Ext4.Super.{SuperBlock}
use kfs.Disk.{Device, disk_read}
use kfs.Disk.Laws.{IsDevice, Apart, disk_read-write}
use kfs.Bitmap.{Bitmap, BitmapGroup}
use kfs.Mount.{group_is_dirty, save_group, save_bitmaps, inode_bytes_of, block_bytes_of}

take-all : (xs : List ℕ) → take (length xs) xs ≡ xs
take-all [] = refl
take-all (x ∷ xs) = ap (λ (t : List ℕ). x ∷ t) (take-all xs)

module _ (dev : Device) (size : ℕ) (v : IsDevice dev size) where
  -- The group's bytes are on the disk `d'`: those in memory if it is dirty, those of `d` if it is not.
  abbrev pub Saved : ℕ → BitmapGroup → (d d' : dev.Disk) → Type 0
  Saved n g d d' =
      disk_read (dev.pread d') g.off n
      ≡ (if group_is_dirty dev g then ok g.bitmap else disk_read (dev.pread d) g.off n)

  -- A group with `n` bytes, all on the disk.
  abbrev pub Fits : ℕ → BitmapGroup → Type 0
  Fits n g = (length g.bitmap ≡ n) × (g.off + n ≤ size) × All (λ b. b < 2 ^ 8) g.bitmap

  -- What is apart from the group reads as before.
  abbrev pub Elsewhere : ℕ → BitmapGroup → (d d' : dev.Disk) → Type 0
  Elsewhere n g d d' =
      (x m : ℕ) → Apart g.off n x m → disk_read (dev.pread d') x m ≡ disk_read (dev.pread d) x m

  ap-Apart : (a n n' b m : ℕ) → n ≡ n' → Apart a n b m → Apart a n' b m
  ap-Apart a n n' b m e (inl h) = inl (omega arith)
  ap-Apart a n n' b m e (inr h) = inr h

  save_group_lem :
      (n : ℕ) (g : BitmapGroup) (d : dev.Disk)
      → Fits n g
      → (d' : dev.Disk) × (save_group dev n g d ≡ ok d') × Saved n g d d' × Elsewhere n g d d'
  unfolding save_group
  save_group_lem n g d (len, inside, small) = elim (Bool-cases (group_is_dirty dev g)) [
    | inr x ↦ (d, rw (save_group, x) refl, rw x refl, λ b m a. refl)
    | inl y ↦
        let (d', wrote, back, other) = disk_read-write dev v d g.off g.bitmap (omega arith) small in
        let all : take n g.bitmap ≡ g.bitmap =
          ap (λ t. take t g.bitmap) (sym len) ∙ take-all g.bitmap in
        (
          d',
          rw (save_group, y, leb-true n (length g.bitmap) (omega arith), all) wrote,
          ap (λ t. disk_read (dev.pread d') g.off t) (sym len) ∙ back ∙ rw y refl,
          λ b m a. other b m (ap-Apart g.off n (length g.bitmap) b m (sym len) a),
        )
  ]

  -- With the same bytes of the group before it.
  Saved-before :
      (n : ℕ) (g : BitmapGroup) (d d₁ d' : dev.Disk)
      → disk_read (dev.pread d₁) g.off n ≡ disk_read (dev.pread d) g.off n
      → Saved n g d₁ d'
      → Saved n g d d'
  Saved-before n g d d₁ d' e s = s ∙ ap (λ t. if group_is_dirty dev g then ok g.bitmap else t) e

  -- The groups of the two bitmaps: `reg true` those of the inode bitmap, `reg false` those of the data
  -- bitmap. All fit the disk, and no two of them overlap.
  pub record Layout (sb : SuperBlock) (i_bitmap d_bitmap : Bitmap) (num : ℕ)
      (reg : Bool → ℕ → BitmapGroup) : Type 0 where
    pub inodes : (k : ℕ) → k < num → get_elem? i_bitmap.group k ≡ some (reg true k)
    pub blocks : (k : ℕ) → k < num → get_elem? d_bitmap.group k ≡ some (reg false k)
    pub fits :
        (b : Bool) (k : ℕ)
        → k < num
        → Fits (if b then inode_bytes_of sb else block_bytes_of sb) (reg b k)
    pub apart :
        (b c : Bool) (k m : ℕ)
        → k < num
        → m < num
        → ((b ≡ c) → (k ≡ m) → ⊥)
        → Apart
            (reg b k).off
            (if b then inode_bytes_of sb else block_bytes_of sb)
            (reg c m).off
            (if c then inode_bytes_of sb else block_bytes_of sb)

  module _ (sb : SuperBlock) (i_bitmap d_bitmap : Bitmap) (num : ℕ) (reg : Bool → ℕ → BitmapGroup)
      (layout : Layout sb i_bitmap d_bitmap num reg) where
    abbrev pub len : Bool → ℕ
    len b = if b then inode_bytes_of sb else block_bytes_of sb

    -- What the groups from `i` on, `rounds` of them, come to.
    abbrev pub AllSaved : (rounds i : ℕ) → (d d' : dev.Disk) → Type 0
    AllSaved rounds i d d' =
        ((b : Bool) (k : ℕ) → i ≤ k → k < i + rounds → Saved (len b) (reg b k) d d')
        × ((x m : ℕ)
            → ((b : Bool) (k : ℕ) → i ≤ k → k < i + rounds → Apart (reg b k).off (len b) x m)
            → disk_read (dev.pread d') x m ≡ disk_read (dev.pread d) x m)

    round-Saved :
        (rounds i : ℕ) (d d₁ d₂ d' : dev.Disk)
        → i + suc rounds ≤ num
        → Saved (len true) (reg true i) d d₁
        → Elsewhere (len true) (reg true i) d d₁
        → Saved (len false) (reg false i) d₁ d₂
        → Elsewhere (len false) (reg false i) d₁ d₂
        → AllSaved rounds (i + 1) d₂ d'
        → AllSaved (suc rounds) i d d'
    round-Saved rounds i d d₁ d₂ d' le s₁ o₁ s₂ o₂ (s, o) =
        let lt : i < num = omega arith in
        let ne : true ≡ false → ⊥ = λ e. cc in
        let later : (b : Bool)
            → disk_read (dev.pread d') (reg b i).off (len b)
              ≡ disk_read (dev.pread d₂) (reg b i).off (len b) =
          λ b.
            o (reg b i).off (len b)
              (λ c k lo hi. layout.apart c b k i (omega arith) lt (λ e f. omega arith)) in
        let here_i : Saved (len true) (reg true i) d d' =
          later true
          ∙ o₂ (reg true i).off (len true) (layout.apart false true i i lt lt (λ e f. ne (sym e)))
          ∙ s₁ in
        let here_d : Saved (len false) (reg false i) d d' =
          later false
          ∙ Saved-before (len false) (reg false i) d d₁ d₂
              (o₁ (reg false i).off (len false) (layout.apart true false i i lt lt (λ e f. ne e)))
              s₂ in
        let here : (b : Bool) → Saved (len b) (reg b i) d d' =
          λ b. elim b as (λ c. Saved (len c) (reg c i) d d') [ true ↦ here_i | false ↦ here_d ] in
        let behind : (b : Bool) (k : ℕ)
            → i + 1 ≤ k
            → k < i + suc rounds
            → Saved (len b) (reg b k) d d' =
          λ b k lo hi.
            Saved-before (len b) (reg b k) d d₂ d'
              (o₂ (reg b k).off (len b)
                  (layout.apart false b i k lt (omega arith) (λ e f. omega arith))
                ∙ o₁ (reg b k).off (len b)
                    (layout.apart true b i k lt (omega arith) (λ e f. omega arith)))
              (s b k lo (omega arith)) in
        (
          λ b k lo hi. elim (Bool-cases (k == i)) [
            | inl y ↦
                let e : i ≡ k = ground arith in subst (λ t. Saved (len b) (reg b t) d d') e (here b)
            | inr z ↦ behind b k (ground arith) hi
          ],
          λ x m a.
              o x m (λ b k lo hi. a b k (omega arith) (omega arith))
              ∙ o₂ x m (a false i (omega arith) (omega arith))
              ∙ o₁ x m (a true i (omega arith) (omega arith)),
        )

    -- The loop of `op_destory` over the bitmaps, where no two groups overlap on the disk: it succeeds,
    -- every dirty group's bytes are on the disk then, and what overlaps no group, and every group
    -- that is not dirty, reads as before.
    pub save_bitmaps-saved :
        (rounds i : ℕ) (d : dev.Disk)
        → i + rounds ≤ num
        → (d' : dev.Disk) × (save_bitmaps dev sb i_bitmap d_bitmap rounds i d ≡ ok d')
          × AllSaved rounds i d d'
    unfolding save_bitmaps
    save_bitmaps-saved zero i d le = (d, refl, ((λ b k lo hi. absurd (omega arith)), λ x m a. refl))
    save_bitmaps-saved (suc rounds) i d le =
        let (d₁, run₁, s₁, o₁) =
          save_group_lem (inode_bytes_of sb) (reg true i) d (layout.fits true i (omega arith)) in
        let (d₂, run₂, s₂, o₂) =
          save_group_lem (block_bytes_of sb) (reg false i) d₁ (layout.fits false i (omega arith)) in
        let (d', run, all) = save_bitmaps-saved rounds (i + 1) d₂ (omega arith) in
        (
          d',
          rw
              (
                layout.inodes i (omega arith),
                ◌>>=◌,
                run₁,
                ◌>>=◌,
                layout.blocks i (omega arith),
                ◌>>=◌,
                run₂,
                ◌>>=◌,
              )
              run,
          round-Saved rounds i d d₁ d₂ d' le s₁ o₁ s₂ o₂ all,
        )
