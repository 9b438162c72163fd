-- ===== src/Write/Piece.antt =====
-- What one write of bytes within a block leaves on the disk, against the bytes of the file (the
-- `disk_write` of src/op_write.c).
use kfs.Base.{
  ℕ, ◌+◌, ◌-◌, ◌*◌, ◌/◌, ◌%◌, ◌^◌, ◌≤◌, ◌<◌, ◌≡◌, ◌≢◌, refl, sym, ap, ◌∙◌, List, length, take,
  Option, some, Bool, true, ok, arith, ◌==◌, if◌then◌else◌, u64, ==-true, leb-true, div-slot,
  mod-slot, div-lt_rows, Bool-cases, inl, inr,
}
use native.Mathlib.Nat.{div-add-mod, mod-lt}
use kfs.Ext4.Super.{SuperBlock, block_size, blocks2bytes}
use kfs.Disk.{Device, disk_write}
use kfs.Extents.{get_pblock}
use kfs.Read.Runs.{run, length-run, run-shift}
use kfs.Write.{write_from}
use kfs.Write.Bytes.{inside, IsBytes, take-run, rows_apart, row_le}

module _ (sb : SuperBlock) (dev : Device) (depth : ℕ) where
  pub write_run :
      (buf bytes : List ℕ) (a n : ℕ) (d d' : dev.Disk)
      → n ≤ length buf
      → take n buf ≡ bytes
      → length bytes ≡ n
      → dev.pwrite d a bytes ≡ some (n, d')
      → write_from sb dev depth buf a n d ≡ ok d'
  unfolding write_from disk_write
  write_run buf bytes a n d d' le e len wrote =
      rw
        (
          write_from,
          leb-true n (length buf) le,
          e,
          disk_write,
          wrote,
          e,
          ==-true n (length bytes) (sym len),
        )
        refl

  -- A file of `blocks` blocks, all in extents and each at a block of its own, on a disk of `size` bytes.
  pub record Placed (i_block : List ℕ) (pblock : ℕ → ℕ) (blocks size : ℕ) : Type 0 where
    pub lookup :
        (d : dev.Disk) (l : ℕ)
        → l < blocks
        → (s : Option ℕ) × (get_pblock sb (dev.pread d) depth i_block l ≡ ok (pblock l, s))
    pub on_disk : (l : ℕ) → l < blocks → pblock l * block_size sb + block_size sb ≤ size
    pub apart : (l m : ℕ) → l < blocks → m < blocks → pblock l ≡ pblock m → l ≡ m

  module _ (i_block : List ℕ) (pblock : ℕ → ℕ) (blocks size : ℕ) (v : IsBytes dev size)
      (placed : Placed i_block pblock blocks size) (bs_pos : 0 < block_size sb)
      (bs_small : block_size sb < 2 ^ 31) (size_small : size < 2 ^ 64)
      (blocks_small : blocks < 2 ^ 32) (file_small : blocks * block_size sb < 2 ^ 64) where
    abbrev bs : ℕ
    bs = block_size sb

    -- Where byte `i` of the file is.
    abbrev pub place : ℕ → ℕ
    place i = pblock (i / bs) * bs + i % bs

    -- The disk `d'` is `d` but for the `n` bytes of the file from `a` on, which are those of `src`.
    pub record Stored (src : ℕ → ℕ) (a n : ℕ) (d d' : dev.Disk) : Type 0 where
      pub file :
          (i : ℕ)
          → i < blocks * bs
          → v.byte d' (place i) ≡ (if inside a n i then src i else v.byte d (place i))
      pub rest : (x : ℕ) → ((i : ℕ) → i < blocks * bs → place i ≢ x) → v.byte d' x ≡ v.byte d x

    block_bytes : (p : ℕ) → p * bs < 2 ^ 64 → blocks2bytes sb p ≡ p * bs
    unfolding blocks2bytes
    block_bytes p lt =
        let le : p ≤ p * bs = grind arith in let e : u64 p ≡ p = omega arith in rw e (omega arith)

    pub parts : (i : ℕ) → i / bs * bs + i % bs ≡ i
    parts i =
        let whole : bs * (i / bs) + i % bs ≡ i = div-add-mod i bs in
        let turned : bs * (i / bs) ≡ i / bs * bs = grind arith in omega arith

    -- A piece of one block by its addresses and by its place in the file.
    inside-place :
        (a n i : ℕ)
        → a < blocks * bs
        → i < blocks * bs
        → a % bs + n ≤ bs
        → inside (place a) n (place i) ≡ inside a n i
    inside-place a n i a_in i_in fit =
        let pa = parts a in
        let pi = parts i in
        let ca = mod-lt a bs_pos in
        let ci = mod-lt i bs_pos in
        elim (Bool-cases (a / bs == i / bs)) [
          | inl y ↦
              let same : a / bs ≡ i / bs = ground arith in
              let e = ap (λ t. t * bs) same in let e' = ap (λ t. pblock t * bs) same in ground arith
          | inr x ↦
              let other : a / bs ≢ i / bs = λ e. absurd (ground arith) in
              let ra = div-lt_rows bs blocks a bs_pos a_in in
              let ri = div-lt_rows bs blocks i bs_pos i_in in
              let far = rows_apart bs (a / bs) (i / bs) other in
              let far' =
                rows_apart bs (pblock (a / bs)) (pblock (i / bs))
                  (λ e. other (placed.apart (a / bs) (i / bs) ra ri e)) in
              ground arith
        ]

    -- The byte of the file at an address in a piece of one block.
    pub behind : (a j : ℕ) → a % bs + j < bs → place (a + j) ≡ place a + j
    behind a j lt =
        let pa = parts a in
        let e : a + j ≡ a / bs * bs + (a % bs + j) = omega arith in
        let d : (a + j) / bs ≡ a / bs = ap (λ t. t / bs) e ∙ div-slot bs (a / bs) (a % bs + j) lt in
        let m : (a + j) % bs ≡ a % bs + j =
          ap (λ t. t % bs) e ∙ mod-slot bs (a / bs) (a % bs + j) lt in
        rw (d, m) (omega arith)

    pub in_file : (a j : ℕ) → a < blocks * bs → a % bs + j < bs → a + j < blocks * bs
    in_file a j a_in lt =
        let row : a / bs < blocks = div-lt_rows bs blocks a bs_pos a_in in
        let pa = parts a in
        let le : a / bs * bs + bs ≤ blocks * bs = row_le bs (a / bs) blocks row in omega arith

    piece_src :
        (src : ℕ → ℕ) (a n i : ℕ)
        → a < blocks * bs
        → a % bs + n ≤ bs
        → inside a n i ≡ true
        → src (a + (place i - place a)) ≡ src i
    piece_src src a n i a_in fit h =
        let ge : a ≤ i = ground arith in
        let lt : i < a + n = ground arith in
        let e : a + (i - a) ≡ i = omega arith in
        let b = behind a (i - a) (omega arith) in
        let b' : place i ≡ place a + (i - a) = ap place (sym e) ∙ b in ap src (omega arith)

    -- One write within a block.
    pub write_piece :
        (src : ℕ → ℕ) (a n m : ℕ) (d : dev.Disk)
        → ((i : ℕ) → src i < 2 ^ 8)
        → a < blocks * bs
        → a % bs + n ≤ bs
        → n ≤ m
        → (d' : dev.Disk) × (write_from sb dev depth
              (run src a m)
              (u64 (blocks2bytes sb (pblock (a / bs)) + a % bs))
              n
              d
            ≡ ok d')
          × Stored src a n d d'
    write_piece src a n m d small a_in fit le =
        let row : a / bs < blocks = div-lt_rows bs blocks a bs_pos a_in in
        let on_disk = placed.on_disk (a / bs) row in
        let col = mod-lt a bs_pos in
        let moved : ℕ → ℕ = λ x. src (a + (x - place a)) in
        let (d', wrote, bytes) =
          v.pwrite_in d moved (place a) n (omega arith) (λ x. small (a + (x - place a))) in
        let same : run src a n ≡ run moved (place a) n =
          run-shift src moved a (place a) n (λ j lt. ap src (omega arith)) in
        let w : u64 (blocks2bytes sb (pblock (a / bs)) + a % bs) ≡ place a =
          rw (block_bytes (pblock (a / bs)) (omega arith)) (omega arith) in
        let chosen : (i : ℕ)
            → i < blocks * bs
            → (if inside a n i then moved (place i) else v.byte d (place i))
              ≡ (if inside a n i then src i else v.byte d (place i)) =
          λ i i_in. elim (Bool-cases (inside a n i)) [
            | inl y ↦ rw y (piece_src src a n i a_in fit y)
            | inr x ↦ rw x refl
          ] in
        let untouched : (x : ℕ)
            → ((i : ℕ) → i < blocks * bs → place i ≢ x)
            → (if inside (place a) n x then moved x else v.byte d x) ≡ v.byte d x =
          λ x out. elim (Bool-cases (inside (place a) n x)) [
            | inr y ↦ rw y refl
            | inl y ↦ absurd (
                out (a + (x - place a)) (in_file a (x - place a) a_in (ground arith))
                  (behind a (x - place a) (ground arith) ∙ ground arith))
          ] in
        (
          d',
          ap (λ t. write_from sb dev depth (run src a m) t n d) w
              ∙ write_run (run src a m) (run moved (place a) n) (place a) n d d'
                  (omega (arith, length-run src a m)) (take-run src a n m le ∙ same)
                  (length-run moved (place a) n) wrote,
          record {
            file = λ i i_in.
                bytes (place i)
                ∙ ap (λ (t : Bool). if t then moved (place i) else v.byte d (place i))
                    (inside-place a n i a_in i_in fit)
                ∙ chosen i i_in;
            rest = λ x out. bytes x ∙ untouched x out;
          },
        )
