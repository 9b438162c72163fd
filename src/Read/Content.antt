-- ===== src/Read/Content.antt =====
-- What `op_read` returns against the bytes of the file: a byte's place on the disk is that of its
-- block, and its offset in the block.
use kfs.Base.{
  ℕ, zero, suc, ◌+◌, ◌-◌, ◌*◌, ◌/◌, ◌%◌, ◌^◌, ◌≤◌, ◌<◌, ◌≡◌, refl, sym, ap, ◌∙◌, List, ◌++◌, length,
  Option, none, some, ok, arith, ◌>>=◌, ◌==◌, ltb, leb, if◌then◌else◌, u32, u64, as_int,
  as_int-small, ==-true, ==-false, ltb-true, ltb-false, div-slot, mod-slot, div-lt_rows, Bool-cases,
  inl, inr,
}
use native.Mathlib.Nat.{div-add-mod, mod-lt}
use mathlib.Core.Path.{subst}
use kfs.Ext4.Super.{SuperBlock, block_size, blocks2bytes}
use kfs.Disk.{Pread, disk_read}
use kfs.Inode.{Inode, get_size}
use kfs.Inode.Pblocks.{get_data_pblock}
use kfs.Read.Runs.{run, length-run, run-add, run-shift}
use kfs.Read.{truncate_size, align_to_block_size, first_read, read_loop, read_truncated, op_read}

-- A disk of `size` bytes with the byte `byte i` at `i`: what `pread` reads of it is whole.
pub record IsImage (pread : Pread) (byte : ℕ → ℕ) (size : ℕ) : Type 0 where
  pub pread_in : (a n : ℕ) → a + n ≤ size → pread a n ≡ some (run byte a n)

module _ (sb : SuperBlock) (pread : Pread) (depth : ℕ) where
  -- The blocks of a file of `blocks` blocks: each lookup gives the block and a length, and over that
  -- length the blocks follow each other on the disk.
  pub record Mapped (inode : Inode) (pblock : ℕ → ℕ) (blocks size : ℕ) : Type 0 where
    pub lookup :
        (l : ℕ)
        → l < blocks
        → (n : ℕ) × (get_data_pblock sb pread depth inode l ≡ ok (pblock l, some n))
          × (0 < n)
          × (n * block_size sb < 2 ^ 64)
          × ((k : ℕ) → k < n → pblock (l + k) ≡ pblock l + k)
    pub on_disk : (l : ℕ) → l < blocks → pblock l * block_size sb + block_size sb ≤ size

  -- Where byte `i` of the file is.
  abbrev pub place : (ℕ → ℕ) → ℕ → ℕ
  place pblock i = pblock (i / block_size sb) * block_size sb + i % block_size sb

  module _ (inode : Inode) (pblock : ℕ → ℕ) (byte : ℕ → ℕ) (blocks size : ℕ)
      (image : IsImage pread byte size) (mapped : Mapped inode pblock blocks size)
      (bs_pos : 0 < block_size sb) (bs_small : block_size sb ≤ 2 ^ 32) (size_small : size < 2 ^ 64)
      (blocks_small : blocks < 2 ^ 32) (file_small : blocks * block_size sb < 2 ^ 64) where
    abbrev bs : ℕ
    bs = block_size sb

    -- The file's byte `i`.
    abbrev pub file : ℕ → ℕ
    file i = byte (place pblock i)

    place_in : (i : ℕ) → i < blocks * bs → place pblock i < size
    place_in i lt =
        let row : i / bs < blocks = div-lt_rows bs blocks i bs_pos lt in
        let col : i % bs < bs = mod-lt i bs_pos in omega (arith, mapped.on_disk (i / bs) row)

    block_bytes : (p : ℕ) → p * bs < 2 ^ 64 → blocks2bytes sb p ≡ p * bs
    unfolding blocks2bytes
    block_bytes p lt =
        let le : p ≤ p * bs = grind arith in let e : u64 p ≡ p = omega arith in rw e (omega arith)

    -- Byte `j` behind the start of block `l`, over the length of a lookup.
    place_behind :
        (l n j : ℕ)
        → ((k : ℕ) → k < n → pblock (l + k) ≡ pblock l + k)
        → j < n * bs
        → place pblock (l * bs + j) ≡ pblock l * bs + j
    place_behind l n j next lt =
        let k = j / bs in
        let r = j % bs in
        let col : r < bs = mod-lt j bs_pos in
        let row : k < n = div-lt_rows bs n j bs_pos lt in
        let parts : bs * k + r ≡ j = div-add-mod j bs in
        let whole : l * bs + j ≡ (l + k) * bs + r = grind arith in
        let d : (l * bs + j) / bs ≡ l + k = ap (λ t. t / bs) whole ∙ div-slot bs (l + k) r col in
        let m : (l * bs + j) % bs ≡ r = ap (λ t. t % bs) whole ∙ mod-slot bs (l + k) r col in
        let b = next k row in rw (d, m, b) (grind arith)

    -- `r` bytes from the start of block `l` on, within what its lookup gives.
    block_read :
        (l n r : ℕ)
        → ((k : ℕ) → k < n → pblock (l + k) ≡ pblock l + k)
        → 0 < r
        → r ≤ n * bs
        → l * bs + r ≤ blocks * bs
        → disk_read pread (blocks2bytes sb (pblock l)) r ≡ ok (run file (l * bs) r)
    unfolding disk_read
    block_read l n r next pos within in_file =
        let last : place pblock (l * bs + (r - 1)) ≡ pblock l * bs + (r - 1) =
          place_behind l n (r - 1) next (omega arith) in
        let fits : pblock l * bs + r ≤ size =
          omega (arith, place_in (l * bs + (r - 1)) (omega arith)) in
        let same =
          run-shift byte file (pblock l * bs) (l * bs) r
            (λ j lt. ap byte (sym (place_behind l n j next (omega arith)))) in
        rw
          (
            block_bytes (pblock l) (omega arith),
            disk_read,
            image.pread_in (pblock l * bs) r fits,
            ==-true (length (run byte (pblock l * bs) r)) r (length-run byte (pblock l * bs) r),
            ◌>>=◌,
          )
          (ap ok same)

    loop_over :
        (fuel want l ret : ℕ) (len : Option ℕ) (buf : List ℕ)
        → ret ≡ want
        → read_loop sb pread depth (suc fuel) inode want l len ret buf ≡ ok (ret, buf)
    unfolding read_loop
    loop_over fuel want l ret len buf e = rw (read_loop, ltb-false ret want (omega arith)) refl

    -- The block behind the length of a lookup, while the file goes on there.
    next_block :
        (l n start end_ : ℕ)
        → l * bs ≡ start
        → start + n * bs < end_
        → end_ ≤ blocks * bs
        → u32 (l + n) * bs ≡ start + n * bs
    next_block l n start end_ here more in_file =
        let whole : (l + n) * bs ≡ l * bs + n * bs = grind arith in
        let row = div-lt_rows bs blocks ((l + n) * bs + 0) bs_pos (omega arith) in
        let lt : l + n < blocks = subst (λ t. t < blocks) (div-slot bs (l + n) 0 bs_pos) row in
        let e : u32 (l + n) ≡ l + n = omega arith in rw e (omega arith)

    -- How much a round reads.
    abbrev part : (want ret n : ℕ) → ℕ
    part want ret n = if leb (want - ret) (u64 (n * bs)) then want - ret else u64 (n * bs)

    part_bounds :
        (want ret n : ℕ)
        → ret < want
        → 0 < n
        → n * bs < 2 ^ 64
        → (0 < part want ret n)
          × (part want ret n ≤ n * bs)
          × (ret + part want ret n ≤ want)
          × (ret + part want ret n < want → part want ret n ≡ n * bs)
    part_bounds want ret n lt pos small =
        let some_bytes : 0 < n * bs = grind arith in
        (ground arith, ground arith, ground arith, λ more. ground arith)

    sum_small : (ret r : ℕ) → ret + r < 2 ^ 31 → u64 (ret + as_int r) ≡ ret + r
    sum_small ret r lt = let e = as_int-small r (omega arith) in rw e (omega arith)

    loop_step :
        (fuel want l ret n : ℕ) (len : Option ℕ) (buf bytes : List ℕ)
        → ret < want
        → get_data_pblock sb pread depth inode l ≡ ok (pblock l, some n)
        → disk_read pread (blocks2bytes sb (pblock l)) (part want ret n) ≡ ok bytes
        → u64 (ret + as_int (part want ret n)) ≡ ret + part want ret n
        → read_loop sb pread depth (suc fuel) inode want l len ret buf
          ≡ read_loop sb pread depth fuel inode want
              (u32 (l + n))
              (some n)
              (ret + part want ret n)
              (buf ++ bytes)
    unfolding read_loop
    loop_step fuel want l ret n len buf bytes lt found got sum =
        rw (read_loop, ltb-true ret want lt, found, ◌>>=◌, got, sum) refl

    -- The loop, where the next byte is the first of block `l`.
    loop_lem :
        (fuel want offset l ret : ℕ) (len : Option ℕ)
        → want ≤ ret + fuel
        → ret ≤ want
        → offset + want ≤ blocks * bs
        → want < 2 ^ 31
        → (ret < want → l * bs ≡ offset + ret)
        → read_loop sb pread depth (suc fuel) inode want l len ret (run file offset ret)
          ≡ ok (want, run file offset want)
    loop_lem zero want offset l ret len enough le in_file want_small aligned =
        let e : ret ≡ want = omega arith in
        loop_over zero want l ret len (run file offset ret) e
        ∙ ap (λ t. ok (t, run file offset t)) e
    loop_lem (suc fuel) want offset l ret len enough le in_file want_small aligned =
        elim (Bool-cases (ltb ret want)) [
          | inr done ↦
              let e : ret ≡ want = ground arith in
              loop_over (suc fuel) want l ret len (run file offset ret) e
              ∙ ap (λ t. ok (t, run file offset t)) e
          | inl more ↦
              let lt : ret < want = ground arith in
              let here = aligned lt in
              let in_l : l < blocks = grind arith in
              let (n, found, n_pos, n_small, next) = mapped.lookup l in_l in
              let r = part want ret n in
              let (r_pos, r_within, r_le, r_full) = part_bounds want ret n lt n_pos n_small in
              let got = block_read l n r next r_pos r_within (omega arith) in
              let joined : run file offset ret ++ run file (l * bs) r ≡ run file offset (ret + r) =
                ap (λ t. run file offset ret ++ run file t r) here ∙ run-add file offset ret r in
              loop_step (suc fuel) want l ret n len (run file offset ret) (run file (l * bs) r) lt
                found got (sum_small ret r (omega arith))
              ∙ ap
                  (λ b.
                    read_loop sb pread depth (suc fuel) inode want (u32 (l + n)) (some n) (ret + r)
                      b)
                  joined
              ∙ loop_lem fuel want offset (u32 (l + n)) (ret + r) (some n) (omega arith) r_le
                  in_file want_small
                  (λ left.
                    next_block l n (offset + ret) (offset + want) (omega arith)
                      (omega (arith, r_full left)) in_file
                    ∙ omega (arith, r_full left))
        ]

    -- A read of bytes that all lie in the block of `offset`.
    within_block :
        (offset h : ℕ)
        → offset / bs < blocks
        → offset % bs + h ≤ bs
        → disk_read pread (u64 (blocks2bytes sb (pblock (offset / bs)) + offset % bs)) h
          ≡ ok (run file offset h)
    unfolding disk_read
    within_block offset h row col =
        let l = offset / bs in
        let c = offset % bs in
        let parts : bs * l + c ≡ offset = div-add-mod offset bs in
        let on_disk = mapped.on_disk l row in
        let next : (k : ℕ) → k < 1 → pblock (l + k) ≡ pblock l + k =
          λ k lt. let z : l + k ≡ l = omega arith in ap pblock z ∙ omega arith in
        let turned : bs * l ≡ l * bs = grind arith in
        let each : (j : ℕ) → j < h → byte (pblock l * bs + c + j) ≡ file (offset + j) = λ j lt.
          let behind = place_behind l 1 (c + j) next (omega arith) in
          let e : l * bs + (c + j) ≡ offset + j = omega arith in
          ap byte (omega arith ∙ sym behind ∙ ap (place pblock) e) in
        let w : u64 (blocks2bytes sb (pblock l) + c) ≡ pblock l * bs + c =
          rw (block_bytes (pblock l) (omega arith)) (omega arith) in
        rw
          (
            w,
            disk_read,
            image.pread_in (pblock l * bs + c) h (omega arith),
            ==-true (length (run byte (pblock l * bs + c) h)) h
                (length-run byte (pblock l * bs + c) h),
            ◌>>=◌,
          )
          (ap ok (run-shift byte file (pblock l * bs + c) offset h each))

    -- A read that goes on behind the block of `offset` reads to that block's end first.
    to_block_end :
        (offset : ℕ)
        → let h = align_to_block_size sb offset - offset in
          (offset % bs + h ≤ bs)
          × (offset + h ≤ offset / bs * bs + bs)
          × ((offset + h) % bs ≡ 0)
          × ((offset + h) / bs * bs ≡ offset + h)
    unfolding align_to_block_size
    to_block_end offset =
        let l = offset / bs in
        let col : offset % bs < bs = mod-lt offset bs_pos in
        let parts : bs * l + offset % bs ≡ offset = div-add-mod offset bs in
        let turned : bs * l ≡ l * bs = grind arith in
        elim (Bool-cases (offset % bs == 0)) [
          | inl e ↦
              let z : offset % bs ≡ 0 = ground arith in
              let s : offset + (offset - offset) ≡ offset = omega arith in
              let back : l * bs ≡ offset = omega arith in
              rw e (
                omega arith,
                omega arith,
                ap (λ t. t % bs) s ∙ z,
                ap (λ t. t / bs * bs) s ∙ back ∙ sym s,
              )
          | inr e ↦
              let next : offset + (l * bs + bs - offset) ≡ (l + 1) * bs + 0 = grind arith in
              rw e (
                (omega arith),
                omega arith,
                ap (λ t. t % bs) next ∙ mod-slot bs (l + 1) 0 bs_pos,
                ap (λ t. t / bs * bs) next
                    ∙ ap (λ t. t * bs) (div-slot bs (l + 1) 0 bs_pos)
                    ∙ grind arith,
              )
        ]

    first_read-run :
        (offset want : ℕ)
        → 0 < want
        → offset + want ≤ blocks * bs
        → (h : ℕ) × (first_read sb pread depth inode want offset ≡ ok (h, run file offset h))
          × (h ≤ want)
          × (h < want → ((offset + h) % bs ≡ 0) × ((offset + h) / bs * bs ≡ offset + h))
    unfolding first_read
    first_read-run offset want pos in_file =
        let l = offset / bs in
        let col : offset % bs < bs = mod-lt offset bs_pos in
        let parts : bs * l + offset % bs ≡ offset = div-add-mod offset bs in
        let turned : bs * l ≡ l * bs = grind arith in
        let row : l < blocks = div-lt_rows bs blocks offset bs_pos (omega arith) in
        let last = offset + (want - 1) in
        let row' : last / bs < blocks = div-lt_rows bs blocks last bs_pos (omega arith) in
        let (n, found, n_pos, n_small, next) = mapped.lookup l row in
        let start : u32 l ≡ l = omega arith in
        let off : u32 (offset % bs) ≡ offset % bs = omega arith in
        let end_ : u64 (offset + u64 (want + 2 ^ 64 - 1)) ≡ last = omega arith in
        let end_block : u32 (last / bs) ≡ last / bs = omega arith in
        elim (Bool-cases (l == last / bs)) [
          | inl e ↦
              let same : l ≡ last / bs = ground arith in
              let fit : offset % bs + want ≤ bs =
                omega (arith, div-add-mod last bs, mod-lt last bs_pos, ap (λ t. bs * t) same) in
              let got = within_block offset want row fit in
              (
                want,
                rw (start, found, ◌>>=◌, end_, end_block, e, off, got) refl,
                omega arith,
                λ lt. absurd (omega arith),
              )
          | inr e ↦
              let h = align_to_block_size sb offset - offset in
              let (fit, near, zero_, back) = to_block_end offset in
              let got = within_block offset h row fit in
              let le : h ≤ want = elim (Bool-cases (ltb want h)) [
                | inl less ↦
                    let lt : want < h = ground arith in
                    let whole : last ≡ l * bs + (last - l * bs) = omega arith in
                    absurd (
                      ground (
                        arith,
                        ap (λ t. t / bs) whole ∙ div-slot bs l (last - l * bs) (omega arith),
                        e,
                      ))
                | inr less ↦ ground arith
              ] in
              (
                h,
                rw
                    (
                      start,
                      found,
                      ◌>>=◌,
                      end_,
                      end_block,
                      e,
                      ==-true ((offset + h) % bs) 0 zero_,
                      ◌>>=◌,
                      off,
                      got,
                    )
                    refl,
                le,
                λ lt. (zero_, back),
              )
        ]

    truncated_lem :
        (fuel offset want : ℕ)
        → 0 < want
        → want ≤ fuel
        → offset + want ≤ blocks * bs
        → want < 2 ^ 31
        → read_truncated sb pread depth (suc fuel) inode want offset
          ≡ ok (want, run file offset want)
    unfolding read_truncated
    truncated_lem fuel offset want pos enough in_file want_small =
        let (h, first, le, rest) = first_read-run offset want pos in_file in
        elim (Bool-cases (h == want)) [
          | inl e ↦
              let all : h ≡ want = ground arith in
              rw (read_truncated, ==-false want 0 (λ z. absurd (omega arith)), first, ◌>>=◌, e)
                (ap (λ t. ok (t, run file offset t)) all)
          | inr e ↦
              let less : h < want = ground arith in
              let (zero_, back) = rest less in
              let row : (offset + h) / bs < blocks =
                div-lt_rows bs blocks (offset + h) bs_pos (omega arith) in
              let block : u32 ((offset + h) / bs) ≡ (offset + h) / bs = omega arith in
              let loop =
                loop_lem fuel want offset ((offset + h) / bs) h none (omega arith) le in_file
                  want_small (λ lt. back) in
              rw
                (
                  read_truncated,
                  ==-false want 0 (λ z. absurd (omega arith)),
                  first,
                  ◌>>=◌,
                  e,
                  ==-true ((offset + h) % bs) 0 zero_,
                  ◌>>=◌,
                  block,
                  loop,
                  ◌>>=◌,
                  ==-true want want refl,
                )
                refl
        ]

    -- What a read of `asked` bytes at `offset` may give of a file of `total` bytes.
    abbrev pub available : (total asked offset : ℕ) → ℕ
    available total asked offset = if leb (total - offset) asked then total - offset else asked

    -- `op_read` of at least one byte and fewer than 2 ^ 31, which an `int` holds, at a place inside the
    -- file, the end of the read at an offset that an `off_t` holds: with enough fuel it succeeds and returns as many bytes as were asked for, or as there are up to the end of the file where that is
    -- fewer; they are the file's bytes from `offset` on.
    pub op_read-content :
        (fuel asked offset : ℕ)
        → offset < get_size inode
        → 0 < asked
        → asked < 2 ^ 31
        → offset + asked < 2 ^ 63
        → get_size inode ≤ blocks * bs
        → asked ≤ fuel
        → let want = available (get_size inode) asked offset in
          op_read sb pread depth (suc fuel) inode asked offset ≡ ok (want, run file offset want)
    unfolding op_read truncate_size
    op_read-content fuel asked offset inside pos asked_small small in_file enough =
        let want = available (get_size inode) asked offset in
        let cut : truncate_size inode asked offset ≡ want = ground arith in
        let some_ : 0 < want = ground arith in
        let le : want ≤ asked = ground arith in
        let end_ : offset + want ≤ get_size inode = ground arith in
        let done = truncated_lem fuel offset want some_ (omega arith) (omega arith) (omega arith) in
        let whole = as_int-small want (omega arith) in
        rw (op_read, ltb-true offset (2 ^ 63) (omega arith), ◌>>=◌, cut, done, whole) refl
