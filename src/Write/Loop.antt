-- ===== src/Write/Loop.antt =====
-- The loop over the blocks of a write (src/op_write.c).
use kfs.Base.{
  ℕ, zero, suc, ◌+◌, ◌-◌, ◌*◌, ◌/◌, ◌%◌, ◌^◌, ◌≤◌, ◌<◌, ◌≡◌, ◌≢◌, refl, sym, ap, ◌∙◌, List, drop,
  Option, true, false, ok, arith, ◌>>=◌, ◌==◌, ltb, leb, if◌then◌else◌, u32, u64, as_int,
  as_int-small, some, ==-true, ==-false, leb-true, div-slot, mod-slot, div-lt_rows, Bool-cases, inl,
  inr,
}
use native.Mathlib.Nat.{mod-lt}
use mathlib.Core.Path.{subst}
use kfs.Ext4.Super.{SuperBlock, block_size, blocks2bytes}
use kfs.Disk.{Device}
use kfs.Extents.{get_pblock}
use kfs.Read.Runs.{run}
use kfs.Write.{write_from, write_loop}
use kfs.Write.Bytes.{inside, IsBytes, drop-run, row_le}
use kfs.Write.Piece.{Placed, Stored, parts, write_piece}

module _ (sb : SuperBlock) (dev : Device) (depth : ℕ) (i_block : List ℕ) where
  loop_step :
      (fuel total start end_ start_off l ret remain off n p : ℕ) (s : Option ℕ) (buf : List ℕ)
      (d d' : dev.Disk)
      → l ≤ end_
      → (if l == start then start_off else 0) ≡ off
      → (if l == end_ then u64 (total + 2 ^ 64 - u64 (l * block_size sb)) else block_size sb - off)
        ≡ n
      → n ≤ block_size sb
      → n < 2 ^ 31
      → get_pblock sb (dev.pread d) depth i_block (u32 l) ≡ ok (p, s)
      → write_from sb dev depth buf (u64 (blocks2bytes sb p + off)) n d ≡ ok d'
      → write_loop sb dev depth (suc fuel) i_block total start end_ start_off l ret remain buf d
        ≡ write_loop sb dev depth fuel i_block total start end_ start_off
            (u64 (l + 1))
            n
            (u64 (remain + 2 ^ 64 - n))
            (drop n buf)
            d'
  unfolding write_loop
  loop_step fuel total start end_ start_off l ret remain off n p s buf d d' le o e fit int_ found
        wrote =
      rw
        (
          write_loop,
          leb-true l end_ le,
          o,
          e,
          leb-true n (block_size sb) fit,
          ◌>>=◌,
          found,
          ◌>>=◌,
          wrote,
          ◌>>=◌,
          ==-true (as_int n) n (as_int-small n int_),
          o,
          e,
        )
        refl

  loop_end :
      (fuel total start end_ start_off l ret remain : ℕ) (buf : List ℕ) (d : dev.Disk)
      → end_ < l
      → write_loop sb dev depth (suc fuel) i_block total start end_ start_off l ret remain buf d
        ≡ ok (ret, some remain, d)
  unfolding write_loop
  loop_end fuel total start end_ start_off l ret remain buf d lt =
      let e : leb l end_ ≡ false = ground arith in rw (write_loop, e) refl

  loop_same :
      (fuel total start end_ start_off l l' ret remain remain' : ℕ) (buf buf' : List ℕ)
      (d : dev.Disk)
      → l ≡ l'
      → remain ≡ remain'
      → buf ≡ buf'
      → write_loop sb dev depth fuel i_block total start end_ start_off l ret remain buf d
        ≡ write_loop sb dev depth fuel i_block total start end_ start_off l' ret remain' buf' d
  loop_same fuel total start end_ start_off l l' ret remain remain' buf buf' d e f g =
      rw (e, f, g) refl

  module _ (pblock : ℕ → ℕ) (blocks size : ℕ) (v : IsBytes dev size)
      (placed : Placed sb dev depth i_block pblock blocks size) (bs_pos : 0 < block_size sb)
      (bs_small : block_size sb < 2 ^ 31) (size_small : size < 2 ^ 64)
      (blocks_small : blocks < 2 ^ 32) (file_small : blocks * block_size sb < 2 ^ 64) (src : ℕ → ℕ)
      (small : (i : ℕ) → src i < 2 ^ 8) where
    abbrev bs : ℕ
    bs = block_size sb

    abbrev Leaves : (a n : ℕ) (d d' : dev.Disk) → Type 0
    Leaves =
        Stored sb dev depth i_block pblock blocks size v placed bs_pos bs_small size_small
          blocks_small file_small src

    parts_of : (i : ℕ) → i / bs * bs + i % bs ≡ i
    parts_of =
        parts sb dev depth i_block pblock blocks size v placed bs_pos bs_small size_small
          blocks_small file_small

    piece :
        (a n m : ℕ) (d : dev.Disk)
        → a < blocks * bs
        → a % bs + n ≤ bs
        → n ≤ m
        → (d' : dev.Disk) × (write_from sb dev depth
              (run src a m)
              (u64 (blocks2bytes sb (pblock (a / bs)) + a % bs))
              n
              d
            ≡ ok d')
          × Leaves a n d d'
    piece a n m d =
        write_piece sb dev depth i_block pblock blocks size v placed bs_pos bs_small size_small
          blocks_small file_small src a n m d small

    -- Two pieces, one behind the other.
    Leaves-join :
        (a m n : ℕ) (d d₁ d₂ : dev.Disk)
        → Leaves a m d d₁
        → Leaves (a + m) n d₁ d₂
        → Leaves a (m + n) d d₂
    Leaves-join a m n d d₁ d₂ s t = record {
      file = λ i i_in.
          t.file i i_in
          ∙ ap (λ x. if inside (a + m) n i then src i else x) (s.file i i_in)
          ∙ ground arith;
      rest = λ x out. t.rest x out ∙ s.rest x out;
    }

    -- The loop from byte `pos` of the file on, which is in block `l`.
    abbrev Goes : (total start end_ start_off fuel l pos ret : ℕ) → dev.Disk → Type 0
    Goes total start end_ start_off fuel l pos ret d =
        (d' : dev.Disk) × (write_loop sb dev depth fuel i_block total start end_ start_off l ret
            (total - pos) (run src pos (total - pos)) d
          ≡ ok (total - end_ * bs, some 0, d'))
        × Leaves pos (total - pos) d d'

    -- A round: the piece that it writes, and where the loop is then.
    round :
        (total start end_ start_off fuel l pos ret n : ℕ) (d : dev.Disk)
        → pos < blocks * bs
        → pos / bs ≡ l
        → l ≤ end_
        → (if l == start then start_off else 0) ≡ pos % bs
        → (if l == end_ then u64 (total + 2 ^ 64 - u64 (l * bs)) else bs - pos % bs) ≡ n
        → pos % bs + n ≤ bs
        → pos + n ≤ total
        → total < 2 ^ 64
        → (d₁ : dev.Disk) × (write_loop sb dev depth
              (suc fuel)
              i_block
              total
              start
              end_
              start_off
              l
              ret
              (total - pos)
              (run src pos (total - pos))
              d
            ≡ write_loop sb dev depth fuel i_block total start end_ start_off
                (l + 1)
                n
                (total - (pos + n))
                (run src (pos + n) (total - (pos + n)))
                d₁)
          × Leaves pos n d d₁
    round total start end_ start_off fuel l pos ret n d in_file here le off size_eq fit inside_
          total_small =
        let row : l < blocks =
          subst (λ t. t < blocks) here (div-lt_rows bs blocks pos bs_pos in_file) in
        let (s, found) = placed.lookup d l row in
        let whole : u32 l ≡ l = omega arith in
        let found' : get_pblock sb (dev.pread d) depth i_block (u32 l) ≡ ok (pblock l, s) =
          rw whole found in
        let (d₁, wrote, s₁) = piece pos n (total - pos) d in_file fit (omega arith) in
        let wrote' =
          subst
            (λ t.
              write_from sb dev depth (run src pos (total - pos))
                (u64 (blocks2bytes sb (pblock t) + pos % bs)) n d
              ≡ ok d₁)
            here wrote in
        let bytes : drop n (run src pos (total - pos)) ≡ run src (pos + n) (total - (pos + n)) =
          drop-run src pos n (total - pos) (omega arith) ∙ ap (run src (pos + n)) (omega arith) in
        (
          d₁,
          loop_step fuel total start end_ start_off l ret (total - pos) (pos % bs) n (pblock l) s
                (run src pos (total - pos)) d d₁ le off size_eq (omega arith) (omega arith) found'
                wrote'
              ∙ loop_same fuel total start end_ start_off (u64 (l + 1)) (l + 1) n
                  (u64 (total - pos + 2 ^ 64 - n)) (total - (pos + n))
                  (drop n (run src pos (total - pos))) (run src (pos + n) (total - (pos + n))) d₁
                  (omega arith) (omega arith) bytes,
          s₁,
        )

    last_round :
        (total start end_ start_off fuel l pos ret : ℕ) (d : dev.Disk)
        → total ≤ blocks * bs
        → pos / bs ≡ l
        → (if l == start then start_off else 0) ≡ pos % bs
        → l ≡ end_
        → pos ≡ l * bs
        → pos % bs ≡ 0
        → pos < total
        → total ≤ end_ * bs + bs
        → Goes total start end_ start_off (suc (suc fuel)) l pos ret d
    last_round total start end_ start_off fuel l pos ret d fits here off e whole first more upto =
        let at : l * bs ≡ end_ * bs = ap (λ t. t * bs) e in
        let y : (l == end_) ≡ true = ==-true l end_ e in
        let (d₁, run₁, s₁) =
          round total start end_ start_off (suc fuel) l pos ret (total - pos) d (omega arith) here
            (omega arith) off (rw y (omega arith)) (omega arith) (omega arith) (omega arith) in
        let n = total - pos in
        (
          d₁,
          run₁
              ∙ (loop_end fuel total start end_ start_off (l + 1) n (total - (pos + n))
                    (run src (pos + n) (total - (pos + n))) d₁ (omega arith)
                  ∙ (ap (λ t. ok (t, some (total - (pos + n)), d₁)) (omega arith)
                      ∙ ap (λ t. ok (total - end_ * bs, some t, d₁)) (omega arith))),
          s₁,
        )

    next_round :
        (total start end_ start_off fuel l pos ret n : ℕ) (d : dev.Disk)
        → total ≤ blocks * bs
        → pos / bs ≡ l
        → (if l == start then start_off else 0) ≡ pos % bs
        → l < end_
        → pos % bs + n ≡ bs
        → pos + n ≤ total
        → pos < total
        → ((d₁ : dev.Disk) → Goes total start end_ start_off fuel (l + 1) (pos + n) n d₁)
        → Goes total start end_ start_off (suc fuel) l pos ret d
    next_round total start end_ start_off fuel l pos ret n d fits here off lt col upto more rec =
        let x : (l == end_) ≡ false = ==-false l end_ (λ e. absurd (omega arith)) in
        let (d₁, run₁, s₁) =
          round total start end_ start_off fuel l pos ret n d (omega arith) here (omega arith) off
            (rw x (omega arith)) (omega arith) upto (omega arith) in
        let (d₂, run₂, s₂) = rec d₁ in
        (
          d₂,
          run₁ ∙ run₂,
          subst (λ t. Leaves pos t d d₂) (omega arith)
              (Leaves-join pos n (total - (pos + n)) d d₁ d₂ s₁ s₂),
        )

    pub write_loop_lem :
        (total start end_ start_off fuel l pos ret : ℕ) (d : dev.Disk)
        → total ≤ blocks * bs
        → end_ ≡ (total - 1) / bs
        → pos / bs ≡ l
        → (if l == start then start_off else 0) ≡ pos % bs
        → (l ≡ end_ → pos ≡ l * bs)
        → start ≤ l
        → pos < total
        → total - pos ≤ fuel
        → Goes total start end_ start_off (suc fuel) l pos ret d
    write_loop_lem total start end_ start_off zero l pos ret d fits last here off whole after more
          enough =
        absurd (omega arith)
    write_loop_lem total start end_ start_off (suc fuel) l pos ret d fits last here off whole after
          more enough =
        let bs_l : l * bs + pos % bs ≡ pos =
          ap (λ t. t * bs + pos % bs) (sym here) ∙ parts_of pos in
        let col = mod-lt pos bs_pos in
        let bs_end : end_ * bs + (total - 1) % bs ≡ total - 1 =
          ap (λ t. t * bs + (total - 1) % bs) last ∙ parts_of (total - 1) in
        let col' = mod-lt (total - 1) bs_pos in
        elim (Bool-cases (l == end_)) [
          | inl y ↦
              let e : l ≡ end_ = ground arith in
              let start_of = whole e in
              last_round total start end_ start_off fuel l pos ret d fits here off e start_of
                (omega arith) more (omega arith)
          | inr x ↦
              let ne : l ≢ end_ = λ e. absurd (ground arith) in
              let lt : l < end_ = elim (Bool-cases (ltb l end_)) [
                | inl z ↦ ground arith
                | inr z ↦
                    let gt : end_ < l = ground arith in absurd (omega (arith, row_le bs end_ l gt))
              ] in
              let n = bs - pos % bs in
              let gap = row_le bs l end_ lt in
              let next : pos + n ≡ (l + 1) * bs + 0 = grind arith in
              let later : (l + 1 == start) ≡ false = ground arith in
              next_round total start end_ start_off (suc fuel) l pos ret n d fits here off lt
                (omega arith) (omega arith) more
                (λ d₁.
                  write_loop_lem total start end_ start_off fuel (l + 1) (pos + n) n d₁ fits last
                    (ap (λ t. t / bs) next ∙ div-slot bs (l + 1) 0 bs_pos)
                    (rw later (sym (ap (λ t. t % bs) next ∙ mod-slot bs (l + 1) 0 bs_pos)))
                    (λ e. omega arith) (omega arith) (omega arith) (omega arith))
        ]
