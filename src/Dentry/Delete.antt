-- ===== src/Dentry/Delete.antt =====
-- An entry taken out of a block (`dentry_delete` of src/dentry.c), and what `dentry_find` sees of it
-- and of a new entry afterwards.
use mathlib.Core.Path.{subst}
use kfs.Base.{
  ℕ, ◌+◌, ◌≤◌, ◌<◌, ◌≡◌, ◌≢◌, ◌^◌, refl, sym, ap, ◌∙◌, List, [], ◌∷◌, ◌++◌, length, length-append,
  Option, none, some, ok, put_u16, u16_at, arith, Bool, true, false, ◌>>=◌, if◌then◌else◌, inl, inr,
  All, All-append, ==-true, ==-false,
}
use kfs.Ext4.Super.{SuperBlock}
use kfs.Disk.{Pread}
use kfs.Inode.{get_size}
use kfs.Icache.{IcacheEntry, lru_inc, set_last_de}
use kfs.Dentry.{Dir, is_at, dcache_init, dentry_find, dentry_delete}
use kfs.Dentry.Writes.{Holds-Frame}
use kfs.Dentry.Chain.{
  Entry, Fits, Chain, Chain-le, Chain-append, Chain-split, Chain-Frame, IsTail, tail_bytes,
  rec_len_at,
}
use kfs.Dentry.Find.{Block, same, position, dentry_find-position}
use kfs.Dentry.Create.{new_length}

-- No entry of the list has the name.
abbrev pub Without : List ℕ → List Entry → Type 0
Without name = All (λ (e : Entry). same e.name name ≡ false)

-- The place behind the entries `es` that start at `p`.
abbrev pub place_after : ℕ → List Entry → ℕ
place_after p [] = p
place_after p (e ∷ es) = place_after (p + e.rec_len) es

pub position-absent :
    (name : List ℕ) (prev : Option ℕ) (p : ℕ) (es : List Entry)
    → Without name es
    → position name prev p es ≡ none
position-absent name prev p [] h = refl
position-absent name prev p (e ∷ es) h =
    rw (position, h.0) (position-absent name (some p) (p + e.rec_len) es h.1)

pub position-second :
    (name : List ℕ) (prev : Option ℕ) (p : ℕ) (es : List Entry) (a b : Entry) (fs : List Entry)
    → Without name es
    → same a.name name ≡ false
    → same b.name name ≡ true
    → position name prev p (es ++ (a ∷ (b ∷ fs)))
      ≡ some (some (place_after p es), place_after p es + a.rec_len)
position-second name prev p [] a b fs h k l = rw (position, k, position, l) refl
position-second name prev p (e ∷ es) a b fs h k l =
    rw (position, h.0) (position-second name (some p) (p + e.rec_len) es a b fs h.1 k l)

pub Chain-place :
    (buf : List ℕ) (p : ℕ) (es : List Entry) (q : ℕ) → Chain buf p es q → place_after p es ≡ q
Chain-place buf p [] q c = c
Chain-place buf p (e ∷ es) q c = Chain-place buf (p + e.rec_len) es q c.1

-- `a` with the record of `b`, which follows it, added.
abbrev pub merged : Entry → Entry → Entry
merged a b = record a { rec_len = a.rec_len + b.rec_len }

-- The write of `dentry_delete`.
merge_lem :
    (buf : List ℕ) (es : List Entry) (a b : Entry) (fs : List Entry) (q : ℕ)
    → Chain buf 0 (es ++ (a ∷ (b ∷ fs))) q
    → IsTail buf q
    → q < 2 ^ 16
    → q + 12 ≤ length buf
    → let p = place_after 0 es in
      (u16_at buf (p + 4) ≡ ok a.rec_len)
      × (u16_at buf (p + a.rec_len + 4) ≡ ok b.rec_len)
      × ((buf' : List ℕ) × (put_u16 buf (p + 4) (a.rec_len + b.rec_len) ≡ ok buf')
          × Chain buf' 0 (es ++ (merged a b ∷ fs)) q
          × IsTail buf' q
          × (length buf' ≡ length buf))
merge_lem buf es a b fs q chain tail small whole =
    let (m, left, ((fits_a, held_a), ((fits_b, held_b), right))) =
      Chain-split buf 0 es (a ∷ (b ∷ fs)) q chain in
    let le = Chain-le buf (m + a.rec_len + b.rec_len) fs q right in
    let ra = fits_a.room in
    let rb = fits_b.room in
    let al = fits_a.aligned in
    let bl = fits_b.aligned in
    let (buf', run, f, held') = new_length buf m (a.rec_len + b.rec_len) a held_a (omega arith) in
    let fits : Fits (merged a b) = record {
      inode_small = fits_a.inode_small;
      rec_small = omega arith;
      name_small = fits_a.name_small;
      named = fits_a.named;
      room = omega arith;
      aligned = omega arith;
    } in
    let right' : Chain buf (m + (a.rec_len + b.rec_len)) fs q =
      subst (λ t. Chain buf t fs q) (omega arith) right in
    let at_m = Chain-place buf 0 es m left in
    (
      rw at_m (rec_len_at buf m a fits_a held_a),
      rw at_m (rec_len_at buf (m + a.rec_len) b fits_b held_b),
      (
        buf',
        rw at_m run,
        Chain-append buf' 0 es (merged a b ∷ fs) m q
            (Chain-Frame (m + 4) 2 f 0 es m (inl (omega arith)) left)
            (
              (fits, held'),
              Chain-Frame (m + 4) 2 f (m + (a.rec_len + b.rec_len)) fs q (inr (omega arith)) right',
            ),
        Holds-Frame (m + 4) 2 q tail_bytes f (inr (omega arith)) tail,
        f.same_length,
      ),
    )

same_inode :
    (b : Bool) (e : IcacheEntry) (o : Option ℕ)
    → let e' : IcacheEntry = if b then set_last_de e o else e in e'.inode ≡ e.inode
same_inode true e o = refl
same_inode false e o = refl

set_back :
    (b : Bool) (e : IcacheEntry) (o : Option ℕ)
    → let e' : IcacheEntry = if b then set_last_de e o else e in
      e'.last_de ≡ (if b then o else e.last_de)
set_back true e o = refl
set_back false e o = refl

module _ (sb : SuperBlock) (pread : Pread) (depth : ℕ) where
  -- `dentry_delete` of an entry that has another before it, in a directory whose one block is in the
  -- buffer: it succeeds; the entry is gone, the one before it has its space, all others and the tail
  -- stand as they did; the place of the last entry that the cached inode knows is set back to the one
  -- before where it was the deleted one. Where no other entry has the name, `dentry_find` does not
  -- find it any more.
  pub dentry_delete-removes :
      (fuel : ℕ) (dir : Dir) (es : List Entry) (a b : Entry) (fs : List Entry) (q inode_idx : ℕ)
      (name : List ℕ)
      → Block sb dir (es ++ (a ∷ (b ∷ fs))) q
      → dir.dcache.inode_idx ≡ inode_idx
      → inode_idx ≢ 0
      → q < 2 ^ 16
      → q + 12 ≤ length dir.dcache.buf
      → Without name es
      → same a.name name ≡ false
      → same b.name name ≡ true
      → length (es ++ (a ∷ (b ∷ fs))) < fuel
      → (dir' : Dir) × (dentry_delete sb pread depth fuel dir inode_idx name ≡ ok dir')
        × Block sb dir' (es ++ (merged a b ∷ fs)) q
        × (dir'.entry.last_de ≡ (
            if is_at dir.entry.last_de (place_after 0 es + a.rec_len)
            then some (place_after 0 es)
            else dir.entry.last_de))
        × (Without name fs
            → (dir'' : Dir) × (dentry_find sb pread depth fuel dir' inode_idx (some name)
                ≡ ok (dir'', none)))
  unfolding dentry_delete dcache_init lru_inc
  dentry_delete-removes fuel dir es a b fs q inode_idx name block own ne small whole no_es no_a is_b
        enough =
      let p = place_after 0 es in
      let buf = dir.dcache.buf in
      let (at_a, at_b, (buf', run, chain', tail', len')) =
        merge_lem buf es a b fs q block.chain block.tail small whole in
      let dir₁ : Dir = record dir { entry = lru_inc dir.entry } in
      let dir₂ : Dir = record dir₁ { entry = lru_inc dir₁.entry } in
      let block₁ : Block sb dir₁ (es ++ (a ∷ (b ∷ fs))) q = record {
        first_block = block.first_block;
        chain = block.chain;
        tail = block.tail;
        in_block = block.in_block;
        in_size = block.in_size;
        in_range = block.in_range;
      } in
      let found =
        dentry_find-position sb pread depth fuel dir₁ (es ++ (a ∷ (b ∷ fs))) q inode_idx name block₁
          own ne enough
        ∙ ap (λ f. ok (dir₂, f)) (position-second name none 0 es a b fs no_es no_a is_b) in
      let last_de = dir.entry.last_de in
      let test = is_at last_de (p + a.rec_len) in
      let rest = es ++ (merged a b ∷ fs) in
      let shorter : length rest < fuel =
        omega (arith, length-append es (merged a b ∷ fs), length-append es (a ∷ (b ∷ fs))) in
      let entry : IcacheEntry = if test then set_last_de dir₂.entry (some p) else dir₂.entry in
      let dir' : Dir = record { entry = entry; dcache = record dir₂.dcache { buf = buf' } } in
      let block' : Block sb dir' rest q = record {
        first_block = block.first_block;
        chain = chain';
        tail = tail';
        in_block = block.in_block;
        in_size =
            subst (λ i. q < get_size i) (sym (same_inode test dir₂.entry (some p))) block.in_size;
        in_range = block.in_range;
      } in
      (
        dir',
        rw
            (
              ==-false inode_idx 0 ne,
              ◌>>=◌,
              ==-true dir.dcache.inode_idx inode_idx own,
              ==-true dir.dcache.lblock 0 block.first_block,
              ◌>>=◌,
              found,
              ◌>>=◌,
              at_a,
              ◌>>=◌,
              at_b,
              ◌>>=◌,
              run,
            )
            refl,
        block',
        set_back test dir₂.entry (some p),
        λ no_fs. (
          record dir' { entry = lru_inc dir'.entry },
          dentry_find-position sb pread depth fuel dir' rest q inode_idx name block' own ne shorter
              ∙ ap (λ f. ok (record dir' { entry = lru_inc dir'.entry }, f))
                  (position-absent name none 0 rest (
                    All-append (λ (e : Entry). same e.name name ≡ false) es (merged a b ∷ fs) no_es
                      (no_a, no_fs))),
        ),
      )
