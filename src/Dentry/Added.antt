-- ===== src/Dentry/Added.antt =====
-- A new entry that is found again (`dentry_create`, `dentry_find` of src/dentry.c).
use mathlib.Core.Path.{subst}
use kfs.Base.{
  ℕ, ◌+◌, ◌≤◌, ◌<◌, ◌≡◌, ◌≢◌, ◌^◌, refl, sym, ap, ◌∙◌, List, [], ◌∷◌, ◌++◌, length, length-append,
  none, some, ok, arith, true, false, ==-true,
}
use kfs.Ext4.Super.{SuperBlock}
use kfs.Disk.{Pread}
use kfs.Icache.{lru_inc}
use kfs.Dentry.{Dir, dentry_create, dentry_find, has_enough_space}
use kfs.Dentry.Chain.{Entry, Chain, entry_bytes, Chain-split}
use kfs.Dentry.Writes.{Holds}
use kfs.Dentry.Find.{Block, same, dentry_find-position}
use kfs.Dentry.Create.{real_length, new_entry, dentry_create-Chain}
use kfs.Dentry.Delete.{Without, place_after, position-second, Chain-place}

same_self : (name : List ℕ) → same name name ≡ true
same_self [] = refl
same_self (c ∷ name) = rw (same, ==-true c c refl) (same_self name)

-- `e` cut to the space that its name needs.
abbrev pub shrunk : Entry → Entry
shrunk e = record e { rec_len = real_length e }

module _ (sb : SuperBlock) (pread : Pread) (depth : ℕ) where
  -- `dentry_create` behind the last entry of a directory whose one block is in the buffer, where
  -- `dentry_has_enough_space` says that there is room and no entry has the name: it succeeds, the
  -- block has the old entries and then the new one, and `dentry_find` finds the new one, with the
  -- formerly last entry before it.
  pub dentry_create-found :
      (fuel : ℕ) (dir : Dir) (es : List Entry) (e : Entry) (q own_idx inode_idx file_type : ℕ)
      (name : List ℕ)
      → Block sb dir (es ++ (e ∷ [])) q
      → dir.dcache.inode_idx ≡ own_idx
      → own_idx ≢ 0
      → q + 12 ≤ length dir.dcache.buf
      → 0 < length name
      → length name < 2 ^ 8
      → inode_idx < 2 ^ 32
      → has_enough_space dir.dcache.buf (place_after 0 es) (length name) ≡ ok true
      → Without name es
      → same e.name name ≡ false
      → length es + 2 < fuel
      → let de = place_after 0 es + real_length e in
        (dir' : Dir) × (dentry_create dir.dcache.buf (place_after 0 es) name inode_idx file_type
          ≡ ok (dir'.dcache.buf, de))
        × Block sb dir' (es ++ (shrunk e ∷ (new_entry e inode_idx file_type name ∷ []))) q
        × (dentry_find sb pread depth fuel dir' own_idx (some name)
            ≡ ok (record dir' { entry = lru_inc dir'.entry }, some (some (place_after 0 es), de)))
  dentry_create-found fuel dir es e q own_idx inode_idx file_type name block own ne whole named
        short small enough no_es no_e fuel_left =
      let (m, left, ((fits, held), ends)) =
        Chain-split dir.dcache.buf 0 es (e ∷ []) q block.chain in
      let at_m : place_after 0 es ≡ m = Chain-place dir.dcache.buf 0 es m left in
      let p = place_after 0 es in
      let new = new_entry e inode_idx file_type name in
      let all = es ++ (shrunk e ∷ (new ∷ [])) in
      let (buf', run, chain', tail', len') =
        dentry_create-Chain dir.dcache.buf p e fits
          (subst (λ t. Holds dir.dcache.buf t (entry_bytes e)) (sym at_m) held) 0 q es name
          inode_idx file_type (subst (λ t. Chain dir.dcache.buf 0 es t) (sym at_m) left)
          (ap (λ t. t + e.rec_len) at_m ∙ ends) block.tail whole named short small enough in
      let dir' : Dir = record dir { dcache = record dir.dcache { buf = buf' } } in
      let block' : Block sb dir' all q = record {
        first_block = block.first_block;
        chain = chain';
        tail = tail';
        in_block = block.in_block;
        in_size = block.in_size;
        in_range = block.in_range;
      } in
      (
        dir',
        run,
        block',
        dentry_find-position sb pread depth fuel dir' all q own_idx name block' own ne
              (omega (arith, length-append es (shrunk e ∷ (new ∷ []))))
            ∙ ap (λ f. ok (record dir' { entry = lru_inc dir'.entry }, f))
                (position-second name none 0 es (shrunk e) new [] no_es no_e (same_self name)),
      )
