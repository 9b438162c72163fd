-- ===== src/Dentry/Find.antt =====
-- The search of a directory block (`dentry_find`, `dentry_last` of src/dentry.c) against a search
-- of the list of its entries.
use mathlib.Core.Path.{subst}
use kfs.Base.{
  ℕ, zero, suc, ◌+◌, ◌*◌, ◌/◌, ◌%◌, ◌≤◌, ◌<◌, ◌≡◌, ◌≢◌, ◌^◌, refl, sym, ap, ◌∙◌, List, [], ◌∷◌,
  length, Option, none, some, ok, arith, Bool, true, false, ◌&&◌, ◌==◌, ◌>>=◌, if◌then◌else◌,
  ==-true, ==-false, leb-true, div-slot, mod-slot, Bool-cases, inl, inr, u64,
}
use kfs.Ext4.Super.{SuperBlock, block_size}
use kfs.Disk.{Pread}
use kfs.Inode.{get_size}
use kfs.Icache.{is_valid, lru_inc, set_last_de}
use kfs.Dentry.{
  Dir, Found, name_at, is_named, dcache_init, dentry_next, find_loop, dentry_find, dentry_last,
}
use kfs.Dentry.Writes.{Holds}
use kfs.Dentry.Chain.{
  Entry, Chain, Chain-le, IsTail, inode_at, rec_len_at, name_len_at, name_held, tail_inode,
  tail_name_len, tail_type,
}

abbrev pub same : List ℕ → List ℕ → Bool
same [] [] = true
same [] (d ∷ ds) = false
same (c ∷ cs) [] = false
same (c ∷ cs) (d ∷ ds) = elim (c == d) [ true ↦ same cs ds | false ↦ false ]

-- Where the first entry of that name starts, and where the one before it does; `prev` is the entry
-- before `p`.
abbrev pub position : List ℕ → Option ℕ → ℕ → List Entry → Found
position name prev p [] = none
position name prev p (e ∷ es) = elim (same e.name name) [
  | true ↦ some (prev, p)
  | false ↦ position name (some p) (p + e.rec_len) es
]

-- Where the last entry starts.
abbrev pub last_place : Option ℕ → ℕ → List Entry → Option ℕ
last_place prev p [] = prev
last_place prev p (e ∷ es) = last_place (some p) (p + e.rec_len) es

name_at-same :
    (buf : List ℕ) (a : ℕ) (bs name : List ℕ)
    → Holds buf a bs
    → length name ≡ length bs
    → name_at buf a name ≡ ok (same bs name)
unfolding name_at
name_at-same buf a [] [] h l = refl
name_at-same buf a [] (d ∷ name) h l = absurd (omega arith)
name_at-same buf a (c ∷ bs) [] h l = absurd (omega arith)
name_at-same buf a (c ∷ bs) (d ∷ name) h l =
    let rest = name_at-same buf (a + 1) bs name h.1 (omega arith) in
    elim (Bool-cases (c == d)) [
      | inl e ↦ rw (h.0, ◌>>=◌, e, same) rest
      | inr e ↦ rw (h.0, ◌>>=◌, e, same) refl
    ]

other_length : (bs name : List ℕ) → length name ≢ length bs → same bs name ≡ false
other_length [] [] ne = absurd (ne refl)
other_length [] (d ∷ name) ne = refl
other_length (c ∷ bs) [] ne = refl
other_length (c ∷ bs) (d ∷ name) ne =
    let rest = other_length bs name (λ e. ne (ap suc e)) in
    elim (Bool-cases (c == d)) [ inl e ↦ rw (same, e) rest | inr e ↦ rw (same, e) refl ]

named_lem :
    (buf : List ℕ) (p : ℕ) (bs name : List ℕ)
    → Holds buf (p + 8) bs
    → is_named buf p (length bs) (some name) ≡ ok (same bs name)
unfolding is_named
named_lem buf p bs name h = elim (Bool-cases (length name == length bs)) [
  | inl e ↦ rw e (name_at-same buf (p + 8) bs name h (ground arith))
  | inr e ↦ let ne : length name ≢ length bs = ground arith in rw (e, other_length bs name ne) refl
]

either : (o : Option ℕ) (b : Bool) → (if b then o else o) ≡ o
either o true = refl
either o false = refl

same_place :
    (o : Option ℕ)
    → elim (elim o as (λ _. Found) [ none ↦ none | some de ↦ some (none, de) ]) as (λ _. Option ℕ) [
      | none ↦ none
      | some (_, de) ↦ some de
    ]
      ≡ o
same_place none = refl
same_place (some de) = refl

-- The buffer has the first block of the directory: entries up to `q`, then the tail.
pub record Block (sb : SuperBlock) (dir : Dir) (es : List Entry) (q : ℕ) : Type 0 where
  pub first_block : dir.dcache.lblock ≡ 0
  pub chain : Chain dir.dcache.buf 0 es q
  pub tail : IsTail dir.dcache.buf q
  pub in_block : q < block_size sb
  pub in_size : q < get_size dir.entry.inode
  pub in_range : q < 2 ^ 64

module _ (sb : SuperBlock) (pread : Pread) (depth : ℕ) where
  module _ (dir : Dir) (first : dir.dcache.lblock ≡ 0) (q : ℕ) (in_block : q < block_size sb)
      (in_size : q < get_size dir.entry.inode) (in_range : q < 2 ^ 64)
      (tail : IsTail dir.dcache.buf q) where
    at_place : (p : ℕ) → p ≤ q → dentry_next sb pread depth 2 dir p ≡ ok (dir, some p)
    unfolding dentry_next
    at_place p le =
        let size = block_size sb in
        let whole : p ≡ 0 * size + p = omega arith in
        let block : p / size ≡ dir.dcache.lblock =
          ap (λ t. t / size) whole ∙ div-slot size 0 p (omega arith) ∙ sym first in
        let place : p % size ≡ p = ap (λ t. t % size) whole ∙ mod-slot size 0 p (omega arith) in
        rw
          (
            leb-true p (get_size dir.entry.inode) (omega arith),
            ◌>>=◌,
            ==-false (get_size dir.entry.inode) p (λ e. absurd (omega arith)),
            ==-true (p / size) dir.dcache.lblock block,
            place,
          )
          refl

    abbrev buf : List ℕ
    buf = dir.dcache.buf

    -- The loop from an entry on.
    find_name :
        (name : List ℕ) (fuel : ℕ) (prev : Option ℕ) (p : ℕ) (es : List Entry)
        → length es < fuel
        → Chain buf p es q
        → find_loop sb pread depth fuel (some name) dir p prev ≡ ok (dir, position name prev p es)
    unfolding find_loop
    find_name name zero prev p es lt c = absurd (omega arith)
    find_name name (suc fuel) prev p [] lt c =
        let here : IsTail buf p = subst (λ t. IsTail buf t) (sym c) tail in
        let le : p ≤ q = let e : p ≡ q = c in omega arith in
        rw
          (
            at_place p le,
            ◌>>=◌,
            tail_inode buf p here,
            ◌>>=◌,
            tail_name_len buf p here,
            ◌>>=◌,
            tail_type buf p here,
          )
          refl
    find_name name (suc fuel) prev p (e ∷ es) lt ((fits, held), c) =
        let le = Chain-le buf (p + e.rec_len) es q c in
        let rest = find_name name fuel (some p) (p + e.rec_len) es (omega arith) c in
        let live : (e.inode_idx == 0 && length e.name == 0) ≡ false = ground (arith, fits.named) in
        let onward : u64 (p + e.rec_len) ≡ p + e.rec_len = omega arith in
        rw
          (
            at_place p (omega (arith, fits.room)),
            ◌>>=◌,
            inode_at buf p e fits held,
            ◌>>=◌,
            name_len_at buf p e fits held,
            ◌>>=◌,
            live,
            rec_len_at buf p e fits held,
            ◌>>=◌,
            named_lem buf p e.name name (name_held buf p e fits held),
            ◌>>=◌,
          )
          (elim (Bool-cases (same e.name name)) [
            | inl y ↦ rw (y, position) refl
            | inr n ↦ rw (n, position, onward) rest
          ])

    find_last :
        (fuel : ℕ) (prev : Option ℕ) (p : ℕ) (es : List Entry)
        → length es < fuel
        → Chain buf p es q
        → find_loop sb pread depth fuel none dir p prev
          ≡ ok (
            record dir { entry = set_last_de dir.entry (last_place prev p es) },
            elim (last_place prev p es) as (λ _. Found) [ none ↦ none | some de ↦ some (none, de) ],
          )
    unfolding find_loop is_named
    find_last zero prev p es lt c = absurd (omega arith)
    find_last (suc fuel) prev p [] lt c =
        let here : IsTail buf p = subst (λ t. IsTail buf t) (sym c) tail in
        let le : p ≤ q = let e : p ≡ q = c in omega arith in
        rw
          (
            at_place p le,
            ◌>>=◌,
            tail_inode buf p here,
            ◌>>=◌,
            tail_name_len buf p here,
            ◌>>=◌,
            tail_type buf p here,
          )
          refl
    find_last (suc fuel) prev p (e ∷ es) lt ((fits, held), c) =
        let le = Chain-le buf (p + e.rec_len) es q c in
        let rest = find_last fuel (some p) (p + e.rec_len) es (omega arith) c in
        let live : (e.inode_idx == 0 && length e.name == 0) ≡ false = ground (arith, fits.named) in
        let onward : u64 (p + e.rec_len) ≡ p + e.rec_len = omega arith in
        rw
          (
            at_place p (omega (arith, fits.room)),
            ◌>>=◌,
            inode_at buf p e fits held,
            ◌>>=◌,
            name_len_at buf p e fits held,
            ◌>>=◌,
            live,
            rec_len_at buf p e fits held,
            ◌>>=◌,
            ==-false (length e.name) 0 (λ z. absurd (omega (arith, fits.named))),
            onward,
          )
          rest

  -- In a directory whose one block is in the buffer, `dentry_find` with a name finds the first entry of
  -- that name and the one before it, or nothing where no entry has the name, and changes only the
  -- count of uses of the cached inode.
  pub dentry_find-position :
      (fuel : ℕ) (dir : Dir) (es : List Entry) (q inode_idx : ℕ) (name : List ℕ)
      → Block sb dir es q
      → dir.dcache.inode_idx ≡ inode_idx
      → inode_idx ≢ 0
      → length es < fuel
      → dentry_find sb pread depth fuel dir inode_idx (some name)
        ≡ ok (record dir { entry = lru_inc dir.entry }, position name none 0 es)
  unfolding dentry_find dcache_init lru_inc
  dentry_find-position fuel dir es q inode_idx name b own ne enough =
      rw
        (
          ==-false inode_idx 0 ne,
          ◌>>=◌,
          ==-true dir.dcache.inode_idx inode_idx own,
          ==-true dir.dcache.lblock 0 b.first_block,
          ◌>>=◌,
        )
        (find_name (record dir { entry = lru_inc dir.entry }) b.first_block q b.in_block b.in_size
          b.in_range b.tail name fuel none 0 es enough b.chain)

  -- `dentry_last` in such a directory, where the cached inode knows no last entry: it is found by the
  -- search, and is known from then on.
  pub dentry_last-finds :
      (fuel : ℕ) (dir : Dir) (es : List Entry) (q inode_idx : ℕ)
      → Block sb dir es q
      → dir.dcache.inode_idx ≡ inode_idx
      → inode_idx ≢ 0
      → dir.entry.last_de ≡ none
      → length es < fuel
      → dentry_last sb pread depth fuel dir inode_idx
        ≡ ok (
          record dir { entry = set_last_de (lru_inc (lru_inc dir.entry)) (last_place none 0 es) },
          last_place none 0 es,
        )
  unfolding dentry_last dentry_find dcache_init lru_inc
  dentry_last-finds fuel dir es q inode_idx b own ne unknown enough =
      let run =
        find_last (record dir { entry = lru_inc (lru_inc dir.entry) }) b.first_block q b.in_block
          b.in_size b.in_range b.tail fuel none 0 es enough b.chain in
      rw
        (
          ==-false inode_idx 0 ne,
          ◌>>=◌,
          ==-true dir.dcache.inode_idx inode_idx own,
          ==-true dir.dcache.lblock 0 b.first_block,
          ◌>>=◌,
          unknown,
          either none (is_valid dir.entry),
          ==-false inode_idx 0 ne,
          ◌>>=◌,
          ==-true dir.dcache.inode_idx inode_idx own,
          ==-true dir.dcache.lblock 0 b.first_block,
          ◌>>=◌,
          run,
          ◌>>=◌,
        )
        (ap
          (λ (o : Option ℕ). ok (
            record dir { entry = set_last_de (lru_inc (lru_inc dir.entry)) (last_place none 0 es) },
            o,
          ))
          (same_place (last_place none 0 es)))
