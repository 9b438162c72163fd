-- ===== src/Decache/Insert.antt =====
-- A new entry in front of the children of its parent (`decache_insert` of src/cache.c).
use kfs.Base.{
  ℕ, suc, ◌+◌, ◌-◌, ◌<◌, ◌≤◌, ◌≡◌, ◌≢◌, refl, sym, ◌∙◌, List, Option, none, some, true, false, not,
  Res, ok, assert, arith, length, get_elem?, lt-length_of_some, inl, inr, Bool-cases, ◌>>=◌, ◌==◌,
  ltb-false, ==-true, ==-false,
}
use kfs.Decache.{
  Node, Store, assign, or_root, max_children, name_max, ext4_name_len, evict, link_front,
  decache_insert,
}
use kfs.Decache.Forest.{
  Forest, nil, kid, width, Cell, Out, Shallow, IsForest-below, Everywhere-Out_of_below,
}
use kfs.Decache.Cells.{assign-Cell}
use kfs.Decache.Evict.{all_but_last, Out-all_but_last, evict_lem}
use kfs.Decache.Front.{Cached, room, blank, grown, grown_kept, grown_new, grown_forest, push_front}

root_used :
    (parent : Option ℕ) (top : Node)
    → top.inode_idx ≢ 0
    → elim parent as (λ _. Res (Unit {0})) [
      | none ↦ assert (not (top.inode_idx == 0))
      | some _ ↦ ok tt
    ]
      ≡ ok tt
root_used none top used = rw (==-false top.inode_idx 0 used) refl
root_used (some p) top used = refl

-- What `decache_insert` of a name that fits comes to, once room is made.
insert_run :
    (fuel : ℕ) (h h₁ : Store) (parent : Option ℕ) (name : List ℕ) (n : ℕ) (top : Node)
    → Cell h (or_root parent) top
    → top.inode_idx ≢ 0
    → length name ≤ ext4_name_len
    → top.count ≢ 0
    → (elim (top.count == max_children) as (λ _. Res Store) [
      | true ↦ evict fuel (grown h (or_root parent) name n) (or_root parent)
      | false ↦ ok (grown h (or_root parent) name n)
    ]
        ≡ ok h₁)
    → decache_insert fuel h parent name n ≡ link_front h₁ (or_root parent) (length h)
unfolding decache_insert
insert_run fuel h h₁ parent name n top cell used short some_ made =
    rw
      (
        decache_insert,
        ltb-false name_max (length name + 1) (omega arith),
        cell,
        ◌>>=◌,
        root_used parent top used,
        ◌>>=◌,
        ==-false top.count 0 some_,
        made,
      )
      refl

insert_first :
    (fuel : ℕ) (h h₁ : Store) (parent : Option ℕ) (name : List ℕ) (n : ℕ) (top : Node)
    → Cell h (or_root parent) top
    → top.inode_idx ≢ 0
    → length name ≤ ext4_name_len
    → top.count ≡ 0
    → assign
        (grown h (or_root parent) name n)
        (or_root parent)
        (λ p. record p { childs = some (length h); count = 1; last_child = some (length h) })
      ≡ ok h₁
    → decache_insert fuel h parent name n ≡ ok (h₁, some (length h))
unfolding decache_insert
insert_first fuel h h₁ parent name n top cell used short none_ made =
    rw
      (
        decache_insert,
        ltb-false name_max (length name + 1) (omega arith),
        cell,
        ◌>>=◌,
        root_used parent top used,
        ◌>>=◌,
        ==-true top.count 0 none_,
        made,
      )
      refl

-- `decache_insert` of a name of at most 254 bytes under an entry: the new entry is its first child, in
-- front of those that were there, less the last of them where there were 20 already; nothing else
-- changes but the evicted entry and what is below it.
module _ (d : ℕ) (h : Store) (parent : Option ℕ) (name : List ℕ) (n : ℕ) where
  -- What the operation gives.
  abbrev pub Inserts : Forest → Type 0
  Inserts f =
      (h' : Store) × (decache_insert (suc d) h parent name n ≡ ok (h', some (length h)))
      × Cached h' (or_root parent) (kid (length h) name n nil (room f))
      × ((q : ℕ) → q < length h → q ≢ or_root parent → Out q f → get_elem? h' q ≡ get_elem? h q)

  -- Under a full parent.
  insert_full :
      (a : ℕ) (nm : List ℕ) (ino : ℕ) (below rest : Forest)
      (c : Cached h (or_root parent) (kid a nm ino below rest))
      → c.children.top.inode_idx ≢ 0
      → length name ≤ ext4_name_len
      → Shallow (suc d) (kid a nm ino below rest)
      → (width (kid a nm ino below rest) == max_children) ≡ true
      → Inserts (kid a nm ino below rest)
  insert_full a nm ino below nil c used short sh full = absurd (ground arith)
  insert_full a nm ino below (kid b nm' ino' below' rest) c used short sh full =
      let p = or_root parent in
      let f = kid a nm ino below (kid b nm' ino' below' rest) in
      let top = c.children.top in
      let inside = lt-length_of_some h p c.children.cell in
      let new_p : length h ≢ p = λ e. absurd (omega arith) in
      let linked = c.children.linked in
      let fresh : Out (length h) f =
        Everywhere-Out_of_below (length h) f
          (IsForest-below h p none top.childs f top.last_child linked) in
      let count = c.children.count in
      let (h₁, last', made, cell₁, linked₁, dis₁, out₁, width₁, len₁, same₁) =
        evict_lem d (grown h p name n) p top a nm ino below b nm' ino' below' rest
          (grown_kept h p name n p inside ∙ c.children.cell)
          (grown_forest h p name n p none top.childs top.last_child f linked) c.distinct c.out sh in
      let top' : Node = record top { last_child = last'; count = top.count - 1 } in
      let new₁ = same₁ (length h) new_p fresh ∙ grown_new h p name n in
      let fresh₁ = Out-all_but_last (length h) a nm ino below (kid b nm' ino' below' rest) fresh in
      let (h', run, kids, len, same_) =
        push_front h₁ p (length h) a top' name n nm ino below (all_but_last b nm' ino' below' rest)
          cell₁ new₁ (omega arith) linked₁ dis₁ out₁ fresh₁ new_p in
      (
        h',
        insert_run (suc d) h h₁ parent name n top c.children.cell used short
              (λ e. absurd (omega arith)) (rw (count, full) made)
            ∙ run,
        rw (room, full)
            (record {
              children = kids;
              distinct = (tt, fresh₁, tt, tt, dis₁);
              out = ((λ e. new_p (sym e)), tt, out₁);
              fits = ground (arith, c.fits, width₁);
            }),
        λ q lt ne o.
            same_ q ne (λ e. absurd (omega arith))
              (Out-all_but_last q a nm ino below (kid b nm' ino' below' rest) o)
            ∙ same₁ q ne o
            ∙ grown_kept h p name n q lt,
      )

  pub decache_insert-front :
      (f : Forest) (c : Cached h (or_root parent) f)
      → c.children.top.inode_idx ≢ 0
      → length name ≤ ext4_name_len
      → Shallow (suc d) f
      → Inserts f
  decache_insert-front nil c used short sh =
      let p = or_root parent in
      let top = c.children.top in
      let inside = lt-length_of_some h p c.children.cell in
      let new_p : length h ≢ p = λ e. absurd (omega arith) in
      let (h₁, run, cell, only) =
        assign-Cell (grown h p name n) p top
          (λ p. record p { childs = some (length h); count = 1; last_child = some (length h) })
          (grown_kept h p name n p inside ∙ c.children.cell) in
      (
        h₁,
        insert_first (suc d) h h₁ parent name n top c.children.cell used short c.children.count run,
        record {
          children = record {
            top = record top { childs = some (length h); count = 1; last_child = some (length h) };
            cell = cell;
            count = refl;
            linked = (
              refl,
              (
                blank p name n,
                only.elsewhere (length h) new_p ∙ grown_new h p name n,
                refl,
                refl,
                refl,
                refl,
                refl,
                (refl, refl),
                (refl, refl),
              ),
            );
          };
          distinct = (tt, tt, tt, tt, tt);
          out = ((λ e. new_p (sym e)), tt, tt);
          fits = omega arith;
        },
        λ q lt ne o. only.elsewhere q ne ∙ grown_kept h p name n q lt,
      )
  decache_insert-front (kid a nm ino below rest) c used short sh =
      let p = or_root parent in
      let f = kid a nm ino below rest in
      let top = c.children.top in
      let inside = lt-length_of_some h p c.children.cell in
      let new_p : length h ≢ p = λ e. absurd (omega arith) in
      let linked = c.children.linked in
      let fresh : Out (length h) f =
        Everywhere-Out_of_below (length h) f
          (IsForest-below h p none top.childs f top.last_child linked) in
      let count = c.children.count in
      let some_ : top.count ≢ 0 = λ e. absurd (omega arith) in
      let linked₀ = grown_forest h p name n p none top.childs top.last_child f linked in
      let cell₀ = grown_kept h p name n p inside ∙ c.children.cell in
      elim (Bool-cases (width f == max_children)) [
        | inr less ↦
            let (h', run, kids, len, same_) =
              push_front (grown h p name n) p (length h) a top name n nm ino below rest cell₀
                (grown_new h p name n) count linked₀ c.distinct c.out fresh new_p in
            (
              h',
              insert_run (suc d) h (grown h p name n) parent name n top c.children.cell used short
                    some_ (rw (count, less) refl)
                  ∙ run,
              rw (room, less)
                  (record {
                    children = kids;
                    distinct = (tt, fresh, tt, tt, c.distinct);
                    out = ((λ e. new_p (sym e)), tt, c.out);
                    fits = ground (arith, c.fits);
                  }),
              λ q lt ne o. same_ q ne (λ e. absurd (omega arith)) o ∙ grown_kept h p name n q lt,
            )
        | inl full ↦ insert_full a nm ino below rest c used short sh full
      ]
