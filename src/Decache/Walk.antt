-- ===== src/Decache/Walk.antt =====
-- The search for a name among the children of an entry (`decache_walk` of src/cache.c).
use kfs.Base.{
  ℕ, zero, suc, ◌<◌, ◌≤◌, ◌≡◌, refl, List, Option, none, some, ok, fault, assert_failed, arith,
  length, true, false, inl, inr, Bool-cases, ◌>>=◌, ltb-true, ltb-false, ==-false,
}
use kfs.Dentry.Find.{same}
use kfs.Decache.{Node, Store, or_root, walk_loop, decache_walk, ext4_name_len}
use kfs.Decache.Forest.{Forest, nil, kid, width, Cell, IsForest}

-- The first child of that name, with what is below it.
abbrev pub child : List ℕ → Forest → Option (ℕ × Forest)
child name nil = none
child name (kid a nm ino below rest) = elim (same nm name) [
  | true ↦ some (a, below)
  | false ↦ child name rest
]

abbrev pub place : Option (ℕ × Forest) → Option ℕ
place none = none
place (some (a, below)) = some a

-- Entry `p` has the children `f`.
pub record Children (h : Store) (p : ℕ) (f : Forest) : Type 0 where
  pub top : Node
  pub cell : Cell h p top
  pub count : top.count ≡ width f
  pub linked : IsForest h p none top.childs f top.last_child

walk_loop_lem :
    (fuel : ℕ) (h : Store) (name : List ℕ) (parent : ℕ) (prev first : Option ℕ) (a : ℕ)
    (nm : List ℕ) (ino : ℕ) (below rest : Forest) (last : Option ℕ)
    → IsForest h parent prev first (kid a nm ino below rest) last
    → width rest < fuel
    → walk_loop fuel h name a ≡ ok (place (child name (kid a nm ino below rest)))
unfolding walk_loop
walk_loop_lem zero h name parent prev first a nm ino below rest last t enough = absurd (omega arith)
walk_loop_lem (suc fuel) h name parent prev first a nm ino below nil last
      (e, (n, cell, p, q, r, u, c, under, behind)) enough =
    elim (Bool-cases (same nm name)) [
      | inl y ↦ rw (cell, ◌>>=◌, r, y, child) refl
      | inr x ↦ rw (cell, ◌>>=◌, r, x, behind.0, child) refl
    ]
walk_loop_lem (suc fuel) h name parent prev first a nm ino below (kid b nm' ino' below' rest') last
      (e, (n, cell, p, q, r, u, c, under, behind)) enough =
    let next =
      walk_loop_lem fuel h name parent (some a) n.next b nm' ino' below' rest' last behind
        (omega arith) in
    elim (Bool-cases (same nm name)) [
      | inl y ↦ rw (cell, ◌>>=◌, r, y, child) refl
      | inr x ↦ rw (cell, ◌>>=◌, r, x, behind.0, child) next
    ]

-- `decache_walk` of a name of at most 254 bytes finds the first child of that name, or nothing where
-- no child has it.
pub decache_walk-child :
    (fuel : ℕ) (h : Store) (parent : Option ℕ) (f : Forest) (name : List ℕ)
    → Children h (or_root parent) f
    → width f ≤ fuel
    → length name ≤ ext4_name_len
    → decache_walk fuel h parent name ≡ ok (place (child name f))
unfolding decache_walk
decache_walk-child fuel h parent nil name k enough short =
    rw (k.cell, ◌>>=◌, k.linked.0, k.count) refl
decache_walk-child fuel h parent (kid a nm ino below rest) name k enough short =
    let run =
      walk_loop_lem fuel h name (or_root parent) none k.top.childs a nm ino below rest
        k.top.last_child k.linked (omega arith) in
    rw (k.cell, ◌>>=◌, k.linked.0, ltb-false ext4_name_len (length name) short) run

-- A name of more than 254 bytes, which NAME_MAX allows, aborts the walk wherever a child is cached.
pub decache_walk-long_name_aborts :
    (fuel : ℕ) (h : Store) (parent : Option ℕ) (f : Forest) (name : List ℕ)
    → Children h (or_root parent) f
    → 0 < width f
    → ext4_name_len < length name
    → decache_walk fuel h parent name ≡ fault assert_failed
unfolding decache_walk
decache_walk-long_name_aborts fuel h parent nil name k some_ long = absurd (omega arith)
decache_walk-long_name_aborts fuel h parent (kid a nm ino below rest) name k some_ long =
    rw
      (
        k.cell,
        ◌>>=◌,
        k.linked.0,
        ltb-true ext4_name_len (length name) long,
        k.count,
        ==-false (suc (width rest)) 0 (λ z. absurd (omega arith)),
      )
      refl
