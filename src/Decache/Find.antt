-- ===== src/Decache/Find.antt =====
-- The search for a path among the cached names (`decache_find` of src/cache.c).
use mathlib.Core.Path.{subst}
use kfs.Base.{
  Option-cases, ℕ, zero, suc, ◌<◌, ◌≤◌, ◌≡◌, ◌≢◌, refl, List, [], ◌∷◌, ◌++◌, Option, none, some, ok,
  arith, length, take, drop, inl, inr, Bool-cases, ◌>>=◌, ==-false,
}
use kfs.Dentry.Find.{same}
use kfs.Decache.{
  Store, or_root, skip_slashes, token_len, decache_walk, decache_find, decache_delete, delete_entry,
  ext4_name_len,
}
use kfs.Decache.Forest.{Forest, nil, kid, width, IsForest}
use kfs.Decache.Walk.{Children, child, place, decache_walk-child}

abbrev pub NoSlash : List ℕ → Type 0
NoSlash [] = Unit
NoSlash (c ∷ name) = (c ≢ b'/') × NoSlash name

-- The names of a path: none is empty, has a slash, or has more than 254 bytes.
abbrev pub AllNames : List (List ℕ) → Type 0
AllNames [] = Unit
AllNames (name ∷ names) =
    (0 < length name) × (length name ≤ ext4_name_len) × NoSlash name × AllNames names

-- The path with these names, a slash before each.
abbrev pub spell : List (List ℕ) → List ℕ
spell [] = []
spell (name ∷ names) = b'/' ∷ (name ++ spell names)

-- The same without the first slash.
abbrev pub spell_rest : List (List ℕ) → List ℕ
spell_rest [] = []
spell_rest (name ∷ names) = name ++ spell names

-- From one entry to its child of the next name for as long as there is one: the last entry, and the
-- names that are left.
abbrev pub descend : Option ℕ → Forest → List (List ℕ) → Option ℕ × List (List ℕ)
descend at f [] = (at, [])
descend at f (name ∷ names) = elim (child name f) [
  | none ↦ (at, name ∷ names)
  | some (a, below) ↦ descend (some a) below names
]

-- No entry below has more than `k` children.
abbrev pub Narrow : ℕ → Forest → Type 0
Narrow k nil = Unit
Narrow k (kid a name ino below rest) = (width below ≤ k) × Narrow k below × Narrow k rest

skip_slashes-spell :
    (name : List ℕ) (names : List (List ℕ))
    → 0 < length name
    → NoSlash name
    → skip_slashes (spell (name ∷ names)) ≡ spell_rest (name ∷ names)
unfolding skip_slashes
skip_slashes-spell [] names some_ o = absurd (omega arith)
skip_slashes-spell (c ∷ name) names some_ o = rw (skip_slashes, ==-false c b'/' o.0) refl

token_len-spell :
    (name : List ℕ) (names : List (List ℕ))
    → NoSlash name
    → token_len (name ++ spell names) ≡ length name
unfolding token_len
token_len-spell [] [] o = refl
token_len-spell [] (n ∷ names) o = refl
token_len-spell (c ∷ name) names o =
    rw (token_len, ==-false c b'/' o.0, token_len-spell name names o.1) omega arith

take-spell : (xs ys : List ℕ) → take (length xs) (xs ++ ys) ≡ xs
take-spell [] ys = refl
take-spell (x ∷ xs) ys = rw (take-spell xs ys) refl

drop-spell : (xs ys : List ℕ) → drop (length xs) (xs ++ ys) ≡ ys
drop-spell [] ys = refl
drop-spell (x ∷ xs) ys = rw (drop-spell xs ys) refl

-- What a child that is found has: its own children in the store, and few enough of them.
abbrev Found : Store → ℕ → Option (ℕ × Forest) → Type 0
Found h k none = Unit
Found h k (some (a, below)) = Children h a below × (width below ≤ k) × Narrow k below

child-Found :
    (h : Store) (k parent : ℕ) (prev first last : Option ℕ) (f : Forest) (name : List ℕ)
    → IsForest h parent prev first f last
    → Narrow k f
    → Found h k (child name f)
child-Found h k parent prev first last nil name t w = tt
child-Found h k parent prev first last (kid b nm ino under rest) name
      (_, (n, cell, p, q, r, u, c, inner, behind)) w =
    elim (Bool-cases (same nm name)) [
      | inl y ↦ rw (child, y) (record { top = n; cell = cell; count = c; linked = inner }, w.0, w.1)
      | inr x ↦ rw (child, x) (child-Found h k parent (some b) n.next last rest name behind w.2)
    ]

decache_find_end :
    (fuel steps : ℕ) (h : Store) (at : Option ℕ)
    → decache_find fuel (suc steps) h at [] ≡ ok (at, [])
unfolding decache_find skip_slashes token_len
decache_find_end fuel steps h at = refl

-- One round of the search.
decache_find_round :
    (fuel steps : ℕ) (h : Store) (at : Option ℕ) (name : List ℕ) (names : List (List ℕ))
    (found : Option ℕ)
    → 0 < length name
    → NoSlash name
    → decache_walk fuel h at name ≡ ok found
    → decache_find fuel (suc steps) h at (spell (name ∷ names)) ≡ elim found [
      | none ↦ ok (at, spell_rest (name ∷ names))
      | some next ↦ decache_find fuel steps h (some next) (spell names)
    ]
unfolding decache_find
decache_find_round fuel steps h at name names none some_ o walk =
    let s = skip_slashes-spell name names some_ o in
    let n = token_len-spell name names o in
    rw
      (
        decache_find,
        s,
        n,
        ==-false (length name) 0 (λ e. absurd (omega arith)),
        s,
        n,
        take-spell name (spell names),
        walk,
        ◌>>=◌,
        s,
      )
      refl
decache_find_round fuel steps h at name names (some next) some_ o walk =
    let s = skip_slashes-spell name names some_ o in
    let n = token_len-spell name names o in
    rw
      (
        decache_find,
        s,
        n,
        ==-false (length name) 0 (λ e. absurd (omega arith)),
        s,
        n,
        take-spell name (spell names),
        walk,
        ◌>>=◌,
        s,
        n,
        drop-spell name (spell names),
      )
      refl

-- `decache_find` of a path goes down from an entry along the names of the path for as long as the tree
-- has them, and gives the last entry and the rest of the path. No entry of the tree has more children
-- than the fuel allows, and the rounds are enough if they are more than the names.
pub decache_find-descend :
    (fuel steps : ℕ) (h : Store) (at : Option ℕ) (f : Forest) (names : List (List ℕ))
    → Children h (or_root at) f
    → width f ≤ fuel
    → Narrow fuel f
    → AllNames names
    → length names < steps
    → decache_find fuel steps h at (spell names)
      ≡ (let (last, left) = descend at f names in ok (last, spell_rest left))
decache_find-descend fuel zero h at f names c w n names_ enough = absurd (omega arith)
decache_find-descend fuel (suc steps) h at f [] c w n names_ enough =
    decache_find_end fuel steps h at
decache_find-descend fuel (suc steps) h at f (name ∷ names) c w n (some_, short, o, names_) enough =
    let round =
      decache_find_round fuel steps h at name names (place (child name f)) some_ o
        (decache_walk-child fuel h at f name c w short) in
    let found =
      child-Found h fuel (or_root at) none c.top.childs c.top.last_child f name c.linked n in
    elim (Option-cases (child name f)) [
      | inl e ↦ rw (round, descend, e) refl
      | inr ((a, below), e) ↦
          let (c', w', n') = subst (Found h fuel) e found in
          rw (round, descend, e)
            (decache_find-descend fuel steps h (some a) below names c' w' n' names_ (omega arith))
    ]

-- `decache_delete` of a path takes out the last entry that the path leads to, whether names of the path
-- are left behind it or not; it does nothing where the first name is not cached.
pub decache_delete-descend :
    (fuel steps : ℕ) (h : Store) (f : Forest) (names : List (List ℕ))
    → Children h 0 f
    → width f ≤ fuel
    → Narrow fuel f
    → AllNames names
    → length names < steps
    → decache_delete fuel steps h (spell names)
      ≡ elim (descend none f names).0 [ none ↦ ok h | some entry ↦ delete_entry fuel h entry ]
unfolding decache_delete
decache_delete-descend fuel steps h f names c w n names_ enough =
    rw (decache_find-descend fuel steps h none f names c w n names_ enough, ◌>>=◌) refl
