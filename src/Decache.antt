-- ===== src/Decache.antt =====
-- The tree of cached names (`decache_*` of src/cache.c, `struct decache_entry` of src/cache.h) in a
-- store of entries. A pointer is an address in the store, NULL is `none`; `calloc` gives the next
-- address, and what `free` gets is `none` from then on. `root` has the address 0. Names are
-- C strings without their final NUL; where the code passes a place in a path with a length, the model
-- passes the bytes.
pub mod Forest
pub mod Cells
pub mod Walk
pub mod Free
pub mod Evict
pub mod Front
pub mod Insert
pub mod Delete
pub mod Find
pub mod Taken
pub mod Only
use kfs.Base.{
  ℕ, zero, suc, ◌+◌, ◌-◌, List, [], ◌∷◌, ◌++◌, Option, none, some, Bool, true, false, not, ◌||◌,
  Res, ok, fault, assert, out_of_range, out_of_fuel, assert_failed, load, store, ◌>>=◌, ◌>>◌, ◌==◌,
  ltb, if◌then◌else◌, length, take, drop,
}
use kfs.Dentry.Find.{same}

pub record Node : Type 0 where
  pub parent : Option ℕ
  pub childs : Option ℕ
  pub last_child : Option ℕ
  pub prev : Option ℕ
  pub next : Option ℕ
  pub inode_idx : ℕ
  pub count : ℕ
  pub name : List ℕ

abbrev pub Store : Type 0
Store = List (Option Node)

-- DCACHE_MAX_CHILDREN; NAME_MAX, which is DCACHE_ENTRY_NAME_LEN; EXT4_NAME_LEN
abbrev pub max_children : ℕ
max_children = 20

abbrev pub name_max : ℕ
name_max = 255

abbrev pub ext4_name_len : ℕ
ext4_name_len = 254

-- `*p`, `*p = ...`, and the address that a pointer holds.
abbrev pub deref : Store → ℕ → Res Node
deref h p = do cell ← load h p; elim cell [ none ↦ fault out_of_range | some n ↦ ok n ]

abbrev pub assign : Store → ℕ → (Node → Node) → Res Store
assign h p f = do n ← deref h p; store h p (some (f n))

abbrev pub address : Option ℕ → Res ℕ
address none = fault out_of_range
address (some p) = ok p

abbrev pub release : Store → ℕ → Res Store
release h p = do _ ← deref h p; store h p none

-- `parent == NULL ? root : parent`
abbrev pub or_root : Option ℕ → ℕ
or_root none = 0
or_root (some p) = p

-- `decache_init_root`
unfoldable pub init_root : ℕ → Store
init_root n =
    some (record {
      parent = none;
      childs = none;
      last_child = none;
      prev = none;
      next = none;
      inode_idx = n;
      count = 0;
      name = b'/' ∷ [];
    })
    ∷ []

-- The loop of `decache_free`, over `k` children from `iter` on.
unfoldable pub free_loop : (Store → ℕ → Res Store) → ℕ → Option ℕ → Store → Res Store
free_loop free zero iter h = ok h
free_loop free (suc k) iter h = do
  p ← address iter
  n ← deref h p
  h' ← free h p
  free_loop free k n.next h'

-- `decache_free`; the fuel bounds the depth.
unfoldable pub decache_free : ℕ → Store → ℕ → Res Store
decache_free zero h entry = fault out_of_fuel
decache_free (suc fuel) h entry = do
  n ← deref h entry
  h' ← free_loop (decache_free fuel) n.count n.childs h
  release h' entry

-- The part of `decache_insert` that makes room under a full parent.
unfoldable pub evict : ℕ → Store → ℕ → Res Store
evict fuel h parent = do
  p ← deref h parent
  iter ← address p.last_child
  it ← deref h iter
  before ← address it.prev
  h₁ ← assign h before (λ n. record n { next = none })
  h₂ ← assign h₁ parent (λ n. record n { last_child = it.prev; count = n.count - 1 })
  decache_free fuel h₂ iter

-- The part that links the new entry in front of the others.
unfoldable pub link_front : Store → (at new : ℕ) → Res (Store × Option ℕ)
link_front h at new = do
  p ← deref h at
  h₁ ← assign h new (λ e. record e { next = p.childs; prev = none })
  first ← address p.childs
  h₂ ← assign h₁ first (λ e. record e { prev = some new })
  h₃ ← assign h₂ at (λ e. record e { childs = some new; count = e.count + 1 })
  ok (h₃, some new)

-- `decache_insert`
unfoldable pub decache_insert : ℕ → Store → Option ℕ → List ℕ → ℕ → Res (Store × Option ℕ)
decache_insert fuel h parent name n = elim (ltb name_max (length name + 1)) [
  | true ↦ ok (h, none)
  | false ↦ (do
    let at = or_root parent
    top ← deref h at
    elim parent [ none ↦ assert (not (top.inode_idx == 0)) | some _ ↦ ok tt ]
    let new = length h
    let h₀ =
        h
        ++ (some (record {
          parent = some at;
          childs = none;
          last_child = none;
          prev = none;
          next = none;
          inode_idx = n;
          count = 0;
          name = name;
        })
            ∷ [])
    elim (top.count == 0) [
      | true ↦ (do
        h₁ ← assign h₀ at (λ p. record p { childs = some new; count = 1; last_child = some new })
        ok (h₁, some new))
      | false ↦ (do
        h₁ ← elim (top.count == max_children) [ true ↦ evict fuel h₀ at | false ↦ ok h₀ ]
        link_front h₁ at new)
    ])
]

-- The loop of `decache_walk`.
unfoldable pub walk_loop : ℕ → Store → List ℕ → ℕ → Res (Option ℕ)
walk_loop zero h name iter = fault out_of_fuel
walk_loop (suc fuel) h name iter = do
  n ← deref h iter
  elim (same n.name name) [
    | true ↦ ok (some iter)
    | false ↦ elim n.next [ none ↦ ok none | some p ↦ walk_loop fuel h name p ]
  ]

-- `decache_walk`
unfoldable pub decache_walk : ℕ → Store → Option ℕ → List ℕ → Res (Option ℕ)
decache_walk fuel h parent name = do
  p ← deref h (or_root parent)
  elim p.childs [
    | none ↦ assert (p.count == 0) >> ok none
    | some first ↦ elim (ltb ext4_name_len (length name)) [
      | true ↦ assert (p.count == 0) >> ok none
      | false ↦ walk_loop fuel h name first
    ]
  ]

-- `skip_trailing_backslash` and `get_path_token_len` (src/inode.c)
unfoldable pub skip_slashes : List ℕ → List ℕ
skip_slashes [] = []
skip_slashes (c ∷ path) = elim (c == b'/') [ true ↦ skip_slashes path | false ↦ c ∷ path ]

unfoldable pub token_len : List ℕ → ℕ
token_len [] = 0
token_len (c ∷ path) = elim (c == b'/') [ true ↦ 0 | false ↦ token_len path + 1 ]

-- `decache_find`: the entry, and the path where the search stops. The rounds are bounded by `steps`.
unfoldable pub decache_find : (fuel steps : ℕ) → Store → Option ℕ → List ℕ → Res (Option ℕ × List ℕ)
decache_find fuel zero h at path = fault out_of_fuel
decache_find fuel (suc steps) h at path =
    let path' = skip_slashes path in
    elim (token_len path' == 0) [
      | true ↦ ok (at, path')
      | false ↦ (do
        found ← decache_walk fuel h at (take (token_len path') path')
        elim found [
          | none ↦ ok (at, path')
          | some next ↦ decache_find fuel steps h (some next) (drop (token_len path') path')
        ])
    ]

-- `decache_delete` of an entry that has been found.
unfoldable pub delete_entry : ℕ → Store → ℕ → Res Store
delete_entry fuel h entry = do
  e ← deref h entry
  parent ← address e.parent
  p ← deref h parent
  assert (not (p.count == 0))
  h₁ ← assign h parent (λ n. record n { count = n.count - 1 })
  elim (p.count - 1 == 0) [
    | true ↦ (do
      elim p.childs [ none ↦ fault assert_failed | some _ ↦ ok tt ]
      h₂ ← release h₁ entry
      assign h₂ parent (λ n. record n { childs = none; last_child = none }))
    | false ↦ (do
      h₂ ← elim e.prev [
        | none ↦ (do
          after ← address e.next
          h' ← assign h₁ after (λ n. record n { prev = none })
          assign h' parent (λ n. record n { childs = e.next }))
        | some before ↦ elim e.next [
          | none ↦ (do
            h' ← assign h₁ before (λ n. record n { next = none })
            assign h' parent (λ n. record n { last_child = e.prev }))
          | some _ ↦ ok h₁
        ]
      ]
      decache_free fuel h₂ entry)
  ]

-- `decache_delete`
unfoldable pub decache_delete : (fuel steps : ℕ) → Store → List ℕ → Res Store
decache_delete fuel steps h path = do
  (found, _) ← decache_find fuel steps h none path
  elim found [ none ↦ ok h | some entry ↦ delete_entry fuel h entry ]
