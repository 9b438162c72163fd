-- ===== src/Decache/Taken.antt =====
-- A path is deleted from the cached names (`decache_delete` of src/cache.c): the search and what it
-- takes out.
use kfs.Base.{ℕ, suc, ◌+◌, ◌<◌, ◌≡◌, refl, ◌∙◌, List, [], ◌∷◌, none, some, true, ok, arith, length}
use kfs.Dentry.Find.{same}
use kfs.Decache.{Store, decache_delete}
use kfs.Decache.Forest.{Forest, kid, width, Shallow, Gone}
use kfs.Decache.Walk.{child}
use kfs.Decache.Front.{Cached}
use kfs.Decache.Find.{AllNames, Narrow, descend, spell, decache_delete-descend}
use kfs.Decache.Delete.{delete_entry-first}

-- No child has the first of the names, or there is none.
abbrev pub Leaves : Forest → List (List ℕ) → Type 0
Leaves f [] = Unit
Leaves f (name ∷ names) = child name f ≡ none

same_refl : (name : List ℕ) → same name name ≡ true
same_refl [] = refl
same_refl (c ∷ name) = ground (arith, same_refl name)

descend-Leaves :
    (a : ℕ) (f : Forest) (names : List (List ℕ))
    → Leaves f names
    → descend (some a) f names ≡ (some a, names)
descend-Leaves a f [] l = refl
descend-Leaves a f (name ∷ names) l = rw (descend, l) refl

-- `decache_delete` of a path whose first name is that of the first of at least two entries in the
-- root, and whose second name, if it has one, is no child of that entry: that entry is freed, and the
-- others are the children of the root then. So a path that is not cached takes out the entry that the
-- search for it ends at. The fuel is enough if no entry has more children and no tree below the entry
-- is deeper, and the rounds if they are more than the names.
pub decache_delete-first :
    (d steps : ℕ) (h : Store) (a : ℕ) (nm : List ℕ) (ino : ℕ) (below : Forest) (b : ℕ)
    (nm' : List ℕ) (ino' : ℕ) (below' rest : Forest) (names : List (List ℕ))
    → Cached h 0 (kid a nm ino below (kid b nm' ino' below' rest))
    → Shallow d below
    → width rest < d
    → Narrow (suc d) (kid a nm ino below (kid b nm' ino' below' rest))
    → AllNames (nm ∷ names)
    → Leaves below names
    → length names + 1 < steps
    → (h' : Store) × (decache_delete (suc d) steps h (spell (nm ∷ names)) ≡ ok h')
      × Cached h' 0 (kid b nm' ino' below' rest)
      × Gone h' a
decache_delete-first d steps h a nm ino below b nm' ino' below' rest names c sh few narrow named
      leaves enough =
    let f = kid a nm ino below (kid b nm' ino' below' rest) in
    let (h', run, others, gone) =
      delete_entry-first d h 0 a nm ino below b nm' ino' below' rest c sh in
    let here : descend none f (nm ∷ names) ≡ (some a, names) =
      rw (descend, same_refl nm) (descend-Leaves a below names leaves) in
    let found =
      decache_delete-descend (suc d) steps h f (nm ∷ names) c.children (omega arith) narrow named
        (omega arith) in
    (h', found ∙ rw here run, others, gone)
