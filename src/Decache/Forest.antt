-- ===== src/Decache/Forest.antt =====
-- The children of an entry, with all below them, as a tree; and where it lies in the store
-- (`struct decache_entry` of src/cache.h).
use kfs.Base.{
  ℕ, zero, suc, ◌<◌, ◌≡◌, ◌≢◌, sym, ◌∙◌, List, Option, none, some, arith, length, get_elem?,
  lt-length_of_some,
}
use kfs.Decache.{Node, Store}

-- No children, or a first child: its address, its name and inode, its own children, and the children
-- behind it.
pub data Forest : Type 0 where
  nil : Forest
  kid : (at : ℕ) (name : List ℕ) (inode_idx : ℕ) (below rest : Forest) → Forest

abbrev pub width : Forest → ℕ
width nil = 0
width (kid a name ino below rest) = suc (width rest)

-- `p` is not the address of an entry.
abbrev pub Out : ℕ → Forest → Type 0
Out p nil = Unit
Out p (kid a name ino below rest) = (p ≢ a) × Out p below × Out p rest

-- What is true of every address of the tree.
abbrev pub Everywhere : (ℕ → Type 0) → Forest → Type 0
Everywhere P nil = Unit
Everywhere P (kid a name ino below rest) = P a × Everywhere P below × Everywhere P rest

-- No entry of the first is one of the second.
abbrev pub Apart : Forest → Forest → Type 0
Apart f g = Everywhere (λ q. Out q g) f

abbrev pub Distinct : Forest → Type 0
Distinct nil = Unit
Distinct (kid a name ino below rest) =
    Out a below × Out a rest × Apart below rest × Distinct below × Distinct rest

-- The depth is at most `d`.
abbrev pub Shallow : ℕ → Forest → Type 0
Shallow d nil = Unit
Shallow zero (kid a name ino below rest) = ⊥
Shallow (suc d) (kid a name ino below rest) = Shallow d below × Shallow (suc d) rest

abbrev pub Cell : Store → ℕ → Node → Type 0
Cell h p n = get_elem? h p ≡ some (some n)

-- `free` got this address.
abbrev pub Gone : Store → ℕ → Type 0
Gone h p = get_elem? h p ≡ some none

-- The children of `parent`, linked both ways: `first` points to the first, `last` to the last, and
-- `prev` is what the first has before it.
abbrev pub IsForest :
    Store → (parent : ℕ) → (prev first : Option ℕ) → Forest → (last : Option ℕ) → Type 0
IsForest h parent prev first nil last = (first ≡ none) × (last ≡ prev)
IsForest h parent prev first (kid a name ino below rest) last =
    (first ≡ some a)
    × ((n : Node) × Cell h a n
        × (n.prev ≡ prev)
        × (n.parent ≡ some parent)
        × (n.name ≡ name)
        × (n.inode_idx ≡ ino)
        × (n.count ≡ width below)
        × IsForest h a none n.childs below n.last_child
        × IsForest h parent (some a) n.next rest last)

-- The two stores have the same entries at the addresses of the tree.
abbrev pub Agree : Store → Store → Forest → Type 0
Agree h h' nil = Unit
Agree h h' (kid a name ino below rest) =
    (get_elem? h' a ≡ get_elem? h a) × Agree h h' below × Agree h h' rest

pub IsForest-Agree :
    (h h' : Store) (parent : ℕ) (prev first : Option ℕ) (f : Forest) (last : Option ℕ)
    → Agree h h' f
    → IsForest h parent prev first f last
    → IsForest h' parent prev first f last
IsForest-Agree h h' parent prev first nil last s t = t
IsForest-Agree h h' parent prev first (kid a name ino below rest) last s
      (e, (n, cell, p, q, r, u, c, under, behind)) =
    (
      e,
      (
        n,
        s.0 ∙ cell,
        p,
        q,
        r,
        u,
        c,
        IsForest-Agree h h' a none n.childs below n.last_child s.1 under,
        IsForest-Agree h h' parent (some a) n.next rest last s.2 behind,
      ),
    )

pub Agree-Everywhere :
    (h h' : Store) (P : ℕ → Type 0)
    → ((p : ℕ) → P p → get_elem? h' p ≡ get_elem? h p)
    → (f : Forest) → Everywhere P f
    → Agree h h' f
Agree-Everywhere h h' P s nil v = tt
Agree-Everywhere h h' P s (kid a name ino below rest) v =
    (s a v.0, Agree-Everywhere h h' P s below v.1, Agree-Everywhere h h' P s rest v.2)

pub Everywhere-ne : (p : ℕ) (f : Forest) → Out p f → Everywhere (λ q. q ≢ p) f
Everywhere-ne p nil o = tt
Everywhere-ne p (kid a name ino below rest) o =
    (λ e. o.0 (sym e), Everywhere-ne p below o.1, Everywhere-ne p rest o.2)

pub Out-Everywhere : (p : ℕ) (f : Forest) → Everywhere (λ q. q ≢ p) f → Out p f
Out-Everywhere p nil v = tt
Out-Everywhere p (kid a name ino below rest) v =
    (λ e. v.0 (sym e), Out-Everywhere p below v.1, Out-Everywhere p rest v.2)

pub Everywhere-map :
    (P Q : ℕ → Type 0) → ((q : ℕ) → P q → Q q) → (f : Forest) → Everywhere P f → Everywhere Q f
Everywhere-map P Q g nil v = tt
Everywhere-map P Q g (kid a name ino below rest) v =
    (g a v.0, Everywhere-map P Q g below v.1, Everywhere-map P Q g rest v.2)

pub Everywhere-both :
    (P Q R : ℕ → Type 0)
    → ((q : ℕ) → P q → Q q → R q)
    → (f : Forest) → Everywhere P f
    → Everywhere Q f
    → Everywhere R f
Everywhere-both P Q R g nil v w = tt
Everywhere-both P Q R g (kid a name ino below rest) v w =
    (g a v.0 w.0, Everywhere-both P Q R g below v.1 w.1, Everywhere-both P Q R g rest v.2 w.2)

-- Away from an entry, from what is below it and from what is behind it is away from the whole tree.
pub Everywhere-Out :
    (a : ℕ) (name : List ℕ) (ino : ℕ) (below rest g : Forest)
    → Everywhere (λ q. q ≢ a) g
    → Everywhere (λ q. Out q below) g
    → Everywhere (λ q. Out q rest) g
    → Everywhere (λ q. Out q (kid a name ino below rest)) g
Everywhere-Out a name ino below rest nil u v w = tt
Everywhere-Out a name ino below rest (kid b nm i under behind) u v w = (
  (u.0, v.0, w.0),
  Everywhere-Out a name ino below rest under u.1 v.1 w.1,
  Everywhere-Out a name ino below rest behind u.2 v.2 w.2,
)

pub Everywhere-all : (P : ℕ → Type 0) → ((q : ℕ) → P q) → (f : Forest) → Everywhere P f
Everywhere-all P g nil = tt
Everywhere-all P g (kid a name ino below rest) =
    (g a, Everywhere-all P g below, Everywhere-all P g rest)

-- Apart, seen from the second tree.
pub Apart-sym : (f g : Forest) → Apart f g → Apart g f
Apart-sym nil g a = Everywhere-all (λ q. Unit) (λ q. tt) g
Apart-sym (kid a name ino below rest) g (o, u, v) =
    Everywhere-Out a name ino below rest g (Everywhere-ne a g o) (Apart-sym below g u)
      (Apart-sym rest g v)

-- The entries are in the store, so an address behind its end is not one of them.
pub IsForest-below :
    (h : Store) (parent : ℕ) (prev first : Option ℕ) (f : Forest) (last : Option ℕ)
    → IsForest h parent prev first f last
    → Everywhere (λ q. q < length h) f
IsForest-below h parent prev first nil last t = tt
IsForest-below h parent prev first (kid a name ino below rest) last
      (e, (n, cell, x, q, r, u, c, under, behind)) =
    (
      lt-length_of_some h a cell,
      IsForest-below h a none n.childs below n.last_child under,
      IsForest-below h parent (some a) n.next rest last behind,
    )

pub Everywhere-Out_of_below : (p : ℕ) (f : Forest) → Everywhere (λ q. q < p) f → Out p f
Everywhere-Out_of_below p nil v = tt
Everywhere-Out_of_below p (kid a name ino below rest) v = (
  (λ e. absurd (omega (arith, v.0))),
  Everywhere-Out_of_below p below v.1,
  Everywhere-Out_of_below p rest v.2,
)
