-- ===== src/Decache/Free.antt =====
-- `decache_free` (src/cache.c) frees an entry and all below it, and nothing else.
use kfs.Base.{
  ℕ, zero, suc, ◌≡◌, ◌≢◌, refl, ◌∙◌, List, Option, none, some, ok, length, get_elem?, ◌>>=◌,
}
use kfs.Decache.{Node, Store, free_loop, decache_free}
use kfs.Decache.Forest.{
  Forest, nil, kid, width, Cell, IsForest, Distinct, Out, Apart, Shallow, Agree-Everywhere,
  Everywhere, Everywhere-ne, Everywhere-both, Gone, IsForest-Agree, Apart-sym,
}
use kfs.Decache.Cells.{release-Cell}

-- Only the entries of the tree have changed.
pub record KeepsOut (f : Forest) (h h' : Store) : Type 0 where
  pub same_length : length h' ≡ length h
  pub outside : (q : ℕ) → Out q f → get_elem? h' q ≡ get_elem? h q

-- The entries of a tree that is apart from what changed.
pub kept_apart :
    (f g : Forest) (h h' : Store) (parent : ℕ) (prev first last : Option ℕ)
    → KeepsOut f h h'
    → Apart f g
    → IsForest h parent prev first g last
    → IsForest h' parent prev first g last
kept_apart f g h h' parent prev first last k a t =
    IsForest-Agree h h' parent prev first g last
      (Agree-Everywhere h h' (λ q. Out q f) k.outside g (Apart-sym f g a)) t

-- Freed below it, an entry is freed itself.
with_entry :
    (d : ℕ) (h : Store) (a : ℕ) (n : Node) (name : List ℕ) (ino : ℕ) (below : Forest)
    → Cell h a n
    → n.count ≡ width below
    → Out a below
    → ((h' : Store) × (free_loop (decache_free d) (width below) n.childs h ≡ ok h')
        × Everywhere (Gone h') below
        × KeepsOut below h h')
    → (h' : Store) × (decache_free (suc d) h a ≡ ok h')
      × Everywhere (Gone h') (kid a name ino below nil)
      × KeepsOut (kid a name ino below nil) h h'
unfolding decache_free
with_entry d h a n name ino below cell c o (h₁, run₁, freed, k₁) =
    let (h₂, run₂, gone, k₂) = release-Cell h₁ a n (k₁.outside a o ∙ cell) in
    (
      h₂,
      rw (cell, ◌>>=◌, c, run₁, ◌>>=◌) run₂,
      (
        gone,
        Everywhere-both (λ q. q ≢ a) (Gone h₁) (Gone h₂) (λ q ne e. k₂.elsewhere q ne ∙ e) below
            (Everywhere-ne a below o) freed,
        tt,
      ),
      record {
        same_length = k₂.same_length ∙ k₁.same_length;
        outside = λ z out. k₂.elsewhere z out.0 ∙ k₁.outside z out.1;
      },
    )

free_loop_lem :
    (d : ℕ) (h : Store) (parent : ℕ) (prev first last : Option ℕ) (f : Forest)
    → IsForest h parent prev first f last
    → Distinct f
    → Shallow d f
    → (h' : Store) × (free_loop (decache_free d) (width f) first h ≡ ok h')
      × Everywhere (Gone h') f
      × KeepsOut f h h'
unfolding free_loop
free_loop_lem d h parent prev first last nil t s v =
    (h, refl, tt, record { same_length = refl; outside = λ q o. refl })
free_loop_lem zero h parent prev first last (kid a nm ino below rest) t s v = absurd v
free_loop_lem (suc d) h parent prev first last (kid a nm ino below rest)
      (e, (n, cell, p, q, r, u, c, under, behind)) (o, o', ap_, db, dr) (sb, sr) =
    let (h₁, run₁, (gone, freed, _), k₁) =
      with_entry d h a n nm ino below cell c o
        (free_loop_lem d h a none n.childs n.last_child below under db sb) in
    let behind₁ =
      kept_apart (kid a nm ino below nil) rest h h₁ parent (some a) n.next last k₁ (o', ap_, tt)
        behind in
    let (h₂, run₂, freed_rest, k₂) =
      free_loop_lem (suc d) h₁ parent (some a) n.next last rest behind₁ dr sr in
    (
      h₂,
      rw (e, ◌>>=◌, cell, ◌>>=◌, run₁, ◌>>=◌) run₂,
      (
        k₂.outside a o' ∙ gone,
        Everywhere-both (λ q. Out q rest) (Gone h₁) (Gone h₂) (λ q out e'. k₂.outside q out ∙ e')
            below ap_ freed,
        freed_rest,
      ),
      record {
        same_length = k₂.same_length ∙ k₁.same_length;
        outside = λ z out. k₂.outside z out.2 ∙ k₁.outside z (out.0, out.1, tt);
      },
    )

-- An entry whose children, and theirs, are as deep as the fuel allows: it and every entry below it are
-- freed, and no other entry changes.
pub decache_free_lem :
    (d : ℕ) (h : Store) (a : ℕ) (n : Node) (below : Forest)
    → Cell h a n
    → n.count ≡ width below
    → IsForest h a none n.childs below n.last_child
    → Out a below
    → Distinct below
    → Shallow d below
    → (h' : Store) × (decache_free (suc d) h a ≡ ok h')
      × Everywhere (Gone h') (kid a n.name n.inode_idx below nil)
      × KeepsOut (kid a n.name n.inode_idx below nil) h h'
decache_free_lem d h a n below cell c under o db sb =
    with_entry d h a n n.name n.inode_idx below cell c o
      (free_loop_lem d h a none n.childs n.last_child below under db sb)
