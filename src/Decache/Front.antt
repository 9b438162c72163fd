-- ===== src/Decache/Front.antt =====
-- The new entry of `decache_insert` (src/cache.c), linked in front of the children of its parent.
use kfs.Base.{
  ℕ, suc, ◌+◌, ◌<◌, ◌≤◌, ◌≡◌, ◌≢◌, refl, sym, ◌∙◌, List, [], ◌∷◌, ◌++◌, Option, none, some, true,
  false, ok, arith, length, get_elem?, ◌>>=◌, ◌==◌,
}
use kfs.Decache.{Node, Store, assign, address, max_children, link_front}
use kfs.Decache.Forest.{
  Forest, nil, kid, width, Cell, IsForest, Distinct, Out, Agree-Everywhere, IsForest-Agree,
  IsForest-below,
}
use kfs.Decache.Cells.{assign-Cell, get_elem?-append_left, get_elem?-append_end}
use kfs.Decache.Evict.{butlast, kept_by}
use kfs.Decache.Walk.{Children}

-- The entries below `p` are all different, and at most DCACHE_MAX_CHILDREN are its children.
pub record Cached (h : Store) (p : ℕ) (f : Forest) : Type 0 where
  pub children : Children h p f
  pub distinct : Distinct f
  pub out : Out p f
  pub fits : width f ≤ max_children

-- The children that are left when there has to be room for one more.
abbrev pub room : Forest → Forest
room f = elim (width f == max_children) [ true ↦ butlast f | false ↦ f ]

-- The entry that `calloc` gave, before it is linked.
abbrev pub blank : (parent : ℕ) → List ℕ → ℕ → Node
blank parent name n = record {
  parent = some parent;
  childs = none;
  last_child = none;
  prev = none;
  next = none;
  inode_idx = n;
  count = 0;
  name = name;
}

-- The store with the new entry at its end has the old ones as they were.
module _ (h : Store) (p : ℕ) (name : List ℕ) (n : ℕ) where
  abbrev pub grown : Store
  grown = h ++ (some (blank p name n) ∷ [])

  pub grown_kept : (q : ℕ) → q < length h → get_elem? grown q ≡ get_elem? h q
  grown_kept q lt = get_elem?-append_left h (some (blank p name n) ∷ []) q lt

  pub grown_new : Cell grown (length h) (blank p name n)
  grown_new = get_elem?-append_end h (some (blank p name n))

  pub grown_forest :
      (parent : ℕ) (prev first last : Option ℕ) (f : Forest)
      → IsForest h parent prev first f last
      → IsForest grown parent prev first f last
  grown_forest parent prev first last f t =
      IsForest-Agree h grown parent prev first f last
        (Agree-Everywhere h grown (λ q. q < length h) grown_kept f
          (IsForest-below h parent prev first f last t))
        t

push_run :
    (h h₂ h₃ h₄ : Store) (p new a : ℕ) (top : Node)
    → Cell h p top
    → top.childs ≡ some a
    → assign h new (λ e. record e { next = top.childs; prev = none }) ≡ ok h₂
    → assign h₂ a (λ e. record e { prev = some new }) ≡ ok h₃
    → assign h₃ p (λ e. record e { childs = some new; count = e.count + 1 }) ≡ ok h₄
    → link_front h p new ≡ ok (h₄, some new)
unfolding link_front
push_run h h₂ h₃ h₄ p new a top cell first run₂ run₃ run₄ =
    let ad : address top.childs ≡ ok a = rw first refl in
    rw (cell, ◌>>=◌, run₂, ◌>>=◌, ad, ◌>>=◌, run₃, ◌>>=◌, run₄) refl

-- The last four assignments, in front of at least one child.
pub push_front :
    (h : Store) (p new a : ℕ) (top : Node) (name : List ℕ) (n : ℕ) (nm : List ℕ) (ino : ℕ)
    (below rest : Forest)
    → Cell h p top
    → Cell h new (blank p name n)
    → top.count ≡ suc (width rest)
    → IsForest h p none top.childs (kid a nm ino below rest) top.last_child
    → Distinct (kid a nm ino below rest)
    → Out p (kid a nm ino below rest)
    → Out new (kid a nm ino below rest)
    → new ≢ p
    → (h' : Store) × (link_front h p new ≡ ok (h', some new))
      × Children h' p (kid new name n nil (kid a nm ino below rest))
      × (length h' ≡ length h)
      × ((q : ℕ)
          → q ≢ p
          → q ≢ new
          → Out q (kid a nm ino below rest)
          → get_elem? h' q ≡ get_elem? h q)
push_front h p new a top name n nm ino below rest cell fresh count
      (e, (na, cell_a, pv, pa, nn, ni, nc, under, behind)) (o, o', ap_, db, dr) out_p out_new ne =
    let (h₂, run₂, new₂, only₂) =
      assign-Cell h new (blank p name n) (λ e. record e { next = top.childs; prev = none }) fresh in
    let a_new : a ≢ new = λ s. out_new.0 (sym s) in
    let a_p : a ≢ p = λ s. out_p.0 (sym s) in
    let (h₃, run₃, a₃, only₃) =
      assign-Cell h₂ a na (λ e. record e { prev = some new }) (only₂.elsewhere a a_new ∙ cell_a) in
    let p_new : p ≢ new = λ s. ne (sym s) in
    let (h₄, run₄, p₄, only₄) =
      assign-Cell h₃ p top (λ e. record e { childs = some new; count = e.count + 1 })
        (only₃.elsewhere p (λ s. a_p (sym s)) ∙ only₂.elsewhere p p_new ∙ cell) in
    let kept =
      λ (g : Forest) (parent : ℕ) (prev first last : Option ℕ) (x : Out new g) (y : Out a g)
          (z : Out p g) (t : IsForest h parent prev first g last).
        kept_by p g parent prev first last only₄ z (
          kept_by a g parent prev first last only₃ y
            (kept_by new g parent prev first last only₂ x t)) in
    (
      h₄,
      push_run h h₂ h₃ h₄ p new a top cell e run₂ run₃ run₄,
      record {
        top = record top { childs = some new; count = top.count + 1 };
        cell = p₄;
        count = omega arith;
        linked = (
          refl,
          (
            record (blank p name n) { next = top.childs },
            only₄.elsewhere new ne ∙ only₃.elsewhere new (λ s. a_new (sym s)) ∙ new₂,
            refl,
            refl,
            refl,
            refl,
            refl,
            (refl, refl),
            (
              e,
              (
                record na { prev = some new },
                only₄.elsewhere a a_p ∙ a₃,
                refl,
                pa,
                nn,
                ni,
                nc,
                kept below a none na.childs na.last_child out_new.1 o out_p.1 under,
                kept rest p (some a) na.next top.last_child out_new.2 o' out_p.2 behind,
              ),
            ),
          ),
        );
      },
      only₄.same_length ∙ only₃.same_length ∙ only₂.same_length,
      λ q q_p q_new q_out.
          only₄.elsewhere q q_p ∙ only₃.elsewhere q q_out.0 ∙ only₂.elsewhere q q_new,
    )
