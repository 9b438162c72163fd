-- ===== src/Decache/Evict.antt =====
-- The last child of an entry, taken out and freed: what `decache_insert` (src/cache.c) does under a
-- parent that has no room.
use mathlib.Core.Path.{subst}
use kfs.Base.{
  ℕ, suc, ◌-◌, ◌≡◌, ◌≢◌, refl, sym, ap, ◌∙◌, List, Option, none, some, ok, length, get_elem?, ◌>>=◌,
}
use kfs.Decache.{Node, Store, assign, address, evict, decache_free}
use kfs.Decache.Forest.{
  Forest, nil, kid, width, Cell, IsForest, Distinct, Out, Apart, Shallow, Everywhere,
  Agree-Everywhere, IsForest-Agree, Everywhere-ne, Out-Everywhere, Everywhere-Out, Everywhere-all,
  Everywhere-map, Apart-sym,
}
use kfs.Decache.Cells.{Only, assign-Cell}
use kfs.Decache.Free.{kept_apart, decache_free_lem}

-- The children less the last, where `a` is the first and `rest` are the others.
abbrev pub all_but_last : (a : ℕ) → List ℕ → ℕ → (below rest : Forest) → Forest
all_but_last a nm ino below nil = nil
all_but_last a nm ino below (kid b nm' ino' below' rest) =
    kid a nm ino below (all_but_last b nm' ino' below' rest)

abbrev pub butlast : Forest → Forest
butlast nil = nil
butlast (kid a nm ino below rest) = all_but_last a nm ino below rest

-- A write to one address leaves a tree that it is not in.
pub kept_by :
    (p : ℕ) (g : Forest) {h h' : Store} (parent : ℕ) (prev first last : Option ℕ)
    → Only p h h'
    → Out p g
    → IsForest h parent prev first g last
    → IsForest h' parent prev first g last
kept_by p g {h} {h'} parent prev first last k o t =
    IsForest-Agree h h' parent prev first g last
      (Agree-Everywhere h h' (λ q. q ≢ p) k.elsewhere g (Everywhere-ne p g o)) t

-- The last two of at least two children, `y` and `z`, and what becomes of the list once `y` has none
-- behind it.
record Tail (d : ℕ) (h : Store) (parent : ℕ) (prev : Option ℕ) (f g : Forest)
    (first last : Option ℕ) : Type 1 where
  y : ℕ
  z : ℕ
  ny : Node
  nz : Node
  bz : Forest
  last_is : last ≡ some z
  cell_y : Cell h y ny
  cell_z : Cell h z nz
  prev_z : nz.prev ≡ some y
  count_z : nz.count ≡ width bz
  under_z : IsForest h z none nz.childs bz nz.last_child
  at_y : (P : ℕ → Type 0) → Everywhere P f → P y
  at_z : (P : ℕ → Type 0) → Everywhere P f → P z × Everywhere P bz
  own_z : Out z bz × Distinct bz × Shallow d bz
  y_apart : (y ≢ z) × Out y bz
  z_apart : Out z g × Apart bz g
  relinked :
      (h₁ : Store)
      → Cell h₁ y (record ny { next = none })
      → Only y h h₁
      → IsForest h₁ parent prev first g (some y)

tail :
    (d : ℕ) (h : Store) (parent : ℕ) (prev first last : Option ℕ) (a : ℕ) (nm : List ℕ) (ino : ℕ)
    (below : Forest) (b : ℕ) (nm' : List ℕ) (ino' : ℕ) (below' rest : Forest)
    → IsForest h parent prev first (kid a nm ino below (kid b nm' ino' below' rest)) last
    → Distinct (kid a nm ino below (kid b nm' ino' below' rest))
    → Shallow (suc d) (kid b nm' ino' below' rest)
    → Tail d h parent prev
        (kid a nm ino below (kid b nm' ino' below' rest))
        (all_but_last a nm ino below (kid b nm' ino' below' rest))
        first
        last
tail d h parent prev first last a nm ino below b nm' ino' below' nil
      (e, (n, cell, p, q, r, u, c, under, (e', (n', cell', p', q', r', u', c', under', behind))))
      (o, o', ap_, db, (ob, ob', apb, dbb, dr)) sh =
    record {
      y = a;
      z = b;
      ny = n;
      nz = n';
      bz = below';
      last_is = behind.1;
      cell_y = cell;
      cell_z = cell';
      prev_z = p';
      count_z = c';
      under_z = under';
      at_y = λ P v. v.0;
      at_z = λ P v. (v.2.0, v.2.1);
      own_z = (ob, dbb, sh.0);
      y_apart = (o'.0, o'.1);
      z_apart = (
        ((λ s. o'.0 (sym s)), (Apart-sym below (kid b nm' ino' below' nil) ap_).0, tt),
        Everywhere-Out a nm ino below nil below' (Everywhere-ne a below' o'.1)
            (Apart-sym below (kid b nm' ino' below' nil) ap_).1
            (Everywhere-all (λ q. Unit) (λ q. tt) below'),
      );
      relinked = λ h₁ new only. (
        e,
        (
          record n { next = none },
          new,
          p,
          q,
          r,
          u,
          c,
          kept_by a below a none n.childs n.last_child only o under,
          (refl, refl),
        ),
      );
    }
tail d h parent prev first last a nm ino below b nm' ino' below' (kid k nk ik bk rk)
      (e, (n, cell, p, q, r, u, c, under, others)) (o, o', ap_, db, dr) sh =
    let t = tail d h parent (some a) n.next last b nm' ino' below' k nk ik bk rk others dr sh.1 in
    let rest = kid b nm' ino' below' (kid k nk ik bk rk) in
    let ne = Everywhere-ne a rest o' in
    let away = Apart-sym below rest ap_ in
    record {
      y = t.y;
      z = t.z;
      ny = t.ny;
      nz = t.nz;
      bz = t.bz;
      last_is = t.last_is;
      cell_y = t.cell_y;
      cell_z = t.cell_z;
      prev_z = t.prev_z;
      count_z = t.count_z;
      under_z = t.under_z;
      at_y = λ P v. t.at_y P v.2;
      at_z = λ P v. t.at_z P v.2;
      own_z = t.own_z;
      y_apart = t.y_apart;
      z_apart = (
        ((t.at_z (λ q. q ≢ a) ne).0, (t.at_z (λ q. Out q below) away).0, t.z_apart.0),
        Everywhere-Out a nm ino below (all_but_last b nm' ino' below' (kid k nk ik bk rk)) t.bz
            (t.at_z (λ q. q ≢ a) ne).1 (t.at_z (λ q. Out q below) away).1 t.z_apart.1,
      );
      relinked = λ h₁ new only.
          let a_kept = only.elsewhere a (λ s. t.at_y (λ q. q ≢ a) ne (sym s)) in
          (
            e,
            (
              n,
              a_kept ∙ cell,
              p,
              q,
              r,
              u,
              c,
              kept_by t.y below a none n.childs n.last_child only (t.at_y (λ q. Out q below) away)
                  under,
              t.relinked h₁ new only,
            ),
          );
    }

pub Out-all_but_last :
    (q a : ℕ) (nm : List ℕ) (ino : ℕ) (below rest : Forest)
    → Out q (kid a nm ino below rest)
    → Out q (all_but_last a nm ino below rest)
Out-all_but_last q a nm ino below nil o = tt
Out-all_but_last q a nm ino below (kid b nm' ino' below' rest) o =
    (o.0, o.1, Out-all_but_last q b nm' ino' below' rest o.2)

Distinct-all_but_last :
    (a : ℕ) (nm : List ℕ) (ino : ℕ) (below rest : Forest)
    → Distinct (kid a nm ino below rest)
    → Distinct (all_but_last a nm ino below rest)
Distinct-all_but_last a nm ino below nil v = tt
Distinct-all_but_last a nm ino below (kid b nm' ino' below' rest) (o, o', ap_, db, dr) = (
  o,
  Out-all_but_last a b nm' ino' below' rest o',
  Everywhere-map (λ q. Out q (kid b nm' ino' below' rest))
      (λ q. Out q (all_but_last b nm' ino' below' rest))
      (λ q v. Out-all_but_last q b nm' ino' below' rest v) below ap_,
  db,
  Distinct-all_but_last b nm' ino' below' rest dr,
)

width-all_but_last :
    (a : ℕ) (nm : List ℕ) (ino : ℕ) (below rest : Forest)
    → width (all_but_last a nm ino below rest) ≡ width rest
width-all_but_last a nm ino below nil = refl
width-all_but_last a nm ino below (kid b nm' ino' below' rest) =
    ap suc (width-all_but_last b nm' ino' below' rest)

evict_run :
    (fuel : ℕ) (h h₁ h₂ h₃ : Store) (p y z : ℕ) (top nz : Node)
    → Cell h p top
    → top.last_child ≡ some z
    → Cell h z nz
    → nz.prev ≡ some y
    → assign h y (λ n. record n { next = none }) ≡ ok h₁
    → assign h₁ p (λ n. record n { last_child = nz.prev; count = n.count - 1 }) ≡ ok h₂
    → decache_free fuel h₂ z ≡ ok h₃
    → evict fuel h p ≡ ok h₃
unfolding evict
evict_run fuel h h₁ h₂ h₃ p y z top nz cell last_is cell_z prev_z run₁ run₂ run₃ =
    let a : address nz.prev ≡ ok y = rw prev_z refl in
    rw (cell, ◌>>=◌, last_is, ◌>>=◌, cell_z, ◌>>=◌, a, ◌>>=◌, run₁, ◌>>=◌, run₂, ◌>>=◌) run₃

-- The last of at least two children is freed with all below it; the others are the children then.
pub evict_lem :
    (d : ℕ) (h : Store) (p : ℕ) (top : Node) (a : ℕ) (nm : List ℕ) (ino : ℕ) (below : Forest)
    (b : ℕ) (nm' : List ℕ) (ino' : ℕ) (below' rest : Forest)
    → let f = kid a nm ino below (kid b nm' ino' below' rest) in
      Cell h p top
      → IsForest h p none top.childs f top.last_child
      → Distinct f
      → Out p f
      → Shallow (suc d) f
      → (h' : Store) × (last' : Option ℕ) × (evict (suc d) h p ≡ ok h')
        × Cell h' p (record top { last_child = last'; count = top.count - 1 })
        × IsForest h' p none top.childs (butlast f) last'
        × Distinct (butlast f)
        × Out p (butlast f)
        × (width (butlast f) ≡ suc (width rest))
        × (length h' ≡ length h)
        × ((q : ℕ) → q ≢ p → Out q f → get_elem? h' q ≡ get_elem? h q)
evict_lem d h p top a nm ino below b nm' ino' below' rest cell t dis out sh =
    let f = kid a nm ino below (kid b nm' ino' below' rest) in
    let g = butlast f in
    let k =
      tail d h p none top.childs top.last_child a nm ino below b nm' ino' below' rest t dis sh.1 in
    let away = Everywhere-ne p f out in
    let y_p = k.at_y (λ q. q ≢ p) away in
    let z_p = k.at_z (λ q. q ≢ p) away in
    let out_g = Out-all_but_last p a nm ino below (kid b nm' ino' below' rest) out in
    let (h₁, run₁, new₁, only₁) = assign-Cell h k.y k.ny (λ n. record n { next = none }) k.cell_y in
    let (h₂, run₂, new₂, only₂) =
      assign-Cell h₁ p top (λ n. record n { last_child = k.nz.prev; count = n.count - 1 })
        (only₁.elsewhere p (λ e. y_p (sym e)) ∙ cell) in
    let under₂ =
      kept_by p k.bz k.z none k.nz.childs k.nz.last_child only₂ (Out-Everywhere p k.bz z_p.1)
        (kept_by k.y k.bz k.z none k.nz.childs k.nz.last_child only₁ k.y_apart.1 k.under_z) in
    let cell_z₂ =
      only₂.elsewhere k.z z_p.0 ∙ only₁.elsewhere k.z (λ e. k.y_apart.0 (sym e)) ∙ k.cell_z in
    let (h₃, run₃, gone, k₃) =
      decache_free_lem d h₂ k.z k.nz k.bz cell_z₂ k.count_z under₂ k.own_z.0 k.own_z.1 k.own_z.2 in
    let linked₂ = kept_by p g p none top.childs (some k.y) only₂ out_g (k.relinked h₁ new₁ only₁) in
    let linked₃ =
      kept_apart (kid k.z k.nz.name k.nz.inode_idx k.bz nil) g h₂ h₃ p none top.childs (some k.y) k₃
        (k.z_apart.0, k.z_apart.1, tt) linked₂ in
    let p_out : Out p (kid k.z k.nz.name k.nz.inode_idx k.bz nil) =
      ((λ e. z_p.0 (sym e)), Out-Everywhere p k.bz z_p.1, tt) in
    (
      h₃,
      k.nz.prev,
      evict_run (suc d) h h₁ h₂ h₃ p k.y k.z top k.nz cell k.last_is k.cell_z k.prev_z run₁ run₂
          run₃,
      k₃.outside p p_out ∙ new₂,
      subst (λ l. IsForest h₃ p none top.childs g l) (sym k.prev_z) linked₃,
      Distinct-all_but_last a nm ino below (kid b nm' ino' below' rest) dis,
      out_g,
      width-all_but_last a nm ino below (kid b nm' ino' below' rest),
      k₃.same_length ∙ only₂.same_length ∙ only₁.same_length,
      λ q q_p o.
          let away_q = Everywhere-ne q f o in
          let y_q = k.at_y (λ r. r ≢ q) away_q in
          let z_q = k.at_z (λ r. r ≢ q) away_q in
          k₃.outside q ((λ e. z_q.0 (sym e)), Out-Everywhere q k.bz z_q.1, tt)
          ∙ only₂.elsewhere q q_p
          ∙ only₁.elsewhere q (λ e. y_q (sym e)),
    )
