-- ===== src/Decache/Delete.antt =====
-- A cached name is taken out (`decache_delete` of src/cache.c, once the entry is found).
use kfs.Base.{
  ℕ, suc, ◌-◌, ◌<◌, ◌≡◌, ◌≢◌, refl, sym, ◌∙◌, List, Option, none, some, ok, arith, get_elem?, set,
  ok_injective, ◌>>=◌, ==-false,
}
use kfs.Decache.{Node, Store, assign, address, decache_free, delete_entry}
use kfs.Decache.Forest.{Forest, nil, kid, width, Cell, IsForest, Distinct, Out, Shallow, Apart-sym}
use kfs.Decache.Cells.{assign-Cell}
use kfs.Decache.Free.{kept_apart, decache_free_lem}
use kfs.Decache.Evict.{kept_by}
use kfs.Decache.Front.{Cached}

delete_first_run :
    (fuel : ℕ) (h h₁ h₂ h₃ h₄ : Store) (p a b : ℕ) (top na : Node)
    → Cell h a na
    → na.parent ≡ some p
    → Cell h p top
    → 1 < top.count
    → na.prev ≡ none
    → na.next ≡ some b
    → assign h p (λ n. record n { count = n.count - 1 }) ≡ ok h₁
    → assign h₁ b (λ n. record n { prev = none }) ≡ ok h₂
    → assign h₂ p (λ n. record n { childs = na.next }) ≡ ok h₃
    → decache_free fuel h₃ a ≡ ok h₄
    → delete_entry fuel h a ≡ ok h₄
unfolding delete_entry
delete_first_run fuel h h₁ h₂ h₃ h₄ p a b top na cell_a up cell more first next run₁ run₂ run₃
      run₄ =
    let ad : address na.next ≡ ok b = rw next refl in
    let less : Node = record top { count = top.count - 1 } in
    let q : assign h p (λ n. record n { count = n.count - 1 }) ≡ ok (set h p (some less)) =
      rw cell refl in
    let s : set h p (some less) ≡ h₁ = ok_injective (sym q ∙ run₁) in
    rw
      (
        cell_a,
        ◌>>=◌,
        up,
        ◌>>=◌,
        cell,
        ◌>>=◌,
        ==-false top.count 0 (λ e. absurd (omega arith)),
        ==-false (top.count - 1) 0 (λ e. absurd (omega arith)),
        first,
        ad,
        ◌>>=◌,
        s,
        run₂,
        ◌>>=◌,
        run₃,
        ◌>>=◌,
      )
      run₄

-- The first of at least two children is freed with all below it, and the others are the children
-- then.
pub delete_entry-first :
    (d : ℕ) (h : Store) (p a : ℕ) (nm : List ℕ) (ino : ℕ) (below : Forest) (b : ℕ) (nm' : List ℕ)
    (ino' : ℕ) (below' rest : Forest)
    → Cached h p (kid a nm ino below (kid b nm' ino' below' rest))
    → Shallow d below
    → (h' : Store) × (delete_entry (suc d) h a ≡ ok h')
      × Cached h' p (kid b nm' ino' below' rest)
      × (get_elem? h' a ≡ some none)
delete_entry-first d h p a nm ino below b nm' ino' below' rest c sh =
    let top = c.children.top in
    let count = c.children.count in
    let (
      e,
      (
        na,
        cell_a,
        pv,
        up,
        nn,
        ni,
        nc,
        under,
        (e', (nb, cell_b, pv', up', nn', ni', nc', under', behind)),
      ),
    ) =
      c.children.linked in
    let (o, o', ap_, db, (ob, ob', apb, dbb, dr)) = c.distinct in
    let (p_a, p_below, (p_b, p_below', p_rest)) = c.out in
    let (h₁, run₁, new₁, only₁) =
      assign-Cell h p top (λ n. record n { count = n.count - 1 }) c.children.cell in
    let b_p : b ≢ p = λ s. p_b (sym s) in
    let a_p : a ≢ p = λ s. p_a (sym s) in
    let (h₂, run₂, new₂, only₂) =
      assign-Cell h₁ b nb (λ n. record n { prev = none }) (only₁.elsewhere b b_p ∙ cell_b) in
    let (h₃, run₃, new₃, only₃) =
      assign-Cell h₂ p (record top { count = top.count - 1 }) (λ n. record n { childs = na.next })
        (only₂.elsewhere p p_b ∙ new₁) in
    let away = Apart-sym below (kid b nm' ino' below' rest) ap_ in
    let kept =
      λ (g : Forest) (parent : ℕ) (prev first last : Option ℕ) (x : Out p g) (y : Out b g)
          (t : IsForest h parent prev first g last).
        kept_by p g parent prev first last only₃ x (
          kept_by b g parent prev first last only₂ y
            (kept_by p g parent prev first last only₁ x t)) in
    let cell_a₃ = only₃.elsewhere a a_p ∙ only₂.elsewhere a o'.0 ∙ only₁.elsewhere a a_p ∙ cell_a in
    let (h₄, run₄, gone, k₄) =
      decache_free_lem d h₃ a na below cell_a₃ nc
        (kept below a none na.childs na.last_child p_below away.0 under) o db sh in
    let others : IsForest h₃ p none na.next (kid b nm' ino' below' rest) top.last_child = (
      e',
      (
        record nb { prev = none },
        only₃.elsewhere b b_p ∙ new₂,
        refl,
        up',
        nn',
        ni',
        nc',
        kept below' b none nb.childs nb.last_child p_below' ob under',
        kept rest p (some b) nb.next top.last_child p_rest ob' behind,
      ),
    ) in
    (
      h₄,
      delete_first_run (suc d) h h₁ h₂ h₃ h₄ p a b top na cell_a up c.children.cell (omega arith) pv
          e' run₁ run₂ run₃ run₄,
      record {
        children = record {
          top = record top { count = top.count - 1; childs = na.next };
          cell = k₄.outside p (p_a, p_below, tt) ∙ new₃;
          count = omega arith;
          linked =
              kept_apart (kid a na.name na.inode_idx below nil) (kid b nm' ino' below' rest) h₃ h₄ p
                none na.next top.last_child k₄ (o', ap_, tt) others;
        };
        distinct = (ob, ob', apb, dbb, dr);
        out = (p_b, p_below', p_rest);
        fits = omega (arith, c.fits);
      },
      gone.0,
    )

-- An entry with another before it and one behind it is freed, but the one before still points to it.
pub delete_entry-dangles :
    (d : ℕ) (h : Store) (p a y z : ℕ) (top na ny : Node) (below : Forest)
    → Cell h p top
    → 1 < top.count
    → Cell h a na
    → na.parent ≡ some p
    → na.prev ≡ some y
    → na.next ≡ some z
    → Cell h y ny
    → ny.next ≡ some a
    → na.count ≡ width below
    → IsForest h a none na.childs below na.last_child
    → Out a below
    → Distinct below
    → Shallow d below
    → Out p (kid a na.name na.inode_idx below nil)
    → Out y (kid a na.name na.inode_idx below nil)
    → y ≢ p
    → (h' : Store) × (n : Node) × (delete_entry (suc d) h a ≡ ok h')
      × Cell h' y n
      × (n.next ≡ some a)
      × (get_elem? h' a ≡ some none)
unfolding delete_entry
delete_entry-dangles d h p a y z top na ny below cell more cell_a up pv nx cell_y points nc under o
      db sh p_out y_out y_p =
    let (h₁, run₁, new₁, only₁) =
      assign-Cell h p top (λ n. record n { count = n.count - 1 }) cell in
    let a_p : a ≢ p = λ s. p_out.0 (sym s) in
    let (h₂, run₂, gone, k₂) =
      decache_free_lem d h₁ a na below (only₁.elsewhere a a_p ∙ cell_a) nc
        (kept_by p below a none na.childs na.last_child only₁ p_out.1 under) o db sh in
    let less : Node = record top { count = top.count - 1 } in
    let q : assign h p (λ n. record n { count = n.count - 1 }) ≡ ok (set h p (some less)) =
      rw cell refl in
    let s : set h p (some less) ≡ h₁ = ok_injective (sym q ∙ run₁) in
    (
      h₂,
      ny,
      rw
          (
            cell_a,
            ◌>>=◌,
            up,
            ◌>>=◌,
            cell,
            ◌>>=◌,
            ==-false top.count 0 (λ e. absurd (omega arith)),
            ==-false (top.count - 1) 0 (λ e. absurd (omega arith)),
            pv,
            nx,
            ◌>>=◌,
            s,
          )
          run₂,
      k₂.outside y y_out ∙ only₁.elsewhere y y_p ∙ cell_y,
      points,
      gone.0,
    )
