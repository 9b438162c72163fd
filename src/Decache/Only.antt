-- ===== src/Decache/Only.antt =====
-- The only cached name below an entry is taken out (`decache_delete` of src/cache.c, the branch that
-- leaves no child).
use kfs.Base.{
  ℕ, ◌-◌, ◌≡◌, ◌≢◌, refl, sym, ap, ◌∙◌, List, none, some, Res, ok, fault, assert_failed, arith,
  get_elem?, set, ok_injective, ◌>>=◌, ==-true, ==-false,
}
use kfs.Decache.{Node, Store, assign, release, delete_entry}
use kfs.Decache.Forest.{Forest, nil, kid, Cell}
use kfs.Decache.Cells.{assign-Cell, release-Cell}
use kfs.Decache.Front.{Cached}

delete_only_run :
    (fuel : ℕ) (h h₁ h₂ h₃ : Store) (p a : ℕ) (top na : Node)
    → Cell h a na
    → na.parent ≡ some p
    → Cell h p top
    → top.count ≡ 1
    → top.childs ≡ some a
    → assign h p (λ n. record n { count = n.count - 1 }) ≡ ok h₁
    → release h₁ a ≡ ok h₂
    → assign h₂ p (λ n. record n { childs = none; last_child = none }) ≡ ok h₃
    → delete_entry fuel h a ≡ ok h₃
unfolding delete_entry
delete_only_run fuel h h₁ h₂ h₃ p a top na cell_a up cell one first run₁ run₂ run₃ =
    let less : Node = record top { count = top.count - 1 } in
    let q : assign h p (λ n. record n { count = n.count - 1 }) ≡ ok (set h p (some less)) =
      rw cell refl in
    let s : set h p (some less) ≡ h₁ = ok_injective (sym q ∙ run₁) in
    let there : elim top.childs as (λ _. Res (Unit {0})) [
      | none ↦ fault assert_failed
      | some _ ↦ ok tt
    ]
        ≡ ok tt =
      rw first refl in
    rw
      (
        cell_a,
        ◌>>=◌,
        up,
        ◌>>=◌,
        cell,
        ◌>>=◌,
        ==-false top.count 0 (λ e. absurd (omega arith)),
        ==-true (top.count - 1) 0 (omega arith),
        there,
        ◌>>=◌,
        s,
        run₂,
        ◌>>=◌,
      )
      run₃

-- The only child is freed and its parent has no children then, but every other entry stays in the
-- store, those below the child too, which nothing leads to.
pub delete_entry-only :
    (fuel : ℕ) (h : Store) (p a : ℕ) (nm : List ℕ) (ino : ℕ) (below : Forest)
    → Cached h p (kid a nm ino below nil)
    → (h' : Store) × (delete_entry fuel h a ≡ ok h')
      × Cached h' p nil
      × (get_elem? h' a ≡ some none)
      × ((q : ℕ) → q ≢ p → q ≢ a → get_elem? h' q ≡ get_elem? h q)
delete_entry-only fuel h p a nm ino below c =
    let top = c.children.top in
    let (e, (na, cell_a, pv, up, nn, ni, nc, under, behind)) = c.children.linked in
    let p_a = c.out.0 in
    let a_p : a ≢ p = λ s. p_a (sym s) in
    let (h₁, run₁, new₁, only₁) =
      assign-Cell h p top (λ n. record n { count = n.count - 1 }) c.children.cell in
    let (h₂, run₂, gone, only₂) = release-Cell h₁ a na (only₁.elsewhere a a_p ∙ cell_a) in
    let (h₃, run₃, new₃, only₃) =
      assign-Cell h₂ p (record top { count = top.count - 1 })
        (λ n. record n { childs = none; last_child = none }) (only₂.elsewhere p p_a ∙ new₁) in
    (
      h₃,
      delete_only_run fuel h h₁ h₂ h₃ p a top na cell_a up c.children.cell c.children.count e run₁
          run₂ run₃,
      record {
        children = record {
          top = record top { count = top.count - 1; childs = none; last_child = none };
          cell = new₃;
          count = ap (λ n. n - 1) c.children.count;
          linked = (refl, refl);
        };
        distinct = tt;
        out = tt;
        fits = omega arith;
      },
      only₃.elsewhere a a_p ∙ gone,
      λ q q_p q_a. only₃.elsewhere q q_p ∙ only₂.elsewhere q q_a ∙ only₁.elsewhere q q_p,
    )
