-- ===== src/Tests/Decaches.antt =====
-- A store of cached names: the names "a", "b" and "c" in the root, and "x" in "b".
use kfs.Base.{
  ◌≢◌, ℕ, ◌≡◌, refl, List, [], ◌∷◌, Option, none, some, ok, fault, assert_failed, arith, get_elem?,
  replicate,
}
use kfs.Decache.{
  decache_delete, Node, Store, decache_walk, decache_find, decache_free, delete_entry,
}
use kfs.Decache.Forest.{Forest, nil, kid, Cell, IsForest, Everywhere, Gone}
use kfs.Decache.Walk.{decache_walk-long_name_aborts}
use kfs.Decache.Free.{KeepsOut, decache_free_lem}
use kfs.Decache.Front.{Cached}
use kfs.Decache.Insert.{Inserts, decache_insert-front}
use kfs.Decache.Delete.{delete_entry-first, delete_entry-dangles}
use kfs.Decache.Only.{delete_entry-only}
use kfs.Decache.Find.{spell, decache_find-descend}
use kfs.Decache.Taken.{decache_delete-first}

abbrev entry :
    (parent childs last_child prev next : Option ℕ) → (inode_idx count : ℕ) → List ℕ → Node
entry parent childs last_child prev next n count name = record {
  parent = parent;
  childs = childs;
  last_child = last_child;
  prev = prev;
  next = next;
  inode_idx = n;
  count = count;
  name = name;
}

abbrev name_a : List ℕ
name_a = b'a' ∷ []

abbrev name_b : List ℕ
name_b = b'b' ∷ []

abbrev name_c : List ℕ
name_c = b'c' ∷ []

abbrev name_x : List ℕ
name_x = b'x' ∷ []

abbrev top_node : Node
top_node = entry none (some 1) (some 3) none none 2 3 (b'/' ∷ [])

abbrev node_a : Node
node_a = entry (some 0) none none none (some 2) 11 0 name_a

abbrev node_b : Node
node_b = entry (some 0) (some 4) (some 4) (some 1) (some 3) 12 1 name_b

abbrev node_c : Node
node_c = entry (some 0) none none (some 2) none 13 0 name_c

abbrev node_x : Node
node_x = entry (some 2) none none none none 14 0 name_x

abbrev names : Store
names = some top_node ∷ some node_a ∷ some node_b ∷ some node_c ∷ some node_x ∷ []

abbrev below_b : Forest
below_b = kid 4 name_x 14 nil nil

abbrev behind_a : Forest
behind_a = kid 2 name_b 12 below_b (kid 3 name_c 13 nil nil)

abbrev tree : Forest
tree = kid 1 name_a 11 nil behind_a

below_b-IsForest : IsForest names 2 none (some 4) below_b (some 4)
below_b-IsForest = (refl, (node_x, refl, refl, refl, refl, refl, refl, (refl, refl), (refl, refl)))

abbrev names-Cached : Cached names 0 tree
names-Cached = record {
  children = record {
    top = top_node;
    cell = refl;
    count = refl;
    linked = (
      refl,
      (
        node_a,
        refl,
        refl,
        refl,
        refl,
        refl,
        refl,
        (refl, refl),
        (
          refl,
          (
            node_b,
            refl,
            refl,
            refl,
            refl,
            refl,
            refl,
            below_b-IsForest,
            (refl, (node_c, refl, refl, refl, refl, refl, refl, (refl, refl), (refl, refl))),
          ),
        ),
      ),
    );
  };
  distinct = (
    tt,
    (
      λ e. absurd (omega arith),
      (λ e. absurd (omega arith), tt, tt),
      (λ e. absurd (omega arith), tt, tt),
    ),
    tt,
    tt,
    (
      (λ e. absurd (omega arith), tt, tt),
      (λ e. absurd (omega arith), tt, tt),
      ((λ e. absurd (omega arith), tt, tt), tt, tt),
      (tt, tt, tt, tt, tt),
      (tt, tt, tt, tt, tt),
    ),
  );
  out = (
    λ e. absurd (omega arith),
    tt,
    (
      λ e. absurd (omega arith),
      (λ e. absurd (omega arith), tt, tt),
      (λ e. absurd (omega arith), tt, tt),
    ),
  );
  fits = omega arith;
}

abbrev long_name : List ℕ
long_name = replicate 255 b'l'

decache_walk-long_name_aborts_example : decache_walk 3 names none long_name ≡ fault assert_failed
decache_walk-long_name_aborts_example =
    decache_walk-long_name_aborts 3 names none tree long_name names-Cached.children (omega arith)
      (omega arith)

decache_free_lem_example :
    (h' : Store) × (decache_free 2 names 2 ≡ ok h')
    × Everywhere (Gone h') (kid 2 name_b 12 below_b nil)
    × KeepsOut (kid 2 name_b 12 below_b nil) names h'
decache_free_lem_example =
    decache_free_lem 1 names 2 node_b below_b refl refl below_b-IsForest
      (λ e. absurd (omega arith), tt, tt) (tt, tt, tt, tt, tt) (tt, tt)

decache_insert-front_example : Inserts 1 names none name_x 20 tree
decache_insert-front_example =
    decache_insert-front 1 names none name_x 20 tree names-Cached (λ e. absurd (omega arith))
      (omega arith) (tt, ((tt, tt), (tt, tt)))

delete_entry-first_example :
    (h' : Store) × (delete_entry 1 names 1 ≡ ok h')
    × Cached h' 0 behind_a
    × (get_elem? h' 1 ≡ some none)
delete_entry-first_example =
    delete_entry-first 0 names 0 1 name_a 11 nil 2 name_b 12 below_b (kid 3 name_c 13 nil nil)
      names-Cached tt

delete_entry-dangles_example :
    (h' : Store) × (n : Node) × (delete_entry 2 names 2 ≡ ok h')
    × Cell h' 1 n
    × (n.next ≡ some 2)
    × (get_elem? h' 2 ≡ some none)
delete_entry-dangles_example =
    delete_entry-dangles 1 names 0 2 1 3 top_node node_b node_a below_b refl (omega arith) refl refl
      refl refl refl refl refl below_b-IsForest (λ e. absurd (omega arith), tt, tt)
      (tt, tt, tt, tt, tt) (tt, tt)
      (λ e. absurd (omega arith), (λ e. absurd (omega arith), tt, tt), tt)
      (λ e. absurd (omega arith), (λ e. absurd (omega arith), tt, tt), tt)
      (λ e. absurd (omega arith))

abbrev path : List (List ℕ)
path = name_b ∷ name_x ∷ name_c ∷ []

decache_find-descend_example : decache_find 3 4 names none (spell path) ≡ ok (some 4, name_c)
decache_find-descend_example =
    decache_find-descend 3 4 names none tree path names-Cached.children (omega arith)
      (omega arith, tt, (omega arith, (omega arith, tt, tt), (omega arith, tt, tt)))
      (
        omega arith,
        omega arith,
        ((λ e. absurd (omega arith)), tt),
        (
          omega arith,
          omega arith,
          ((λ e. absurd (omega arith)), tt),
          (omega arith, omega arith, ((λ e. absurd (omega arith)), tt), tt),
        ),
      )
      (omega arith)

abbrev leaf_below : Store
leaf_below =
    some (entry none (some 1) (some 1) none none 2 1 (b'/' ∷ []))
    ∷ some (entry (some 0) (some 2) (some 2) none none 12 1 name_b)
    ∷ some (entry (some 1) none none none none 14 0 name_x)
    ∷ []

delete_entry-only_example :
    (h' : Store) × (delete_entry 0 leaf_below 1 ≡ ok h')
    × Cached h' 0 nil
    × (get_elem? h' 1 ≡ some none)
    × ((q : ℕ) → q ≢ 0 → q ≢ 1 → get_elem? h' q ≡ get_elem? leaf_below q)
delete_entry-only_example =
    delete_entry-only 0 leaf_below 0 1 name_b 12 (kid 2 name_x 14 nil nil) (record {
      children = record {
        top = entry none (some 1) (some 1) none none 2 1 (b'/' ∷ []);
        cell = refl;
        count = refl;
        linked = (
          refl,
          (
            entry (some 0) (some 2) (some 2) none none 12 1 name_b,
            refl,
            refl,
            refl,
            refl,
            refl,
            refl,
            (
              refl,
              (
                entry (some 1) none none none none 14 0 name_x,
                refl,
                refl,
                refl,
                refl,
                refl,
                refl,
                (refl, refl),
                (refl, refl),
              ),
            ),
            (refl, refl),
          ),
        );
      };
      distinct = ((λ e. absurd (omega arith), tt, tt), tt, (tt, tt, tt), (tt, tt, tt, tt, tt), tt);
      out = (λ e. absurd (omega arith), (λ e. absurd (omega arith), tt, tt), tt);
      fits = omega arith;
    })

-- There is no "x" below "a", so "a" is what goes.
decache_delete-first_example :
    (h' : Store) × (decache_delete 3 3 names (spell (name_a ∷ name_x ∷ [])) ≡ ok h')
    × Cached h' 0 behind_a
    × Gone h' 1
decache_delete-first_example =
    decache_delete-first 2 3 names 1 name_a 11 nil 2 name_b 12 below_b (kid 3 name_c 13 nil nil)
      (name_x ∷ []) names-Cached tt (omega arith)
      (omega arith, tt, (omega arith, (omega arith, tt, tt), (omega arith, tt, tt)))
      (
        omega arith,
        omega arith,
        ((λ e. absurd (omega arith)), tt),
        (omega arith, omega arith, ((λ e. absurd (omega arith)), tt), tt),
      )
      refl (omega arith)
