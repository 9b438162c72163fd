-- ===== src/Decache/Cells.antt =====
-- Loads and stores of entries (the pointers of src/cache.c).
use kfs.Base.{
  ℕ, zero, suc, ◌<◌, ◌≡◌, ◌≢◌, refl, sym, List, [], ◌∷◌, ◌++◌, none, some, ok, arith, length,
  get_elem?, set, length-set, get_elem?-set_self, get_elem?-set_ne, lt-length_of_some,
}
use kfs.Decache.{Node, Store, deref, assign, release}
use kfs.Decache.Forest.{Cell}

-- The stores differ at `p` at most.
pub record Only (p : ℕ) (h h' : Store) : Type 0 where
  pub same_length : length h' ≡ length h
  pub elsewhere : (q : ℕ) → q ≢ p → get_elem? h' q ≡ get_elem? h q

pub deref-Cell : (h : Store) (p : ℕ) (n : Node) → Cell h p n → deref h p ≡ ok n
deref-Cell h p n c = rw c refl

pub assign-Cell :
    (h : Store) (p : ℕ) (n : Node) (f : Node → Node)
    → Cell h p n
    → (h' : Store) × (assign h p f ≡ ok h') × Cell h' p (f n) × Only p h h'
assign-Cell h p n f c = (
  set h p (some (f n)),
  rw c refl,
  get_elem?-set_self h p (some (f n)) (lt-length_of_some h p c),
  record {
    same_length = length-set h p (some (f n));
    elsewhere = λ q ne. get_elem?-set_ne h p q (some (f n)) (λ e. ne (sym e));
  },
)

pub release-Cell :
    (h : Store) (p : ℕ) (n : Node)
    → Cell h p n
    → (h' : Store) × (release h p ≡ ok h') × (get_elem? h' p ≡ some none) × Only p h h'
release-Cell h p n c = (
  set h p none,
  rw c refl,
  get_elem?-set_self h p none (lt-length_of_some h p c),
  record {
    same_length = length-set h p none;
    elsewhere = λ q ne. get_elem?-set_ne h p q none (λ e. ne (sym e));
  },
)

-- A new entry at the end of the store.
pub get_elem?-append_left {ℓ} :
    {A : Type ℓ} (xs ys : List A) (i : ℕ) → i < length xs → get_elem? (xs ++ ys) i ≡ get_elem? xs i
get_elem?-append_left [] ys i lt = absurd (omega arith)
get_elem?-append_left (x ∷ xs) ys zero lt = refl
get_elem?-append_left (x ∷ xs) ys (suc i) lt = get_elem?-append_left xs ys i (omega arith)

pub get_elem?-append_end {ℓ} :
    {A : Type ℓ} (xs : List A) (x : A) → get_elem? (xs ++ (x ∷ [])) (length xs) ≡ some x
get_elem?-append_end [] x = refl
get_elem?-append_end (y ∷ xs) x = get_elem?-append_end xs x
