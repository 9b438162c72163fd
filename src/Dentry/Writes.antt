-- ===== src/Dentry/Writes.antt =====
-- What the stores of src/dentry.c through pointers into the block's buffer do to its bytes.
use kfs.Base.{
  ℕ, suc, ◌+◌, ◌/◌, ◌%◌, ◌^◌, ◌≤◌, ◌<◌, ◌≡◌, ◌⊎◌, inl, inr, refl, ap, ◌∙◌, List, [], ◌∷◌, ◌++◌,
  some, Res, ok, load, store, put_u16, put_u32, u16_at, u32_at, le16, le32, length, get_elem?, set,
  length-set, get_elem?-set_self, get_elem?-set_ne, get_elem?-some, length-append, arith, ◌>>=◌,
}
use kfs.Dentry.{put_name}

-- The bytes from `a` on are `bs`.
abbrev pub Holds : List ℕ → ℕ → List ℕ → Type 0
Holds buf a [] = Unit
Holds buf a (b ∷ bs) = (get_elem? buf a ≡ some b) × Holds buf (a + 1) bs

-- Of the buffer, the `n` bytes from `a` on may have changed.
pub record Frame (a n : ℕ) (buf buf' : List ℕ) : Type 0 where
  pub same_length : length buf' ≡ length buf
  pub outside : (i : ℕ) → (i < a) ⊎ (a + n ≤ i) → get_elem? buf' i ≡ get_elem? buf i

abbrev pub Wrote : ℕ → List ℕ → List ℕ → List ℕ → Type 0
Wrote a bs buf buf' = Frame a (length bs) buf buf' × Holds buf' a bs

pub Frame-widen :
    (a n a' n' : ℕ) {buf buf' : List ℕ}
    → a' ≤ a
    → a + n ≤ a' + n'
    → Frame a n buf buf'
    → Frame a' n' buf buf'
Frame-widen a n a' n' lo hi f = record {
  same_length = f.same_length;
  outside =
      λ i out. f.outside i (elim out [ inl h ↦ inl (omega arith) | inr h ↦ inr (omega arith) ]);
}

pub Frame-then :
    (a n : ℕ) {buf buf' buf'' : List ℕ}
    → Frame a n buf buf'
    → Frame a n buf' buf''
    → Frame a n buf buf''
Frame-then a n f g = record {
  same_length = g.same_length ∙ f.same_length;
  outside = λ i out. g.outside i out ∙ f.outside i out;
}

pub Holds-Frame :
    (a n q : ℕ) (bs : List ℕ) {buf buf' : List ℕ}
    → Frame a n buf buf'
    → (q + length bs ≤ a) ⊎ (a + n ≤ q)
    → Holds buf q bs
    → Holds buf' q bs
Holds-Frame a n q [] f apart h = tt
Holds-Frame a n q (b ∷ bs) f (inl le) h =
    (f.outside q (inl (omega arith)) ∙ h.0, Holds-Frame a n (q + 1) bs f (inl (omega arith)) h.1)
Holds-Frame a n q (b ∷ bs) f (inr le) h =
    (f.outside q (inr le) ∙ h.0, Holds-Frame a n (q + 1) bs f (inr (omega arith)) h.1)

pub Holds-append :
    (buf : List ℕ) (a : ℕ) (xs ys : List ℕ)
    → Holds buf a xs
    → Holds buf (a + length xs) ys
    → Holds buf a (xs ++ ys)
Holds-append buf a [] ys h k = let e : a ≡ a + 0 = omega arith in rw e k
Holds-append buf a (x ∷ xs) ys h k =
    let e : a + 1 + length xs ≡ a + suc (length xs) = omega arith in
    (h.0, Holds-append buf (a + 1) xs ys h.1 (rw e k))

pub Holds-left : (buf : List ℕ) (a : ℕ) (xs ys : List ℕ) → Holds buf a (xs ++ ys) → Holds buf a xs
Holds-left buf a [] ys h = tt
Holds-left buf a (x ∷ xs) ys h = (h.0, Holds-left buf (a + 1) xs ys h.1)

pub Holds-right :
    (buf : List ℕ) (a : ℕ) (xs ys : List ℕ) → Holds buf a (xs ++ ys) → Holds buf (a + length xs) ys
Holds-right buf a [] ys h = let e : a + 0 ≡ a = omega arith in rw e h
Holds-right buf a (x ∷ xs) ys h =
    let e : a + suc (length xs) ≡ a + 1 + length xs = omega arith in
    rw e (Holds-right buf (a + 1) xs ys h.1)

-- A second write right behind, or right before, the first.
pub Wrote-after :
    (a : ℕ) (xs ys : List ℕ) {buf buf' buf'' : List ℕ}
    → Wrote a xs buf buf'
    → Wrote (a + length xs) ys buf' buf''
    → Wrote a (xs ++ ys) buf buf''
Wrote-after a xs ys w v =
    let l = length-append xs ys in
    (
      Frame-then a (length (xs ++ ys))
          (Frame-widen a (length xs) a (length (xs ++ ys)) (omega arith) (omega arith) w.0)
          (Frame-widen (a + length xs) (length ys) a (length (xs ++ ys)) (omega arith) (omega arith)
            v.0),
      Holds-append _ a xs ys
          (Holds-Frame (a + length xs) (length ys) a xs v.0 (inl (omega arith)) w.1) v.1,
    )

pub Wrote-before :
    (a : ℕ) (xs ys : List ℕ) {buf buf' buf'' : List ℕ}
    → Wrote (a + length xs) ys buf buf'
    → Wrote a xs buf' buf''
    → Wrote a (xs ++ ys) buf buf''
Wrote-before a xs ys w v =
    let l = length-append xs ys in
    (
      Frame-then a (length (xs ++ ys))
          (Frame-widen (a + length xs) (length ys) a (length (xs ++ ys)) (omega arith) (omega arith)
            w.0)
          (Frame-widen a (length xs) a (length (xs ++ ys)) (omega arith) (omega arith) v.0),
      Holds-append _ a xs ys v.1
          (Holds-Frame a (length xs) (a + length xs) ys v.0 (inr (omega arith)) w.1),
    )

-- A run that writes `bs` at `a`.
abbrev pub Writes : Res (List ℕ) → ℕ → List ℕ → List ℕ → Type 0
Writes run a bs buf = (buf' : List ℕ) × (run ≡ ok buf') × Wrote a bs buf buf'

pub store_lem : (buf : List ℕ) (a b : ℕ) → a < length buf → Writes (store buf a b) a (b ∷ []) buf
store_lem buf a b lt =
    let (x, e) = get_elem?-some buf a lt in
    (
      set buf a b,
      rw e refl,
      (
        record {
          same_length = length-set buf a b;
          outside = λ i out.
              get_elem?-set_ne buf a i b (elim out [ inl h ↦ omega arith | inr h ↦ omega arith ]);
        },
        (get_elem?-set_self buf a b lt, tt),
      ),
    )

pub put_u16_lem :
    (buf : List ℕ) (a v : ℕ) → a + 2 ≤ length buf → Writes (put_u16 buf a v) a (le16 v) buf
put_u16_lem buf a v le =
    let (buf₁, run₁, w₁) = store_lem buf a (v % 2 ^ 8) (omega arith) in
    let (buf₂, run₂, w₂) =
      store_lem buf₁ (a + 1) (v / 2 ^ 8 % 2 ^ 8) (omega (arith, w₁.0.same_length)) in
    (buf₂, rw (run₁, ◌>>=◌) run₂, Wrote-after a (v % 2 ^ 8 ∷ []) (v / 2 ^ 8 % 2 ^ 8 ∷ []) w₁ w₂)

pub put_u32_lem :
    (buf : List ℕ) (a v : ℕ) → a + 4 ≤ length buf → Writes (put_u32 buf a v) a (le32 v) buf
put_u32_lem buf a v le =
    let (buf₁, run₁, w₁) = put_u16_lem buf a v (omega arith) in
    let (buf₂, run₂, w₂) =
      put_u16_lem buf₁ (a + 2) (v / 2 ^ 16) (omega (arith, w₁.0.same_length)) in
    (buf₂, rw (run₁, ◌>>=◌) run₂, Wrote-after a (le16 v) (le16 (v / 2 ^ 16)) w₁ w₂)

pub put_name_lem :
    (buf : List ℕ) (a : ℕ) (name : List ℕ)
    → a + length name ≤ length buf
    → Writes (put_name buf a name) a name buf
unfolding put_name
put_name_lem buf a [] le = (buf, refl, (record { same_length = refl; outside = λ i out. refl }, tt))
put_name_lem buf a (c ∷ name) le =
    let (buf₁, run₁, w₁) = store_lem buf a c (omega arith) in
    let (buf₂, run₂, w₂) = put_name_lem buf₁ (a + 1) name (omega (arith, w₁.0.same_length)) in
    (buf₂, rw (run₁, ◌>>=◌) run₂, Wrote-after a (c ∷ []) name w₁ w₂)

-- The same read back.
pub load-Holds : (buf : List ℕ) (a b : ℕ) → get_elem? buf a ≡ some b → load buf a ≡ ok b
load-Holds buf a b h = rw h refl

pub u16_at-Holds :
    (buf : List ℕ) (a v : ℕ) → v < 2 ^ 16 → Holds buf a (le16 v) → u16_at buf a ≡ ok v
u16_at-Holds buf a v lt h = rw (h.0, h.1.0) (ap ok (omega arith))

pub u32_at-Holds :
    (buf : List ℕ) (a v : ℕ) → v < 2 ^ 32 → Holds buf a (le32 v) → u32_at buf a ≡ ok v
u32_at-Holds buf a v lt h =
    let e : a + 2 ≡ a + 1 + 1 = omega arith in
    rw (h.0, h.1.0, e, h.1.1.0, h.1.1.1.0) (ap ok (omega arith))
