-- ===== src/Search/Laws.antt =====
-- The loops of the allocator end, and find what there is to find.
use native.Mathlib.Decide.{ℕ_discrete, dec_lt}
use native.Mathlib.Nat.{mod_self}
use mathlib.Core.Path.{subst}
use kfs.Base.{
  ℕ, zero, suc, ◌+◌, ◌-◌, ◌%◌, ◌^◌, ◌<◌, ◌≤◌, ◌≡◌, refl, List, Option, none, some, Bool, true,
  false, Res, ok, fault, arith, ◌⊎◌, inl, inr, ◌≢◌, get_elem?, out_of_range, ◌==◌, ltb, length,
  get_elem?-none, u32,
}
use kfs.Search.{first_free, next_groups, find_in_groups}

abbrev pub Fails : (ℕ → Res Bool) → ℕ → ℕ → Type 0
Fails test lo hi = (k : ℕ) → lo ≤ k → k < hi → test k ≡ ok false

-- The first index of [i, i + n) that passes, or the failure of all of them.
abbrev pub First : (ℕ → Res Bool) → ℕ → ℕ → Res (Option ℕ) → Type 0
First test n i r =
    ((r ≡ ok none) × Fails test i (i + n))
    ⊎ ((j : ℕ) × (r ≡ ok (some j)) × (i ≤ j) × (j < i + n) × (test j ≡ ok true) × Fails test i j)

Fails-cons :
    {test : ℕ → Res Bool} {i hi : ℕ} → test i ≡ ok false → Fails test (i + 1) hi → Fails test i hi
Fails-cons {test} {i} e rest k p q = elim (ℕ_discrete i k) [
  | yes same ↦ subst (λ t. test t ≡ ok false) same e
  | no other ↦ rest k (omega arith) q
]

module _ (test : ℕ → Res Bool) where
  pub first_free-First :
      (n i : ℕ)
      → ((k : ℕ) → k < i + n → (b : Bool) × (test k ≡ ok b))
      → First test n i (first_free test n i)
  unfolding first_free
  first_free-First zero i defined = inl (refl, λ k p q. absurd (omega arith))
  first_free-First (suc n) i defined =
      step (defined i (omega arith)) (first_free-First n (i + 1) (λ k h. defined k (omega arith)))
    where
      step :
          (b : Bool) × (test i ≡ ok b)
          → First test n (i + 1) (first_free test n (i + 1))
          → First test (suc n) i (first_free test (suc n) i)
      step (true, e) rest =
          inr (i, rw e, omega arith, omega arith, e, λ k p q. absurd (omega arith))
      step (false, e) (inl (r, none_of)) =
          inl (rw e r, λ k p q. Fails-cons e none_of k p (omega arith))
      step (false, e) (inr (j, r, lo, hi, hit, before)) =
          inr (j, rw e r, omega arith, omega arith, hit, Fails-cons e before)

module _ {A : Type 0} (scan : A → Res (Option ℕ)) (groups : List A) (group_num start : ℕ) where
  -- Group `k` is there, and its scan finds nothing; its scan finds `j`.
  abbrev pub Clear : ℕ → Type 0
  Clear k = (g : A) × (get_elem? groups k ≡ some g) × (scan g ≡ ok none)

  abbrev pub Hit : ℕ → ℕ → Type 0
  Hit k j = (g : A) × (get_elem? groups k ≡ some g) × (scan g ≡ ok (some j))

  -- A run ends: it finds something in some group, or nothing in any group of `P`.
  abbrev pub Outcome : (ℕ → Type 0) → Res (Option (ℕ × ℕ)) → Type 0
  Outcome P r =
      ((r ≡ ok none) × ((k : ℕ) → P k → Clear k))
      ⊎ ((k : ℕ) × (j : ℕ) × (r ≡ ok (some (k, j))) × (k < group_num) × Hit k j)

  -- Every group is there, and its scan does not fault.
  abbrev pub Scans : Type 0
  Scans =
      (k : ℕ)
      → k < group_num
      → (g : A) × (get_elem? groups k ≡ some g) × (r : Option ℕ) × (scan g ≡ ok r)

  weaken :
      {P Q : ℕ → Type 0} {r : Res (Option (ℕ × ℕ))}
      → ((k : ℕ) → Q k → P k ⊎ Clear k)
      → Outcome P r
      → Outcome Q r
  weaken split (inl (e, clear)) = inl (e, λ k q. elim (split k q) [ inl p ↦ clear k p | inr c ↦ c ])
  weaken split (inr found) = inr found

  from : {P : Type 0} (i k : ℕ) → Clear i → i ≤ k → (i + 1 ≤ k → P) → P ⊎ Clear k
  from i k clear le rest = elim (ℕ_discrete i k) [
    | yes same ↦ inr (subst Clear same clear)
    | no other ↦ inl (rest (omega arith))
  ]

  next_groups-Clear :
      (n i : ℕ)
      → i ≢ start
      → Clear i
      → next_groups scan groups group_num start (suc n) i
        ≡ next_groups scan groups group_num start n (u32 (i + 1) % group_num)
  unfolding next_groups
  next_groups-Clear n i ne (g, eg, er) =
      let off : (i == start) ≡ false = ground arith in rw (off, eg, er)

  next_groups-Hit :
      (n i j : ℕ)
      → i ≢ start
      → Hit i j
      → next_groups scan groups group_num start (suc n) i ≡ ok (some (i, j))
  unfolding next_groups
  next_groups-Hit n i j ne (g, eg, er) =
      let off : (i == start) ≡ false = ground arith in rw (off, eg, er)

  next_groups_end :
      (n i : ℕ) → i ≡ start → next_groups scan groups group_num start (suc n) i ≡ ok none
  unfolding next_groups
  next_groups_end n i e = let at : (i == start) ≡ true = ground arith in rw at

  module _ (scans : Scans) (small : group_num < 2 ^ 32) where
    scan-cases : (i : ℕ) → i < group_num → Clear i ⊎ ((j : ℕ) × Hit i j)
    scan-cases i lt = pick (scans i lt)
      where
        pick :
            (g : A) × (get_elem? groups i ≡ some g) × (r : Option ℕ) × (scan g ≡ ok r)
            → Clear i ⊎ ((j : ℕ) × Hit i j)
        pick (g, eg, none, er) = inl (g, eg, er)
        pick (g, eg, some j, er) = inr (j, (g, eg, er))

    -- From `i` up to `start`.
    next_groups-low :
        (n i : ℕ)
        → i ≤ start
        → start < group_num
        → start - i < n
        → Outcome (λ k. (i ≤ k) × (k < start)) (next_groups scan groups group_num start n i)
    next_groups-low zero i le inside fuel = absurd (omega arith)
    next_groups-low (suc n) i le inside fuel = elim (ℕ_discrete i start) [
      | yes at ↦ inl (next_groups_end n i at, λ k p. absurd (omega arith))
      | no ne ↦ elim (scan-cases i (omega arith)) [
        | inl clear ↦
            let next : u32 (i + 1) % group_num ≡ i + 1 = grind arith in
            rw (next_groups-Clear n i ne clear, next)
              (weaken (λ k p. from i k clear p.0 (λ h. (h, p.1)))
                (next_groups-low n (i + 1) (omega arith) inside (omega arith)))
        | inr (j, hit) ↦ inr (i, j, next_groups-Hit n i j ne hit, omega arith, hit)
      ]
    ]

    -- From `i` up to the last group, then from the first up to `start`.
    next_groups-high :
        (n i : ℕ)
        → start < i
        → i < group_num
        → group_num - i + start < n
        → Outcome
            (λ k. ((i ≤ k) × (k < group_num)) ⊎ (k < start))
            (next_groups scan groups group_num start n i)
    next_groups-high zero i gt lt fuel = absurd (omega arith)
    next_groups-high (suc n) i gt lt fuel = elim (scan-cases i lt) [
      | inl clear ↦ elim (ℕ_discrete (i + 1) group_num) [
        | yes last ↦
            let next : u32 (i + 1) % group_num ≡ 0 =
              rw (last) (grind (arith, mod_self group_num)) in
            rw (next_groups-Clear n i (omega arith) clear, next)
              (weaken
                (λ k. elim [
                  | inl p ↦ from i k clear p.0 (λ h. absurd (omega arith))
                  | inr p ↦ inl (omega arith, p)
                ])
                (next_groups-low n 0 (omega arith) (omega arith) (omega arith)))
        | no inner ↦
            let next : u32 (i + 1) % group_num ≡ i + 1 = grind arith in
            rw (next_groups-Clear n i (omega arith) clear, next)
              (weaken
                (λ k. elim [ inl p ↦ from i k clear p.0 (λ h. inl (h, p.1)) | inr p ↦ inl (inr p) ])
                (next_groups-high n (i + 1) (omega arith) (omega arith) (omega arith)))
      ]
      | inr (j, hit) ↦ inr (i, j, next_groups-Hit n i j (omega arith) hit, lt, hit)
    ]

    around :
        (k : ℕ)
        → k < group_num
        → Clear start
        → (((start + 1 ≤ k) × (k < group_num)) ⊎ (k < start)) ⊎ Clear k
    around k lt clear = elim (dec_lt k start) [
      | yes before ↦ inl (inr before)
      | no after ↦ elim (from start k clear (omega arith) (λ h. h)) [
        | inl h ↦ inl (inl (h, lt))
        | inr c ↦ inr c
      ]
    ]

    find_in_groups-Hit :
        (j : ℕ)
        → start < group_num
        → Hit start j
        → find_in_groups scan groups group_num start ≡ ok (some (start, j))
    unfolding find_in_groups
    find_in_groups-Hit j lt (g, eg, er) =
        let inside : ltb start group_num ≡ true = ground arith in rw (inside, eg, er)

    -- The whole search, from a group that is not the last: it ends, and it finds something in some
    -- group unless every group is clear.
    pub find_in_groups-Outcome :
        start + 1 < group_num
        → Outcome (λ k. k < group_num) (find_in_groups scan groups group_num start)
    unfolding find_in_groups
    find_in_groups-Outcome inner = elim (scan-cases start (omega arith)) [
      | inl (g, eg, er) ↦
          let inside : ltb start group_num ≡ true = ground arith in
          let next : u32 (start + 1) ≡ start + 1 = omega arith in
          rw (inside, eg, er, next)
            (weaken (λ k lt. around k lt (g, eg, er))
              (next_groups-high group_num (start + 1) (omega arith) inner (omega arith)))
      | inr (j, hit) ↦ inr (start, j, find_in_groups-Hit j (omega arith) hit, omega arith, hit)
    ]

  -- From the last group the search leaves the array, unless that group has what it looks for.
  pub find_in_groups_last :
      group_num < 2 ^ 32
      → start + 1 ≡ group_num
      → length groups ≡ group_num
      → Clear start
      → find_in_groups scan groups group_num start ≡ fault out_of_range
  unfolding find_in_groups next_groups
  find_in_groups_last small last len (g, eg, er) =
      let inside : ltb start group_num ≡ true = ground arith in
      let next : u32 (start + 1) ≡ start + 1 = omega arith in
      let rounds : group_num ≡ suc start = omega arith in
      let off : (start + 1 == start) ≡ false = ground arith in
      let beyond = get_elem?-none groups (start + 1) (omega arith) in
      rw (inside, eg, er, next, rounds, off, beyond)
