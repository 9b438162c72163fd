-- ===== src/Search/Slots.antt =====
-- The walk over the groups where each group is searched for its first free slot.
use kfs.Base.{
  ℕ, ◌+◌, ◌^◌, ◌<◌, ◌≡◌, List, Option, none, some, Bool, true, false, Res, ok, fault, get_elem?,
  get_elem?-some, length, out_of_range, arith, ◌⊎◌, inl, inr,
}
use kfs.Search.{first_free, find_in_groups}
use kfs.Search.Laws.{
  first_free-First, find_in_groups-Outcome, find_in_groups_last, Fails, First, Scans, Outcome,
  Clear,
}
use mathlib.Core.Path.{subst}

module _ {A : Type 0} (test : A → ℕ → Res Bool) (per : ℕ) (groups : List A) where
  -- Slot `j` of group `k` tests as `b`.
  abbrev pub Slot : ℕ → ℕ → Bool → Type 0
  Slot k j b = (g : A) × (get_elem? groups k ≡ some g) × (test g j ≡ ok b)

  -- Nothing is free; or what is found is free, and is the first free slot of its group.
  abbrev pub Found : ℕ → Res (Option (ℕ × ℕ)) → Type 0
  Found group_num r =
      ((r ≡ ok none) × ((k j : ℕ) → k < group_num → j < per → Slot k j false))
      ⊎ ((k : ℕ) × (j : ℕ) × (r ≡ ok (some (k, j)))
          × (k < group_num)
          × (j < per)
          × Slot k j true
          × ((i : ℕ) → i < j → Slot k i false))

  -- Every slot can be read.
  abbrev pub Readable : Type 0
  Readable =
      (k : ℕ) (g : A)
      → get_elem? groups k ≡ some g
      → (j : ℕ) → j < per
      → (b : Bool) × (test g j ≡ ok b)

  abbrev pub scan : A → Res (Option ℕ)
  scan g = first_free (test g) per 0

  module _ (readable : Readable) where
    scan-First : (k : ℕ) (g : A) → get_elem? groups k ≡ some g → First (test g) per 0 (scan g)
    scan-First k g e = first_free-First (test g) per 0 (λ j h. readable k g e j (omega arith))

    none_free :
        (k : ℕ) (g : A) → get_elem? groups k ≡ some g → scan g ≡ ok none → Fails (test g) 0 per
    none_free k g e r = read (scan-First k g e)
      where
        read : First (test g) per 0 (scan g) → Fails (test g) 0 per
        read (inl (_, fails)) = λ i p q. fails i p (omega arith)
        read (inr (j, r', _, _, _, _)) = ground (arith, r, r')

    first_is :
        (k j : ℕ) (g : A)
        → get_elem? groups k ≡ some g
        → scan g ≡ ok (some j)
        → (j < per) × (test g j ≡ ok true) × Fails (test g) 0 j
    first_is k j g e r = read (scan-First k g e)
      where
        read : First (test g) per 0 (scan g) → (j < per) × (test g j ≡ ok true) × Fails (test g) 0 j
        read (inl (r', _)) = ground (arith, r, r')
        read (inr (i, r', lo, hi, hit, before)) =
            let at : i ≡ j = ground (arith, r, r') in
            (omega arith, rw at at hit, subst (λ t. Fails (test g) 0 t) at before)

    module _ (group_num : ℕ) (held : length groups ≡ group_num) (small : group_num < 2 ^ 32) where
      scans : Scans scan groups group_num group_num
      scans k lt = go (get_elem?-some groups k (omega arith))
        where
          go :
              (g : A) × (get_elem? groups k ≡ some g)
              → (g : A) × (get_elem? groups k ≡ some g) × (r : Option ℕ) × (scan g ≡ ok r)
          go (g, e) = pick (scan-First k g e)
            where
              pick :
                  First (test g) per 0 (scan g)
                  → (g : A) × (get_elem? groups k ≡ some g) × (r : Option ℕ) × (scan g ≡ ok r)
              pick (inl (r, _)) = (g, e, none, r)
              pick (inr (j, r, _, _, _, _)) = (g, e, some j, r)

      -- From a group that is not the last, the search ends: with a free slot, or having seen that
      -- no slot of any group is free.
      pub find_slot-Found :
          (start : ℕ)
          → start + 1 < group_num
          → Found group_num (find_in_groups scan groups group_num start)
      find_slot-Found start inner =
          read (find_in_groups-Outcome scan groups group_num start scans small inner)
        where
          read :
              Outcome scan groups group_num start
                (λ k. k < group_num)
                (find_in_groups scan groups group_num start)
              → Found group_num (find_in_groups scan groups group_num start)
          read (inl (r, clear)) = inl (r, λ k j lt ltj. full k j ltj (clear k lt))
            where
              full : (k j : ℕ) → j < per → Clear scan groups group_num start k → Slot k j false
              full k j ltj (g, e, s) = (g, e, none_free k g e s j (omega arith) ltj)
          read (inr (k, j, r, lt, (g, e, s))) =
              let (ltj, hit, before) = first_is k j g e s in
              inr (k, j, r, lt, ltj, (g, e, hit), λ i h. (g, e, before i (omega arith) h))

      -- From the last group, when that is full, it reads past the end of the groups.
      pub find-Slot_last :
          (start : ℕ)
          → start + 1 ≡ group_num
          → ((j : ℕ) → j < per → Slot start j false)
          → find_in_groups scan groups group_num start ≡ fault out_of_range
      find-Slot_last start last full =
          let (g, e) = get_elem?-some groups start (omega arith) in
          find_in_groups_last scan groups group_num start small last held
            (g, e, all_full g e (scan-First start g e))
        where
          all_full :
              (g : A)
              → get_elem? groups start ≡ some g
              → First (test g) per 0 (scan g)
              → scan g ≡ ok none
          all_full g e (inl (r, _)) = r
          all_full g e (inr (j, r, lo, hi, hit, before)) =
              let (g', e', f) = full j (omega arith) in ground (arith, e, e', f, hit)
