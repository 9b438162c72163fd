-- ===== src/Search.antt =====
-- The two loop shapes of the allocator: the first index in a range that passes a test, and the
-- walk over the block groups from one group round to it again (src/bitmap.c).
pub mod Laws
pub mod Slots
use kfs.Base.{
  ℕ, zero, suc, ◌+◌, ◌%◌, List, Option, none, some, Bool, true, Res, ok, fault, assert, load,
  out_of_fuel, ◌>>=◌, ◌>>◌, ◌==◌, ltb, if◌then◌else◌, u32,
}

-- for (i = first; rounds left; i++) if (test(i)) return i;
unfoldable pub first_free : (ℕ → Res Bool) → ℕ → ℕ → Res (Option ℕ)
first_free test zero i = ok none
first_free test (suc rounds) i =
    let rest = first_free test rounds (i + 1) in
    do free ← test i; if free then ok (some i) else rest

module _ {A : Type 0} (scan : A → Res (Option ℕ)) (groups : List A) (group_num start : ℕ) where
  -- for (i = ...; i != start; i = (i + 1) % group_num)
  unfoldable pub next_groups : ℕ → ℕ → Res (Option (ℕ × ℕ))
  next_groups zero i = fault out_of_fuel
  next_groups (suc rounds) i =
      let rest = next_groups rounds (u32 (i + 1) % group_num) in
      if i == start
      then ok none
      else do g ← load groups i; r ← scan g; elim r [ none ↦ rest | some j ↦ ok (some (i, j)) ]

  -- First the group `start`, then the others from `start + 1` on. No run takes more than
  -- `group_num` rounds.
  unfoldable pub find_in_groups : Res (Option (ℕ × ℕ))
  unfolding next_groups
  find_in_groups = do
    assert (ltb start group_num)
    g ← load groups start
    r ← scan g
    elim r [ none ↦ next_groups group_num (u32 (start + 1)) | some j ↦ ok (some (start, j)) ]
