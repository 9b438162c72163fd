-- ===== src/Icache/Find.antt =====
-- Lookups in the inode cache: `icache_find` of src/cache.c.
use kfs.Base.{
  sym, ◌∙◌, ok_injective, ℕ, ◌+◌, ◌<◌, ◌≤◌, ◌≡◌, none, some, Bool, true, false, ◌&&◌, Res, ok,
  arith, ◌≢◌, ◌⊎◌, inl, inr, ◌>>=◌, load, length, get_elem?, get_elem?-some, ◌==◌,
}
use kfs.Search.Laws.{first_free-First}
use kfs.Icache.{Icache, IcacheEntry, inval, is_valid, icache_find}
use kfs.Icache.Refines.{Holds, Uncached}

module _ (ic : Icache) (n : ℕ) where
  abbrev test : ℕ → Res Bool
  test i = do e ← load ic.entries i; ok (is_valid e && e.inode_idx == n)

  test-at :
      (i : ℕ) (e : IcacheEntry)
      → get_elem? ic.entries i ≡ some e
      → test i ≡ ok (is_valid e && e.inode_idx == n)
  test-at i e at = rw at

  hit :
      (e : IcacheEntry)
      → (is_valid e && e.inode_idx == n) ≡ true
      → (e.status ≢ inval) × (e.inode_idx ≡ n)
  hit e h = ground arith

  missed :
      (e : IcacheEntry)
      → (is_valid e && e.inode_idx == n) ≡ false
      → e.status ≢ inval
      → e.inode_idx ≡ n
      → ⊥
  missed e h used same = ground arith

  -- In a cache whose entries are there, `icache_find` ends. It finds no entry only if none is in use
  -- for that inode; any entry that it finds is.
  pub icache_find_lem :
      ic.count ≤ length ic.entries
      → ((icache_find ic n ≡ ok none) × Uncached ic n)
        ⊎ ((i : ℕ) × (e : IcacheEntry) × (icache_find ic n ≡ ok (some i)) × Holds ic i e n)
  unfolding icache_find
  icache_find_lem le = elim (first_free-First test ic.count 0 defined) [
    | inl (none_found, fails) ↦ inl (
      none_found,
      λ i e ((below, at), used, same).
          missed e (ok_injective (sym (test-at i e at) ∙ fails i (omega arith) (omega arith))) used
            same,
    )
    | inr (i, found, lo, below, passes, before) ↦
        let (e, at) = get_elem?-some ic.entries i (omega arith) in
        let (used, same) = hit e (ok_injective (sym (test-at i e at) ∙ passes)) in
        inr (i, e, found, ((omega arith, at), used, same))
  ]
    where
      defined : (k : ℕ) → k < 0 + ic.count → (b : Bool) × (test k ≡ ok b)
      defined k h =
          let (e, at) = get_elem?-some ic.entries k (omega arith) in
          (is_valid e && e.inode_idx == n, test-at k e at)
