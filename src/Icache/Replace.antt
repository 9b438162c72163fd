-- ===== src/Icache/Replace.antt =====
-- Which entry of a full cache is given up: the loop of `icache_lru_replace` (src/cache.c).
use mathlib.Core.Path.{subst}
use kfs.Base.{
  ℕ, zero, suc, ◌+◌, ◌<◌, ◌≤◌, ◌≡◌, refl, List, Option, none, some, true, ok, arith, ◌≢◌, ◌⊎◌, inl,
  inr, ◌>>=◌, length, get_elem?, get_elem?-some, ltb, ltb→lt, if◌then◌else◌, Bool-cases,
}
use native.Mathlib.Decide.{ℕ_discrete}
use kfs.Icache.{IcacheEntry, inval, is_valid, invalid, lru, find_victim, int_max}

in_use : (e : IcacheEntry) → is_valid e ≡ true → e.status ≢ inval
in_use e used = ground arith

module _ (entries : List IcacheEntry) where
  -- The first `n` entries are in use, and none of their counts is below `c`.
  abbrev pub NoneBelow : ℕ → ℕ → Type 0
  NoneBelow n c =
      (j : ℕ) (e : IcacheEntry)
      → j < n
      → get_elem? entries j ≡ some e
      → (e.status ≢ inval) × (c ≤ e.lru_count)

  -- What the loop knows after `n` entries: no count of them is below INT_MAX, or entry `k` has the
  -- least.
  abbrev pub Best : ℕ → Option ℕ → ℕ → Type 0
  Best n b c =
      NoneBelow n c
      × (((b ≡ none) × (c ≡ int_max))
          ⊎ ((k : ℕ) × (e : IcacheEntry) × (b ≡ some k)
              × (k < n)
              × (get_elem? entries k ≡ some e)
              × (e.lru_count ≡ c)
              × (c < int_max)))

  Best-top : (n : ℕ) (b : Option ℕ) (c : ℕ) → Best n b c → c ≤ int_max
  Best-top n b c (low, inl (none_found, top)) = omega arith
  Best-top n b c (low, inr (k, e, found, below, at, least, lt)) = omega arith

  low_step :
      (i : ℕ) (e : IcacheEntry) (c c' : ℕ)
      → get_elem? entries i ≡ some e
      → is_valid e ≡ true
      → c' ≤ c
      → c' ≤ e.lru_count
      → NoneBelow i c
      → NoneBelow (i + 1) c'
  low_step i e c c' at used le le' low j f below at_j = elim (ℕ_discrete i j) [
    | yes here ↦
        let same : e ≡ f = cc in
        (
          subst (λ (t : IcacheEntry). t.status ≢ inval) same (in_use e used),
          subst (λ (t : IcacheEntry). c' ≤ t.lru_count) same le',
        )
    | no other ↦ let (used_j, above) = low j f (omega arith) at_j in (used_j, omega arith)
  ]

  Best-step :
      (i : ℕ) (e : IcacheEntry) (b : Option ℕ) (c : ℕ)
      → get_elem? entries i ≡ some e
      → is_valid e ≡ true
      → Best i b c
      → Best
          (i + 1)
          (if ltb e.lru_count c then some i else b)
          (if ltb e.lru_count c then e.lru_count else c)
  Best-step i e b c at used (low, best) =
      let top = Best-top i b c (low, best) in
      elim (Bool-cases (ltb e.lru_count c)) [
        | inl less ↦ rw less (
          low_step i e c e.lru_count at used (omega (arith, ltb→lt e.lru_count c less))
              (omega arith) low,
          inr (i, e, refl, omega arith, at, refl, omega (arith, ltb→lt e.lru_count c less, top)),
        )
        | inr not_less ↦ rw not_less (
          low_step i e c c at used (omega arith) (ground arith) low,
          elim best [
            | inl start ↦ inl start
            | inr (k, f, is_k, below, at_k, least, lt) ↦
                inr (k, f, is_k, omega arith, at_k, least, lt)
          ],
        )
      ]

  -- The loop ends: with an entry that is not in use, or with what it knows after all entries.
  pub find_victim_lem :
      (rounds i : ℕ) (b : Option ℕ) (c : ℕ)
      → i + rounds ≤ length entries
      → Best i b c
      → ((j : ℕ) × (e : IcacheEntry) × (find_victim entries rounds i b c ≡ ok (invalid j))
          × (j < i + rounds)
          × (get_elem? entries j ≡ some e)
          × (e.status ≡ inval))
        ⊎ ((b' : Option ℕ) × (c' : ℕ) × (find_victim entries rounds i b c ≡ ok (lru b'))
            × Best (i + rounds) b' c')
  unfolding find_victim
  find_victim_lem zero i b c le best = inr (b, c, refl, subst (λ t. Best t b c) (omega arith) best)
  find_victim_lem (suc rounds) i b c le best =
      let (e, at) = get_elem?-some entries i (omega arith) in
      elim (Bool-cases (is_valid e)) [
        | inl used ↦
            let b' = if ltb e.lru_count c then some i else b in
            let c' = if ltb e.lru_count c then e.lru_count else c in
            elim (find_victim_lem rounds (i + 1) b' c' (omega arith)
              (Best-step i e b c at used best)) [
                | inl (j, f, run, below, at_j, unused) ↦
                    inl (j, f, rw (at, ◌>>=◌, used) run, omega arith, at_j, unused)
                | inr (b'', c'', run, best') ↦ inr (
                  b'',
                  c'',
                  rw (at, ◌>>=◌, used) run,
                  subst (λ t. Best t b'' c'') (omega arith) best',
                )
              ]
        | inr unused ↦ inl (i, e, rw (at, ◌>>=◌, unused), omega arith, at, ground arith)
      ]

-- The entry that `icache_lru_replace` picks among the first `count` entries: one that is not in use;
-- else, with all in use, one with the least count, where that is below INT_MAX; else, with all in use
-- and every count at INT_MAX or above, no entry at all.
pub find_victim-least :
    (entries : List IcacheEntry) (count : ℕ)
    → count ≤ length entries
    → ((j : ℕ) × (e : IcacheEntry) × (find_victim entries count 0 none int_max ≡ ok (invalid j))
        × (j < count)
        × (get_elem? entries j ≡ some e)
        × (e.status ≡ inval))
      ⊎ (((k : ℕ) × (e : IcacheEntry) × (find_victim entries count 0 none int_max
              ≡ ok (lru (some k)))
            × (k < count)
            × (get_elem? entries k ≡ some e)
            × NoneBelow entries count e.lru_count
            × (e.lru_count < int_max))
          ⊎ ((find_victim entries count 0 none int_max ≡ ok (lru none))
              × NoneBelow entries count int_max))
find_victim-least entries count le =
    elim (find_victim_lem entries count 0 none int_max (omega arith)
      ((λ j e h at. absurd (omega arith)), inl (refl, refl))) [
        | inl (j, e, run, below, at, unused) ↦ inl (j, e, run, omega arith, at, unused)
        | inr (b, c, run, (low, inl (none_found, top))) ↦ inr (
            inr (
              rw none_found at run,
              λ j f h at_j. let (used, above) = low j f (omega arith) at_j in (used, omega arith),
            ))
        | inr (b, c, run, (low, inr (k, e, found, below, at, least, lt))) ↦ inr (
            inl (
              k,
              e,
              rw found at run,
              omega arith,
              at,
              (λ j f h at_j. let (used, above) = low j f (omega arith) at_j in (used, omega arith)),
              omega arith,
            ))
      ]
