-- ===== src/Dentry/Create.antt =====
-- A new entry behind the last one of a block (`dentry_create` of src/dentry.c).
use mathlib.Core.Path.{subst}
use native.Mathlib.Decide.{ℕ_discrete}
use kfs.Base.{
  ℕ, ◌+◌, ◌-◌, ◌%◌, ◌≤◌, ◌<◌, ◌≡◌, ◌^◌, refl, ◌∙◌, List, [], ◌∷◌, ◌++◌, length, length-append, some,
  ok, put_u16, get_elem?, arith, true, not, ltb, ◌>>=◌, ap, drop, take, inl, inr, u8, u16, le16,
  le32,
}
use kfs.Dentry.{
  put_entry, dentry_create, has_enough_space, de_real_rec_len, de_calc_rec_len, align_to_dentry,
}
use kfs.Dentry.Writes.{
  Holds, Frame, Frame-widen, Wrote, Writes, Holds-Frame, Holds-append, Holds-left, Holds-right,
  Wrote-after, Wrote-before, store_lem, put_u16_lem, put_u32_lem, put_name_lem,
}
use kfs.Dentry.Chain.{
  Entry, Fits, Chain, Chain-append, Chain-Frame, IsTail, tail_bytes, entry_bytes, name_bytes,
  rec_len_at, name_len_at,
}

-- A new record length of an entry, which keeps the rest of it.
pub new_length :
    (buf : List ℕ) (p v : ℕ) (e : Entry)
    → Holds buf p (entry_bytes e)
    → p + 6 ≤ length buf
    → (buf' : List ℕ) × (put_u16 buf (p + 4) v ≡ ok buf')
      × Frame (p + 4) 2 buf buf'
      × Holds buf' p (entry_bytes (record e { rec_len = v }))
new_length buf p v e h le =
    let (buf', run, w) = put_u16_lem buf (p + 4) v (omega arith) in
    let behind = Holds-right buf p (le32 e.inode_idx) (le16 e.rec_len ++ name_bytes e) h in
    let rest = Holds-right buf (p + 4) (le16 e.rec_len) (name_bytes e) behind in
    (
      buf',
      run,
      w.0,
      Holds-append buf' p (le32 e.inode_idx) (le16 v ++ name_bytes e)
          (Holds-Frame (p + 4) 2 p (le32 e.inode_idx) w.0 (inl (omega arith))
            (Holds-left buf p (le32 e.inode_idx) (le16 e.rec_len ++ name_bytes e) h))
          (Holds-append buf' (p + 4) (le16 v) (name_bytes e) w.1
            (Holds-Frame (p + 4) 2 (p + 4 + 2) (name_bytes e) w.0 (inr (omega arith)) rest)),
    )

take_all : (name : List ℕ) → take (length name) name ≡ name
take_all [] = refl
take_all (c ∷ name) = ap (λ (t : List ℕ). c ∷ t) (take_all name)

pub put_entry_lem :
    (buf : List ℕ) (de rec_len : ℕ) (e : Entry)
    → Fits e
    → u16 rec_len ≡ e.rec_len
    → de + 9 + length e.name ≤ length buf
    → Writes
        (put_entry buf de e.inode_idx rec_len e.file_type e.name)
        de
        (entry_bytes e ++ (0 ∷ []))
        buf
unfolding put_entry
put_entry_lem buf de rec_len e fits wrap le =
    let bytes : le16 rec_len ≡ le16 e.rec_len = ground arith in
    let short : u8 (length e.name) ≡ length e.name = omega (arith, fits.name_small) in
    let (buf₁, run₁, w₁) = put_u32_lem buf de e.inode_idx (omega arith) in
    let (buf₂, run₂, w₂) =
      store_lem buf₁ (de + 6) (u8 (length e.name)) (omega (arith, w₁.0.same_length)) in
    let (buf₃, run₃, w₃) =
      put_u16_lem buf₂ (de + 4) rec_len (omega (arith, w₁.0.same_length, w₂.0.same_length)) in
    let l₃ : length buf₃ ≡ length buf = w₃.0.same_length ∙ w₂.0.same_length ∙ w₁.0.same_length in
    let (buf₄, run₄, w₄) = store_lem buf₃ (de + 7) e.file_type (omega arith) in
    let name : List ℕ = take (u8 (length e.name)) e.name in
    let taken : name ≡ e.name = ap (λ n. take n e.name) short ∙ take_all e.name in
    let (buf₅, run₅, w₅) =
      put_name_lem buf₄ (de + 8) name
        (omega (arith, w₄.0.same_length, ap (λ (t : List ℕ). length t) taken)) in
    let (buf₆, run₆, w₆) =
      store_lem buf₅ (de + 8 + u8 (length e.name)) 0
        (omega (arith, w₄.0.same_length, w₅.0.same_length)) in
    let w₂₃ =
      Wrote-before (de + 4) (le16 e.rec_len) (length e.name ∷ [])
        (subst (λ t. Wrote t (length e.name ∷ []) buf₁ buf₂) (omega arith)
          (subst (λ b. Wrote (de + 6) (b ∷ []) buf₁ buf₂) short w₂))
        (subst (λ bs. Wrote (de + 4) bs buf₂ buf₃) bytes w₃) in
    let w₁₃ = Wrote-after de (le32 e.inode_idx) (le16 e.rec_len ++ (length e.name ∷ [])) w₁ w₂₃ in
    let w₁₄ =
      Wrote-after de (le32 e.inode_idx ++ (le16 e.rec_len ++ (length e.name ∷ [])))
        (e.file_type ∷ []) w₁₃ w₄ in
    let w₁₅ =
      Wrote-after de (le32 e.inode_idx ++ (le16 e.rec_len ++ (length e.name ∷ (e.file_type ∷ []))))
        e.name w₁₄ (subst (λ t. Wrote (de + 8) t buf₄ buf₅) taken w₅) in
    (
      buf₆,
      rw (run₁, ◌>>=◌, run₂, ◌>>=◌, run₃, ◌>>=◌, run₄, ◌>>=◌, run₅, ◌>>=◌) run₆,
      Wrote-after de (entry_bytes e) (0 ∷ []) w₁₅
          (subst (λ t. Wrote t (0 ∷ []) buf₅ buf₆) (omega arith) w₆),
    )

-- A write that ends at the tail, or with a zero on the first byte, which is zero.
zero_after :
    (a n q : ℕ) (bs : List ℕ) {buf buf' : List ℕ}
    → Frame a n buf buf'
    → a + n ≤ q + 1
    → (a + n ≡ q + 1 → get_elem? buf' q ≡ some 0)
    → Holds buf q (0 ∷ bs)
    → Holds buf' q (0 ∷ bs)
zero_after a n q bs f le last h = elim (ℕ_discrete (a + n) (q + 1)) [
  | yes e ↦ (last e, Holds-Frame a n (q + 1) bs f (inr (omega arith)) h.1)
  | no ne ↦ Holds-Frame a n q (0 ∷ bs) f (inr (omega arith)) h
]

abbrev pub real_length : Entry → ℕ
real_length e = de_real_rec_len (length e.name)

-- The entry that `dentry_create` makes behind `e`.
abbrev pub new_entry : Entry → (inode_idx file_type : ℕ) → List ℕ → Entry
new_entry e inode_idx file_type name = record {
  inode_idx = inode_idx;
  rec_len = e.rec_len - real_length e;
  file_type = file_type;
  name = name;
}

pub real_bounds :
    (e : Entry)
    → Fits e
    → (8 + length e.name ≤ real_length e) × (real_length e ≤ e.rec_len) × (real_length e % 4 ≡ 0)
unfolding de_real_rec_len align_to_dentry
real_bounds e fits =
    let a = fits.name_small in
    let b = fits.room in
    let c = fits.aligned in let d = fits.rec_small in (ground arith, ground arith, ground arith)

-- The test that there is room.
module _ (buf : List ℕ) (p : ℕ) (e : Entry) (fits : Fits e)
    (held : Holds buf p (entry_bytes e)) where
  pub has_enough_space-room :
      (n : ℕ) → n < 2 ^ 8 → has_enough_space buf p n ≡ ok true → real_length e + 8 + n ≤ e.rec_len
  unfolding has_enough_space de_calc_rec_len align_to_dentry
  has_enough_space-room n small enough =
      let (lo, hi, al) = real_bounds e fits in
      let d = fits.rec_small in
      let found : has_enough_space buf p n
          ≡ ok (not (ltb (u16 (e.rec_len + 2 ^ 16 - real_length e)) (u16 (de_calc_rec_len n)))) =
        rw (rec_len_at buf p e fits held, ◌>>=◌, name_len_at buf p e fits held) refl in
      ground (arith, found, enough)

  module _ (p₀ q : ℕ) (es : List Entry) (name : List ℕ) (inode_idx file_type : ℕ)
      (chain : Chain buf p₀ es p) (ends : p + e.rec_len ≡ q) (tail : IsTail buf q)
      (whole : q + 12 ≤ length buf) (named : 0 < length name) (small : length name < 2 ^ 8)
      (idx : inode_idx < 2 ^ 32) (enough : has_enough_space buf p (length name) ≡ ok true) where
    abbrev new : Entry
    new = new_entry e inode_idx file_type name

    abbrev old : Entry
    old = record e { rec_len = real_length e }

    new-Fits : Fits new
    new-Fits =
        let room = has_enough_space-room (length name) small enough in
        let (lo, hi, al) = real_bounds e fits in
        let big = fits.rec_small in
        let al' = fits.aligned in
        record {
          inode_small = idx;
          rec_small = omega arith;
          name_small = small;
          named = named;
          room = omega arith;
          aligned = omega arith;
        }

    old-Fits : Fits old
    old-Fits =
        let (lo, hi, al) = real_bounds e fits in
        let big = fits.rec_small in
        record {
          inode_small = fits.inode_small;
          rec_small = omega arith;
          name_small = fits.name_small;
          named = fits.named;
          room = lo;
          aligned = al;
        }

    -- Where the last entry of a block has room for one more by `dentry_has_enough_space`,
    -- `dentry_create` succeeds: the last entry shrinks to what its name needs, the new entry has the
    -- name, the number and the rest of the record, the entries before and the tail stand as they did.
    pub dentry_create-Chain :
        (buf' : List ℕ) × (dentry_create buf p name inode_idx file_type
          ≡ ok (buf', p + real_length e))
        × Chain buf' p₀ (es ++ (old ∷ (new ∷ []))) q
        × IsTail buf' q
        × (length buf' ≡ length buf)
    unfolding dentry_create
    dentry_create-Chain =
        let room = has_enough_space-room (length name) small enough in
        let (lo, hi, al) = real_bounds e fits in
        let real = real_length e in
        let start = p + real in
        let d = fits.rec_small in
        let (buf₁, run₁, f₁, held₁) = new_length buf p real e held (omega arith) in
        let (buf₂, run₂, w₂) =
          put_entry_lem buf₁ start (e.rec_len + 2 ^ 16 - real) new new-Fits (omega arith)
            (omega (arith, f₁.same_length)) in
        let f₂ : Frame start (9 + length name) buf₁ buf₂ =
          Frame-widen start _ start (9 + length name) (omega arith)
            (omega (arith, length-append (entry_bytes new) (0 ∷ []))) w₂.0 in
        let zero_end : get_elem? buf₂ (start + length (entry_bytes new)) ≡ some 0 =
          (Holds-right buf₂ start (entry_bytes new) (0 ∷ []) w₂.1).0 in
        (
          buf₂,
          rw
              (
                rec_len_at buf p e fits held,
                ◌>>=◌,
                name_len_at buf p e fits held,
                ◌>>=◌,
                run₁,
                ◌>>=◌,
                run₂,
              )
              refl,
          Chain-append buf₂ p₀ es (old ∷ (new ∷ [])) p q
              (Chain-Frame start (9 + length name) f₂ p₀ es p (inl (omega arith))
                (Chain-Frame (p + 4) 2 f₁ p₀ es p (inl (omega arith)) chain))
              (
                (
                  old-Fits,
                  Holds-Frame start (9 + length name) p (entry_bytes old) f₂ (inl (omega arith))
                      held₁,
                ),
                ((new-Fits, Holds-left buf₂ start (entry_bytes new) (0 ∷ []) w₂.1), omega arith),
              ),
          zero_after start (9 + length name) q (drop 1 tail_bytes) f₂ (omega arith)
              (λ at_tail. subst (λ t. get_elem? buf₂ t ≡ some 0) (omega arith) zero_end)
              (Holds-Frame (p + 4) 2 q tail_bytes f₁ (inr (omega (arith, fits.room))) tail),
          w₂.0.same_length ∙ f₁.same_length,
        )
