-- ===== src/Dentry/Chain.antt =====
-- The entries of one directory block as a chain: each starts where the record length of the one
-- before ends, and the tail of 12 bytes comes last (src/ext4/ext4_dentry.h).
use mathlib.Core.Path.{subst}
use kfs.Base.{
  ℕ, ◌+◌, ◌≤◌, ◌<◌, ◌%◌, ◌≡◌, ◌^◌, ◌⊎◌, inl, inr, refl, sym, List, [], ◌∷◌, ◌++◌, length, ok, load,
  u16_at, u32_at, le16, le32, arith,
}
use kfs.Dentry.{ft_dir_csum, de_tail_size}
use kfs.Dentry.Writes.{
  Holds, Frame, Holds-Frame, Holds-left, Holds-right, load-Holds, u16_at-Holds, u32_at-Holds,
}

pub record Entry : Type 0 where
  pub inode_idx : ℕ
  pub rec_len : ℕ
  pub file_type : ℕ
  pub name : List ℕ

-- The bytes of an entry: the inode's number, the record length, the length of the name, the type
-- of the file, the name.
abbrev pub name_bytes : Entry → List ℕ
name_bytes e = length e.name ∷ (e.file_type ∷ e.name)

abbrev pub entry_bytes : Entry → List ℕ
entry_bytes e = le32 e.inode_idx ++ (le16 e.rec_len ++ name_bytes e)

-- An entry that fits its record, and has a name.
pub record Fits (e : Entry) : Type 0 where
  pub inode_small : e.inode_idx < 2 ^ 32
  pub rec_small : e.rec_len < 2 ^ 16
  pub name_small : length e.name < 2 ^ 8
  pub named : 0 < length e.name
  pub room : 8 + length e.name ≤ e.rec_len
  pub aligned : e.rec_len % 4 ≡ 0

-- The entries `es` follow each other in the buffer from `p` to `q`.
abbrev pub Chain : List ℕ → ℕ → List Entry → ℕ → Type 0
Chain buf p [] q = p ≡ q
Chain buf p (e ∷ es) q = (Fits e × Holds buf p (entry_bytes e)) × Chain buf (p + e.rec_len) es q

abbrev pub tail_bytes : List ℕ
tail_bytes = le32 0 ++ (le16 de_tail_size ++ (0 ∷ (ft_dir_csum ∷ [])))

abbrev pub IsTail : List ℕ → ℕ → Type 0
IsTail buf q = Holds buf q tail_bytes

pub Chain-le : (buf : List ℕ) (p : ℕ) (es : List Entry) (q : ℕ) → Chain buf p es q → p ≤ q
Chain-le buf p [] q c = omega arith
Chain-le buf p (e ∷ es) q c = let le = Chain-le buf (p + e.rec_len) es q c.1 in omega arith

pub Chain-append :
    (buf : List ℕ) (p : ℕ) (es fs : List Entry) (m q : ℕ)
    → Chain buf p es m
    → Chain buf m fs q
    → Chain buf p (es ++ fs) q
Chain-append buf p [] fs m q c d = subst (λ t. Chain buf t fs q) (sym c) d
Chain-append buf p (e ∷ es) fs m q c d = (c.0, Chain-append buf (p + e.rec_len) es fs m q c.1 d)

pub Chain-split :
    (buf : List ℕ) (p : ℕ) (es fs : List Entry) (q : ℕ)
    → Chain buf p (es ++ fs) q
    → (m : ℕ) × Chain buf p es m × Chain buf m fs q
Chain-split buf p [] fs q c = (p, refl, c)
Chain-split buf p (e ∷ es) fs q c =
    let (m, left, right) = Chain-split buf (p + e.rec_len) es fs q c.1 in (m, (c.0, left), right)

-- A change before or behind the chain leaves it.
pub Chain-Frame :
    (a n : ℕ) {buf buf' : List ℕ} (f : Frame a n buf buf') (p : ℕ) (es : List Entry) (q : ℕ)
    → (q ≤ a) ⊎ (a + n ≤ p)
    → Chain buf p es q
    → Chain buf' p es q
Chain-Frame a n f p [] q apart c = c
Chain-Frame a n f p (e ∷ es) q apart c =
    let le = Chain-le _ (p + e.rec_len) es q c.1 in
    let room = c.0.0.room in
    let here : (p + length (entry_bytes e) ≤ a) ⊎ (a + n ≤ p) = elim apart [
      | inl h ↦ inl (omega arith)
      | inr h ↦ inr h
    ] in
    let next : (q ≤ a) ⊎ (a + n ≤ p + e.rec_len) = elim apart [
      | inl h ↦ inl h
      | inr h ↦ inr (omega arith)
    ] in
    (
      (c.0.0, Holds-Frame a n p (entry_bytes e) f here c.0.1),
      Chain-Frame a n f (p + e.rec_len) es q next c.1,
    )

-- The fields of an entry, read through the pointer.
module _ (buf : List ℕ) (p : ℕ) (e : Entry) (fits : Fits e) (h : Holds buf p (entry_bytes e)) where
  pub inode_at : u32_at buf p ≡ ok e.inode_idx
  inode_at =
      u32_at-Holds buf p e.inode_idx fits.inode_small
        (Holds-left buf p (le32 e.inode_idx) (le16 e.rec_len ++ name_bytes e) h)

  behind : Holds buf (p + 4) (le16 e.rec_len ++ name_bytes e)
  behind = Holds-right buf p (le32 e.inode_idx) (le16 e.rec_len ++ name_bytes e) h

  pub rec_len_at : u16_at buf (p + 4) ≡ ok e.rec_len
  rec_len_at =
      u16_at-Holds buf (p + 4) e.rec_len fits.rec_small
        (Holds-left buf (p + 4) (le16 e.rec_len) (name_bytes e) behind)

  rest_at : Holds buf (p + 4 + 2) (name_bytes e)
  rest_at = Holds-right buf (p + 4) (le16 e.rec_len) (name_bytes e) behind

  pub name_len_at : load buf (p + 6) ≡ ok (length e.name)
  name_len_at = let q : p + 4 + 2 ≡ p + 6 = omega arith in rw (sym q) (load-Holds buf _ _ rest_at.0)

  pub name_held : Holds buf (p + 8) e.name
  name_held = subst (λ t. Holds buf t e.name) (omega arith) rest_at.1.1

-- The tail, read as an entry.
module _ (buf : List ℕ) (q : ℕ) (h : IsTail buf q) where
  tail_rest : Holds buf (q + 6) (0 ∷ (ft_dir_csum ∷ []))
  tail_rest = subst (λ t. Holds buf t (0 ∷ (ft_dir_csum ∷ []))) (omega arith) h.1.1.1.1.1.1

  pub tail_inode : u32_at buf q ≡ ok 0
  tail_inode =
      u32_at-Holds buf q 0 (omega arith)
        (Holds-left buf q (le32 0) (le16 de_tail_size ++ (0 ∷ (ft_dir_csum ∷ []))) h)

  pub tail_name_len : load buf (q + 6) ≡ ok 0
  tail_name_len = load-Holds buf _ _ tail_rest.0

  pub tail_type : load buf (q + 7) ≡ ok ft_dir_csum
  tail_type = let e : q + 7 ≡ q + 6 + 1 = omega arith in rw e (load-Holds buf _ _ tail_rest.1.0)
