-- ===== src/Fs/Content/Write.antt =====
-- One round of the loop of `writei` replaces bytes of the file.
use project_priv.Prelude.{
  ℕ, ◌+◌, ◌-◌, ◌*◌, ◌/◌, ◌%◌, ◌<◌, ◌≤◌, ◌≡◌, ◌≢◌, ◌⊎◌, refl, sym, ap, ◌∙◌, inl, inr, arith,
  ℕ_discrete, dec_lt, subst,
}
use project_priv.Fs.{Block, bsize, ndirect, maxfile, Superblock, Disk}
use project_priv.Fs.Inode.{Inode}
use project_priv.Fs.Blocks.Mapping.{lookup, Owned, IsFile}
use project_priv.Fs.Blocks.Cases.{Mapped}
use project_priv.Fs.Content.{put_bytes}
use project_priv.Fs.Content.Bytes.{byte_at}
use project_priv.Fs.Content.Store.{
  stored, stored_self, stored_ne, lookup-stored, lookup-Mapped, content-Mapped,
}

-- The file after `end - off` bytes from `src` on have replaced those from `off` on.
pub record Replaced (memory : ℕ → ℕ) (src off end : ℕ) (ip : Inode) (s : Disk) (ip' : Inode)
    (s' : Disk) : Type 0 where
  pub there : (x : ℕ) → x < maxfile * bsize → off ≤ x → x < end → lookup ip' s' (x / bsize) ≢ 0
  pub bytes :
      (x : ℕ)
      → x < maxfile * bsize
      → off ≤ x
      → x < end
      → byte_at ip' s' x ≡ memory (src + (x - off))
  pub stays : (m : ℕ) → m < maxfile → lookup ip s m ≢ 0 → lookup ip' s' m ≢ 0
  pub others :
      (x : ℕ)
      → x < maxfile * bsize
      → lookup ip s (x / bsize) ≢ 0
      → (x < off) ⊎ (end ≤ x)
      → byte_at ip' s' x ≡ byte_at ip s x

-- No byte is replaced by a step of `bmap`.
pub mapped-Replaced :
    (sb : Superblock) (memory : ℕ → ℕ) (src off : ℕ) (ip : Inode) (s : Disk) (bn addr : ℕ)
    (ip1 : Inode) (s1 : Disk)
    → IsFile sb ip s
    → Mapped sb ip s bn addr ip1 s1
    → Replaced memory src off off ip s ip1 s1
mapped-Replaced sb memory src off ip s bn addr ip1 s1 f m1 = record {
  there = λ x h p q. absurd (omega arith);
  bytes = λ x h p q. absurd (omega arith);
  stays = λ m h z q. z (sym (lookup-Mapped sb ip s bn addr ip1 s1 f m1 m h z) ∙ q);
  others = λ x h z e.
      ap (λ (d : Block). d (x % bsize))
        (content-Mapped sb ip s bn addr ip1 s1 f m1 (x / bsize) (omega arith) z);
}

pub nothing-Replaced :
    (memory : ℕ → ℕ) (src off : ℕ) (ip : Inode) (s : Disk) → Replaced memory src off off ip s ip s
nothing-Replaced memory src off ip s = record {
  there = λ x h p q. absurd (omega arith);
  bytes = λ x h p q. absurd (omega arith);
  stays = λ m h z. z;
  others = λ x h z e. refl;
}

-- Two pieces, one after the other.
pub Replaced-append :
    (memory : ℕ → ℕ) (src off mid end : ℕ) (ip : Inode) (s : Disk) (ip1 : Inode) (s1 : Disk)
    (ip2 : Inode) (s2 : Disk)
    → off ≤ mid
    → mid ≤ end
    → Replaced memory src off mid ip s ip1 s1
    → Replaced memory (src + (mid - off)) mid end ip1 s1 ip2 s2
    → Replaced memory src off end ip s ip2 s2
Replaced-append memory src off mid end ip s ip1 s1 ip2 s2 p q a b = record {
  there = λ x h l r. elim (dec_lt x mid) [
    | yes first ↦ b.stays (x / bsize) (omega arith) (a.there x h l first)
    | no second ↦ b.there x h (omega arith) r
  ];
  bytes = λ x h l r. elim (dec_lt x mid) [
    | yes first ↦ b.others x h (a.there x h l first) (inl first) ∙ a.bytes x h l first
    | no second ↦ b.bytes x h (omega arith) r ∙ ap memory (omega arith)
  ];
  stays = λ m h z. b.stays m h (a.stays m h z);
  others = λ x h z e.
      b.others x h (a.stays (x / bsize) (omega arith) z) (after_mid x e)
      ∙ a.others x h z (before_mid x e);
}
  where
    after_mid : (x : ℕ) → (x < off) ⊎ (end ≤ x) → (x < mid) ⊎ (end ≤ x)
    after_mid x (inl e) = inl (omega arith)
    after_mid x (inr e) = inr e

    before_mid : (x : ℕ) → (x < off) ⊎ (end ≤ x) → (x < off) ⊎ (mid ≤ x)
    before_mid x (inl e) = inl e
    before_mid x (inr e) = inr (omega arith)

module _ (sb : Superblock) (memory : ℕ → ℕ) (small : (a : ℕ) → memory a < 256) where
  -- The bytes of the block that a round writes.
  put_inside :
      (d : Block) (o src m x : ℕ)
      → o ≤ x
      → x < o + m
      → put_bytes memory d o src m x ≡ memory (src + (x - o))
  unfolding put_bytes
  put_inside d o src m x p q = ground arith

  put_outside :
      (d : Block) (o src m x : ℕ) → (x < o) ⊎ (o + m ≤ x) → put_bytes memory d o src m x ≡ d x
  unfolding put_bytes
  put_outside d o src m x (inl p) = ground arith
  put_outside d o src m x (inr p) = ground arith

  put_small : (d : Block) (o src m x : ℕ) → d x < 256 → put_bytes memory d o src m x < 256
  unfolding put_bytes
  put_small d o src m x h = ground (arith, small (src + (x - o)))

  -- A round that gets a block writes its piece there.
  module _ (ip : Inode) (s : Disk) (off addr : ℕ) (ip1 : Inode) (s1 : Disk) (f : IsFile sb ip s)
      (m1 : Mapped sb ip s (off / bsize) addr ip1 s1) (got : addr ≢ 0) (l : off / bsize < maxfile)
      (src m : ℕ) where
    abbrev pub written : Block
    written = put_bytes memory (s1.block addr) (off % bsize) src m

    pub at_addr : Owned sb s1 addr
    at_addr = subst (Owned sb s1) m1.at (m1.file.owned (off / bsize) l (λ z. got (sym m1.at ∙ z)))

    pub not_table : addr ≢ ip1.addrs ndirect
    not_table e = m1.file.apart (off / bsize) l (λ z. got (sym m1.at ∙ z)) (m1.at ∙ e)

    pub written_small : (x : ℕ) → written x < 256
    written_small x = put_small (s1.block addr) (off % bsize) src m x (m1.disk.bytes addr x)

    abbrev pub after : Disk
    after = stored sb ip1 s1 m1.disk m1.file addr written at_addr not_table written_small

    same_lookup : (k : ℕ) → lookup ip1 after k ≡ lookup ip1 s1 k
    same_lookup =
        lookup-stored sb ip1 s1 m1.disk m1.file addr written at_addr not_table written_small

    at_bn : (x : ℕ) → x / bsize ≡ off / bsize → byte_at ip1 after x ≡ written (x % bsize)
    at_bn x e =
        ap (λ (b : ℕ). after.block b (x % bsize))
          (same_lookup (x / bsize) ∙ ap (lookup ip1 s1) e ∙ m1.at)
        ∙ ap (λ (d : Block). d (x % bsize))
            (stored_self sb ip1 s1 m1.disk m1.file addr written at_addr not_table written_small)

    pub round-Replaced : off % bsize + m ≤ bsize → Replaced memory src off (off + m) ip s ip1 after
    round-Replaced h = record {
      there = λ x g p q z.
          got
            (sym m1.at ∙ ap (lookup ip1 s1) (same_block x p q) ∙ sym (same_lookup (x / bsize)) ∙ z);
      bytes = λ x g p q.
          at_bn x (sym (same_block x p q))
          ∙ put_inside (s1.block addr) (off % bsize) src m (x % bsize) (omega arith) (omega arith)
          ∙ ap memory (omega arith);
      stays = λ k g z q. z (
          sym (lookup-Mapped sb ip s (off / bsize) addr ip1 s1 f m1 k g z)
          ∙ sym (same_lookup k)
          ∙ q);
      others = λ x g z e. elsewhere x g z e;
    }
      where
        same_block : (x : ℕ) → off ≤ x → x < off + m → off / bsize ≡ x / bsize
        same_block x p q = omega arith

        outside :
            (x : ℕ)
            → x / bsize ≡ off / bsize
            → (x < off) ⊎ (off + m ≤ x)
            → (x % bsize < off % bsize) ⊎ (off % bsize + m ≤ x % bsize)
        outside x e (inl p) = inl (omega arith)
        outside x e (inr p) = inr (omega arith)

        elsewhere :
            (x : ℕ)
            → x < maxfile * bsize
            → lookup ip s (x / bsize) ≢ 0
            → (x < off) ⊎ (off + m ≤ x)
            → byte_at ip1 after x ≡ byte_at ip s x
        elsewhere x g z e =
            let before =
              ap (λ (d : Block). d (x % bsize))
                (content-Mapped sb ip s (off / bsize) addr ip1 s1 f m1 (x / bsize) (omega arith)
                  z) in
            elim (ℕ_discrete (x / bsize) (off / bsize)) [
              | yes p ↦
                  at_bn x p
                  ∙ put_outside (s1.block addr) (off % bsize) src m (x % bsize) (outside x p e)
                  ∙ ap (λ (b : ℕ). s1.block b (x % bsize)) (sym m1.at ∙ ap (lookup ip1 s1) (sym p))
                  ∙ before
              | no n ↦
                  ap (λ (b : ℕ). after.block b (x % bsize)) (same_lookup (x / bsize))
                  ∙ ap (λ (d : Block). d (x % bsize))
                      (stored_ne sb ip1 s1 m1.disk m1.file addr written at_addr not_table
                        written_small (lookup ip1 s1 (x / bsize))
                        (λ q. n (
                          m1.file.distinct (x / bsize) (off / bsize) (omega arith) l
                            (λ w. got (sym q ∙ w)) (q ∙ sym m1.at))))
                  ∙ before
            ]
