-- ===== src/Fs/Bitmap/Bfree.antt =====
-- `bfree`: a block in use becomes free again; freeing a free block is a panic.
use project_priv.Prelude.{
  ℕ, ◌%◌, ◌<◌, ◌≡◌, ◌≢◌, ◌⊎◌, refl, sym, ap, ◌∙◌, none, some, true, false, Bool-cases, inl, inr,
  arith, ℕ_discrete, if◌then◌else◌, ◌==◌, update_self, update_ne, eq→==, ne→==, [], ◌∷◌, ◌++◌,
}
use project_priv.Fs.{Block, bpb, Superblock, Disk, bblock, log_write}
use project_priv.Fs.Bytes.{bit_of, clear_bit, bit_of-clear_bit, clear_bit_small}
use project_priv.Fs.Bitmap.{bfree}
use project_priv.Fs.Bitmap.Search.{in_use}

-- Block `b` was in use and is free, and no other block is touched but that of its mark.
pub record FreedBlock (sb : Superblock) (s : Disk) (b : ℕ) (t : Disk) : Type 0 where
  pub result : bfree sb b s ≡ some t
  pub marks : (c : ℕ) → in_use sb t c ≡ (if c == b then false else in_use sb s c)
  pub others : (c : ℕ) → c ≢ bblock sb b → t.block c ≡ s.block c
  pub logged : t.logged ≡ s.logged ++ (bblock sb b ∷ [])
  pub bytes : (c i : ℕ) → t.block c i < 256

module _ (sb : Superblock) (s : Disk) (small : (c i : ℕ) → s.block c i < 256) (b : ℕ) where
  abbrev cleared : Disk
  cleared = log_write (bblock sb b) (clear_bit (s.block (bblock sb b)) (b % bpb)) s

  same_block :
      (c : ℕ)
      → bblock sb c ≡ bblock sb b
      → (if c % bpb == b % bpb then false else bit_of (s.block (bblock sb b)) (c % bpb))
        ≡ (if c == b then false else in_use sb s c)
  same_block c e = elim (ℕ_discrete c b) [
    | yes q ↦ rw (eq→== (c % bpb) (b % bpb) (ap (λ (x : ℕ). x % bpb) q), eq→== c b q) refl
    | no n ↦
        rw (ne→== (c % bpb) (b % bpb) (λ q. n (omega (arith, e, q))), ne→== c b n)
          (ap (λ (m : ℕ). bit_of (s.block m) (c % bpb)) (sym e))
  ]

  cleared_marks : (c : ℕ) → in_use sb cleared c ≡ (if c == b then false else in_use sb s c)
  unfolding log_write
  cleared_marks c = elim (ℕ_discrete (bblock sb c) (bblock sb b)) [
    | no n ↦
        ap (λ (d : Block). bit_of d (c % bpb)) (update_ne s.block (bblock sb b) _ (bblock sb c) n)
        ∙ rw (ne→== c b (λ e. n (ap (bblock sb) e))) refl
    | yes e ↦
        ap (λ (m : ℕ). bit_of (cleared.block m) (c % bpb)) e
        ∙ ap (λ (d : Block). bit_of d (c % bpb))
            (update_self s.block (bblock sb b) (clear_bit (s.block (bblock sb b)) (b % bpb)))
        ∙ bit_of-clear_bit (s.block (bblock sb b)) (b % bpb) (small (bblock sb b)) (c % bpb)
        ∙ same_block c e
  ]

  cleared_bytes : (c i : ℕ) → cleared.block c i < 256
  unfolding log_write
  cleared_bytes c i = elim (ℕ_discrete c (bblock sb b)) [
    | yes e ↦
        rw (e, update_self s.block (bblock sb b) (clear_bit (s.block (bblock sb b)) (b % bpb)))
          (clear_bit_small (s.block (bblock sb b)) (b % bpb) (small (bblock sb b)) i)
    | no n ↦
        rw (update_ne s.block (bblock sb b) (clear_bit (s.block (bblock sb b)) (b % bpb)) c n)
          (small c i)
  ]

  -- `bfree` of a block in use clears its mark, and no other, and touches no other block; of a free block
  -- it panics.
  pub bfree_lem :
      ((in_use sb s b ≡ false) × (bfree sb b s ≡ none))
      ⊎ ((in_use sb s b ≡ true) × (t : Disk) × FreedBlock sb s b t)
  unfolding bfree log_write
  bfree_lem = elim (Bool-cases (in_use sb s b)) [
    | inr e ↦ inl (e, rw (bfree, e) refl)
    | inl e ↦ inr (
      e,
      cleared,
      record {
        result = rw (bfree, e) refl;
        marks = cleared_marks;
        others = λ c n. update_ne s.block (bblock sb b) _ c n;
        logged = refl;
        bytes = cleared_bytes;
      },
    )
  ]
