-- ===== src/Fs/Bitmap/Search.antt =====
-- Which blocks the bitmap has in use, and what the search for a clear bit finds.
use project_priv.Prelude.{
  u32, ℕ, zero, suc, ◌+◌, ◌%◌, ◌≤◌, ◌<◌, ◌≡◌, sym, ap, ◌∙◌, none, some, Bool, true, false, ltb,
  Bool-cases, inl, inr, arith, ℕ_discrete,
}
use project_priv.Fs.{Block, bpb, Superblock, Disk, bblock}
use project_priv.Fs.Bytes.{bit_of}
use project_priv.Fs.Bitmap.{free_bit}

-- Whether the bitmap marks a block.
abbrev pub in_use : Superblock → Disk → ℕ → Bool
in_use sb s b = bit_of (s.block (bblock sb b)) (b % bpb)

-- A disk whose blocks hold bytes, and whose bitmap marks its own blocks and the boot block.
pub record IsDisk (sb : Superblock) (s : Disk) : Type 0 where
  pub small : sb.size < u32
  pub bytes : (b i : ℕ) → s.block b i < 256
  pub boot : in_use sb s 0 ≡ true
  pub bitmap : (b : ℕ) → b < sb.size → (bblock sb b < sb.size) × (in_use sb s (bblock sb b) ≡ true)

pub record Found (k bi b size : ℕ) (d : Block) (n : ℕ) : Type 0 where
  pub from : bi ≤ n
  pub below : n < bi + k
  pub inside : b + n < size
  pub clear : bit_of d n ≡ false

pub free_bit-Found :
    (k bi b size n : ℕ) (d : Block) → free_bit k bi b size d ≡ some n → Found k bi b size d n
unfolding free_bit
free_bit-Found zero bi b size n d e = cc
free_bit-Found (suc k) bi b size n d e = elim (Bool-cases (ltb (b + bi) size)) [
  | inr h ↦ absurd (ground (arith, e, h))
  | inl h ↦ elim (Bool-cases (bit_of d bi)) [
    | inl g ↦
        let f = free_bit-Found k (bi + 1) b size n d (ground (arith, e, h, g)) in
        record {
          from = omega (arith, f.from);
          below = omega (arith, f.below);
          inside = f.inside;
          clear = f.clear;
        }
    | inr g ↦
        let same : bi ≡ n = ground (arith, e, h, g) in
        record {
          from = omega (arith, same);
          below = omega (arith, same);
          inside = ground (arith, h, same);
          clear = ap (bit_of d) (sym same) ∙ g;
        }
  ]
]

pub free_bit-none :
    (k bi b size n : ℕ) (d : Block)
    → free_bit k bi b size d ≡ none
    → bi ≤ n
    → n < bi + k
    → b + n < size
    → bit_of d n ≡ true
unfolding free_bit
free_bit-none zero bi b size n d e p q r = absurd (omega arith)
free_bit-none (suc k) bi b size n d e p q r = elim (Bool-cases (ltb (b + bi) size)) [
  | inr h ↦ absurd (ground (arith, h))
  | inl h ↦ elim (Bool-cases (bit_of d bi)) [
    | inr g ↦ absurd (ground (arith, e, h, g))
    | inl g ↦ elim (ℕ_discrete n bi) [
      | yes same ↦ rw same g
      | no other ↦
          free_bit-none k (bi + 1) b size n d (ground (arith, e, h, g)) (omega arith) (omega arith)
            r
    ]
  ]
]
