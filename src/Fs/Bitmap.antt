-- ===== src/Fs/Bitmap.antt =====
-- kernel/fs.c: `balloc` and `bfree`, on the bitmap of blocks in use.
pub mod Search
pub mod Balloc
pub mod Bfree
use project_priv.Prelude.{
  ℕ, zero, suc, ◌+◌, ◌/◌, ◌%◌, Option, none, some, Bool, true, false, ltb, if◌then◌else◌,
}
use project_priv.Fs.{Block, bpb, Superblock, Disk, bblock, log_write, bzero}
use project_priv.Fs.Bytes.{bit_of, set_bit, clear_bit}

-- The inner loop of `balloc` with `k` rounds left: the first clear bit of a block of the bitmap.
pub free_bit : (k bi b size : ℕ) → Block → Option ℕ
free_bit zero bi b size d = none
free_bit (suc k) bi b size d =
    let rest = free_bit k (bi + 1) b size d in
    if ltb (b + bi) size then (if bit_of d bi then rest else some bi) else none

-- The outer loop. The result 0 means that no block is left.
pub balloc_loop : (k b : ℕ) → Superblock → Disk → ℕ × Disk
balloc_loop zero b sb s = (0, s)
balloc_loop (suc k) b sb s =
    let rest = balloc_loop k (b + bpb) sb s in
    let d = s.block (bblock sb b) in
    let found : ℕ × Disk = elim (free_bit bpb 0 b sb.size d) [
      | none ↦ rest
      | some bi ↦ (b + bi, bzero (b + bi) (log_write (bblock sb b) (set_bit d bi) s))
    ] in
    if ltb b sb.size then found else (0, s)

pub balloc : Superblock → Disk → ℕ × Disk
balloc sb s = balloc_loop (sb.size / bpb + 1) 0 sb s

-- `none` is a panic.
pub bfree : Superblock → ℕ → Disk → Option Disk
bfree sb b s =
    let d = s.block (bblock sb b) in
    if bit_of d (b % bpb) then some (log_write (bblock sb b) (clear_bit d (b % bpb)) s) else none
