-- ===== src/Fs/Blocks.antt =====
-- kernel/fs.c: `bmap` and `itrunc`, the blocks of a file's content.
-- The results are the inode in memory and the disk; `none` is a panic.
pub mod Mapping
pub mod Fill
pub mod Cases
pub mod Step
pub mod Bmap
use project_priv.Prelude.{
  ◌>>=◌, ℕ, zero, suc, ◌+◌, ◌-◌, ◌*◌, Option, none, some, Bool, true, false, ◌==◌, if◌then◌else◌,
  ltb, update,
}
use project_priv.Fs.{Block, ndirect, nindirect, Superblock, Disk, log_write}
use project_priv.Fs.Bytes.{get32, put32}
use project_priv.Fs.Bitmap.{balloc, bfree}
use project_priv.Fs.Inode.{Inode, iupdate}

abbrev pub set_addr : ℕ → ℕ → Inode → Inode
set_addr i v ip = record ip { addrs = update ip.addrs i v }

-- `ip->addrs[i]`, allocated if it is 0; 0 means that the disk is full.
pub direct : Superblock → (i : ℕ) → Inode → Disk → ℕ × Inode × Disk
direct sb i ip s =
    let (addr, t) = balloc sb s in
    if ip.addrs i == 0
    then (if addr == 0 then (0, ip, t) else (addr, set_addr i addr ip, t))
    else (ip.addrs i, ip, s)

-- `a[j]` of the indirect block, allocated if it is 0.
pub indirect : Superblock → (ind j : ℕ) → Disk → ℕ × Disk
indirect sb ind j s =
    let (addr, t) = balloc sb s in
    let a = get32 (s.block ind) (4 * j) in
    if a == 0
    then (if addr == 0 then (0, t) else (addr, log_write ind (put32 (t.block ind) (4 * j) addr) t))
    else (a, s)

pub bmap : Superblock → (bn : ℕ) → Inode → Disk → Option (ℕ × Inode × Disk)
bmap sb bn ip s =
    let (ind, ip1, s1) = direct sb ndirect ip s in
    let (addr, s2) = indirect sb ind (bn - ndirect) s1 in
    if ltb bn ndirect
    then some (direct sb bn ip s)
    else if ltb (bn - ndirect) nindirect
    then (if ind == 0 then some (0, ip1, s1) else some (addr, ip1, s2))
    else none

-- The loop of `itrunc` over the direct blocks, with `k` rounds left.
pub free_direct : Superblock → (k i : ℕ) → Inode → Disk → Option (Inode × Disk)
free_direct sb zero i ip s = some (ip, s)
free_direct sb (suc k) i ip s = elim (ip.addrs i == 0) [
  | true ↦ free_direct sb k (i + 1) ip s
  | false ↦ do s1 ← bfree sb (ip.addrs i) s; free_direct sb k (i + 1) (set_addr i 0 ip) s1
]

-- The loop over the numbers in the indirect block.
pub free_indirect : Superblock → (ind k j : ℕ) → Disk → Option Disk
free_indirect sb ind zero j s = some s
free_indirect sb ind (suc k) j s = elim (get32 (s.block ind) (4 * j) == 0) [
  | true ↦ free_indirect sb ind k (j + 1) s
  | false ↦ do s1 ← bfree sb (get32 (s.block ind) (4 * j)) s; free_indirect sb ind k (j + 1) s1
]

-- The second half of `itrunc`.
pub free_tail : Superblock → Inode → Disk → Option (Inode × Disk)
free_tail sb ip s = elim (ip.addrs ndirect == 0) [
  | true ↦ some (ip, s)
  | false ↦ do
    s1 ← free_indirect sb (ip.addrs ndirect) nindirect 0 s
    s2 ← bfree sb (ip.addrs ndirect) s1
    some (set_addr ndirect 0 ip, s2)
]

pub itrunc : Superblock → Inode → Disk → Option (Inode × Disk)
itrunc sb ip s = do
  (ip1, s1) ← free_direct sb ndirect 0 ip s
  (ip2, s2) ← free_tail sb ip1 s1
  let ip3 = record ip2 { size = 0 }
  some (ip3, iupdate sb ip3 s2)
