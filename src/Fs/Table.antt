-- ===== src/Fs/Table.antt =====
-- kernel/fs.c: the table of inodes in memory, and free inodes on the disk.
-- A pointer to an inode is its place in the table.
pub mod Unique
use project_priv.Prelude.{
  ◌>>=◌, ℕ, zero, suc, ◌+◌, ◌-◌, ◌≤◌, ◌<◌, List, [], ◌∷◌, Option, none, some, Bool, true, false,
  not, ◌==◌, ◌&&◌, if◌then◌else◌, ltb, leb, update,
}
use project_priv.Fs.{Block, Superblock, Disk, iblock, log_write}
use project_priv.Fs.Bytes.{get16, put16}
use project_priv.Fs.Inode.{Inode, dinode_at, iupdate}
use project_priv.Fs.Blocks.{itrunc}

abbrev pub ninode : ℕ
ninode = 50

-- `itable`
abbrev pub Itable : Type 0
Itable = ℕ → Inode

-- `ip->ref > 0 && ip->dev == dev && ip->inum == inum`
pub is_inode : (dev inum : ℕ) → Inode → Bool
is_inode dev inum ip = ltb 0 ip.ref && (ip.dev == dev && ip.inum == inum)

-- `if(empty == 0 && ip->ref == 0) empty = ip`
pub remember : ℕ → Inode → Option ℕ → Option ℕ
remember i ip none = if ip.ref == 0 then some i else none
remember i ip (some j) = some j

-- How the loop of `iget` ends: at an entry for the inode, or with the empty slot that it remembers.
pub data Scan : Type 0 where
  held : ℕ → Scan
  spare : Option ℕ → Scan

pub scan : (k i dev inum : ℕ) → Itable → Option ℕ → Scan
scan zero i dev inum t empty = spare empty
scan (suc k) i dev inum t empty = elim (is_inode dev inum (t i)) [
  | true ↦ held i
  | false ↦ scan k (i + 1) dev inum t (remember i (t i) empty)
]

-- `none` is a panic.
pub iget : (dev inum : ℕ) → Itable → Option (ℕ × Itable)
iget dev inum t = elim (scan ninode 0 dev inum t none) [
  | held i ↦ some (i, update t i (record (t i) { ref = (t i).ref + 1 }))
  | spare none ↦ none
  | spare (some i) ↦
      some (i, update t i (record (t i) { dev = dev; inum = inum; ref = 1; valid = false }))
]

pub idup : ℕ → Itable → Itable
idup i t = update t i (record (t i) { ref = (t i).ref + 1 })

-- Truncates and frees the inode, when its last reference goes and no name is left.
pub ifree : Superblock → Inode → Disk → Option (Inode × Disk)
ifree sb ip s = do
  (ip1, s1) ← itrunc sb ip s
  let ip2 = record ip1 { type = 0 }
  some (record ip2 { valid = false }, iupdate sb ip2 s1)

-- A caller has a reference, so that the count is not 0.
pub iput : Superblock → ℕ → Itable → Disk → Option (Itable × Disk)
iput sb i t s = elim ((t i).ref == 1 && ((t i).valid && (t i).nlink == 0)) [
  | true ↦ do (ip1, s1) ← ifree sb (t i) s; some (update t i (record ip1 { ref = ip1.ref - 1 }), s1)
  | false ↦ some (update t i (record (t i) { ref = (t i).ref - 1 }), s)
]

-- `memset(dip, 0, sizeof(*dip)); dip->type = type`
pub new_dinode : (o type : ℕ) → Block → Block
new_dinode o type d = put16 (λ x. if leb o x && ltb x (o + 64) then 0 else d x) o type

-- The loop of `ialloc`, with `k` rounds left. The inner `none` is its result 0.
pub ialloc_loop :
    Superblock → (k inum dev type : ℕ) → Itable → Disk → Option (Option ℕ × Itable × Disk)
ialloc_loop sb zero inum dev type t s = some (none, t, s)
ialloc_loop sb (suc k) inum dev type t s =
    elim (get16 (s.block (iblock sb inum)) (dinode_at inum) == 0) [
      | true ↦ do
        (i, t1) ← iget dev inum t
        some (
          some i,
          t1,
          log_write (iblock sb inum) (new_dinode (dinode_at inum) type (s.block (iblock sb inum)))
              s,
        )
      | false ↦ ialloc_loop sb k (inum + 1) dev type t s
    ]

pub ialloc : Superblock → (dev type : ℕ) → Itable → Disk → Option (Option ℕ × Itable × Disk)
ialloc sb dev type t s = ialloc_loop sb (sb.ninodes - 1) 1 dev type t s
