-- ===== src/Fs.antt =====
-- kernel/fs.c, the file system below the system calls, on one disk.
-- A block is its bytes. `Disk` has what `bread` returns for each block, and the blocks passed to
-- `log_write` so far, oldest first: inside a transaction these are the blocks that kernel/log.c counts.
-- Buffers are released as they were read, so `brelse` leaves no trace here.
pub mod Bytes
pub mod Bitmap
pub mod Inode
pub mod Blocks
pub mod Content
pub mod Table
mod Tests
use project_priv.Prelude.{ℕ, ◌+◌, ◌/◌, List, [], ◌∷◌, ◌++◌, update}

abbrev pub Block : Type 0
Block = ℕ → ℕ

-- fs.h: BSIZE, BPB, IPB, NDIRECT, NINDIRECT, MAXFILE, DIRSIZ
abbrev pub bsize : ℕ
bsize = 1024

abbrev pub bpb : ℕ
bpb = 8192

abbrev pub ipb : ℕ
ipb = 16

abbrev pub ndirect : ℕ
ndirect = 12

abbrev pub nindirect : ℕ
nindirect = 256

abbrev pub maxfile : ℕ
maxfile = ndirect + nindirect

abbrev pub dirsiz : ℕ
dirsiz = 14

-- `struct superblock`, of which the code below reads these fields.
pub record Superblock : Type 0 where
  pub size : ℕ
  pub ninodes : ℕ
  pub inodestart : ℕ
  pub bmapstart : ℕ

pub record Disk : Type 0 where
  pub block : ℕ → Block
  pub logged : List ℕ

-- `IBLOCK`, `BBLOCK`
abbrev pub iblock : Superblock → ℕ → ℕ
iblock sb i = i / ipb + sb.inodestart

abbrev pub bblock : Superblock → ℕ → ℕ
bblock sb b = b / bpb + sb.bmapstart

-- `log_write` of a buffer whose bytes have become `d`.
unfoldable pub log_write : ℕ → Block → Disk → Disk
log_write b d s = record s { block = update s.block b d; logged = s.logged ++ (b ∷ []) }

unfoldable pub bzero : ℕ → Disk → Disk
unfolding log_write
bzero b s = log_write b (λ i. 0) s
