-- ===== src/Fs/Inode.antt =====
-- kernel/fs.c and file.h: inodes in memory and on the disk.
-- The sleep lock of an inode is not modelled: its holder runs alone on the fields that it protects.
-- `short` fields are their 16 bits.
pub mod Stored
use project_priv.Prelude.{
  ℕ, zero, suc, ◌+◌, ◌*◌, ◌%◌, Bool, Option, none, some, true, false, ◌==◌, if◌then◌else◌, ltb,
}
use project_priv.Fs.{Block, ndirect, ipb, Superblock, Disk, iblock, log_write}
use project_priv.Fs.Bytes.{get16, put16, get32, put32}

pub record Inode : Type 0 where
  pub dev : ℕ
  pub inum : ℕ
  pub ref : ℕ
  pub valid : Bool
  pub type : ℕ
  pub major : ℕ
  pub minor : ℕ
  pub nlink : ℕ
  pub size : ℕ
  pub addrs : ℕ → ℕ

-- Where in its block inode `inum` is: `(struct dinode*)bp->data + inum % IPB`.
abbrev pub dinode_at : ℕ → ℕ
dinode_at inum = inum % ipb * 64

-- `memmove(dip->addrs, ip->addrs, sizeof(ip->addrs))`, with `k` numbers left from the `i`th.
pub put_addrs : (k i o : ℕ) → (ℕ → ℕ) → Block → Block
put_addrs zero i o addrs d = d
put_addrs (suc k) i o addrs d = put_addrs k (i + 1) o addrs (put32 d (o + 4 * i) (addrs i))

-- The inode stored at offset `o` of a block.
pub put_dinode : (o : ℕ) → Inode → Block → Block
put_dinode o ip d =
    let d1 = put16 d o ip.type in
    let d2 = put16 d1 (o + 2) ip.major in
    let d3 = put16 d2 (o + 4) ip.minor in
    let d4 = put16 d3 (o + 6) ip.nlink in
    put_addrs (ndirect + 1) 0 (o + 12) ip.addrs (put32 d4 (o + 8) ip.size)

unfoldable pub iupdate : Superblock → Inode → Disk → Disk
iupdate sb ip s =
    log_write (iblock sb ip.inum) (put_dinode (dinode_at ip.inum) ip (s.block (iblock sb ip.inum)))
      s

-- The inode with the fields at offset `o` of a block.
pub get_dinode : (o : ℕ) → Block → Inode → Inode
get_dinode o d ip = record ip {
  type = get16 d o;
  major = get16 d (o + 2);
  minor = get16 d (o + 4);
  nlink = get16 d (o + 6);
  size = get32 d (o + 8);
  addrs = λ i. get32 d (o + 12 + 4 * i);
}

-- What `ilock` does once it has the lock; `none` is a panic.
pub ilock : Superblock → Inode → Disk → Option Inode
ilock sb ip s =
    let loaded = get_dinode (dinode_at ip.inum) (s.block (iblock sb ip.inum)) ip in
    if ltb ip.ref 1
    then none
    else if ip.valid
    then some ip
    else if loaded.type == 0
    then none
    else some (record loaded { valid = true })
