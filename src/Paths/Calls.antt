-- ===== src/Paths/Calls.antt =====
-- kernel/sysfile.c: the system calls that make and remove names.
-- `ops` counts the transactions that have begun and not ended, `locks` the locks that the call takes and gives
-- back, inode by inode; the locks that `namex` takes and gives back itself are not counted.
-- A path is `none` when `argstr` fails. `none` outside is a panic; of a result, true is 0 and false is -1.
pub mod Link
pub mod Unlink
pub mod Create
mod Balance
use project_priv.Prelude.{
  ℕ, zero, suc, ◌+◌, ◌-◌, ◌*◌, ◌/◌, ◌%◌, List, [], ◌∷◌, Option, none, some, Bool, true, false, not,
  ◌==◌, ◌&&◌, ◌||◌, if◌then◌else◌, ltb, leb, update,
}
use project_priv.Fs.{Superblock, Disk}
use project_priv.Fs.Inode.{Inode}
use project_priv.Fs.Content.{writei}
use project_priv.Fs.Table.{Itable}
use project_priv.Fs.Inode
use project_priv.Fs.Table
use project_priv.Paths.Directory.{
  t_dir, dirent_size, entry_inum, read_entry, namecmp, dirlookup, dirlink, namex,
}

-- For `do` blocks on steps that may panic.
infixl 5 ◌>>=◌
pub ◌>>=◌ : {A B : Type 0} → Option A → (A → Option B) → Option B
none >>= f = none
some a >>= f = f a

abbrev pub t_file : ℕ
t_file = 2

abbrev pub t_device : ℕ
t_device = 3

-- How often the call holds the lock of the inode at each place of the table, and whether it has given back a
-- lock that it did not hold, where the source panics.
pub record Locks : Type 0 where
  pub count : ℕ → ℕ
  pub unheld : Bool

pub lock : ℕ → Locks → Locks
lock i l = record l { count = λ j. if j == i then l.count j + 1 else l.count j }

pub unlock : ℕ → Locks → Locks
unlock i l = record l {
  count = λ j. if j == i then l.count j - 1 else l.count j;
  unheld = l.unheld || l.count i == 0;
}

-- `itable` and the disk, and the process's directory.
pub record Sys : Type 0 where
  pub itable : Itable
  pub disk : Disk
  pub ops : ℕ
  pub locks : Locks
  pub cwd : ℕ

abbrev pub Run : Type 0 → Type 0
Run A = Option (A × Sys)

pub begin_op : Sys → Sys
begin_op k = record k { ops = k.ops + 1 }

pub end_op : Sys → Sys
end_op k = record k { ops = k.ops - 1 }

abbrev pub inode : Sys → ℕ → Inode
inode k i = k.itable i

abbrev pub with_tables : Sys → Itable → Disk → Sys
with_tables k t s = record k { itable = t; disk = s }

pub iunlock : ℕ → Sys → Sys
iunlock i k = record k { locks = unlock i k.locks }

-- "." and ".."
abbrev pub dot_name : ℕ → ℕ
dot_name i = if i == 0 then 46 else 0

abbrev pub dotdot_name : ℕ → ℕ
dotdot_name i = if ltb i 2 then 46 else 0

-- The count of names is 16 bits wide; `ip->nlink < 1` is as a signed number.
abbrev pub nlink_up : Inode → Inode
nlink_up ip = record ip { nlink = (ip.nlink + 1) % 65536 }

abbrev pub nlink_down : Inode → Inode
nlink_down ip = record ip { nlink = (ip.nlink + 65535) % 65536 }

abbrev pub no_links : Inode → Bool
no_links ip = ip.nlink == 0 || leb 32768 ip.nlink

-- A field of an inode is changed, and `iupdate` called.
pub change : Superblock → (Inode → Inode) → ℕ → Sys → Sys
change sb f i k =
    let t = update k.itable i (f (k.itable i)) in with_tables k t (Inode.iupdate sb (t i) k.disk)

pub ilock : Superblock → ℕ → Sys → Option Sys
ilock sb i k = do
  loaded ← Inode.ilock sb (inode k i) k.disk
  some (record k { itable = update k.itable i loaded; locks = lock i k.locks })

pub iput : Superblock → ℕ → Sys → Option Sys
iput sb i k = do (t, s) ← Table.iput sb i k.itable k.disk; some (with_tables k t s)

pub iunlockput : Superblock → ℕ → Sys → Option Sys
iunlockput sb i k = iput sb i (iunlock i k)

-- `namei` and `nameiparent`.
pub find_path :
    Superblock → (parent : Bool) → List ℕ → (name : ℕ → ℕ) → Sys → Run (Option ℕ × (ℕ → ℕ))
find_path sb parent path name k = do
  (found, last, t, s) ← namex sb k.cwd path parent name k.itable k.disk
  some ((found, last), with_tables k t s)

pub lookup : Superblock → (dp : ℕ) → (name : ℕ → ℕ) → Sys → Run (Option (ℕ × ℕ))
lookup sb dp name k = do
  (found, t, s) ← dirlookup sb dp name k.itable k.disk
  some (found, with_tables k t s)

pub link_entry : Superblock → (dp : ℕ) → (name : ℕ → ℕ) → (inum : ℕ) → Sys → Run Bool
link_entry sb dp name inum k = do
  (ok, t, s) ← dirlink sb dp name inum k.itable k.disk
  some (ok, with_tables k t s)

-- `end_op(); return -1`
abbrev pub fail : Sys → Run Bool
fail k = some (false, end_op k)

-- `iunlockput(ip); end_op(); return r`
pub put_end : Superblock → ℕ → (r : Bool) → Sys → Run Bool
put_end sb i r k = do k1 ← iunlockput sb i k; some (r, end_op k1)
