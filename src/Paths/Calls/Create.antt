-- ===== src/Paths/Calls/Create.antt =====
-- kernel/sysfile.c: `create`, `sys_mkdir`, `sys_mknod` and `sys_chdir`.
use project_priv.Prelude.{
  ℕ, ◌%◌, List, Option, none, some, Bool, true, false, ◌==◌, ◌&&◌, ◌||◌, if◌then◌else◌,
}
use project_priv.Fs.{Superblock}
use project_priv.Fs.Inode.{Inode}
use project_priv.Fs.Table.{ialloc}
use project_priv.Paths.Directory.{t_dir}
use project_priv.Paths.Calls.{
  ◌>>=◌, t_file, t_device, Sys, Run, begin_op, end_op, inode, with_tables, iunlock, dot_name,
  dotdot_name, nlink_up, change, ilock, iput, iunlockput, find_path, lookup, link_entry, fail,
  put_end,
}

-- `iunlockput(ip); return 0`
unfoldable pub give_up : Superblock → ℕ → Sys → Run (Option ℕ)
give_up sb i s = do s1 ← iunlockput sb i s; some (none, s1)

-- The name is there already, at `ip`.
unfoldable pub create_found : Superblock → (dp ip type : ℕ) → Sys → Run (Option ℕ)
create_found sb dp ip type s = do
  s1 ← iunlockput sb dp s
  s2 ← ilock sb ip s1
  elim (type == t_file && ((inode s2 ip).type == t_file || (inode s2 ip).type == t_device)) [
    | true ↦ some (some ip, s2)
    | false ↦ give_up sb ip s2
  ]

-- `fail` of `create`.
unfoldable pub create_fail : Superblock → (dp ip : ℕ) → Sys → Run (Option ℕ)
create_fail sb dp ip s = do
  s1 ← iunlockput sb ip (change sb (λ (i : Inode). record i { nlink = 0 }) ip s)
  give_up sb dp s1

-- The entries "." and ".." of a new directory.
unfoldable pub link_dots : Superblock → (dp ip type : ℕ) → Sys → Run Bool
link_dots sb dp ip type s = elim (type == t_dir) [
  | false ↦ some (true, s)
  | true ↦ do
    (ok, s1) ← link_entry sb ip dot_name (inode s ip).inum s
    elim ok [ false ↦ some (false, s1) | true ↦ link_entry sb ip dotdot_name (inode s1 dp).inum s1 ]
]

-- `create` with the new inode `ip` locked.
unfoldable pub create_linked : Superblock → (dp ip type : ℕ) → (name : ℕ → ℕ) → Sys → Run (Option ℕ)
create_linked sb dp ip type name s = do
  (dots, s1) ← link_dots sb dp ip type s
  elim dots [
    | false ↦ create_fail sb dp ip s1
    | true ↦ do
      (ok, s2) ← link_entry sb dp name (inode s1 ip).inum s1
      elim ok [
        | false ↦ create_fail sb dp ip s2
        | true ↦ do
          s3 ← iunlockput sb dp (if type == t_dir then change sb nlink_up dp s2 else s2)
          some (some ip, s3)
      ]
  ]

unfoldable pub create_new :
    Superblock → (dp type major minor : ℕ) → (name : ℕ → ℕ) → Sys → Run (Option ℕ)
create_new sb dp type major minor name s = do
  (new, t, d) ← ialloc sb (inode s dp).dev type s.itable s.disk
  elim new [
    | none ↦ give_up sb dp (with_tables s t d)
    | some ip ↦ do
      s1 ← ilock sb ip (with_tables s t d)
      create_linked sb dp ip type name
          (change sb (λ (i : Inode). record i { major = major; minor = minor; nlink = 1 }) ip s1)
  ]

-- The inode is locked; `none` is 0.
unfoldable pub create :
    Superblock → (path : List ℕ) → (type major minor : ℕ) → (name : ℕ → ℕ) → Sys → Run (Option ℕ)
create sb path type major minor name s = do
  ((found, last), s1) ← find_path sb true path name s
  elim found [
    | none ↦ some (none, s1)
    | some dp ↦ do
      s2 ← ilock sb dp s1
      (there, s3) ← lookup sb dp last s2
      elim there [
        | some (off, ip) ↦ create_found sb dp ip type s3
        | none ↦ create_new sb dp type major minor last s3
      ]
  ]

-- `sys_mkdir` and `sys_mknod` after their arguments.
unfoldable pub make :
    Superblock → (path : Option (List ℕ)) → (type major minor : ℕ) → (name : ℕ → ℕ) → Sys → Run Bool
make sb none type major minor name s = fail s
make sb (some path) type major minor name s = do
  (made, s1) ← create sb path type major minor name s
  elim made [ none ↦ fail s1 | some ip ↦ put_end sb ip true s1 ]

unfoldable pub sys_mkdir : Superblock → (path : Option (List ℕ)) → (name : ℕ → ℕ) → Sys → Run Bool
sys_mkdir sb path name s = make sb path t_dir 0 0 name (begin_op s)

-- `create` takes the numbers as shorts.
unfoldable pub sys_mknod :
    Superblock → (path : Option (List ℕ)) → (major minor : ℕ) → (name : ℕ → ℕ) → Sys → Run Bool
sys_mknod sb path major minor name s =
    make sb path t_device (major % 65536) (minor % 65536) name (begin_op s)

unfoldable pub chdir_to : Superblock → ℕ → Sys → Run Bool
chdir_to sb ip s = do
  s1 ← ilock sb ip s
  elim ((inode s1 ip).type == t_dir) [
    | false ↦ put_end sb ip false s1
    | true ↦ do s2 ← iput sb s1.cwd (iunlock ip s1); some (true, record (end_op s2) { cwd = ip })
  ]

unfoldable pub sys_chdir : Superblock → (path : Option (List ℕ)) → (name : ℕ → ℕ) → Sys → Run Bool
sys_chdir sb none name s = fail (begin_op s)
sys_chdir sb (some path) name s = do
  ((found, last), s1) ← find_path sb false path name (begin_op s)
  elim found [ none ↦ fail s1 | some ip ↦ chdir_to sb ip s1 ]
