-- ===== src/Paths/Calls/Unlink.antt =====
-- kernel/sysfile.c: `sys_unlink`.
use project_priv.Prelude.{
  ℕ, zero, suc, ◌+◌, ◌*◌, ◌/◌, List, Option, none, some, Bool, true, false, not, ◌==◌, ◌||◌,
  if◌then◌else◌, ltb, update,
}
use project_priv.Fs.{Superblock}
use project_priv.Fs.Content.{writei}
use project_priv.Paths.Directory.{t_dir, dirent_size, entry_inum, read_entry, namecmp}
use project_priv.Paths.Calls.{
  ◌>>=◌, Sys, Run, begin_op, inode, with_tables, dot_name, dotdot_name, nlink_down, no_links,
  change, ilock, iunlockput, find_path, lookup, fail, put_end,
}

-- The loop of `isdirempty`, with `k` rounds left.
unfoldable pub empty_loop : Superblock → (k off dp : ℕ) → Sys → Run Bool
empty_loop sb zero off dp s = some (true, s)
empty_loop sb (suc k) off dp s = elim (ltb off (inode s dp).size) [
  | false ↦ some (true, s)
  | true ↦ do
    (de, t, d) ← read_entry sb off dp s.itable s.disk
    elim (entry_inum de == 0) [
      | false ↦ some (false, with_tables s t d)
      | true ↦ empty_loop sb k (off + dirent_size) dp (with_tables s t d)
    ]
]

unfoldable pub isdirempty : Superblock → (dp : ℕ) → Sys → Run Bool
isdirempty sb dp s = empty_loop sb ((inode s dp).size / dirent_size + 1) (2 * dirent_size) dp s

-- `bad` of `sys_unlink`.
unfoldable pub unlink_bad : Superblock → ℕ → Sys → Run Bool
unlink_bad sb dp s = put_end sb dp false s

-- The entry at `off` is cleared.
unfoldable pub clear_entry : Superblock → (dp off : ℕ) → Sys → Option Sys
clear_entry sb dp off s = do
  (r, ip, d) ← writei sb (λ x. 0) (λ src m. m) 0 off dirent_size (inode s dp) s.disk
  n ← r
  if n == dirent_size then some (with_tables s (update s.itable dp ip) d) else none

-- `sys_unlink` after its checks.
unfoldable pub remove_entry : Superblock → (dp off ip : ℕ) → Sys → Run Bool
remove_entry sb dp off ip s = do
  s1 ← clear_entry sb dp off s
  s2 ← iunlockput sb dp (if (inode s1 ip).type == t_dir then change sb nlink_down dp s1 else s1)
  put_end sb ip true (change sb nlink_down ip s2)

-- `T_DIR && !isdirempty(ip)`
unfoldable pub keeps_entries : Superblock → ℕ → Sys → Run Bool
keeps_entries sb ip s = elim ((inode s ip).type == t_dir) [
  | false ↦ some (false, s)
  | true ↦ do (empty, s1) ← isdirempty sb ip s; some (not empty, s1)
]

-- `sys_unlink` with the directory `dp` locked.
unfoldable pub unlink_in : Superblock → (dp : ℕ) → (name : ℕ → ℕ) → Sys → Run Bool
unlink_in sb dp name s = elim (namecmp name dot_name == 0 || namecmp name dotdot_name == 0) [
  | true ↦ unlink_bad sb dp s
  | false ↦ do
    (found, s1) ← lookup sb dp name s
    elim found [
      | none ↦ unlink_bad sb dp s1
      | some (off, ip) ↦ do
        s2 ← ilock sb ip s1
        elim (no_links (inode s2 ip)) [
          | true ↦ none
          | false ↦ do
            (full, s3) ← keeps_entries sb ip s2
            elim full [
              | true ↦ do s4 ← iunlockput sb ip s3; unlink_bad sb dp s4
              | false ↦ remove_entry sb dp off ip s3
            ]
        ]
    ]
]

unfoldable pub unlink_path : Superblock → (path : List ℕ) → (name : ℕ → ℕ) → Sys → Run Bool
unlink_path sb path name s = do
  ((found, last), s1) ← find_path sb true path name (begin_op s)
  elim found [ none ↦ fail s1 | some dp ↦ do s2 ← ilock sb dp s1; unlink_in sb dp last s2 ]

unfoldable pub sys_unlink : Superblock → (path : Option (List ℕ)) → (name : ℕ → ℕ) → Sys → Run Bool
sys_unlink sb none name s = some (false, s)
sys_unlink sb (some path) name s = unlink_path sb path name s
