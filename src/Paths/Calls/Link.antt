-- ===== src/Paths/Calls/Link.antt =====
-- kernel/sysfile.c: `sys_link`.
use project_priv.Prelude.{ℕ, List, Option, none, some, Bool, true, false, ◌==◌}
use project_priv.Fs.{Superblock}
use project_priv.Paths.Directory.{t_dir}
use project_priv.Paths.Calls.{
  ◌>>=◌, Sys, Run, begin_op, end_op, inode, iunlock, nlink_up, nlink_down, change, ilock, iput,
  iunlockput, find_path, link_entry, fail, put_end,
}

-- `bad` of `sys_link`.
unfoldable pub link_bad : Superblock → ℕ → Sys → Run Bool
link_bad sb ip k = do k1 ← ilock sb ip k; put_end sb ip false (change sb nlink_down ip k1)

-- `sys_link` from `nameiparent` on.
unfoldable pub link_into : Superblock → (ip : ℕ) → (new : List ℕ) → (name : ℕ → ℕ) → Sys → Run Bool
link_into sb ip new name k = do
  ((found, last), k1) ← find_path sb true new name k
  elim found [
    | none ↦ link_bad sb ip k1
    | some dp ↦ do
      k2 ← ilock sb dp k1
      (ok, k3) ← elim ((inode k2 dp).dev == (inode k2 ip).dev) [
        | true ↦ link_entry sb dp last (inode k2 ip).inum k2
        | false ↦ some (false, k2)
      ]
      k4 ← iunlockput sb dp k3
      elim ok [ false ↦ link_bad sb ip k4 | true ↦ do k5 ← iput sb ip k4; some (true, end_op k5) ]
  ]

unfoldable pub sys_link_paths : Superblock → (old new : List ℕ) → (name : ℕ → ℕ) → Sys → Run Bool
sys_link_paths sb old new name k = do
  ((found, last), k1) ← find_path sb false old name (begin_op k)
  elim found [
    | none ↦ fail k1
    | some ip ↦ do
      k2 ← ilock sb ip k1
      elim ((inode k2 ip).type == t_dir) [
        | true ↦ put_end sb ip false k2
        | false ↦ link_into sb ip new name (iunlock ip (change sb nlink_up ip k2))
      ]
  ]

unfoldable pub sys_link : Superblock → (old new : Option (List ℕ)) → (name : ℕ → ℕ) → Sys → Run Bool
sys_link sb none new name k = some (false, k)
sys_link sb (some old) none name k = some (false, k)
sys_link sb (some old) (some new) name k = sys_link_paths sb old new name k
