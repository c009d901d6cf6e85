-- ===== src/Paths/Calls/Balance/Create.antt =====
-- The transactions and locks of `create`, `sys_mkdir`, `sys_mknod` and `sys_chdir`.
use project_priv.Prelude.{
  ℕ, ◌+◌, ◌≡◌, ap, ◌∙◌, List, Option, none, some, true, false, ◌==◌, ◌&&◌, ◌||◌, if◌then◌else◌,
  arith,
}
use project_priv.Fs.{Superblock}
use project_priv.Fs.Inode.{Inode}
use project_priv.Paths.Directory.{t_dir}
use project_priv.Paths.Calls.{
  Locks, lock, unlock, t_file, t_device, Sys, begin_op, end_op, inode, with_tables, iunlock,
  dot_name, dotdot_name, nlink_up, change, ilock, iput, iunlockput, find_path, lookup, link_entry,
  fail, put_end,
}
use project_priv.Paths.Calls.Create.{
  give_up, create_found, create_fail, link_dots, create_linked, create_new, create, make, chdir_to,
  sys_chdir,
}
use project_priv.Paths.Calls.Balance.{
  unlock-lock, lock-lock, Leaves, any-Leaves, run-Leaves, sys-Leaves, split-Leaves, option-Leaves,
  ilock-Keeps, iput-Keeps, iunlockput-Keeps, find_path-Leaves, lookup-Leaves, link_entry-Leaves,
  fail-Leaves, put_end-Leaves, if-change,
}

-- `create` returns with its inode locked, or with nothing locked.
abbrev made_locks : Locks → Option ℕ → Locks
made_locks l none = l
made_locks l (some ip) = lock ip l

module _ (sb : Superblock) (o : ℕ) (l : Locks) where
  give_up-Leaves :
      (i : ℕ) (k : Sys) → k.ops ≡ o → k.locks ≡ lock i l → Leaves o (made_locks l) (give_up sb i k)
  unfolding give_up
  give_up-Leaves i k e h =
      sys-Leaves o l o (made_locks l) (iunlockput sb i k) _ (iunlockput-Keeps sb o l i k e h)
        λ k1 e1 h1. (e1, h1)

  create_found-Leaves :
      (dp ip type : ℕ) (k : Sys)
      → k.ops ≡ o
      → k.locks ≡ lock dp l
      → Leaves o (made_locks l) (create_found sb dp ip type k)
  unfolding create_found
  create_found-Leaves dp ip type k e h =
      sys-Leaves o l o (made_locks l) (iunlockput sb dp k) _ (iunlockput-Keeps sb o l dp k e h)
        λ k1 e1 h1.
          sys-Leaves o (lock ip l) o (made_locks l) (ilock sb ip k1) _
            (ilock-Keeps sb o l ip k1 e1 h1)
            λ k2 e2 h2.
              split-Leaves o (made_locks l)
                (type == t_file && ((inode k2 ip).type == t_file || (inode k2 ip).type == t_device))
                _ _ (e2, h2) (give_up-Leaves ip k2 e2 h2)

  create_fail-Leaves :
      (dp ip : ℕ) (k : Sys)
      → k.ops ≡ o
      → k.locks ≡ lock ip (lock dp l)
      → Leaves o (made_locks l) (create_fail sb dp ip k)
  unfolding create_fail change
  create_fail-Leaves dp ip k e h =
      let k0 = change sb (λ (i : Inode). record i { nlink = 0 }) ip k in
      sys-Leaves o (lock dp l) o (made_locks l) (iunlockput sb ip k0) _
        (iunlockput-Keeps sb o (lock dp l) ip k0 e h) λ k1 e1 h1. give_up-Leaves dp k1 e1 h1

  link_dots-Leaves :
      (dp ip type : ℕ) (k : Sys)
      → k.ops ≡ o
      → k.locks ≡ l
      → Leaves o (λ b. l) (link_dots sb dp ip type k)
  unfolding link_dots
  link_dots-Leaves dp ip type k e h =
      split-Leaves o (λ b. l) (type == t_dir) _ _
        (run-Leaves o (λ b. l) o (λ b. l) (link_entry sb ip dot_name (inode k ip).inum k) _
          (link_entry-Leaves sb o l ip dot_name (inode k ip).inum k e h)
          λ ok k1 e1 h1.
            split-Leaves o (λ b. l) ok _ _
              (link_entry-Leaves sb o l ip dotdot_name (inode k1 dp).inum k1 e1 h1) (e1, h1))
        (e, h)

module _ (sb : Superblock) (o : ℕ) (l : Locks) where
  create_linked-Leaves :
      (dp ip type : ℕ) (name : ℕ → ℕ) (k : Sys)
      → k.ops ≡ o
      → k.locks ≡ lock ip (lock dp l)
      → Leaves o (made_locks l) (create_linked sb dp ip type name k)
  unfolding create_linked
  create_linked-Leaves dp ip type name k e h =
      run-Leaves o (λ b. lock ip (lock dp l)) o (made_locks l) (link_dots sb dp ip type k) _
        (link_dots-Leaves sb o (lock ip (lock dp l)) dp ip type k e h)
        λ dots k1 e1 h1.
          split-Leaves o (made_locks l) dots _ _
            (run-Leaves o (λ b. lock ip (lock dp l)) o (made_locks l)
              (link_entry sb dp name (inode k1 ip).inum k1) _
              (link_entry-Leaves sb o (lock ip (lock dp l)) dp name (inode k1 ip).inum k1 e1 h1)
              λ ok k2 e2 h2.
                let same = if-change sb (type == t_dir) nlink_up dp k2 in
                split-Leaves o (made_locks l) ok _ _
                  (sys-Leaves o (lock ip l) o (made_locks l) _ _
                    (iunlockput-Keeps sb o (lock ip l) dp
                      (if type == t_dir then change sb nlink_up dp k2 else k2) (same.0 ∙ e2)
                      (same.1 ∙ h2 ∙ lock-lock ip dp l))
                    λ k3 e3 h3. (e3, h3))
                  (create_fail-Leaves sb o l dp ip k2 e2 h2))
            (create_fail-Leaves sb o l dp ip k1 e1 h1)

  create_new-Leaves :
      (dp type major minor : ℕ) (name : ℕ → ℕ) (k : Sys)
      → k.ops ≡ o
      → k.locks ≡ lock dp l
      → Leaves o (made_locks l) (create_new sb dp type major minor name k)
  unfolding create_new change
  create_new-Leaves dp type major minor name k e h = any-Leaves o (made_locks l) _ _ λ x.
      option-Leaves o (made_locks l) x.0 _ _ (give_up-Leaves sb o l dp (with_tables k x.1 x.2) e h)
        λ ip.
          sys-Leaves o (lock ip (lock dp l)) o (made_locks l) (ilock sb ip (with_tables k x.1 x.2))
            _ (ilock-Keeps sb o (lock dp l) ip (with_tables k x.1 x.2) e h)
            λ k1 e1 h1.
              create_linked-Leaves dp ip type name
                (change sb (λ (i : Inode). record i { major = major; minor = minor; nlink = 1 }) ip
                  k1)
                e1 h1

  create-Leaves :
      (path : List ℕ) (type major minor : ℕ) (name : ℕ → ℕ) (k : Sys)
      → k.ops ≡ o
      → k.locks ≡ l
      → Leaves o (made_locks l) (create sb path type major minor name k)
  unfolding create
  create-Leaves path type major minor name k e h =
      run-Leaves o (λ r. l) o (made_locks l) (find_path sb true path name k) _
        (find_path-Leaves sb o l true path name k e h)
        λ r k1 e1 h1.
          option-Leaves o (made_locks l) r.0 _ _ (e1, h1)
            λ dp.
              sys-Leaves o (lock dp l) o (made_locks l) (ilock sb dp k1) _
                (ilock-Keeps sb o l dp k1 e1 h1)
                λ k2 e2 h2.
                  run-Leaves o (λ r. lock dp l) o (made_locks l) (lookup sb dp r.1 k2) _
                    (lookup-Leaves sb o (lock dp l) dp r.1 k2 e2 h2)
                    λ there k3 e3 h3.
                      option-Leaves o (made_locks l) there _ _
                        (create_new-Leaves dp type major minor r.1 k3 e3 h3)
                        λ x. create_found-Leaves sb o l dp x.1 type k3 e3 h3

module _ (sb : Superblock) (o : ℕ) (l : Locks) where
  pub make-Leaves :
      (path : Option (List ℕ)) (type major minor : ℕ) (name : ℕ → ℕ) (k : Sys)
      → k.ops ≡ o + 1
      → k.locks ≡ l
      → Leaves o (λ b. l) (make sb path type major minor name k)
  unfolding make
  make-Leaves none type major minor name k e h = fail-Leaves sb o l k e h
  make-Leaves (some path) type major minor name k e h =
      run-Leaves (o + 1) (made_locks l) o (λ b. l) (create sb path type major minor name k) _
        (create-Leaves sb (o + 1) l path type major minor name k e h) made
    where
      made :
          (r : Option ℕ) (k1 : Sys)
          → k1.ops ≡ o + 1
          → k1.locks ≡ made_locks l r
          → Leaves o (λ b. l) (elim r [ none ↦ fail k1 | some ip ↦ put_end sb ip true k1 ])
      made none k1 e1 h1 = fail-Leaves sb o l k1 e1 h1
      made (some ip) k1 e1 h1 = put_end-Leaves sb o l ip true k1 e1 h1

  pub sys_chdir-Leaves :
      (path : Option (List ℕ)) (name : ℕ → ℕ) (k : Sys)
      → k.ops ≡ o
      → k.locks ≡ l
      → Leaves o (λ b. l) (sys_chdir sb path name k)
  unfolding sys_chdir begin_op chdir_to iunlock end_op
  sys_chdir-Leaves none name k e h = fail-Leaves sb o l (begin_op k) (omega (arith, e)) h
  sys_chdir-Leaves (some path) name k e h =
      run-Leaves (o + 1) (λ r. l) o (λ b. l) (find_path sb false path name (begin_op k)) _
        (find_path-Leaves sb (o + 1) l false path name (begin_op k) (omega (arith, e)) h)
        λ r k1 e1 h1.
          option-Leaves o (λ b. l) r.0 (fail k1) _ (fail-Leaves sb o l k1 e1 h1)
            λ ip.
              sys-Leaves (o + 1) (lock ip l) o (λ b. l) (ilock sb ip k1) _
                (ilock-Keeps sb (o + 1) l ip k1 e1 h1)
                λ k2 e2 h2.
                  split-Leaves o (λ b. l) ((inode k2 ip).type == t_dir) _ _
                    (sys-Leaves (o + 1) l o (λ b. l) (iput sb k2.cwd (iunlock ip k2)) _
                      (iput-Keeps sb (o + 1) l k2.cwd (iunlock ip k2) e2
                        (ap (unlock ip) h2 ∙ unlock-lock ip l))
                      λ k3 e3 h3. (omega (arith, e3), h3))
                    (put_end-Leaves sb o l ip false k2 e2 h2)
