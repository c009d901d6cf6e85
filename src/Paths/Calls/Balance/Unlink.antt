-- ===== src/Paths/Calls/Balance/Unlink.antt =====
-- The transactions and locks of `sys_unlink`.
use Prim.{tt}
use project_priv.Prelude.{
  ℕ, zero, suc, ◌+◌, ◌*◌, ◌/◌, ◌≡◌, ◌∙◌, List, Option, none, some, Bool, true, false, ◌==◌, ◌||◌,
  if◌then◌else◌, ltb, arith, update,
}
use project_priv.Fs.{Superblock}
use project_priv.Paths.Directory.{t_dir, dirent_size, entry_inum, read_entry, namecmp}
use project_priv.Paths.Calls.{
  Locks, lock, Sys, begin_op, inode, with_tables, dot_name, dotdot_name, nlink_down, no_links,
  change, ilock, iunlockput, find_path, lookup, fail,
}
use project_priv.Paths.Calls.Unlink.{
  empty_loop, isdirempty, unlink_bad, clear_entry, remove_entry, keeps_entries, unlink_in,
  unlink_path, sys_unlink,
}
use project_priv.Paths.Calls.Balance.{
  lock-lock, Leaves, Keeps, any-Leaves, any-Keeps, run-Leaves, sys-Leaves, split-Leaves,
  option-Leaves, ilock-Keeps, iunlockput-Keeps, find_path-Leaves, lookup-Leaves, fail-Leaves,
  put_end-Leaves, if-change,
}

module _ (sb : Superblock) (o : ℕ) (l : Locks) where
  empty_loop-Leaves :
      (n off dp : ℕ) (k : Sys)
      → k.ops ≡ o
      → k.locks ≡ l
      → Leaves o (λ b. l) (empty_loop sb n off dp k)
  unfolding empty_loop
  empty_loop-Leaves zero off dp k e h = (e, h)
  empty_loop-Leaves (suc n) off dp k e h =
      split-Leaves o (λ b. l) (ltb off (inode k dp).size) _ _
        (any-Leaves o (λ b. l) (read_entry sb off dp k.itable k.disk) _
          λ x.
            split-Leaves o (λ b. l) (entry_inum x.0 == 0) _ _
              (empty_loop-Leaves n (off + dirent_size) dp (with_tables k x.1 x.2) e h) (e, h))
        (e, h)

  keeps_entries-Leaves :
      (ip : ℕ) (k : Sys) → k.ops ≡ o → k.locks ≡ l → Leaves o (λ b. l) (keeps_entries sb ip k)
  unfolding keeps_entries isdirempty
  keeps_entries-Leaves ip k e h =
      split-Leaves o (λ b. l) ((inode k ip).type == t_dir) _ _
        (run-Leaves o (λ b. l) o (λ b. l) (isdirempty sb ip k) _
          (empty_loop-Leaves ((inode k ip).size / dirent_size + 1) (2 * dirent_size) ip k e h)
          λ empty k1 e1 h1. (e1, h1))
        (e, h)

  clear_entry-Keeps :
      (dp off : ℕ) (k : Sys) → k.ops ≡ o → k.locks ≡ l → Keeps o l (clear_entry sb dp off k)
  unfolding clear_entry
  clear_entry-Keeps dp off k e h = any-Keeps o l _ _ λ x.
      any-Keeps o l x.0 _
        λ n. decided (n == dirent_size) (with_tables k (update k.itable dp x.1) x.2) e h
    where
      decided :
          (b : Bool) (k1 : Sys)
          → k1.ops ≡ o
          → k1.locks ≡ l
          → Keeps o l (if b then some k1 else none)
      decided true k1 e h = (e, h)
      decided false k1 e h = tt

module _ (sb : Superblock) (o : ℕ) (l : Locks) where
  remove_entry-Leaves :
      (dp off ip : ℕ) (k : Sys)
      → k.ops ≡ o + 1
      → k.locks ≡ lock ip (lock dp l)
      → Leaves o (λ b. l) (remove_entry sb dp off ip k)
  unfolding remove_entry change
  remove_entry-Leaves dp off ip k e h =
      sys-Leaves (o + 1) (lock ip (lock dp l)) o (λ b. l) (clear_entry sb dp off k) _
        (clear_entry-Keeps sb (o + 1) (lock ip (lock dp l)) dp off k e h)
        λ k1 e1 h1.
          let same = if-change sb ((inode k1 ip).type == t_dir) nlink_down dp k1 in
          sys-Leaves (o + 1) (lock ip l) o (λ b. l) _ _
            (iunlockput-Keeps sb (o + 1) (lock ip l) dp _ (same.0 ∙ e1)
              (same.1 ∙ h1 ∙ lock-lock ip dp l))
            λ k2 e2 h2. put_end-Leaves sb o l ip true (change sb nlink_down ip k2) e2 h2

  unlink_in-Leaves :
      (dp : ℕ) (name : ℕ → ℕ) (k : Sys)
      → k.ops ≡ o + 1
      → k.locks ≡ lock dp l
      → Leaves o (λ b. l) (unlink_in sb dp name k)
  unfolding unlink_in unlink_bad
  unlink_in-Leaves dp name k e h =
      split-Leaves o (λ b. l) (namecmp name dot_name == 0 || namecmp name dotdot_name == 0) _ _
        (put_end-Leaves sb o l dp false k e h)
        (run-Leaves (o + 1) (λ r. lock dp l) o (λ b. l) (lookup sb dp name k) _
          (lookup-Leaves sb (o + 1) (lock dp l) dp name k e h)
          λ r k1 e1 h1.
            option-Leaves o (λ b. l) r _ _ (put_end-Leaves sb o l dp false k1 e1 h1)
              λ x.
                sys-Leaves (o + 1) (lock x.1 (lock dp l)) o (λ b. l) (ilock sb x.1 k1) _
                  (ilock-Keeps sb (o + 1) (lock dp l) x.1 k1 e1 h1)
                  λ k2 e2 h2.
                    split-Leaves o (λ b. l) (no_links (inode k2 x.1)) _ _ tt
                      (run-Leaves (o + 1) (λ b. lock x.1 (lock dp l)) o (λ b. l)
                        (keeps_entries sb x.1 k2) _
                        (keeps_entries-Leaves sb (o + 1) (lock x.1 (lock dp l)) x.1 k2 e2 h2)
                        λ full k3 e3 h3.
                          split-Leaves o (λ b. l) full _ _
                            (sys-Leaves (o + 1) (lock dp l) o (λ b. l) (iunlockput sb x.1 k3) _
                              (iunlockput-Keeps sb (o + 1) (lock dp l) x.1 k3 e3 h3)
                              λ k4 e4 h4. put_end-Leaves sb o l dp false k4 e4 h4)
                            (remove_entry-Leaves dp x.0 x.1 k3 e3 h3)))

  pub sys_unlink-Leaves :
      (path : Option (List ℕ)) (name : ℕ → ℕ) (k : Sys)
      → k.ops ≡ o
      → k.locks ≡ l
      → Leaves o (λ b. l) (sys_unlink sb path name k)
  unfolding sys_unlink unlink_path begin_op
  sys_unlink-Leaves none name k e h = (e, h)
  sys_unlink-Leaves (some path) name k e h =
      run-Leaves (o + 1) (λ r. l) o (λ b. l) (find_path sb true path name (begin_op k)) _
        (find_path-Leaves sb (o + 1) l true path name (begin_op k) (omega (arith, e)) h)
        λ r k1 e1 h1.
          option-Leaves o (λ b. l) r.0 (fail k1) _ (fail-Leaves sb o l k1 e1 h1)
            λ dp.
              sys-Leaves (o + 1) (lock dp l) o (λ b. l) (ilock sb dp k1) _
                (ilock-Keeps sb (o + 1) l dp k1 e1 h1) λ k2 e2 h2. unlink_in-Leaves dp r.1 k2 e2 h2
