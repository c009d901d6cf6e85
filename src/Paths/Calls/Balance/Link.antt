-- ===== src/Paths/Calls/Balance/Link.antt =====
-- The transactions and locks of `sys_link`.
use project_priv.Prelude.{ℕ, ◌+◌, ◌≡◌, ap, ◌∙◌, List, Option, none, some, true, false, ◌==◌, arith}
use project_priv.Fs.{Superblock}
use project_priv.Paths.Directory.{t_dir}
use project_priv.Paths.Calls.{
  Locks, lock, unlock, Sys, begin_op, end_op, inode, iunlock, nlink_up, nlink_down, change, ilock,
  iput, iunlockput, find_path, fail,
}
use project_priv.Paths.Calls.Link.{link_bad, link_into, sys_link_paths, sys_link}
use project_priv.Paths.Calls.Balance.{
  unlock-lock, Leaves, run-Leaves, sys-Leaves, split-Leaves, option-Leaves, ilock-Keeps, iput-Keeps,
  iunlockput-Keeps, find_path-Leaves, link_entry-Leaves, fail-Leaves, put_end-Leaves,
}

module _ (sb : Superblock) (o : ℕ) (l : Locks) where
  link_bad-Leaves :
      (ip : ℕ) (k : Sys) → k.ops ≡ o + 1 → k.locks ≡ l → Leaves o (λ b. l) (link_bad sb ip k)
  unfolding link_bad change
  link_bad-Leaves ip k e h =
      sys-Leaves (o + 1) (lock ip l) o (λ b. l) (ilock sb ip k) _
        (ilock-Keeps sb (o + 1) l ip k e h)
        λ k1 e1 h1. put_end-Leaves sb o l ip false (change sb nlink_down ip k1) e1 h1

  link_into-Leaves :
      (ip : ℕ) (new : List ℕ) (name : ℕ → ℕ) (k : Sys)
      → k.ops ≡ o + 1
      → k.locks ≡ l
      → Leaves o (λ b. l) (link_into sb ip new name k)
  unfolding link_into end_op
  link_into-Leaves ip new name k e h =
      run-Leaves (o + 1) (λ r. l) o (λ b. l) (find_path sb true new name k) _
        (find_path-Leaves sb (o + 1) l true new name k e h)
        λ r k1 e1 h1.
          option-Leaves o (λ b. l) r.0 (link_bad sb ip k1) _ (link_bad-Leaves ip k1 e1 h1)
            λ dp.
              sys-Leaves (o + 1) (lock dp l) o (λ b. l) (ilock sb dp k1) _
                (ilock-Keeps sb (o + 1) l dp k1 e1 h1)
                λ k2 e2 h2.
                  run-Leaves (o + 1) (λ b. lock dp l) o (λ b. l) _ _
                    (split-Leaves (o + 1) (λ b. lock dp l) ((inode k2 dp).dev == (inode k2 ip).dev)
                      _ _
                      (link_entry-Leaves sb (o + 1) (lock dp l) dp r.1 (inode k2 ip).inum k2 e2 h2)
                      (e2, h2))
                    λ ok k3 e3 h3.
                      sys-Leaves (o + 1) l o (λ b. l) (iunlockput sb dp k3) _
                        (iunlockput-Keeps sb (o + 1) l dp k3 e3 h3)
                        λ k4 e4 h4.
                          split-Leaves o (λ b. l) ok _ _
                            (sys-Leaves (o + 1) l o (λ b. l) (iput sb ip k4) _
                              (iput-Keeps sb (o + 1) l ip k4 e4 h4)
                              λ k5 e5 h5. (omega (arith, e5), h5))
                            (link_bad-Leaves ip k4 e4 h4)

  sys_link_paths-Leaves :
      (old new : List ℕ) (name : ℕ → ℕ) (k : Sys)
      → k.ops ≡ o
      → k.locks ≡ l
      → Leaves o (λ b. l) (sys_link_paths sb old new name k)
  unfolding sys_link_paths begin_op change iunlock
  sys_link_paths-Leaves old new name k e h =
      run-Leaves (o + 1) (λ r. l) o (λ b. l) (find_path sb false old name (begin_op k)) _
        (find_path-Leaves sb (o + 1) l false old name (begin_op k) (omega (arith, e)) h)
        λ r k1 e1 h1.
          option-Leaves o (λ b. l) r.0 (fail k1) _ (fail-Leaves sb o l k1 e1 h1)
            λ ip.
              sys-Leaves (o + 1) (lock ip l) o (λ b. l) (ilock sb ip k1) _
                (ilock-Keeps sb (o + 1) l ip k1 e1 h1)
                λ k2 e2 h2.
                  split-Leaves o (λ b. l) ((inode k2 ip).type == t_dir) _ _
                    (put_end-Leaves sb o l ip false k2 e2 h2)
                    (link_into-Leaves ip new name (iunlock ip (change sb nlink_up ip k2)) e2
                      (ap (unlock ip) h2 ∙ unlock-lock ip l))

  pub sys_link-Leaves :
      (old new : Option (List ℕ)) (name : ℕ → ℕ) (k : Sys)
      → k.ops ≡ o
      → k.locks ≡ l
      → Leaves o (λ b. l) (sys_link sb old new name k)
  unfolding sys_link
  sys_link-Leaves none new name k e h = (e, h)
  sys_link-Leaves (some old) none name k e h = (e, h)
  sys_link-Leaves (some old) (some new) name k e h = sys_link_paths-Leaves old new name k e h
