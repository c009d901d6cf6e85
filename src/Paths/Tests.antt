-- ===== src/Paths/Tests.antt =====
-- The theorems about paths at concrete inputs.
use project_priv.Prelude.{none, some, true, ℕ, ◌<◌, ◌≢◌, [], ◌∷◌, ◌≡◌, arith}
use project_priv.Fs.{Superblock, Disk}
use project_priv.Fs.Inode.{Inode}
use project_priv.Paths.Directory.{Walk, walk}
use project_priv.Paths.Directory.Rounds.{walk_lem}
use project_priv.Paths.Elements.{names, names_lem, split, prepend, non_empty, NoZero}

nz : (c : ℕ) → 0 < c → c ≢ 0
nz c h e = omega (arith, h, e)

-- `//ab/c/`
names_lem_example :
    names 8 (47 ∷ 47 ∷ 97 ∷ 98 ∷ 47 ∷ 99 ∷ 47 ∷ []) (λ i. 1) ≡ (97 ∷ 98 ∷ []) ∷ (99 ∷ []) ∷ []
unfolding split prepend non_empty NoZero
names_lem_example =
    names_lem 8 (47 ∷ 47 ∷ 97 ∷ 98 ∷ 47 ∷ 99 ∷ 47 ∷ []) (λ i. 1) (omega arith)
      (
        nz 47 (omega arith),
        (
          nz 47 (omega arith),
          (
            nz 97 (omega arith),
            (
              nz 98 (omega arith),
              (nz 47 (omega arith), (nz 99 (omega arith), (nz 47 (omega arith), tt))),
            ),
          ),
        ),
      )

abbrev small_sb : Superblock
small_sb = record { size = 100; ninodes = 208; inodestart = 32; bmapstart = 45 }

abbrev no_blocks : Disk
no_blocks = record { block = λ b i. 0; logged = [] }

abbrev empty_dir : Inode
empty_dir = record {
  dev = 0;
  inum = 0;
  ref = 2;
  valid = true;
  type = 1;
  major = 0;
  minor = 0;
  nlink = 1;
  size = 0;
  addrs = λ i. 0;
}

abbrev no_walk : Walk
no_walk = (none, (λ i. 0), (λ i. empty_dir), no_blocks)

-- `a/b` from an empty directory, whose parent is asked for: the lookup of `a` fails.
walk_lem_example :
    walk small_sb none true 4 (97 ∷ 47 ∷ 98 ∷ []) 3 (λ i. 0) (λ i. empty_dir) no_blocks
    ≡ walk small_sb (some no_walk) true 9 (97 ∷ 47 ∷ 98 ∷ []) 3 (λ i. 0) (λ i. empty_dir) no_blocks
walk_lem_example =
    walk_lem small_sb none (some no_walk) true 4 9 (97 ∷ 47 ∷ 98 ∷ []) 3 (λ i. 0) (λ i. empty_dir)
      no_blocks (omega arith) (omega arith)
