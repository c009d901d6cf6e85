-- ===== src/Files.antt =====
-- kernel/file.c and the descriptors of kernel/sysfile.c: open files and who refers to them.
-- A `struct file *` is its index in `ftable.file[]`, and `none` the null pointer; `ofile` is by process
-- and descriptor. Where a function can panic, that is `none` and else it gives the state; a system call
-- also gives its result, with `none` for -1.
pub mod Refs
pub mod Held
pub mod Loops
pub mod Calls
mod Tests
use mathlib.Core.Option
use project_priv.Prelude.{
  ◌>>=◌, ℕ, zero, suc, ◌+◌, ◌-◌, List, [], ◌∷◌, ◌++◌, Option, none, some, Bool, true, false, ltb,
  ◌==◌, if◌then◌else◌, update,
}

-- param.h: NPROC, NOFILE, NFILE
abbrev pub nproc : ℕ
nproc = 64

abbrev pub nofile : ℕ
nofile = 16

abbrev pub nfile : ℕ
nfile = 100

pub data Kind : Type 0 where
  fd_none fd_pipe fd_inode fd_device : Kind

-- `off` and `major` are for `fileread` and `filewrite` alone.
pub record File : Type 0 where
  pub kind : Kind
  pub ref : ℕ
  pub readable : Bool
  pub writable : Bool
  pub pipe : ℕ
  pub ip : ℕ

-- What `fileclose` calls when the last reference goes.
pub data Ended : Type 0 where
  pipe_closed : (pipe : ℕ) (writable : Bool) → Ended
  inode_put : (ip : ℕ) → Ended

-- `ended` has the calls so far, latest last.
pub record Files : Type 0 where
  pub ftable : ℕ → File
  pub ofile : ℕ → ℕ → Option ℕ
  pub ended : List Ended

abbrev pub ending : File → List Ended
ending f = elim f.kind [
  | fd_none ↦ []
  | fd_pipe ↦ pipe_closed f.pipe f.writable ∷ []
  | fd_inode ↦ inode_put f.ip ∷ []
  | fd_device ↦ inode_put f.ip ∷ []
]

-- The loop of `filealloc` with `k` rounds left.
pub free_file : (k i : ℕ) → (ℕ → File) → Option ℕ
free_file zero i t = none
free_file (suc k) i t = let rest = free_file k (i + 1) t in if (t i).ref == 0 then some i else rest

abbrev set_ref : ℕ → ℕ → Files → Files
set_ref f n s = record s { ftable = update s.ftable f (record (s.ftable f) { ref = n }) }

pub filealloc : Files → Option (ℕ × Files)
filealloc s = Option.map (λ f. (f, set_ref f 1 s)) (free_file nfile 0 s.ftable)

pub filedup : ℕ → Files → Option Files
filedup f s = if ltb (s.ftable f).ref 1 then none else some (set_ref f ((s.ftable f).ref + 1) s)

pub fileclose : ℕ → Files → Option Files
fileclose f s =
    let n = (s.ftable f).ref - 1 in
    if ltb (s.ftable f).ref 1
    then none
    else if ltb 0 n
    then some (set_ref f n s)
    else some (record s {
      ftable = update s.ftable f (record (s.ftable f) { ref = 0; kind = fd_none });
      ended = s.ended ++ ending (s.ftable f);
    })

-- `argfd` on a descriptor that is not negative.
pub argfd : (me fd : ℕ) → Files → Option ℕ
argfd me fd s = if ltb fd nofile then s.ofile me fd else none

abbrev pub set_fd : (me fd : ℕ) → Option ℕ → Files → Files
set_fd me fd v s = record s { ofile = update s.ofile me (update (s.ofile me) fd v) }

-- The loop of `fdalloc` with `k` rounds left.
pub free_fd : (k fd : ℕ) → (ℕ → Option ℕ) → Option ℕ
free_fd zero fd t = none
free_fd (suc k) fd t =
    let rest = free_fd k (fd + 1) t in elim (t fd) [ none ↦ some fd | some f ↦ rest ]

pub fdalloc : (me f : ℕ) → Files → Option (ℕ × Files)
fdalloc me f s = Option.map (λ fd. (fd, set_fd me fd (some f) s)) (free_fd nofile 0 (s.ofile me))

pub sys_dup : (me fd : ℕ) → Files → Option (Option ℕ × Files)
sys_dup me fd s = elim (argfd me fd s) [
  | none ↦ some (none, s)
  | some f ↦ elim (fdalloc me f s) [
    | none ↦ some (none, s)
    | some (new, s1) ↦ Option.map (λ (s2 : Files). (some new, s2)) (filedup f s1)
  ]
]

pub sys_close : (me fd : ℕ) → Files → Option (Option ℕ × Files)
sys_close me fd s = elim (argfd me fd s) [
  | none ↦ some (none, s)
  | some f ↦ Option.map (λ (s1 : Files). (some 0, s1)) (fileclose f (set_fd me fd none s))
]

-- The copy of the descriptors in `fork` of kernel/proc.c, with `k` rounds left.
pub fork_files : (k fd me child : ℕ) → Files → Option Files
fork_files zero fd me child s = some s
fork_files (suc k) fd me child s = elim (s.ofile me fd) [
  | none ↦ fork_files k (fd + 1) me child s
  | some f ↦ do s1 ← filedup f s; fork_files k (fd + 1) me child (set_fd child fd (some f) s1)
]

-- The loop of `exit` of kernel/proc.c, with `k` rounds left.
pub exit_files : (k fd me : ℕ) → Files → Option Files
exit_files zero fd me s = some s
exit_files (suc k) fd me s = elim (s.ofile me fd) [
  | none ↦ exit_files k (fd + 1) me s
  | some f ↦ do s1 ← fileclose f s; exit_files k (fd + 1) me (set_fd me fd none s1)
]
