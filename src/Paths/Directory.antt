-- ===== src/Paths/Directory.antt =====
-- kernel/fs.c: directories and the walk along a path.
-- A pointer to an inode is its place in the table, `none` outside is a panic, and the sleep locks of the
-- inodes are left out.
pub mod Rounds
use project_priv.Prelude.{
  ◌>>=◌, ℕ, zero, suc, ◌+◌, ◌-◌, ◌*◌, ◌/◌, ◌%◌, List, [], ◌∷◌, Option, none, some, Bool, true,
  false, not, ◌==◌, ◌&&◌, if◌then◌else◌, ltb, leb, get_or, length, update,
}
use project_priv.Strings.{strncmp, strncpy}
use project_priv.Fs.{Superblock, Disk, dirsiz}
use project_priv.Fs.Inode.{Inode, ilock}
use project_priv.Fs.Content.{readi, writei}
use project_priv.Fs.Table.{Itable, iget, idup, iput}
use project_priv.Paths.{slash, skipelem}

abbrev pub t_dir : ℕ
t_dir = 1

-- `sizeof(struct dirent)`
abbrev pub dirent_size : ℕ
dirent_size = 16

pub entry_inum : List ℕ → ℕ
entry_inum de = get_or de 0 0 + 256 * get_or de 1 0

entry_name : List ℕ → ℕ → ℕ
entry_name de i = get_or de (2 + i) 0

-- `strncmp` of the two arrays, laid one after the other in a memory.
pub namecmp : (name other : ℕ → ℕ) → ℕ
namecmp name other =
    strncmp (λ a. if ltb a dirsiz then name a else other (a - dirsiz)) 0 dirsiz dirsiz

-- `readi` of one entry to a variable of the kernel, and its check.
pub read_entry : Superblock → (off dp : ℕ) → Itable → Disk → Option (List ℕ × Itable × Disk)
read_entry sb off dp t s = do
  (r, ip, s1, de) ← readi sb (λ dst m. true) 0 off dirent_size (t dp) s
  n ← r
  if n == dirent_size then some (de, update t dp ip, s1) else none

-- The loop of `dirlookup`, with `k` rounds left: the entry's offset and the inode.
dirlookup_loop :
    Superblock
    → (k off dp : ℕ) → (name : ℕ → ℕ) → Itable
    → Disk
    → Option (Option (ℕ × ℕ) × Itable × Disk)
dirlookup_loop sb zero off dp name t s = some (none, t, s)
dirlookup_loop sb (suc k) off dp name t s = elim (ltb off (t dp).size) [
  | false ↦ some (none, t, s)
  | true ↦ do
    (de, t1, s1) ← read_entry sb off dp t s
    elim (entry_inum de == 0) [
      | true ↦ dirlookup_loop sb k (off + dirent_size) dp name t1 s1
      | false ↦ elim (namecmp name (entry_name de) == 0) [
        | true ↦ do (i, t2) ← iget (t1 dp).dev (entry_inum de) t1; some (some (off, i), t2, s1)
        | false ↦ dirlookup_loop sb k (off + dirent_size) dp name t1 s1
      ]
    ]
]

pub dirlookup :
    Superblock → (dp : ℕ) → (name : ℕ → ℕ) → Itable → Disk → Option (Option (ℕ × ℕ) × Itable × Disk)
dirlookup sb dp name t s = elim ((t dp).type == t_dir) [
  | false ↦ none
  | true ↦ dirlookup_loop sb ((t dp).size / dirent_size + 1) 0 dp name t s
]

-- The loop of `dirlink`: the offset of the first empty entry, or the end.
empty_entry : Superblock → (k off dp : ℕ) → Itable → Disk → Option (ℕ × Itable × Disk)
empty_entry sb zero off dp t s = some (off, t, s)
empty_entry sb (suc k) off dp t s = elim (ltb off (t dp).size) [
  | false ↦ some (off, t, s)
  | true ↦ do
    (de, t1, s1) ← read_entry sb off dp t s
    elim (entry_inum de == 0) [
      | true ↦ some (off, t1, s1)
      | false ↦ empty_entry sb k (off + dirent_size) dp t1 s1
    ]
]

-- The bytes of a new entry: `strncpy` from the name, and the inode's number.
new_entry : ℕ → (ℕ → ℕ) → ℕ → ℕ
new_entry inum name =
    let m =
      strncpy 2 dirent_size dirsiz (λ a. if ltb a dirent_size then 0 else name (a - dirent_size)) in
    update (update m 0 (inum % 256)) 1 (inum / 256 % 256)

-- True for 0, false for -1.
pub dirlink :
    Superblock
    → (dp : ℕ) → (name : ℕ → ℕ) → (inum : ℕ) → Itable
    → Disk
    → Option (Bool × Itable × Disk)
dirlink sb dp name inum t s = do
  (found, t1, s1) ← dirlookup sb dp name t s
  elim found [
    | some (off, i) ↦ do (t2, s2) ← iput sb i t1 s1; some (false, t2, s2)
    | none ↦ do
      (off, t2, s2) ← empty_entry sb ((t1 dp).size / dirent_size + 1) 0 dp t1 s1
      (r, ip, s3) ← writei sb (new_entry inum name) (λ src m. m) 0 off dirent_size (t2 dp) s2
      some (elim r [ none ↦ false | some n ↦ n == dirent_size ], update t2 dp ip, s3)
  ]

no_more : List ℕ → Bool
no_more [] = true
no_more (c ∷ path) = false

-- The inode, or `none` for 0; and the name that was reached.
abbrev pub Walk : Type 0
Walk = Option ℕ × (ℕ → ℕ) × Itable × Disk

-- `iunlockput(ip); return 0`
fail_walk : Superblock → (ip : ℕ) → (name : ℕ → ℕ) → Itable → Disk → Option Walk
fail_walk sb ip name t s = do (t1, s1) ← iput sb ip t s; some (none, name, t1, s1)

-- One round of the loop of `namex`, at an element `name` with `rest` after it; `next` goes on from there.
enter :
    Superblock
    → (parent : Bool) → (rest : List ℕ) → (next : ℕ → (ℕ → ℕ) → Itable → Disk → Option Walk)
    → (ip : ℕ) → (name : ℕ → ℕ) → Itable
    → Disk
    → Option Walk
enter sb parent rest next ip name t s = do
  loaded ← ilock sb (t ip) s
  let t1 = update t ip loaded
  elim (loaded.type == t_dir) [
    | false ↦ fail_walk sb ip name t1 s
    | true ↦ elim (parent && no_more rest) [
      | true ↦ some (some ip, name, t1, s)
      | false ↦ do
        (found, t2, s2) ← dirlookup sb ip name t1 s
        elim found [
          | none ↦ fail_walk sb ip name t2 s2
          | some (off, i) ↦ do (t3, s3) ← iput sb ip t2 s2; next i name t3 s3
        ]
    ]
  ]

-- The loop of `namex`, with `k` rounds left; each one makes the path shorter. `out` is the result when no
-- round is left.
pub walk :
    Superblock
    → (out : Option Walk) → (parent : Bool) → (k : ℕ) → List ℕ
    → (ip : ℕ) → (name : ℕ → ℕ) → Itable
    → Disk
    → Option Walk
walk sb out parent zero path ip name t s = out
walk sb out parent (suc k) path ip name t s = elim (skipelem path name) [
  | none ↦ elim parent [ true ↦ fail_walk sb ip name t s | false ↦ some (some ip, name, t, s) ]
  | some (rest, name1) ↦ enter sb parent rest (walk sb out parent k rest) ip name1 t s
]

-- The walk starts at the root, inode 1 of device 1, or at the process's directory.
first_inode : List ℕ → (cwd : ℕ) → Itable → Option (ℕ × Itable)
first_inode [] cwd t = some (cwd, idup cwd t)
first_inode (c ∷ path) cwd t = elim (c == slash) [
  | true ↦ iget 1 1 t
  | false ↦ some (cwd, idup cwd t)
]

pub namex :
    Superblock → (cwd : ℕ) → List ℕ → (parent : Bool) → (name : ℕ → ℕ) → Itable → Disk → Option Walk
namex sb cwd path parent name t s = do
  (ip, t1) ← first_inode path cwd t
  walk sb none parent (length path + 1) path ip name t1 s

pub namei : Superblock → (cwd : ℕ) → List ℕ → (name : ℕ → ℕ) → Itable → Disk → Option Walk
namei sb cwd path name t s = namex sb cwd path false name t s

pub nameiparent : Superblock → (cwd : ℕ) → List ℕ → (name : ℕ → ℕ) → Itable → Disk → Option Walk
nameiparent sb cwd path name t s = namex sb cwd path true name t s
