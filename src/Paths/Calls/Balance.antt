-- ===== src/Paths/Calls/Balance.antt =====
-- The transactions and locks of the calls on paths.
mod Link
mod Unlink
mod Create
mod All
mod Tests
use Prim.{tt}
use project_priv.Prelude.{
  ℕ, zero, suc, ◌+◌, ◌-◌, ◌*◌, ◌/◌, ◌%◌, ◌≡◌, refl, sym, ap, ap₂, fun_ext, ◌∙◌, List, [], ◌∷◌,
  Option, none, some, Bool, true, false, not, ◌==◌, ◌&&◌, ◌||◌, if◌then◌else◌, ltb, arith,
  Bool-cases, inl, inr, update,
}
use project_priv.Fs.{Superblock, Disk}
use project_priv.Fs.Inode.{Inode}
use project_priv.Paths.Directory.{t_dir, dirent_size, entry_inum, read_entry, namecmp}
use project_priv.Paths.Calls.{
  ◌>>=◌, Locks, lock, unlock, t_file, t_device, Sys, Run, begin_op, end_op, inode, with_tables,
  iunlock, dot_name, dotdot_name, nlink_up, nlink_down, no_links, change, ilock, iput, iunlockput,
  find_path, lookup, link_entry, fail, put_end,
}
use project_priv.Paths.Calls.Link.{link_bad, link_into, sys_link_paths, sys_link}
use project_priv.Paths.Calls.Unlink.{
  empty_loop, isdirempty, unlink_bad, clear_entry, remove_entry, keeps_entries, unlink_in,
  unlink_path, sys_unlink,
}
use project_priv.Paths.Calls.Create.{
  give_up, create_found, create_fail, link_dots, create_linked, create_new, create, make, sys_mkdir,
  sys_mknod, chdir_to, sys_chdir,
}

-- Giving back a lock that was taken undoes it.
pub unlock-lock : (i : ℕ) (l : Locks) → unlock i (lock i l) ≡ l
unfolding lock unlock
unlock-lock i l =
    ap₂ (λ (c : ℕ → ℕ) (u : Bool). record l { count = c; unheld = u }) (fun_ext (λ j. ground arith))
      (ground arith)

-- Two locks may be taken in any order.
pub lock-lock : (i j : ℕ) (l : Locks) → lock i (lock j l) ≡ lock j (lock i l)
unfolding lock
lock-lock i j l = ap (λ (c : ℕ → ℕ). record l { count = c }) (fun_ext (λ m. ground arith))

-- A run that ends with `o` transactions and `l` locks, if it does not panic.
abbrev pub Leaves : {A : Type 0} → (o : ℕ) → (l : A → Locks) → Run A → Type 0
Leaves o l none = Unit {0}
Leaves o l (some (a, k)) = (k.ops ≡ o) × (k.locks ≡ l a)

abbrev pub Keeps : (o : ℕ) (l : Locks) → Option Sys → Type 0
Keeps o l none = Unit {0}
Keeps o l (some k) = (k.ops ≡ o) × (k.locks ≡ l)

pub any-Leaves :
    {X B : Type 0} (o : ℕ) (l : B → Locks) (r : Option X) (f : X → Run B)
    → ((x : X) → Leaves o l (f x))
    → Leaves o l (r >>= f)
unfolding ◌>>=◌
any-Leaves o l none f h = tt
any-Leaves o l (some x) f h = h x

pub any-Keeps :
    {X : Type 0} (o : ℕ) (l : Locks) (r : Option X) (f : X → Option Sys)
    → ((x : X) → Keeps o l (f x))
    → Keeps o l (r >>= f)
unfolding ◌>>=◌
any-Keeps o l none f h = tt
any-Keeps o l (some x) f h = h x

pub run-Leaves :
    {A B : Type 0} (o : ℕ) (l : A → Locks) (o2 : ℕ) (l2 : B → Locks) (r : Run A)
    (f : A × Sys → Run B)
    → Leaves o l r
    → ((a : A) (k : Sys) → k.ops ≡ o → k.locks ≡ l a → Leaves o2 l2 (f (a, k)))
    → Leaves o2 l2 (r >>= f)
unfolding ◌>>=◌
run-Leaves o l o2 l2 none f h g = tt
run-Leaves o l o2 l2 (some (a, k)) f h g = g a k h.0 h.1

pub sys-Leaves :
    {B : Type 0} (o : ℕ) (l : Locks) (o2 : ℕ) (l2 : B → Locks) (r : Option Sys) (f : Sys → Run B)
    → Keeps o l r
    → ((k : Sys) → k.ops ≡ o → k.locks ≡ l → Leaves o2 l2 (f k))
    → Leaves o2 l2 (r >>= f)
unfolding ◌>>=◌
sys-Leaves o l o2 l2 none f h g = tt
sys-Leaves o l o2 l2 (some k) f h g = g k h.0 h.1

-- A Boolean decides.
pub split-Leaves :
    {B : Type 0} (o : ℕ) (l : B → Locks) (b : Bool) (x y : Run B)
    → Leaves o l x
    → Leaves o l y
    → Leaves o l (elim b [ true ↦ x | false ↦ y ])
split-Leaves o l true x y h g = h
split-Leaves o l false x y h g = g

pub option-Leaves :
    {X B : Type 0} (o : ℕ) (l : B → Locks) (r : Option X) (n : Run B) (g : X → Run B)
    → Leaves o l n
    → ((x : X) → Leaves o l (g x))
    → Leaves o l (elim r [ none ↦ n | some x ↦ g x ])
option-Leaves o l none n g h f = h
option-Leaves o l (some x) n g h f = f x

module _ (sb : Superblock) (o : ℕ) (l : Locks) where
  pub ilock-Keeps : (i : ℕ) (k : Sys) → k.ops ≡ o → k.locks ≡ l → Keeps o (lock i l) (ilock sb i k)
  unfolding ilock
  ilock-Keeps i k e h = any-Keeps o (lock i l) _ _ λ x. (e, ap (lock i) h)

  pub iput-Keeps : (i : ℕ) (k : Sys) → k.ops ≡ o → k.locks ≡ l → Keeps o l (iput sb i k)
  unfolding iput
  iput-Keeps i k e h = any-Keeps o l _ _ λ x. (e, h)

  pub iunlockput-Keeps :
      (i : ℕ) (k : Sys) → k.ops ≡ o → k.locks ≡ lock i l → Keeps o l (iunlockput sb i k)
  unfolding iunlockput iunlock
  iunlockput-Keeps i k e h = iput-Keeps i (iunlock i k) e (ap (unlock i) h ∙ unlock-lock i l)

  pub find_path-Leaves :
      (parent : Bool) (path : List ℕ) (name : ℕ → ℕ) (k : Sys)
      → k.ops ≡ o
      → k.locks ≡ l
      → Leaves o (λ r. l) (find_path sb parent path name k)
  unfolding find_path
  find_path-Leaves parent path name k e h = any-Leaves o (λ r. l) _ _ λ x. (e, h)

  pub lookup-Leaves :
      (dp : ℕ) (name : ℕ → ℕ) (k : Sys)
      → k.ops ≡ o
      → k.locks ≡ l
      → Leaves o (λ r. l) (lookup sb dp name k)
  unfolding lookup
  lookup-Leaves dp name k e h = any-Leaves o (λ r. l) _ _ λ x. (e, h)

  pub link_entry-Leaves :
      (dp : ℕ) (name : ℕ → ℕ) (inum : ℕ) (k : Sys)
      → k.ops ≡ o
      → k.locks ≡ l
      → Leaves o (λ r. l) (link_entry sb dp name inum k)
  unfolding link_entry
  link_entry-Leaves dp name inum k e h = any-Leaves o (λ r. l) _ _ λ x. (e, h)

  pub fail-Leaves : (k : Sys) → k.ops ≡ o + 1 → k.locks ≡ l → Leaves o (λ r. l) (fail k)
  unfolding end_op
  fail-Leaves k e h = (omega (arith, e), h)

  change-Same :
      (f : Inode → Inode) (i : ℕ) (k : Sys)
      → ((change sb f i k).ops ≡ k.ops) × ((change sb f i k).locks ≡ k.locks)
  unfolding change
  change-Same f i k = (refl, refl)

pub put_end-Leaves :
    (sb : Superblock) (o : ℕ) (l : Locks) (i : ℕ) (r : Bool) (k : Sys)
    → k.ops ≡ o + 1
    → k.locks ≡ lock i l
    → Leaves o (λ b. l) (put_end sb i r k)
unfolding put_end end_op
put_end-Leaves sb o l i r k e h =
    sys-Leaves (o + 1) l o (λ b. l) (iunlockput sb i k) _ (iunlockput-Keeps sb (o + 1) l i k e h)
      λ k1 e1 h1. (omega (arith, e1), h1)

-- An inode that may be changed.
pub if-change :
    (sb : Superblock) (b : Bool) (f : Inode → Inode) (i : ℕ) (k : Sys)
    → ((if b then change sb f i k else k).ops ≡ k.ops)
      × ((if b then change sb f i k else k).locks ≡ k.locks)
unfolding change
if-change sb true f i k = (refl, refl)
if-change sb false f i k = (refl, refl)
