-- ===== src/Fs/Blocks/Cases.antt =====
-- What a step of `bmap` can do: find an entry, find the disk full, or add an entry.
use project_priv.Prelude.{
  ℕ, ◌*◌, ◌<◌, ◌≡◌, ◌≢◌, inl, inr, refl, sym, ◌∙◌, true, false, ℕ_discrete, eq→==, ne→==,
}
use project_priv.Fs.{ndirect, maxfile, Superblock, Disk, log_write}
use project_priv.Fs.Bytes.{get32, put32}
use project_priv.Fs.Bitmap.Search.{in_use, IsDisk}
use project_priv.Fs.Bitmap.Balloc.{Allocated, balloc_lem}
use project_priv.Fs.Inode.{Inode}
use project_priv.Fs.Blocks.{set_addr, direct, indirect}
use project_priv.Fs.Blocks.Mapping.{lookup, Owned, IsFile}

-- Every block of the disk is in use.
abbrev pub IsExhausted : Superblock → Disk → Type 0
IsExhausted sb s = (c : ℕ) → c < sb.size → in_use sb s c ≡ true

-- What `bmap` of block `bn` does to the file and the disk.
pub record Mapped (sb : Superblock) (ip : Inode) (s : Disk) (bn addr : ℕ) (ip' : Inode) (s' : Disk)
    : Type 0 where
  pub at : lookup ip' s' bn ≡ addr
  pub others : (m : ℕ) → m < maxfile → m ≢ bn → lookup ip' s' m ≡ lookup ip s m
  pub old : lookup ip s bn ≢ 0 → addr ≡ lookup ip s bn
  pub new :
      lookup ip s bn ≡ 0
      → addr ≢ 0
      → (addr < sb.size) × (in_use sb s addr ≡ false) × ((i : ℕ) → s'.block addr i ≡ 0)
  pub content : (b : ℕ) → Owned sb s b → b ≢ ip.addrs ndirect → s'.block b ≡ s.block b
  pub keeps : (b : ℕ) → b < sb.size → in_use sb s b ≡ true → in_use sb s' b ≡ true
  pub table : (b : ℕ) → Owned sb s b → b ≢ ip.addrs ndirect → b ≢ ip'.addrs ndirect
  pub full : addr ≡ 0 → IsExhausted sb s'
  pub size : ip'.size ≡ ip.size
  pub inum : ip'.inum ≡ ip.inum
  pub disk : IsDisk sb s'
  pub file : IsFile sb ip' s'

-- An entry that is there, or that stays 0.
pub unchanged :
    (sb : Superblock) (ip : Inode) (s : Disk) (bn addr : ℕ)
    → IsDisk sb s
    → IsFile sb ip s
    → lookup ip s bn ≡ addr
    → (addr ≡ 0 → IsExhausted sb s)
    → Mapped sb ip s bn addr ip s
unchanged sb ip s bn addr v f e full = record {
  at = e;
  others = λ m h n. refl;
  old = λ h. sym e;
  new = λ z nz. absurd (nz (sym e ∙ z));
  content = λ b o n. refl;
  keeps = λ b h u. u;
  table = λ b o n. n;
  full = full;
  size = refl;
  inum = refl;
  disk = v;
  file = f;
}

-- The three ways of `direct`.
pub data DirectView (sb : Superblock) (i : ℕ) (ip : Inode) (s : Disk) : Type 0 where
  there : ip.addrs i ≢ 0 → direct sb i ip s ≡ (ip.addrs i, ip, s) → DirectView sb i ip s
  full : ip.addrs i ≡ 0 → IsExhausted sb s → direct sb i ip s ≡ (0, ip, s) → DirectView sb i ip s
  added :
      (n : ℕ) (t : Disk)
      → ip.addrs i ≡ 0
      → n ≢ 0
      → Allocated sb s n t
      → direct sb i ip s ≡ (n, set_addr i n ip, t)
      → DirectView sb i ip s

pub direct-cases :
    (sb : Superblock) (i : ℕ) (ip : Inode) (s : Disk) → IsDisk sb s → DirectView sb i ip s
unfolding direct
direct-cases sb i ip s v = elim (ℕ_discrete (ip.addrs i) 0) [
  | no h ↦ there h (rw (direct, ne→== (ip.addrs i) 0 h) refl)
  | yes z ↦ elim (balloc_lem sb s v) [
    | inl (e, all) ↦ full z all (rw (direct, eq→== (ip.addrs i) 0 z, e) refl)
    | inr (n, t, e, nz, a) ↦
        added n t z nz a (rw (direct, eq→== (ip.addrs i) 0 z, e, ne→== n 0 nz) refl)
  ]
]

pub data IndirectView (sb : Superblock) (ip : Inode) (s : Disk) (j : ℕ) : Type 0 where
  there :
      get32 (s.block (ip.addrs ndirect)) (4 * j) ≢ 0
      → indirect sb (ip.addrs ndirect) j s ≡ (get32 (s.block (ip.addrs ndirect)) (4 * j), s)
      → IndirectView sb ip s j
  full :
      get32 (s.block (ip.addrs ndirect)) (4 * j) ≡ 0
      → IsExhausted sb s
      → indirect sb (ip.addrs ndirect) j s ≡ (0, s)
      → IndirectView sb ip s j
  added :
      (n : ℕ) (t : Disk)
      → get32 (s.block (ip.addrs ndirect)) (4 * j) ≡ 0
      → n ≢ 0
      → Allocated sb s n t
      → indirect sb (ip.addrs ndirect) j s
        ≡ (n, log_write (ip.addrs ndirect) (put32 (t.block (ip.addrs ndirect)) (4 * j) n) t)
      → IndirectView sb ip s j

pub indirect-cases :
    (sb : Superblock) (ip : Inode) (s : Disk) (j : ℕ) → IsDisk sb s → IndirectView sb ip s j
unfolding indirect
indirect-cases sb ip s j v = elim (ℕ_discrete (get32 (s.block (ip.addrs ndirect)) (4 * j)) 0) [
  | no h ↦
      IndirectView.there h
        (rw (indirect, ne→== (get32 (s.block (ip.addrs ndirect)) (4 * j)) 0 h) refl)
  | yes z ↦ elim (balloc_lem sb s v) [
    | inl (e, all) ↦
        IndirectView.full z all
          (rw (indirect, eq→== (get32 (s.block (ip.addrs ndirect)) (4 * j)) 0 z, e) refl)
    | inr (n, t, e, nz, a) ↦ IndirectView.added n t z nz a (
        rw (indirect, eq→== (get32 (s.block (ip.addrs ndirect)) (4 * j)) 0 z, e, ne→== n 0 nz) refl)
  ]
]
