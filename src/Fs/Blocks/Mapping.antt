-- ===== src/Fs/Blocks/Mapping.antt =====
-- The blocks of a file as a map from block counts to disk blocks, and what makes it sound.
use project_priv.Prelude.{
  ℕ, ◌-◌, ◌*◌, ◌<◌, ◌≡◌, ◌≢◌, sym, ◌∙◌, true, ◌==◌, if◌then◌else◌, ltb, arith,
}
use project_priv.Fs.{ndirect, maxfile, Superblock, Disk, bblock}
use project_priv.Fs.Bytes.{get32}
use project_priv.Fs.Bitmap.Search.{in_use, IsDisk}
use project_priv.Fs.Bitmap.Balloc.{Allocated, used_ne}
use project_priv.Fs.Inode.{Inode}

-- The number of the file's block `bn`, or 0.
abbrev pub lookup : Inode → Disk → ℕ → ℕ
lookup ip s bn =
    if ltb bn ndirect
    then ip.addrs bn
    else if ip.addrs ndirect == 0
    then 0
    else get32 (s.block (ip.addrs ndirect)) (4 * (bn - ndirect))

-- A block in use that is not of the bitmap.
pub record Owned (sb : Superblock) (s : Disk) (b : ℕ) : Type 0 where
  pub inside : b < sb.size
  pub used : in_use sb s b ≡ true
  pub not_map : (c : ℕ) → c < sb.size → bblock sb c ≢ b

-- The file's blocks and its indirect block are its own, and no two of them are the same.
pub record IsFile (sb : Superblock) (ip : Inode) (s : Disk) : Type 0 where
  pub owned : (bn : ℕ) → bn < maxfile → lookup ip s bn ≢ 0 → Owned sb s (lookup ip s bn)
  pub indirect : ip.addrs ndirect ≢ 0 → Owned sb s (ip.addrs ndirect)
  pub distinct :
      (m n : ℕ)
      → m < maxfile
      → n < maxfile
      → lookup ip s m ≢ 0
      → lookup ip s m ≡ lookup ip s n
      → m ≡ n
  pub apart : (n : ℕ) → n < maxfile → lookup ip s n ≢ 0 → lookup ip s n ≢ ip.addrs ndirect

module _ (sb : Superblock) (s : Disk) (n : ℕ) (t : Disk) (v : IsDisk sb s)
    (a : Allocated sb s n t) where
  -- A block that was in use keeps its content and its mark when another is allocated.
  pub Owned-Allocated : (b : ℕ) → Owned sb s b → Owned sb t b
  Owned-Allocated b o = record {
    inside = o.inside;
    used = a.marks b o.inside ∙ ground (arith, o.used);
    not_map = o.not_map;
  }

  pub content-Allocated : (b : ℕ) → Owned sb s b → t.block b ≡ s.block b
  content-Allocated b o =
      a.others b (used_ne sb s b n o.used a.was_free) (λ e. o.not_map n a.inside (sym e))

  pub new-Owned : Owned sb t n
  new-Owned = record {
    inside = a.inside;
    used = a.marks n a.inside ∙ ground arith;
    not_map = λ c h. used_ne sb s (bblock sb c) n ((v.bitmap c h).1) a.was_free;
  }
