-- ===== src/Fs/Tests.antt =====
-- The theorems about kernel/fs.c at concrete inputs.
use project_priv.Prelude.{
  ℕ, ◌+◌, ◌%◌, ◌<◌, ◌≤◌, ◌≡◌, ◌≢◌, ◌⊎◌, refl, sym, ap, ◌∙◌, none, some, Bool, true, false, ◌==◌,
  if◌then◌else◌, ltb, [], arith, ne→==, ℕ_discrete, inl, inr, Bool-cases, max, subst,
}
use project_priv.Fs.{Block, ndirect, Superblock, Disk, bblock, iblock}
use project_priv.Fs.Bytes.{bit_of}
use project_priv.Fs.Bitmap.{balloc}
use project_priv.Fs.Bitmap.Search.{in_use, IsDisk}
use project_priv.Fs.Bitmap.Balloc.{Allocated, balloc_lem}
use project_priv.Fs.Inode.{Inode, iupdate, ilock}
use project_priv.Fs.Inode.Stored.{Fits, SameFields, on_disk, ilock-iupdate}
use project_priv.Fs.Blocks.Mapping.{lookup, Owned, IsFile}
use project_priv.Fs.Blocks.Cases.{IsExhausted}
use project_priv.Fs.Blocks.Bmap.{Maps, bmap_lem}
use project_priv.Fs.Table.{Itable, is_inode, iget}
use project_priv.Fs.Table.Unique.{IsUnique, Gets, iget_lem}
use project_priv.Fs.Content.{readi, writei}
use project_priv.Fs.Content.Bytes.{content}
use project_priv.Fs.Content.Read.{IsFull, takes_all, readi_lem}
use project_priv.Fs.Content.Store.{Foreign}
use project_priv.Fs.Content.Write.{Replaced}
use project_priv.Fs.Content.Writei.{all_copied}
use project_priv.Fs.Content.Saved.{writei_lem}

-- A disk of 100 blocks: inodes from 32 on, the bitmap in block 45, the first 48 blocks in use.
abbrev small_sb : Superblock
small_sb = record { size = 100; ninodes = 208; inodestart = 32; bmapstart = 45 }

abbrev small_block : ℕ → Block
small_block b i = if b == 45 then (if ltb i 6 then 255 else 0) else if b == 46 then i % 256 else 0

abbrev small_disk : Disk
small_disk = record { block = small_block; logged = [] }

-- A file of three bytes in block 46.
abbrev short_file : Inode
short_file = record {
  dev = 1;
  inum = 7;
  ref = 1;
  valid = true;
  type = 2;
  major = 0;
  minor = 0;
  nlink = 1;
  size = 3;
  addrs = λ i. if i == 0 then 46 else 0;
}

abbrev stale : Inode
stale = record short_file { valid = false; type = 0; size = 0 }

small_bytes : (b i : ℕ) → small_disk.block b i < 256
small_bytes b i = elim (Bool-cases (b == 45)) [
  | inl e ↦ elim (Bool-cases (ltb i 6)) [
    | inl l ↦ rw (e, l) (omega arith)
    | inr l ↦ rw (e, l) (omega arith)
  ]
  | inr e ↦ elim (Bool-cases (b == 46)) [
    | inl g ↦ rw (e, g) (omega arith)
    | inr g ↦ rw (e, g) (omega arith)
  ]
]

in_bitmap : (b : ℕ) → b < 100 → bblock small_sb b ≡ 45
in_bitmap b h = omega (arith, h)

map_used : in_use small_sb small_disk 45 ≡ true
unfolding bit_of
map_used = refl

boot_used : in_use small_sb small_disk 0 ≡ true
unfolding bit_of
boot_used = refl

file_used : in_use small_sb small_disk 46 ≡ true
unfolding bit_of
file_used = refl

inode_used : in_use small_sb small_disk 32 ≡ true
unfolding bit_of
inode_used = refl

small_disk-IsDisk : IsDisk small_sb small_disk
small_disk-IsDisk = record {
  small = omega arith;
  bytes = small_bytes;
  boot = boot_used;
  bitmap = λ b h.
      (omega (arith, in_bitmap b h), ap (in_use small_sb small_disk) (in_bitmap b h) ∙ map_used);
}

one_block : (m : ℕ) → lookup short_file small_disk m ≢ 0 → m ≡ 0
one_block m z = elim (ℕ_discrete m 0) [
  | yes e ↦ e
  | no n ↦ elim (Bool-cases (ltb m ndirect)) [
    | inl l ↦ absurd (z (rw (l, ne→== m 0 n) refl))
    | inr l ↦ absurd (z (rw l refl))
  ]
]

not_map_block : (n c : ℕ) → n ≢ 45 → c < 100 → bblock small_sb c ≢ n
not_map_block n c z h e = z (sym e ∙ in_bitmap c h)

file_Owned : Owned small_sb small_disk 46
file_Owned = record {
  inside = omega arith;
  used = file_used;
  not_map = λ c h. not_map_block 46 c (λ e. omega (arith, e)) h;
}

inode_Owned : Owned small_sb small_disk 32
inode_Owned = record {
  inside = omega arith;
  used = inode_used;
  not_map = λ c h. not_map_block 32 c (λ e. omega (arith, e)) h;
}

first_block : (m : ℕ) → lookup short_file small_disk m ≢ 0 → lookup short_file small_disk m ≡ 46
first_block m z = ap (lookup short_file small_disk) (one_block m z)

short_file-IsFile : IsFile small_sb short_file small_disk
short_file-IsFile = record {
  owned = λ m h z. subst (Owned small_sb small_disk) (sym (first_block m z)) file_Owned;
  indirect = λ z. absurd (z refl);
  distinct = λ m n h g z e. one_block m z ∙ sym (one_block n (λ q. z (e ∙ q)));
  apart = λ n h z e. z e;
}

short_file-Foreign : Foreign small_sb (iblock small_sb short_file.inum) short_file small_disk
short_file-Foreign = record {
  owned = inode_Owned;
  not_table = λ e. omega (arith, e);
  not_content = λ m h e.
      let z : lookup short_file small_disk m ≢ 0 = λ q. omega (arith, q, e) in
      omega (arith, e, first_block m z);
}

short_file-Fits : Fits short_file
short_file-Fits = record {
  type = omega arith;
  major = omega arith;
  minor = omega arith;
  nlink = omega arith;
  size = omega arith;
  addrs = λ i h. ground arith;
}

short_file-IsFull : IsFull short_file small_disk
short_file-IsFull = record {
  size = omega arith;
  there = λ bn h e.
      let first : bn ≡ 0 = omega (arith, h) in
      let none_there : 46 ≡ 0 = sym (ap (lookup short_file small_disk) first) ∙ e in
      omega (arith, none_there);
}

balloc_lem_example :
    ((balloc small_sb small_disk ≡ (0, small_disk))
      × ((c : ℕ) → c < 100 → in_use small_sb small_disk c ≡ true))
    ⊎ ((n : ℕ) × (t : Disk) × (balloc small_sb small_disk ≡ (n, t))
        × (n ≢ 0)
        × Allocated small_sb small_disk n t)
balloc_lem_example = balloc_lem small_sb small_disk small_disk-IsDisk

ilock-iupdate_example :
    (loaded : Inode) × (ilock small_sb stale (iupdate small_sb short_file small_disk) ≡ some loaded)
    × (loaded.valid ≡ true)
    × SameFields loaded short_file
    × ((other : ℕ)
        → other ≢ 7
        → SameFields
            (on_disk small_sb (iupdate small_sb short_file small_disk) other stale)
            (on_disk small_sb small_disk other stale))
ilock-iupdate_example =
    ilock-iupdate small_sb short_file stale small_disk short_file-Fits (λ e. omega (arith, e)) refl
      (omega arith) refl

-- The file's thirteenth block, which needs an indirect block.
bmap_lem_example : Maps small_sb 12 short_file small_disk
bmap_lem_example =
    bmap_lem small_sb 12 short_file small_disk small_disk-IsDisk short_file-IsFile (omega arith)

-- Of ten bytes from the second on, the file has two.
readi_lem_example :
    readi small_sb takes_all 4096 1 10 short_file small_disk
    ≡ some (some 2, short_file, small_disk, content short_file small_disk 1 2)
readi_lem_example =
    readi_lem small_sb short_file small_disk short_file-IsFull 4096 1 10 (omega arith)

-- From the file's last byte over the end of its block.
writei_lem_example :
    (total : ℕ) × (ip' : Inode) × (s' : Disk) × (writei small_sb
        (λ a. a % 256)
        all_copied
        4096
        2
        1030
        short_file
        small_disk
      ≡ some (some total, ip', s'))
    × (total ≤ 1030)
    × (total < 1030 → IsExhausted small_sb s')
    × (ip'.size ≡ max 3 (2 + total))
    × Replaced (λ a. a % 256) 4096 2 (2 + total) short_file small_disk ip' s'
writei_lem_example =
    writei_lem small_sb (λ a. a % 256) 4096 2 1030 short_file small_disk (λ a. omega arith)
      small_disk-IsDisk short_file-IsFile short_file-Foreign (λ e. omega (arith, e)) (omega arith)
      (omega arith)

-- A table whose first entry is for inode 7 and whose others are not in use.
abbrev one_held : Itable
one_held i = if i == 0 then short_file else record short_file { ref = 0 }

one_held-IsUnique : IsUnique one_held
one_held-IsUnique i j h l r q d n = elim (ℕ_discrete i 0) [
  | no a ↦ absurd (not_in_use i a r)
  | yes a ↦ elim (ℕ_discrete j 0) [ yes b ↦ a ∙ sym b | no b ↦ absurd (not_in_use j b q) ]
]
  where
    not_in_use : (k : ℕ) → k ≢ 0 → 0 < (one_held k).ref → ⊥
    not_in_use k a r = omega (
      arith,
      subst (λ (b : Bool). 0 < (if b then short_file else record short_file { ref = 0 }).ref)
          (ne→== k 0 a) r,
    )

-- Inode 9 gets the second entry.
iget_lem_example :
    ((iget 1 9 one_held ≡ none)
      × ((j : ℕ) → j < 50 → (is_inode 1 9 (one_held j) ≡ false) × (0 < (one_held j).ref)))
    ⊎ ((i : ℕ) × (t' : Itable) × (iget 1 9 one_held ≡ some (i, t')) × Gets 1 9 one_held i t')
iget_lem_example = iget_lem 1 9 one_held one_held-IsUnique
