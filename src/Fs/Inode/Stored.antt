-- ===== src/Fs/Inode/Stored.antt =====
-- An inode that `iupdate` stores is read back by `ilock`, and its neighbours in the block are untouched.
use project_priv.Prelude.{
  ℕ, zero, suc, ◌+◌, ◌*◌, ◌%◌, ◌≤◌, ◌<◌, ◌≡◌, ◌≢◌, ◌⊎◌, inl, inr, refl, sym, ap, ◌∙◌, subst, update,
  update_ne, dec_lt, some, true, false, ◌==◌, ◌/◌, ℕ_discrete, ltb, arith, u32, update_self, ne→==,
}
use project_priv.Fs.{Block, ndirect, ipb, Superblock, Disk, iblock, log_write}
use project_priv.Fs.Bytes.{get16, put16, get32, put32, get16-put16, get32-put32, put16_ne}
use project_priv.Fs.Inode.{Inode, dinode_at, put_addrs, put_dinode, iupdate, get_dinode, ilock}

put32_ne : (d : Block) (o v i : ℕ) → (i < o) ⊎ (o + 4 ≤ i) → put32 d o v i ≡ d i
unfolding put32
put32_ne d o v i (inl h) =
    put16_ne (put16 d o (v % 65536)) (o + 2) (v / 65536) i (λ e. omega (arith, e))
      (λ e. omega (arith, e))
    ∙ put16_ne d o (v % 65536) i (λ e. omega (arith, e)) (λ e. omega (arith, e))
put32_ne d o v i (inr h) =
    put16_ne (put16 d o (v % 65536)) (o + 2) (v / 65536) i (λ e. omega (arith, e))
      (λ e. omega (arith, e))
    ∙ put16_ne d o (v % 65536) i (λ e. omega (arith, e)) (λ e. omega (arith, e))

-- The bytes outside the numbers that are written.
put_addrs_ne :
    (k i o : ℕ) (addrs : ℕ → ℕ) (d : Block) (x : ℕ)
    → (x < o + 4 * i) ⊎ (o + 4 * (i + k) ≤ x)
    → put_addrs k i o addrs d x ≡ d x
unfolding put_addrs
put_addrs_ne zero i o addrs d x h = refl
put_addrs_ne (suc k) i o addrs d x (inl h) =
    put_addrs_ne k (i + 1) o addrs (put32 d (o + 4 * i) (addrs i)) x (inl (omega arith))
    ∙ put32_ne d (o + 4 * i) (addrs i) x (inl h)
put_addrs_ne (suc k) i o addrs d x (inr h) =
    put_addrs_ne k (i + 1) o addrs (put32 d (o + 4 * i) (addrs i)) x (inr (omega arith))
    ∙ put32_ne d (o + 4 * i) (addrs i) x (inr (omega arith))

get16_same : (d e : Block) (o : ℕ) → d o ≡ e o → d (o + 1) ≡ e (o + 1) → get16 d o ≡ get16 e o
unfolding get16
get16_same d e o p q = omega (arith, p, q)

get32_same :
    (d e : Block) (o : ℕ) → ((i : ℕ) → o ≤ i → i < o + 4 → d i ≡ e i) → get32 d o ≡ get32 e o
unfolding get32
get32_same d e o h = omega (
  arith,
  get16_same d e o (h o (omega arith) (omega arith)) (h (o + 1) (omega arith) (omega arith)),
  get16_same d e (o + 2) (h (o + 2) (omega arith) (omega arith))
      (h (o + 2 + 1) (omega arith) (omega arith)),
)

get-put_addrs :
    (k i o : ℕ) (addrs : ℕ → ℕ) (d : Block) (j : ℕ)
    → i ≤ j
    → j < i + k
    → addrs j < u32
    → get32 (put_addrs k i o addrs d) (o + 4 * j) ≡ addrs j
unfolding put_addrs
get-put_addrs zero i o addrs d j p q h = absurd (omega arith)
get-put_addrs (suc k) i o addrs d j p q h = elim (ℕ_discrete j i) [
  | yes e ↦
      let d1 = put32 d (o + 4 * i) (addrs i) in
      rw e (
        get32_same (put_addrs k (i + 1) o addrs d1) d1 (o + 4 * i)
          (λ x a b. put_addrs_ne k (i + 1) o addrs d1 x (inl (omega arith)))
        ∙ get32-put32 d (o + 4 * i) (addrs i) (rw (sym e) h))
  | no n ↦
      get-put_addrs k (i + 1) o addrs (put32 d (o + 4 * i) (addrs i)) j (omega arith) (omega arith)
        h
]

-- Fields that fit the disk's format.
pub record Fits (ip : Inode) : Type 0 where
  pub type : ip.type < 65536
  pub major : ip.major < 65536
  pub minor : ip.minor < 65536
  pub nlink : ip.nlink < 65536
  pub size : ip.size < u32
  pub addrs : (i : ℕ) → i < ndirect + 1 → ip.addrs i < u32

-- The same fields on the disk.
pub record SameFields (a b : Inode) : Type 0 where
  pub type : a.type ≡ b.type
  pub major : a.major ≡ b.major
  pub minor : a.minor ≡ b.minor
  pub nlink : a.nlink ≡ b.nlink
  pub size : a.size ≡ b.size
  pub addrs : (i : ℕ) → i < ndirect + 1 → a.addrs i ≡ b.addrs i

module _ (o : ℕ) (ip : Inode) (d : Block) where
  abbrev with_type : Block
  with_type = put16 d o ip.type

  abbrev with_major : Block
  with_major = put16 with_type (o + 2) ip.major

  abbrev with_minor : Block
  with_minor = put16 with_major (o + 4) ip.minor

  abbrev with_nlink : Block
  with_nlink = put16 with_minor (o + 6) ip.nlink

  abbrev with_size : Block
  with_size = put32 with_nlink (o + 8) ip.size

  -- Each field, as far as later writes leave it.
  upto_size : (x : ℕ) → x < o + 12 → put_dinode o ip d x ≡ with_size x
  unfolding put_dinode
  upto_size x h = put_addrs_ne (ndirect + 1) 0 (o + 12) ip.addrs with_size x (inl (omega arith))

  upto_nlink : (x : ℕ) → x < o + 8 → put_dinode o ip d x ≡ with_nlink x
  upto_nlink x h = upto_size x (omega arith) ∙ put32_ne with_nlink (o + 8) ip.size x (inl h)

  upto_minor : (x : ℕ) → x < o + 6 → put_dinode o ip d x ≡ with_minor x
  upto_minor x h =
      upto_nlink x (omega arith)
      ∙ put16_ne with_minor (o + 6) ip.nlink x (λ e. omega (arith, e, h)) (λ e. omega (arith, e, h))

  upto_major : (x : ℕ) → x < o + 4 → put_dinode o ip d x ≡ with_major x
  upto_major x h =
      upto_minor x (omega arith)
      ∙ put16_ne with_major (o + 4) ip.minor x (λ e. omega (arith, e, h)) (λ e. omega (arith, e, h))

  upto_type : (x : ℕ) → x < o + 2 → put_dinode o ip d x ≡ with_type x
  upto_type x h =
      upto_major x (omega arith)
      ∙ put16_ne with_type (o + 2) ip.major x (λ e. omega (arith, e, h)) (λ e. omega (arith, e, h))

  pub put_dinode_ne : (x : ℕ) → (x < o) ⊎ (o + 64 ≤ x) → put_dinode o ip d x ≡ d x
  unfolding put_dinode
  put_dinode_ne x (inl h) =
      upto_type x (omega arith)
      ∙ put16_ne d o ip.type x (λ e. omega (arith, e, h)) (λ e. omega (arith, e, h))
  put_dinode_ne x (inr h) =
      put_addrs_ne (ndirect + 1) 0 (o + 12) ip.addrs with_size x (inr (omega arith))
      ∙ put32_ne with_nlink (o + 8) ip.size x (inr (omega arith))
      ∙ put16_ne with_minor (o + 6) ip.nlink x (λ e. omega (arith, e, h)) (λ e. omega (arith, e, h))
      ∙ put16_ne with_major (o + 4) ip.minor x (λ e. omega (arith, e, h)) (λ e. omega (arith, e, h))
      ∙ put16_ne with_type (o + 2) ip.major x (λ e. omega (arith, e, h)) (λ e. omega (arith, e, h))
      ∙ put16_ne d o ip.type x (λ e. omega (arith, e, h)) (λ e. omega (arith, e, h))

  stored_addrs :
      (i : ℕ) → i < ndirect + 1 → Fits ip → get32 (put_dinode o ip d) (o + 12 + 4 * i) ≡ ip.addrs i
  unfolding put_dinode
  stored_addrs i h f =
      get-put_addrs (ndirect + 1) 0 (o + 12) ip.addrs with_size i (omega arith) (omega arith)
        (f.addrs i h)

  get_dinode-put_dinode :
      (old : Inode) → Fits ip → SameFields (get_dinode o (put_dinode o ip d) old) ip
  unfolding get_dinode
  get_dinode-put_dinode old f = record {
    type =
        get16_same (put_dinode o ip d) with_type o (upto_type o (omega arith))
          (upto_type (o + 1) (omega arith))
        ∙ get16-put16 d o ip.type f.type;
    major =
        get16_same (put_dinode o ip d) with_major (o + 2) (upto_major (o + 2) (omega arith))
          (upto_major (o + 2 + 1) (omega arith))
        ∙ get16-put16 with_type (o + 2) ip.major f.major;
    minor =
        get16_same (put_dinode o ip d) with_minor (o + 4) (upto_minor (o + 4) (omega arith))
          (upto_minor (o + 4 + 1) (omega arith))
        ∙ get16-put16 with_major (o + 4) ip.minor f.minor;
    nlink =
        get16_same (put_dinode o ip d) with_nlink (o + 6) (upto_nlink (o + 6) (omega arith))
          (upto_nlink (o + 6 + 1) (omega arith))
        ∙ get16-put16 with_minor (o + 6) ip.nlink f.nlink;
    size =
        get32_same (put_dinode o ip d) with_size (o + 8) (λ x a b. upto_size x (omega arith))
        ∙ get32-put32 with_nlink (o + 8) ip.size f.size;
    addrs = λ i h. stored_addrs i h f;
  }

-- An inode elsewhere in a block reads the same from two blocks that agree there.
get_dinode_same :
    (o : ℕ) (a b : Block) (old : Inode)
    → ((x : ℕ) → o ≤ x → x < o + 64 → a x ≡ b x)
    → SameFields (get_dinode o a old) (get_dinode o b old)
unfolding get_dinode
get_dinode_same o a b old h = record {
  type = get16_same a b o (h o (omega arith) (omega arith)) (h (o + 1) (omega arith) (omega arith));
  major =
      get16_same a b (o + 2) (h (o + 2) (omega arith) (omega arith))
        (h (o + 2 + 1) (omega arith) (omega arith));
  minor =
      get16_same a b (o + 4) (h (o + 4) (omega arith) (omega arith))
        (h (o + 4 + 1) (omega arith) (omega arith));
  nlink =
      get16_same a b (o + 6) (h (o + 6) (omega arith) (omega arith))
        (h (o + 6 + 1) (omega arith) (omega arith));
  size = get32_same a b (o + 8) (λ x p q. h x (omega arith) (omega arith));
  addrs = λ i l. get32_same a b (o + 12 + 4 * i) (λ x p q. h x (omega arith) (omega arith));
}

-- The inode with number `inum` as the disk has it, in the entry `old`.
abbrev pub on_disk : Superblock → Disk → ℕ → Inode → Inode
on_disk sb s inum old = get_dinode (dinode_at inum) (s.block (iblock sb inum)) old

ilock_loads :
    (sb : Superblock) (old : Inode) (s : Disk)
    → 0 < old.ref
    → old.valid ≡ false
    → (on_disk sb s old.inum old).type ≢ 0
    → ilock sb old s ≡ some (record (on_disk sb s old.inum old) { valid = true })
unfolding ilock
ilock_loads sb old s used stale typed =
    let a : ltb old.ref 1 ≡ false = ground arith in
    let b : ((on_disk sb s old.inum old).type == 0) ≡ false = ne→== _ 0 typed in simp (a, stale, b)

module _ (sb : Superblock) (ip old : Inode) (s : Disk) where
  abbrev stored : Block
  stored = put_dinode (dinode_at ip.inum) ip (s.block (iblock sb ip.inum))

  read_back : Fits ip → SameFields (on_disk sb (iupdate sb ip s) ip.inum old) ip
  unfolding iupdate log_write
  read_back f =
      subst (λ (d : Block). SameFields (get_dinode (dinode_at ip.inum) d old) ip)
        (sym (update_self s.block (iblock sb ip.inum) stored))
        (get_dinode-put_dinode (dinode_at ip.inum) ip (s.block (iblock sb ip.inum)) old f)

  differs :
      (other : ℕ)
      → iblock sb other ≡ iblock sb ip.inum
      → other ≢ ip.inum
      → other % ipb ≢ ip.inum % ipb
  differs other near n e = n (omega (arith, near, e))

  apart :
      (other : ℕ)
      → iblock sb other ≡ iblock sb ip.inum
      → (x : ℕ) → dinode_at other ≤ x
      → x < dinode_at other + 64
      → other ≢ ip.inum
      → (x < dinode_at ip.inum) ⊎ (dinode_at ip.inum + 64 ≤ x)
  apart other near x a b n = elim (dec_lt (other % ipb) (ip.inum % ipb)) [
    | yes h ↦ inl (omega arith)
    | no h ↦ inr (omega (arith, differs other near n))
  ]

  neighbour :
      (other : ℕ)
      → other ≢ ip.inum
      → SameFields (on_disk sb (iupdate sb ip s) other old) (on_disk sb s other old)
  unfolding iupdate log_write
  neighbour other n = elim (ℕ_discrete (iblock sb other) (iblock sb ip.inum)) [
    | no far ↦ get_dinode_same (dinode_at other) _ _ old (λ x a b.
        ap (λ (d : Block). d x)
          (update_ne s.block (iblock sb ip.inum) stored (iblock sb other) far))
    | yes near ↦ get_dinode_same (dinode_at other) _ _ old (λ x a b.
        ap (λ (m : ℕ). update s.block (iblock sb ip.inum) stored m x) near
        ∙ ap (λ (d : Block). d x) (update_self s.block (iblock sb ip.inum) stored)
        ∙ put_dinode_ne (dinode_at ip.inum) ip (s.block (iblock sb ip.inum)) x
            (apart other near x a b n)
        ∙ ap (λ (m : ℕ). s.block m x) (sym near))
  ]

-- `ilock` of an entry in use that has not been read gives the fields that `iupdate` has stored for that
-- inode, if they fit the disk's format and the type is not 0; of no other inode has a stored field changed.
pub ilock-iupdate :
    (sb : Superblock) (ip old : Inode) (s : Disk)
    → Fits ip
    → ip.type ≢ 0
    → old.inum ≡ ip.inum
    → 0 < old.ref
    → old.valid ≡ false
    → (loaded : Inode) × (ilock sb old (iupdate sb ip s) ≡ some loaded)
      × (loaded.valid ≡ true)
      × SameFields loaded ip
      × ((other : ℕ)
          → other ≢ ip.inum
          → SameFields (on_disk sb (iupdate sb ip s) other old) (on_disk sb s other old))
unfolding get_dinode
ilock-iupdate sb ip old s f nz same used stale =
    let read =
      subst (λ n. SameFields (on_disk sb (iupdate sb ip s) n old) ip) (sym same)
        (read_back sb ip old s f) in
    let loaded = on_disk sb (iupdate sb ip s) old.inum old in
    (
      record loaded { valid = true },
      ilock_loads sb old (iupdate sb ip s) used stale (λ z. nz (sym read.type ∙ z)),
      refl,
      record {
        type = read.type;
        major = read.major;
        minor = read.minor;
        nlink = read.nlink;
        size = read.size;
        addrs = read.addrs;
      },
      neighbour sb ip old s,
    )
