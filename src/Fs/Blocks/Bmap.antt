-- ===== src/Fs/Blocks/Bmap.antt =====
-- `bmap`: the file's block map gets at most one new entry, a block that was free.
use project_priv.Prelude.{
  ℕ, ◌-◌, ◌*◌, ◌<◌, ◌≤◌, ◌≡◌, ◌≢◌, refl, sym, ap, ◌∙◌, arith, some, dec_lt, update_self, eq→==,
  ne→==, lt→ltb, not_lt→ltb, subst,
}
use project_priv.Fs.{ndirect, nindirect, maxfile, Superblock, Disk}
use project_priv.Fs.Bytes.{get32}
use project_priv.Fs.Bitmap.Search.{IsDisk}
use project_priv.Fs.Inode.{Inode}
use project_priv.Fs.Blocks.{set_addr, direct, indirect, bmap}
use project_priv.Fs.Blocks.Mapping.{lookup, IsFile}
use project_priv.Fs.Blocks.Cases.{
  Mapped, unchanged, DirectView, direct-cases, IndirectView, indirect-cases,
}
use project_priv.Fs.Blocks.Step.{direct-Mapped, indirect-Mapped, table-IsFile, after_table}

-- What `bmap` returns, and what that does.
pub record Maps (sb : Superblock) (bn : ℕ) (ip : Inode) (s : Disk) : Type 0 where
  pub addr : ℕ
  pub inode : Inode
  pub after : Disk
  pub result : bmap sb bn ip s ≡ some (addr, inode, after)
  pub mapped : Mapped sb ip s bn addr inode after

bmap-direct :
    (sb : Superblock) (bn : ℕ) (ip : Inode) (s : Disk)
    → bn < ndirect
    → bmap sb bn ip s ≡ some (direct sb bn ip s)
unfolding bmap
bmap-direct sb bn ip s h = rw (bmap, lt→ltb bn ndirect h) refl

bmap_full :
    (sb : Superblock) (bn : ℕ) (ip ip1 : Inode) (s s1 : Disk)
    → ndirect ≤ bn
    → bn < maxfile
    → direct sb ndirect ip s ≡ (0, ip1, s1)
    → bmap sb bn ip s ≡ some (0, ip1, s1)
unfolding bmap
bmap_full sb bn ip ip1 s s1 h l e =
    rw (bmap, not_lt→ltb bn ndirect h, lt→ltb (bn - ndirect) nindirect (omega arith), e) refl

bmap-indirect :
    (sb : Superblock) (bn ind : ℕ) (ip ip1 : Inode) (s s1 : Disk)
    → ndirect ≤ bn
    → bn < maxfile
    → ind ≢ 0
    → direct sb ndirect ip s ≡ (ind, ip1, s1)
    → (addr : ℕ) (s2 : Disk) → indirect sb ind (bn - ndirect) s1 ≡ (addr, s2)
    → bmap sb bn ip s ≡ some (addr, ip1, s2)
unfolding bmap
bmap-indirect sb bn ind ip ip1 s s1 h l z e addr s2 g =
    rw
      (
        bmap,
        not_lt→ltb bn ndirect h,
        lt→ltb (bn - ndirect) nindirect (omega arith),
        e,
        ne→== ind 0 z,
        g,
      )
      refl

-- An inode with an indirect block: the step of `bmap` on that block.
table_step :
    (sb : Superblock) (bn : ℕ) (ip : Inode) (s : Disk)
    → IsDisk sb s
    → IsFile sb ip s
    → ndirect ≤ bn
    → bn < maxfile
    → ip.addrs ndirect ≢ 0
    → (addr : ℕ) × (s' : Disk) × (indirect sb (ip.addrs ndirect) (bn - ndirect) s ≡ (addr, s'))
      × Mapped sb ip s bn addr ip s'
table_step sb bn ip s v f h l z =
    let table : lookup ip s bn ≡ get32 (s.block (ip.addrs ndirect)) (4 * (bn - ndirect)) =
      rw (not_lt→ltb bn ndirect h, ne→== (ip.addrs ndirect) 0 z) refl in
    elim (indirect-cases sb ip s (bn - ndirect) v) [
      | IndirectView.there w e ↦ (
        get32 (s.block (ip.addrs ndirect)) (4 * (bn - ndirect)),
        s,
        e,
        unchanged sb ip s bn _ v f table (λ q. absurd (w q)),
      )
      | IndirectView.full w all e ↦ (0, s, e, unchanged sb ip s bn 0 v f (table ∙ w) (λ q. all))
      | IndirectView.added n t w nz a e ↦
          (n, _, e, indirect-Mapped sb ip s n t v f a nz bn h l z (table ∙ w))
    ]

-- On a sound disk, `bmap` of a block that a file can have does not panic. It returns the block that
-- the file has there; or, if it had none, a block that was free and is now in use and zero, or 0
-- when every block is in use. No other entry of the file's map changes, nor the content of a block
-- in use that is neither a bitmap block nor the file's indirect block; what was in use stays so,
-- and the disk and the file are sound again.
pub bmap_lem :
    (sb : Superblock) (bn : ℕ) (ip : Inode) (s : Disk)
    → IsDisk sb s
    → IsFile sb ip s
    → bn < maxfile
    → Maps sb bn ip s
bmap_lem sb bn ip s v f l = elim (dec_lt bn ndirect) [
  | yes h ↦
      let here : lookup ip s bn ≡ ip.addrs bn = rw (lt→ltb bn ndirect h) refl in
      elim (direct-cases sb bn ip s v) [
        | DirectView.there w e ↦ record {
          addr = ip.addrs bn;
          inode = ip;
          after = s;
          result = bmap-direct sb bn ip s h ∙ ap some e;
          mapped = unchanged sb ip s bn (ip.addrs bn) v f here (λ q. absurd (w q));
        }
        | DirectView.full w all e ↦ record {
          addr = 0;
          inode = ip;
          after = s;
          result = bmap-direct sb bn ip s h ∙ ap some e;
          mapped = unchanged sb ip s bn 0 v f (here ∙ w) (λ q. all);
        }
        | DirectView.added n t w nz a e ↦ record {
          addr = n;
          inode = set_addr bn n ip;
          after = t;
          result = bmap-direct sb bn ip s h ∙ ap some e;
          mapped = direct-Mapped sb ip s n t v f a nz bn h w;
        }
      ]
  | no far ↦ elim (direct-cases sb ndirect ip s v) [
    | DirectView.there w e ↦
        let (addr, s2, g, m) = table_step sb bn ip s v f (omega arith) l w in
        record {
          addr = addr;
          inode = ip;
          after = s2;
          result = bmap-indirect sb bn (ip.addrs ndirect) ip ip s s (omega arith) l w e addr s2 g;
          mapped = m;
        }
    | DirectView.full w all e ↦ record {
      addr = 0;
      inode = ip;
      after = s;
      result = bmap_full sb bn ip ip s s (omega arith) l e;
      mapped =
          unchanged sb ip s bn 0 v f
            (rw (not_lt→ltb bn ndirect (omega arith), eq→== (ip.addrs ndirect) 0 w) refl)
            (λ q. all);
    }
    | DirectView.added n t w nz a e ↦
        let ip1 = set_addr ndirect n ip in
        let table : ip1.addrs ndirect ≡ n = update_self ip.addrs ndirect n in
        let nonzero : ip1.addrs ndirect ≢ 0 = λ q. nz (sym table ∙ q) in
        let (addr, s2, g, m) =
          table_step sb bn ip1 t a.valid (table-IsFile sb ip s n t v f a nz w) (omega arith) l
            nonzero in
        record {
          addr = addr;
          inode = ip1;
          after = s2;
          result =
              bmap-indirect sb bn n ip ip1 s t (omega arith) l nz e addr s2
                (subst (λ x. indirect sb x (bn - ndirect) t ≡ (addr, s2)) table g);
          mapped = after_table sb ip s n t v f a nz bn addr ip1 s2 w l m;
        }
  ]
]

direct_there :
    (sb : Superblock) (i : ℕ) (ip : Inode) (s : Disk)
    → ip.addrs i ≢ 0
    → direct sb i ip s ≡ (ip.addrs i, ip, s)
unfolding direct
direct_there sb i ip s z = rw (direct, ne→== (ip.addrs i) 0 z) refl

indirect_there :
    (sb : Superblock) (ind j : ℕ) (s : Disk)
    → get32 (s.block ind) (4 * j) ≢ 0
    → indirect sb ind j s ≡ (get32 (s.block ind) (4 * j), s)
unfolding indirect
indirect_there sb ind j s z = rw (indirect, ne→== (get32 (s.block ind) (4 * j)) 0 z) refl

-- A block that the file has is returned, and nothing changes.
pub bmap-there :
    (sb : Superblock) (bn : ℕ) (ip : Inode) (s : Disk)
    → bn < maxfile
    → lookup ip s bn ≢ 0
    → bmap sb bn ip s ≡ some (lookup ip s bn, ip, s)
bmap-there sb bn ip s l z = elim (dec_lt bn ndirect) [
  | yes h ↦
      let here : lookup ip s bn ≡ ip.addrs bn = rw (lt→ltb bn ndirect h) refl in
      bmap-direct sb bn ip s h
      ∙ ap some (direct_there sb bn ip s (λ q. z (here ∙ q)))
      ∙ ap (λ (x : ℕ). some (x, ip, s)) (sym here)
  | no far ↦
      let f = not_lt→ltb bn ndirect (omega arith) in
      let table : ip.addrs ndirect ≢ 0 = λ q. z (rw (f, eq→== (ip.addrs ndirect) 0 q) refl) in
      let here : lookup ip s bn ≡ get32 (s.block (ip.addrs ndirect)) (4 * (bn - ndirect)) =
        rw (f, ne→== (ip.addrs ndirect) 0 table) refl in
      bmap-indirect sb bn (ip.addrs ndirect) ip ip s s (omega arith) l table
        (direct_there sb ndirect ip s table) _ s
        (indirect_there sb (ip.addrs ndirect) (bn - ndirect) s (λ q. z (here ∙ q)))
      ∙ ap (λ (x : ℕ). some (x, ip, s)) (sym here)
]
