-- ===== src/Fs/Blocks/Fill.antt =====
-- A file's block map with one more entry, or with a new indirect block.
use project_priv.Prelude.{
  ℕ, ◌+◌, ◌-◌, ◌*◌, ◌%◌, ◌<◌, ◌≤◌, ◌≡◌, ◌≢◌, ◌⊎◌, inl, inr, refl, sym, ap, ◌∙◌, false, ◌==◌,
  if◌then◌else◌, ltb, update, arith, ℕ_discrete, dec_lt, update_self, update_ne, eq→==, ne→==,
  lt→ltb, not_lt→ltb, subst,
}
use project_priv.Fs.{Block, bpb, ndirect, nindirect, maxfile, Superblock, Disk, bblock, log_write}
use project_priv.Fs.Bytes.{bit_of, get16, get32, put32, get32-put32, get32-put32_ne, put32_small}
use project_priv.Fs.Bitmap.Search.{in_use, IsDisk}
use project_priv.Fs.Bitmap.Balloc.{Allocated, used_ne}
use project_priv.Fs.Inode.{Inode}
use project_priv.Fs.Blocks.{set_addr}
use project_priv.Fs.Blocks.Mapping.{lookup, Owned, IsFile, content-Allocated}

-- The file after entry `bn` of its map, which was 0, has become the block `n`, which was free.
pub filled-IsFile :
    (sb : Superblock) (ip ip' : Inode) (s s' : Disk) (bn n : ℕ)
    → IsFile sb ip s
    → n ≢ 0
    → in_use sb s n ≡ false
    → ((b : ℕ) → Owned sb s b → Owned sb s' b)
    → Owned sb s' n
    → ip'.addrs ndirect ≡ ip.addrs ndirect
    → ((m : ℕ) → m < maxfile → lookup ip' s' m ≡ (if m == bn then n else lookup ip s m))
    → IsFile sb ip' s'
filled-IsFile sb ip ip' s s' bn n f nz free keep own ind look =
    let at : (m : ℕ) → m < maxfile → m ≡ bn → lookup ip' s' m ≡ n =
      λ m h e. look m h ∙ rw (eq→== m bn e) refl in
    let off : (m : ℕ) → m < maxfile → m ≢ bn → lookup ip' s' m ≡ lookup ip s m =
      λ m h e. look m h ∙ rw (ne→== m bn e) refl in
    let fresh : (b : ℕ) → Owned sb s b → b ≢ n = λ b o. used_ne sb s b n o.used free in
    record {
      owned = λ m h z. elim (ℕ_discrete m bn) [
        | yes e ↦ subst (Owned sb s') (sym (at m h e)) own
        | no e ↦
            subst (Owned sb s') (sym (off m h e))
              (keep (lookup ip s m) (f.owned m h (λ q. z (off m h e ∙ q))))
      ];
      indirect = λ z.
          subst (Owned sb s') (sym ind) (keep (ip.addrs ndirect) (f.indirect (λ q. z (ind ∙ q))));
      distinct = λ m k h g z e. elim (ℕ_discrete m bn) [
        | yes p ↦ elim (ℕ_discrete k bn) [
          | yes q ↦ p ∙ sym q
          | no q ↦
              let same : lookup ip s k ≡ n = sym (off k g q) ∙ sym e ∙ at m h p in
              absurd (fresh (lookup ip s k) (f.owned k g (λ w. nz (sym same ∙ w))) same)
        ]
        | no p ↦
            let here : lookup ip s m ≢ 0 = λ w. z (off m h p ∙ w) in
            elim (ℕ_discrete k bn) [
              | yes q ↦
                  absurd (fresh (lookup ip s m) (f.owned m h here) (sym (off m h p) ∙ e ∙ at k g q))
              | no q ↦ f.distinct m k h g here (sym (off m h p) ∙ e ∙ off k g q)
            ]
      ];
      apart = λ m h z e. elim (ℕ_discrete m bn) [
        | yes p ↦
            let same : ip.addrs ndirect ≡ n = sym ind ∙ sym e ∙ at m h p in
            fresh (ip.addrs ndirect) (f.indirect (λ w. nz (sym same ∙ w))) same
        | no p ↦ f.apart m h (λ w. z (off m h p ∙ w)) (sym (off m h p) ∙ e ∙ ind)
      ];
    }

get32_zero : (d : Block) (o : ℕ) → ((i : ℕ) → d i ≡ 0) → get32 d o ≡ 0
unfolding get32 get16
get32_zero d o h = omega (arith, h o, h (o + 1), h (o + 2), h (o + 2 + 1))

four_apart : (i j : ℕ) → i ≢ j → (4 * i + 4 ≤ 4 * j) ⊎ (4 * j + 4 ≤ 4 * i)
four_apart i j e = elim (dec_lt i j) [ yes h ↦ inl (omega arith) | no h ↦ inr (omega (arith, e)) ]

same_test :
    (j m : ℕ)
    → ndirect ≤ m
    → (x y : ℕ) → (if m - ndirect == j then x else y) ≡ (if m == ndirect + j then x else y)
same_test j m h x y = elim (ℕ_discrete m (ndirect + j)) [
  | yes e ↦ rw (eq→== m (ndirect + j) e, eq→== (m - ndirect) j (omega (arith, e))) refl
  | no e ↦ rw (ne→== m (ndirect + j) e, ne→== (m - ndirect) j (λ q. e (omega (arith, q)))) refl
]

module _ (sb : Superblock) (ip : Inode) (s : Disk) (n : ℕ) (t : Disk) (v : IsDisk sb s)
    (f : IsFile sb ip s) (a : Allocated sb s n t) where
  -- The indirect block is as it was.
  indirect_same : ip.addrs ndirect ≢ 0 → t.block (ip.addrs ndirect) ≡ s.block (ip.addrs ndirect)
  indirect_same z = content-Allocated sb s n t v a (ip.addrs ndirect) (f.indirect z)

  -- The map read from the new disk.
  pub lookup-Allocated : (m : ℕ) → lookup ip t m ≡ lookup ip s m
  lookup-Allocated m = elim (ℕ_discrete (ip.addrs ndirect) 0) [
    | yes z ↦ simp (eq→== (ip.addrs ndirect) 0 z)
    | no z ↦
        ap
          (λ (d : Block).
            if ltb m ndirect
            then ip.addrs m
            else if ip.addrs ndirect == 0
            then 0
            else get32 d (4 * (m - ndirect)))
          (indirect_same z)
  ]

  -- A direct entry that was 0.
  pub fill_direct :
      (i m : ℕ) → i < ndirect → lookup (set_addr i n ip) t m ≡ (if m == i then n else lookup ip s m)
  fill_direct i m h =
      let view = λ (x y : ℕ).
        if ltb m ndirect then x else if y == 0 then 0 else get32 (t.block y) (4 * (m - ndirect)) in
      let table : update ip.addrs i n ndirect ≡ ip.addrs ndirect =
        update_ne ip.addrs i n ndirect (λ e. omega (arith, e, h)) in
      elim (ℕ_discrete m i) [
        | yes e ↦
            rw (lt→ltb m ndirect (omega (arith, e, h)), eq→== m i e)
              (ap (update ip.addrs i n) e ∙ update_self ip.addrs i n)
        | no e ↦
            ap (view (update ip.addrs i n m)) table
            ∙ ap (λ (x : ℕ). view x (ip.addrs ndirect)) (update_ne ip.addrs i n m e)
            ∙ lookup-Allocated m
            ∙ rw (ne→== m i e) refl
      ]

  -- A new indirect block is full of zeros.
  pub fill_table :
      (m : ℕ) → ip.addrs ndirect ≡ 0 → n ≢ 0 → lookup (set_addr ndirect n ip) t m ≡ lookup ip s m
  fill_table m z nz = elim (dec_lt m ndirect) [
    | yes h ↦ rw (lt→ltb m ndirect h) (update_ne ip.addrs ndirect n m (λ e. omega (arith, e, h)))
    | no h ↦
        let o = 4 * (m - ndirect) in
        let new : (if n == 0 then 0 else get32 (t.block n) o) ≡ 0 =
          rw (ne→== n 0 nz) (get32_zero (t.block n) o a.zeroed) in
        let old : (if ip.addrs ndirect == 0 then 0 else get32 (s.block (ip.addrs ndirect)) o) ≡ 0 =
          rw (eq→== (ip.addrs ndirect) 0 z) refl in
        rw (not_lt→ltb m ndirect (omega arith)) (
          ap (λ (y : ℕ). if y == 0 then 0 else get32 (t.block y) o) (update_self ip.addrs ndirect n)
          ∙ new
          ∙ sym old)
  ]

  abbrev pub with_entry : ℕ → Disk
  with_entry j = log_write (ip.addrs ndirect) (put32 (t.block (ip.addrs ndirect)) (4 * j) n) t

  table_entry :
      (j i : ℕ)
      → ip.addrs ndirect ≢ 0
      → get32 ((with_entry j).block (ip.addrs ndirect)) (4 * i)
        ≡ (if i == j then n else get32 (s.block (ip.addrs ndirect)) (4 * i))
  unfolding log_write
  table_entry j i z =
      let table = t.block (ip.addrs ndirect) in
      ap (λ (d : Block). get32 d (4 * i))
        (update_self t.block (ip.addrs ndirect) (put32 table (4 * j) n))
      ∙ elim (ℕ_discrete i j) [
        | yes e ↦ rw (eq→== i j e) (
            ap (λ (x : ℕ). get32 (put32 table (4 * j) n) (4 * x)) e
            ∙ get32-put32 table (4 * j) n (omega (arith, v.small, a.inside)))
        | no e ↦ rw (ne→== i j e) (
            get32-put32_ne table (4 * j) n (4 * i) (four_apart i j e)
            ∙ ap (λ (d : Block). get32 d (4 * i)) (indirect_same z))
      ]

  pub fill_indirect :
      (j m : ℕ)
      → ip.addrs ndirect ≢ 0
      → j < nindirect
      → lookup ip (with_entry j) m ≡ (if m == ndirect + j then n else lookup ip s m)
  fill_indirect j m z h = elim (dec_lt m ndirect) [
    | yes l ↦ rw (lt→ltb m ndirect l, ne→== m (ndirect + j) (λ e. omega (arith, e, l))) refl
    | no l ↦
        rw (not_lt→ltb m ndirect (omega arith), ne→== (ip.addrs ndirect) 0 z)
          (table_entry j (m - ndirect) z ∙ same_test j m (omega arith) _ _)
  ]

  -- The disk with the new entry of the indirect block.
  pub entry_block : (j b : ℕ) → b ≢ ip.addrs ndirect → (with_entry j).block b ≡ t.block b
  unfolding log_write
  entry_block j b e =
      update_ne t.block (ip.addrs ndirect) (put32 (t.block (ip.addrs ndirect)) (4 * j) n) b e

  pub entry_mark :
      (j b : ℕ) → ip.addrs ndirect ≢ 0 → b < sb.size → in_use sb (with_entry j) b ≡ in_use sb t b
  entry_mark j b z h =
      ap (λ (d : Block). bit_of d (b % bpb))
        (entry_block j (bblock sb b) ((f.indirect z).not_map b h))

  pub entry_Owned : (j b : ℕ) → ip.addrs ndirect ≢ 0 → Owned sb t b → Owned sb (with_entry j) b
  entry_Owned j b z o = record {
    inside = o.inside;
    used = entry_mark j b z o.inside ∙ o.used;
    not_map = o.not_map;
  }

  pub entry_IsDisk : (j : ℕ) → ip.addrs ndirect ≢ 0 → IsDisk sb (with_entry j)
  unfolding log_write
  entry_IsDisk j z = record {
    small = v.small;
    bytes = λ b i. elim (ℕ_discrete b (ip.addrs ndirect)) [
      | yes e ↦
          rw
            (
              e,
              update_self t.block (ip.addrs ndirect) (put32 (t.block (ip.addrs ndirect)) (4 * j) n),
            )
            (put32_small (t.block (ip.addrs ndirect)) (4 * j) n i
              (a.valid.bytes (ip.addrs ndirect) i))
      | no e ↦ rw (entry_block j b e) (a.valid.bytes b i)
    ];
    boot = entry_mark j 0 z (omega (arith, a.inside)) ∙ a.valid.boot;
    bitmap = λ c h. (
      (a.valid.bitmap c h).0,
      entry_mark j (bblock sb c) z ((a.valid.bitmap c h).0) ∙ (a.valid.bitmap c h).1,
    );
  }
