-- ===== src/Fs/Content/Writei.antt =====
-- `writei` replaces bytes of the file, and nothing else of it.
use project_priv.Prelude.{
  ◌>>=◌, ℕ, zero, suc, ◌+◌, ◌-◌, ◌*◌, ◌/◌, ◌%◌, ◌<◌, ◌≤◌, ◌≡◌, ◌≢◌, refl, ap, ◌∙◌, some, ltb,
  Bool-cases, inl, inr, arith, ne→==, eq→==, lt→ltb, not_lt→ltb, min, ℕ_discrete, subst,
}
use project_priv.Fs.{bsize, maxfile, Superblock, Disk, log_write}
use project_priv.Fs.Bitmap.Search.{IsDisk}
use project_priv.Fs.Inode.{Inode}
use project_priv.Fs.Blocks.{bmap}
use project_priv.Fs.Blocks.Mapping.{IsFile}
use project_priv.Fs.Blocks.Cases.{IsExhausted}
use project_priv.Fs.Blocks.Bmap.{bmap_lem}
use project_priv.Fs.Content.{chunk, put_bytes, write_loop}
use project_priv.Fs.Content.Store.{
  Foreign, IsDisk-stored, IsFile-stored, Foreign-stored, Foreign-Mapped,
}
use project_priv.Fs.Content.Write.{
  Replaced, mapped-Replaced, nothing-Replaced, Replaced-append, round-Replaced, after, written,
  written_small, at_addr, not_table,
}

-- Every byte of the writer can be read.
abbrev pub all_copied : ℕ → ℕ → ℕ
all_copied src m = m

write_loop_step :
    (sb : Superblock) (memory : ℕ → ℕ) (k src off n tot : ℕ) (ip : Inode) (s : Disk) (addr : ℕ)
    (ip1 : Inode) (s1 : Disk)
    → tot < n
    → bmap sb (off / bsize) ip s ≡ some (addr, ip1, s1)
    → addr ≢ 0
    → let m = chunk n tot off in
      write_loop sb memory all_copied (suc k) src off n tot ip s
      ≡ write_loop sb memory all_copied k
          (src + m)
          (off + m)
          n
          (tot + m)
          ip1
          (log_write addr (put_bytes memory (s1.block addr) (off % bsize) src m) s1)
unfolding write_loop
write_loop_step sb memory k src off n tot ip s addr ip1 s1 less e got =
    let m = chunk n tot off in
    let all : min m m ≡ m = omega arith in
    rw
      (write_loop, lt→ltb tot n less, e, ◌>>=◌, ne→== addr 0 got, not_lt→ltb m m (omega arith), all)
      refl

module _ (sb : Superblock) (memory : ℕ → ℕ) (small : (a : ℕ) → memory a < 256) (i : ℕ)
    (nz : i ≢ 0) where
  -- How the loop ends, from `tot` bytes on.
  pub record Loops (k src off n tot : ℕ) (ip : Inode) (s : Disk) : Type 0 where
    pub total : ℕ
    pub inode : Inode
    pub disk : Disk
    pub result :
        write_loop sb memory all_copied k src off n tot ip s
        ≡ some (total, off + (total - tot), inode, disk)
    pub from : tot ≤ total
    pub upto : total ≤ n
    pub short : total < n → IsExhausted sb disk
    pub replaced : Replaced memory src off (off + (total - tot)) ip s inode disk
    pub foreign : Foreign sb i inode disk
    pub size : inode.size ≡ ip.size
    pub inum : inode.inum ≡ ip.inum

  stops :
      (k src off n tot : ℕ) (ip : Inode) (s : Disk) (ip1 : Inode) (s1 : Disk)
      → write_loop sb memory all_copied k src off n tot ip s ≡ some (tot, off, ip1, s1)
      → tot ≤ n
      → (tot < n → IsExhausted sb s1)
      → Replaced memory src off off ip s ip1 s1
      → Foreign sb i ip1 s1
      → ip1.size ≡ ip.size
      → ip1.inum ≡ ip.inum
      → Loops k src off n tot ip s
  stops k src off n tot ip s ip1 s1 e h g r w p q =
      let same : off + (tot - tot) ≡ off = omega arith in
      record {
        total = tot;
        inode = ip1;
        disk = s1;
        result = rw same e;
        from = omega arith;
        upto = h;
        short = g;
        replaced = rw same r;
        foreign = w;
        size = p;
        inum = q;
      }

  continues :
      (k src off n tot m : ℕ) (ip : Inode) (s : Disk) (ip1 : Inode) (s1 : Disk)
      → write_loop sb memory all_copied (suc k) src off n tot ip s
        ≡ write_loop sb memory all_copied k (src + m) (off + m) n (tot + m) ip1 s1
      → Replaced memory src off (off + m) ip s ip1 s1
      → ip1.size ≡ ip.size
      → ip1.inum ≡ ip.inum
      → Loops k (src + m) (off + m) n (tot + m) ip1 s1
      → Loops (suc k) src off n tot ip s
  continues k src off n tot m ip s ip1 s1 step piece p q rest =
      let end : off + m + (rest.total - (tot + m)) ≡ off + (rest.total - tot) =
        omega (arith, rest.from) in
      let next : src + m ≡ src + (off + m - off) = omega arith in
      record {
        total = rest.total;
        inode = rest.inode;
        disk = rest.disk;
        result =
            step ∙ rest.result ∙ ap (λ (x : ℕ). some (rest.total, x, rest.inode, rest.disk)) end;
        from = omega (arith, rest.from);
        upto = rest.upto;
        short = rest.short;
        replaced =
            Replaced-append memory src off (off + m) (off + (rest.total - tot)) ip s ip1 s1
              rest.inode rest.disk (omega arith) (omega (arith, rest.from)) piece
              (subst
                (λ (a : ℕ).
                  Replaced memory a (off + m) (off + (rest.total - tot)) ip1 s1 rest.inode
                    rest.disk)
                next
                (subst
                  (λ (x : ℕ). Replaced memory (src + m) (off + m) x ip1 s1 rest.inode rest.disk) end
                  rest.replaced));
        foreign = rest.foreign;
        size = rest.size ∙ p;
        inum = rest.inum ∙ q;
      }

  pub write_loop-Loops :
      (k src off n tot : ℕ) (ip : Inode) (s : Disk)
      → IsDisk sb s
      → IsFile sb ip s
      → Foreign sb i ip s
      → n - tot ≤ k
      → tot ≤ n
      → off + (n - tot) ≤ maxfile * bsize
      → Loops k src off n tot ip s
  unfolding write_loop
  write_loop-Loops zero src off n tot ip s v f w h l b =
      stops zero src off n tot ip s ip s refl l (λ r. absurd (omega arith))
        (nothing-Replaced memory src off ip s) w refl refl
  write_loop-Loops (suc k) src off n tot ip s v f w h l b = elim (Bool-cases (ltb tot n)) [
    | inr e ↦
        stops (suc k) src off n tot ip s ip s (rw (write_loop, e) refl) l
          (λ r. absurd (ground (arith, e))) (nothing-Replaced memory src off ip s) w refl refl
    | inl e ↦
        let less : tot < n = ground (arith, e) in
        let bn : off / bsize < maxfile = omega arith in
        let maps = bmap_lem sb (off / bsize) ip s v f bn in
        let m1 = maps.mapped in
        let w1 =
          Foreign-Mapped sb ip s (off / bsize) maps.addr maps.inode maps.after f m1 i bn nz w in
        elim (ℕ_discrete maps.addr 0) [
          | yes z ↦
              stops (suc k) src off n tot ip s maps.inode maps.after
                (rw (write_loop, e, maps.result, ◌>>=◌, eq→== maps.addr 0 z) refl) l
                (λ r. m1.full z)
                (mapped-Replaced sb memory src off ip s (off / bsize) maps.addr maps.inode
                  maps.after f m1)
                w1 m1.size m1.inum
          | no got ↦
              let m = chunk n tot off in
              let some_bytes : 0 < m = omega arith in
              let fits : off % bsize + m ≤ bsize = omega arith in
              let own =
                at_addr sb memory small ip s off maps.addr maps.inode maps.after f m1 got bn src
                  m in
              let apart =
                not_table sb memory small ip s off maps.addr maps.inode maps.after f m1 got bn src
                  m in
              let bytes =
                written_small sb memory small ip s off maps.addr maps.inode maps.after f m1 got bn
                  src m in
              let d =
                written sb memory small ip s off maps.addr maps.inode maps.after f m1 got bn src
                  m in
              let s2 =
                after sb memory small ip s off maps.addr maps.inode maps.after f m1 got bn src m in
              continues k src off n tot m ip s maps.inode s2
                (write_loop_step sb memory k src off n tot ip s maps.addr maps.inode maps.after less
                  maps.result got)
                (round-Replaced sb memory small ip s off maps.addr maps.inode maps.after f m1 got bn
                  src m fits)
                m1.size m1.inum
                (write_loop-Loops k (src + m) (off + m) n (tot + m) maps.inode s2
                  (IsDisk-stored sb maps.inode maps.after m1.disk m1.file maps.addr d own apart
                    bytes)
                  (IsFile-stored sb maps.inode maps.after m1.disk m1.file maps.addr d own apart
                    bytes)
                  (Foreign-stored sb maps.inode maps.after m1.disk m1.file maps.addr d own apart
                    bytes i w1)
                  (omega arith) (omega arith) (omega arith))
        ]
  ]
