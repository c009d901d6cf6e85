-- ===== src/Fs/Content/Saved.antt =====
-- `writei` ends by storing the inode, which touches no byte of the file.
use project_priv.Prelude.{
  ◌>>=◌, ℕ, ◌+◌, ◌-◌, ◌*◌, ◌/◌, ◌%◌, ◌<◌, ◌≤◌, ◌≡◌, ◌≢◌, refl, sym, ap, ◌∙◌, some, false, ltb, ◌==◌,
  if◌then◌else◌, Bool-cases, inl, inr, arith, not_lt→ltb, max, add32, subst, update_ne,
}
use project_priv.Fs.{
  Block, bsize, bpb, bblock, ndirect, maxfile, Superblock, Disk, iblock, log_write,
}
use project_priv.Fs.Bytes.{get32, bit_of}
use project_priv.Fs.Bitmap.Search.{IsDisk}
use project_priv.Fs.Inode.{Inode, iupdate}
use project_priv.Fs.Blocks.Mapping.{lookup, IsFile}
use project_priv.Fs.Blocks.Cases.{IsExhausted}
use project_priv.Fs.Content.{write_loop, writei}
use project_priv.Fs.Content.Bytes.{byte_at}
use project_priv.Fs.Content.Store.{Foreign}
use project_priv.Fs.Content.Write.{Replaced}
use project_priv.Fs.Content.Writei.{all_copied, write_loop-Loops}

-- The same inode with another size.
abbrev resized : Inode → ℕ → Inode
resized ip end = if ltb ip.size end then record ip { size = end } else ip

resized_addrs : (ip : Inode) (end : ℕ) → (resized ip end).addrs ≡ ip.addrs
resized_addrs ip end = elim (Bool-cases (ltb ip.size end)) [ inl e ↦ rw e refl | inr e ↦ rw e refl ]

resized_inum : (ip : Inode) (end : ℕ) → (resized ip end).inum ≡ ip.inum
resized_inum ip end = elim (Bool-cases (ltb ip.size end)) [ inl e ↦ rw e refl | inr e ↦ rw e refl ]

resized_size : (ip : Inode) (end : ℕ) → (resized ip end).size ≡ max ip.size end
resized_size ip end = elim (Bool-cases (ltb ip.size end)) [
  | inl e ↦ rw e (ground (arith, e))
  | inr e ↦ rw e (ground (arith, e))
]

module _ (sb : Superblock) (ip ip' : Inode) (s : Disk) (w : Foreign sb (iblock sb ip'.inum) ip s)
    (same : ip'.addrs ≡ ip.addrs) where
  saved_ne : (b : ℕ) → b ≢ iblock sb ip'.inum → (iupdate sb ip' s).block b ≡ s.block b
  unfolding iupdate log_write
  saved_ne b n = update_ne s.block (iblock sb ip'.inum) _ b n

  full-saved : IsExhausted sb s → IsExhausted sb (iupdate sb ip' s)
  full-saved h c l =
      ap (λ (x : Block). bit_of x (c % bpb)) (saved_ne (bblock sb c) (w.owned.not_map c l)) ∙ h c l

  lookup-saved : (m : ℕ) → lookup ip' (iupdate sb ip' s) m ≡ lookup ip s m
  lookup-saved m =
      ap
        (λ (a : ℕ → ℕ).
          if ltb m ndirect
          then a m
          else if a ndirect == 0
          then 0
          else get32 ((iupdate sb ip' s).block (a ndirect)) (4 * (m - ndirect)))
        same
      ∙ ap
          (λ (x : Block).
            if ltb m ndirect
            then ip.addrs m
            else if ip.addrs ndirect == 0
            then 0
            else get32 x (4 * (m - ndirect)))
          (saved_ne (ip.addrs ndirect) (λ e. w.not_table (sym e)))

  byte-saved : (x : ℕ) → x < maxfile * bsize → byte_at ip' (iupdate sb ip' s) x ≡ byte_at ip s x
  byte-saved x h =
      ap (λ (b : ℕ). (iupdate sb ip' s).block b (x % bsize)) (lookup-saved (x / bsize))
      ∙ ap (λ (d : Block). d (x % bsize))
          (saved_ne (lookup ip s (x / bsize)) (w.not_content (x / bsize) (omega arith)))

  Replaced-saved :
      (memory : ℕ → ℕ) (src off end : ℕ) (ip0 : Inode) (s0 : Disk)
      → Replaced memory src off end ip0 s0 ip s
      → Replaced memory src off end ip0 s0 ip' (iupdate sb ip' s)
  Replaced-saved memory src off end ip0 s0 r = record {
    there = λ x h p q z. r.there x h p q (sym (lookup-saved (x / bsize)) ∙ z);
    bytes = λ x h p q. byte-saved x h ∙ r.bytes x h p q;
    stays = λ m h z q. r.stays m h z (sym (lookup-saved m) ∙ q);
    others = λ x h z e. byte-saved x h ∙ r.others x h z e;
  }

-- `writei` past its guards.
writei_run :
    (sb : Superblock) (memory : ℕ → ℕ) (src off n : ℕ) (ip : Inode) (s : Disk) (total end : ℕ)
    (ip1 : Inode) (s1 : Disk)
    → off ≤ ip.size
    → off + n ≤ maxfile * bsize
    → write_loop sb memory all_copied n src off n 0 ip s ≡ some (total, end, ip1, s1)
    → writei sb memory all_copied src off n ip s
      ≡ some (some total, resized ip1 end, iupdate sb (resized ip1 end) s1)
unfolding writei
writei_run sb memory src off n ip s total end ip1 s1 before room run =
    let past : ltb ip.size off ≡ false = not_lt→ltb ip.size off (omega arith) in
    let wraps : ltb (add32 off n) off ≡ false = not_lt→ltb (add32 off n) off (omega arith) in
    let large : ltb (maxfile * bsize) (off + n) ≡ false =
      not_lt→ltb (maxfile * bsize) (off + n) (omega arith) in
    rw (writei, past, wraps, large, run, ◌>>=◌) refl

-- On a sound disk, with a sound file whose inode is stored in a block in use that is neither block
-- 0 nor one of the file's own, and when every byte of the writer can be read and is a byte,
-- `writei` of `n` bytes at an offset that is not past the file's end, with the offset and `n`
-- together at most the largest file, does not panic. It returns how many of them it wrote, which is
-- fewer only if every block is now in use; these stand from the offset on, every other byte of a
-- block that the file had is as it was, no block of the file is lost, and the size has become the
-- end of what was written, if that is larger.
pub writei_lem :
    (sb : Superblock) (memory : ℕ → ℕ) (src off n : ℕ) (ip : Inode) (s : Disk)
    → ((a : ℕ) → memory a < 256)
    → IsDisk sb s
    → IsFile sb ip s
    → Foreign sb (iblock sb ip.inum) ip s
    → iblock sb ip.inum ≢ 0
    → off ≤ ip.size
    → off + n ≤ maxfile * bsize
    → (total : ℕ) × (ip' : Inode) × (s' : Disk) × (writei sb memory all_copied src off n ip s
        ≡ some (some total, ip', s'))
      × (total ≤ n)
      × (total < n → IsExhausted sb s')
      × (ip'.size ≡ max ip.size (off + total))
      × Replaced memory src off (off + total) ip s ip' s'
writei_lem sb memory src off n ip s small v f w nz before room =
    let r =
      write_loop-Loops sb memory small (iblock sb ip.inum) nz n src off n 0 ip s v f w (omega arith)
        (omega arith) (omega arith) in
    let end : off + (r.total - 0) ≡ off + r.total = omega arith in
    let ip' = resized r.inode (off + r.total) in
    let inum : ip'.inum ≡ ip.inum = resized_inum r.inode (off + r.total) ∙ r.inum in
    (
      r.total,
      ip',
      iupdate sb ip' r.disk,
      writei_run sb memory src off n ip s r.total (off + r.total) r.inode r.disk before room
          (r.result ∙ ap (λ (x : ℕ). some (r.total, x, r.inode, r.disk)) end),
      r.upto,
      (λ h.
          full-saved sb r.inode ip' r.disk
            (subst (λ (x : ℕ). Foreign sb (iblock sb x) r.inode r.disk) (sym inum) r.foreign)
            (resized_addrs r.inode (off + r.total)) (r.short h)),
      resized_size r.inode (off + r.total) ∙ ap (λ (x : ℕ). max x (off + r.total)) r.size,
      Replaced-saved sb r.inode ip' r.disk
          (subst (λ (x : ℕ). Foreign sb (iblock sb x) r.inode r.disk) (sym inum) r.foreign)
          (resized_addrs r.inode (off + r.total)) memory src off (off + r.total) ip s
          (subst (λ (x : ℕ). Replaced memory src off x ip s r.inode r.disk) end r.replaced),
    )
