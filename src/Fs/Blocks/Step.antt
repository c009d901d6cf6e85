-- ===== src/Fs/Blocks/Step.antt =====
-- What adding a block does to a file's block map.
use project_priv.Prelude.{
  ℕ, ◌+◌, ◌-◌, ◌<◌, ◌≤◌, ◌≡◌, ◌≢◌, inl, inr, refl, sym, ap, ◌∙◌, true, false, ◌==◌, if◌then◌else◌,
  arith, update_self, update_ne, eq→==, ne→==, lt→ltb, Bool-cases, subst,
}
use mathlib.Core.Bool.{false≢true}
use project_priv.Fs.{Block, ndirect, maxfile, Superblock, Disk}
use project_priv.Fs.Bitmap.Search.{in_use, IsDisk}
use project_priv.Fs.Bitmap.Balloc.{Allocated, used_ne}
use project_priv.Fs.Inode.{Inode}
use project_priv.Fs.Blocks.{set_addr}
use project_priv.Fs.Blocks.Mapping.{
  lookup, Owned, IsFile, Owned-Allocated, content-Allocated, new-Owned,
}
use project_priv.Fs.Blocks.Fill.{
  filled-IsFile, fill_direct, fill_table, fill_indirect, with_entry, entry_block, entry_Owned,
  entry_IsDisk, entry_mark,
}
use project_priv.Fs.Blocks.Cases.{Mapped}

-- An entry of the map that is read and one that is not.
if_at : (m bn x y : ℕ) → m ≡ bn → (if m == bn then x else y) ≡ x
if_at m bn x y e = rw (eq→== m bn e) refl

if_off : (m bn x y : ℕ) → m ≢ bn → (if m == bn then x else y) ≡ y
if_off m bn x y e = rw (ne→== m bn e) refl

module _ (sb : Superblock) (ip : Inode) (s : Disk) (n : ℕ) (t : Disk) (v : IsDisk sb s)
    (f : IsFile sb ip s) (a : Allocated sb s n t) (nz : n ≢ 0) where
  keeps_used : (b : ℕ) → b < sb.size → in_use sb s b ≡ true → in_use sb t b ≡ true
  keeps_used b h u = a.marks b h ∙ ground (arith, u)

  pub direct-Mapped :
      (bn : ℕ) → bn < ndirect → ip.addrs bn ≡ 0 → Mapped sb ip s bn n (set_addr bn n ip) t
  direct-Mapped bn h z =
      let zero_before : lookup ip s bn ≡ 0 = rw (lt→ltb bn ndirect h) z in
      record {
        at = fill_direct sb ip s n t v f a bn bn h ∙ if_at bn bn n _ refl;
        others = λ m l e. fill_direct sb ip s n t v f a bn m h ∙ if_off m bn n _ e;
        old = λ w. absurd (w zero_before);
        new = λ w q. (a.inside, a.was_free, a.zeroed);
        content = λ b o q. content-Allocated sb s n t v a b o;
        keeps = keeps_used;
        full = λ e. absurd (nz e);
        table = λ b o q e. q (e ∙ update_ne ip.addrs bn n ndirect (λ x. omega (arith, x, h)));
        size = refl;
        inum = refl;
        disk = a.valid;
        file =
            filled-IsFile sb ip (set_addr bn n ip) s t bn n f nz a.was_free
              (Owned-Allocated sb s n t v a) (new-Owned sb s n t v a)
              (update_ne ip.addrs bn n ndirect (λ e. omega (arith, e, h)))
              (λ m l. fill_direct sb ip s n t v f a bn m h);
      }

  pub indirect-Mapped :
      (bn : ℕ)
      → ndirect ≤ bn
      → bn < maxfile
      → ip.addrs ndirect ≢ 0
      → lookup ip s bn ≡ 0
      → Mapped sb ip s bn n ip (with_entry sb ip s n t v f a (bn - ndirect))
  indirect-Mapped bn h l z zero_before =
      let j = bn - ndirect in
      let back : ndirect + j ≡ bn = omega arith in
      let fill : (m : ℕ)
          → lookup ip (with_entry sb ip s n t v f a j) m ≡ (if m == bn then n else lookup ip s m) =
        λ m.
          fill_indirect sb ip s n t v f a j m z (omega arith)
          ∙ ap (λ (x : ℕ). if m == x then n else lookup ip s m) back in
      let not_table : n ≢ ip.addrs ndirect =
        λ e. used_ne sb s (ip.addrs ndirect) n (f.indirect z).used a.was_free (sym e) in
      record {
        at = fill bn ∙ if_at bn bn n _ refl;
        others = λ m g e. fill m ∙ if_off m bn n _ e;
        old = λ w. absurd (w zero_before);
        new = λ w q. (
          a.inside,
          a.was_free,
          λ i. ap (λ (d : Block). d i) (entry_block sb ip s n t v f a j n not_table) ∙ a.zeroed i,
        );
        content = λ b o q. entry_block sb ip s n t v f a j b q ∙ content-Allocated sb s n t v a b o;
        table = λ b o q. q;
        full = λ e. absurd (nz e);
        keeps = λ b g u. entry_mark sb ip s n t v f a j b z g ∙ keeps_used b g u;
        size = refl;
        inum = refl;
        disk = entry_IsDisk sb ip s n t v f a j z;
        file =
            filled-IsFile sb ip ip s (with_entry sb ip s n t v f a j) bn n f nz a.was_free
              (λ b o. entry_Owned sb ip s n t v f a j b z (Owned-Allocated sb s n t v a b o))
              (entry_Owned sb ip s n t v f a j n z (new-Owned sb s n t v a)) refl (λ m g. fill m);
      }

  -- The file with a new indirect block.
  pub table-IsFile : ip.addrs ndirect ≡ 0 → IsFile sb (set_addr ndirect n ip) t
  table-IsFile z =
      let same : (m : ℕ) → lookup (set_addr ndirect n ip) t m ≡ lookup ip s m =
        λ m. fill_table sb ip s n t v f a m z nz in
      let table : (set_addr ndirect n ip).addrs ndirect ≡ n = update_self ip.addrs ndirect n in
      let before : (m : ℕ) → lookup (set_addr ndirect n ip) t m ≢ 0 → lookup ip s m ≢ 0 =
        λ m w q. w (same m ∙ q) in
      record {
        owned = λ m h w.
            subst (Owned sb t) (sym (same m))
              (Owned-Allocated sb s n t v a (lookup ip s m) (f.owned m h (before m w)));
        indirect = λ w. subst (Owned sb t) (sym table) (new-Owned sb s n t v a);
        distinct = λ m k h g w e. f.distinct m k h g (before m w) (sym (same m) ∙ e ∙ same k);
        apart = λ m h w e.
            used_ne sb s (lookup ip s m) n (f.owned m h (before m w)).used a.was_free
              (sym (same m) ∙ e ∙ table);
      }

  -- A step after a new indirect block, seen from before that block.
  pub after_table :
      (bn addr : ℕ) (ip' : Inode) (s' : Disk)
      → ip.addrs ndirect ≡ 0
      → bn < maxfile
      → Mapped sb (set_addr ndirect n ip) t bn addr ip' s'
      → Mapped sb ip s bn addr ip' s'
  after_table bn addr ip' s' z l m1 =
      let same : (m : ℕ) → lookup (set_addr ndirect n ip) t m ≡ lookup ip s m =
        λ m. fill_table sb ip s n t v f a m z nz in
      record {
        at = m1.at;
        others = λ m h e. m1.others m h e ∙ same m;
        old = λ w. m1.old (λ q. w (sym (same bn) ∙ q)) ∙ same bn;
        new = λ w q. let (i, g, y) = m1.new (same bn ∙ w) q in (i, free_before addr i g, y);
        content = λ b o q.
            m1.content b (Owned-Allocated sb s n t v a b o)
              (λ e. used_ne sb s b n o.used a.was_free (e ∙ update_self ip.addrs ndirect n))
            ∙ content-Allocated sb s n t v a b o;
        keeps = λ b h u. m1.keeps b h (keeps_used b h u);
        table = λ b o q.
            m1.table b (Owned-Allocated sb s n t v a b o)
              (λ e. used_ne sb s b n o.used a.was_free (e ∙ update_self ip.addrs ndirect n));
        full = m1.full;
        size = m1.size;
        inum = m1.inum;
        disk = m1.disk;
        file = m1.file;
      }
    where
      free_before : (b : ℕ) → b < sb.size → in_use sb t b ≡ false → in_use sb s b ≡ false
      free_before b h g = elim (Bool-cases (in_use sb s b)) [
        | inl u ↦ absurd (false≢true (sym g ∙ keeps_used b h u))
        | inr u ↦ u
      ]
