-- ===== src/Fs/Content/Store.antt =====
-- A block of a file's content, or another block in use, is written.
use project_priv.Prelude.{
  ℕ, ◌-◌, ◌*◌, ◌%◌, ◌<◌, ◌≡◌, ◌≢◌, sym, ap, ◌∙◌, arith, ℕ_discrete, update_self, update_ne, subst,
  ltb, ◌==◌, if◌then◌else◌,
}
use mathlib.Core.Bool.{false≢true}
use project_priv.Fs.{Block, bpb, ndirect, maxfile, Superblock, Disk, bblock, log_write}
use project_priv.Fs.Bytes.{bit_of, get32}
use project_priv.Fs.Bitmap.Search.{in_use, IsDisk}
use project_priv.Fs.Inode.{Inode}
use project_priv.Fs.Blocks.Mapping.{lookup, Owned, IsFile}
use project_priv.Fs.Blocks.Cases.{Mapped}

-- A block in use that is none of the file's.
pub record Foreign (sb : Superblock) (i : ℕ) (ip : Inode) (s : Disk) : Type 0 where
  pub owned : Owned sb s i
  pub not_table : i ≢ ip.addrs ndirect
  pub not_content : (m : ℕ) → m < maxfile → lookup ip s m ≢ i

module _ (sb : Superblock) (ip : Inode) (s : Disk) (v : IsDisk sb s) (f : IsFile sb ip s) (b : ℕ)
    (d : Block) (o : Owned sb s b) (apart : b ≢ ip.addrs ndirect)
    (small : (i : ℕ) → d i < 256) where
  abbrev pub stored : Disk
  stored = log_write b d s

  pub stored_self : stored.block b ≡ d
  unfolding log_write
  stored_self = update_self s.block b d

  pub stored_ne : (c : ℕ) → c ≢ b → stored.block c ≡ s.block c
  unfolding log_write
  stored_ne c n = update_ne s.block b d c n

  pub lookup-stored : (m : ℕ) → lookup ip stored m ≡ lookup ip s m
  lookup-stored m =
      ap
        (λ (x : Block).
          if ltb m ndirect
          then ip.addrs m
          else if ip.addrs ndirect == 0
          then 0
          else get32 x (4 * (m - ndirect)))
        (stored_ne (ip.addrs ndirect) (λ e. apart (sym e)))

  mark-stored : (c : ℕ) → c < sb.size → in_use sb stored c ≡ in_use sb s c
  mark-stored c h = ap (λ (x : Block). bit_of x (c % bpb)) (stored_ne (bblock sb c) (o.not_map c h))

  pub Owned-stored : (c : ℕ) → Owned sb s c → Owned sb stored c
  Owned-stored c w = record {
    inside = w.inside;
    used = mark-stored c w.inside ∙ w.used;
    not_map = w.not_map;
  }

  pub IsDisk-stored : IsDisk sb stored
  IsDisk-stored = record {
    small = v.small;
    bytes = λ c i. elim (ℕ_discrete c b) [
      | yes e ↦ rw (e, stored_self) (small i)
      | no n ↦ rw (stored_ne c n) (v.bytes c i)
    ];
    boot = mark-stored 0 (omega (arith, o.inside)) ∙ v.boot;
    bitmap =
        λ c h. ((v.bitmap c h).0, mark-stored (bblock sb c) ((v.bitmap c h).0) ∙ (v.bitmap c h).1);
  }

  pub IsFile-stored : IsFile sb ip stored
  IsFile-stored =
      let before : (m : ℕ) → lookup ip stored m ≢ 0 → lookup ip s m ≢ 0 =
        λ m z q. z (lookup-stored m ∙ q) in
      record {
        owned = λ m h z.
            subst (Owned sb stored) (sym (lookup-stored m))
              (Owned-stored (lookup ip s m) (f.owned m h (before m z)));
        indirect = λ z. Owned-stored (ip.addrs ndirect) (f.indirect z);
        distinct = λ m k h g z e.
            f.distinct m k h g (before m z) (sym (lookup-stored m) ∙ e ∙ lookup-stored k);
        apart = λ m h z e. f.apart m h (before m z) (sym (lookup-stored m) ∙ e);
      }

  pub Foreign-stored : (i : ℕ) → Foreign sb i ip s → Foreign sb i ip stored
  Foreign-stored i w = record {
    owned = Owned-stored i w.owned;
    not_table = w.not_table;
    not_content = λ m h e. w.not_content m h (sym (lookup-stored m) ∙ e);
  }

module _ (sb : Superblock) (ip : Inode) (s : Disk) (bn addr : ℕ) (ip1 : Inode) (s1 : Disk)
    (f : IsFile sb ip s) (m1 : Mapped sb ip s bn addr ip1 s1) where
  -- Entries of the map that were there.
  pub lookup-Mapped : (m : ℕ) → m < maxfile → lookup ip s m ≢ 0 → lookup ip1 s1 m ≡ lookup ip s m
  lookup-Mapped m h z = elim (ℕ_discrete m bn) [
    | no n ↦ m1.others m h n
    | yes e ↦ rw e (m1.at ∙ m1.old (λ q. z (ap (lookup ip s) e ∙ q)))
  ]

  pub content-Mapped :
      (m : ℕ)
      → m < maxfile
      → lookup ip s m ≢ 0
      → s1.block (lookup ip1 s1 m) ≡ s.block (lookup ip s m)
  content-Mapped m h z =
      ap s1.block (lookup-Mapped m h z) ∙ m1.content (lookup ip s m) (f.owned m h z) (f.apart m h z)

  pub Foreign-Mapped : (i : ℕ) → bn < maxfile → i ≢ 0 → Foreign sb i ip s → Foreign sb i ip1 s1
  Foreign-Mapped i l nz w = record {
    owned = record {
      inside = w.owned.inside;
      used = m1.keeps i w.owned.inside w.owned.used;
      not_map = w.owned.not_map;
    };
    not_table = m1.table i w.owned w.not_table;
    not_content = λ m h e. elim (ℕ_discrete m bn) [
      | no n ↦ w.not_content m h (sym (m1.others m h n) ∙ e)
      | yes p ↦
          let same : addr ≡ i = sym m1.at ∙ ap (lookup ip1 s1) (sym p) ∙ e in
          elim (ℕ_discrete (lookup ip s bn) 0) [
            | no z ↦ w.not_content bn l (sym (m1.old z) ∙ same)
            | yes z ↦
                let (g, free, y) = m1.new z (λ q. nz (sym same ∙ q)) in
                false≢true (sym free ∙ ap (in_use sb s) same ∙ w.owned.used)
          ]
    ];
  }
