-- ===== src/Fs/Bitmap/Balloc.antt =====
-- `balloc`: a block that was free, and nothing else, becomes used, or none was free.
use project_priv.Prelude.{
  ℕ, zero, suc, dec_lt, ◌-◌, ◌+◌, ◌*◌, ◌/◌, ◌%◌, ◌≤◌, ◌<◌, ◌≡◌, ◌≢◌, ◌⊎◌, refl, sym, ap, ◌∙◌, true,
  false, ltb, Bool-cases, Option-cases, inl, inr, arith, ℕ_discrete, if◌then◌else◌, ◌==◌, update,
  update_self, update_ne, eq→==, ne→==, [], ◌∷◌, ◌++◌, append_assoc,
}
use mathlib.Core.Bool.{false≢true}
use project_priv.Fs.{Block, bpb, Superblock, Disk, bblock, log_write, bzero}
use project_priv.Fs.Bytes.{bit_of, set_bit, bit_of-set_bit, set_bit_small}
use project_priv.Fs.Bitmap.{free_bit, balloc_loop, balloc}
use project_priv.Fs.Bitmap.Search.{in_use, IsDisk, free_bit-Found, free_bit-none}

-- Block `b` was free, and now it is in use and full of zeros.
pub record Allocated (sb : Superblock) (s : Disk) (b : ℕ) (t : Disk) : Type 0 where
  pub inside : b < sb.size
  pub was_free : in_use sb s b ≡ false
  pub marks : (c : ℕ) → c < sb.size → in_use sb t c ≡ (if c == b then true else in_use sb s c)
  pub zeroed : (i : ℕ) → t.block b i ≡ 0
  pub others : (c : ℕ) → c ≢ b → c ≢ bblock sb b → t.block c ≡ s.block c
  pub logged : t.logged ≡ s.logged ++ (bblock sb b ∷ b ∷ [])
  pub valid : IsDisk sb t

-- Two blocks, one used and one not, are different.
pub used_ne :
    (sb : Superblock) (s : Disk) (b c : ℕ) → in_use sb s b ≡ true → in_use sb s c ≡ false → b ≢ c
used_ne sb s b c p q e = false≢true (sym q ∙ ap (in_use sb s) (sym e) ∙ p)

module _ (sb : Superblock) (s : Disk) (v : IsDisk sb s) (b : ℕ) (lt : b < sb.size)
    (free : in_use sb s b ≡ false) where
  abbrev map_block : ℕ
  map_block = bblock sb b

  abbrev marked : Block
  marked = set_bit (s.block map_block) (b % bpb)

  abbrev after : Disk
  after = bzero b (log_write map_block marked s)

  at_map : after.block map_block ≡ marked
  unfolding bzero
  at_map =
      update_ne (update s.block map_block marked) b _ map_block
        (used_ne sb s map_block b ((v.bitmap b lt).1) free)
      ∙ update_self s.block map_block marked

  elsewhere : (c : ℕ) → c ≢ b → c ≢ map_block → after.block c ≡ s.block c
  unfolding bzero
  elsewhere c n m =
      update_ne (update s.block map_block marked) b _ c n ∙ update_ne s.block map_block marked c m

  same_block :
      (c : ℕ)
      → bblock sb c ≡ map_block
      → (if c % bpb == b % bpb then true else bit_of (s.block map_block) (c % bpb))
        ≡ (if c == b then true else in_use sb s c)
  same_block c e = elim (ℕ_discrete c b) [
    | yes q ↦ rw (eq→== (c % bpb) (b % bpb) (ap (λ (x : ℕ). x % bpb) q), eq→== c b q) refl
    | no n ↦
        rw (ne→== (c % bpb) (b % bpb) (λ q. n (omega (arith, e, q))), ne→== c b n)
          (ap (λ (m : ℕ). bit_of (s.block m) (c % bpb)) (sym e))
  ]

  marks : (c : ℕ) → c < sb.size → in_use sb after c ≡ (if c == b then true else in_use sb s c)
  marks c h = elim (ℕ_discrete (bblock sb c) map_block) [
    | no n ↦
        ap (λ (d : Block). bit_of d (c % bpb))
          (elsewhere (bblock sb c) (used_ne sb s (bblock sb c) b ((v.bitmap c h).1) free) n)
        ∙ rw (ne→== c b (λ e. n (ap (bblock sb) e))) refl
    | yes e ↦
        ap (λ (m : ℕ). bit_of (after.block m) (c % bpb)) e
        ∙ ap (λ (d : Block). bit_of d (c % bpb)) at_map
        ∙ bit_of-set_bit (s.block map_block) (b % bpb) (v.bytes map_block) (c % bpb)
        ∙ same_block c e
  ]

  stays : (c : ℕ) → c < sb.size → in_use sb s c ≡ true → in_use sb after c ≡ true
  stays c h u = marks c h ∙ ground (arith, u)

  after_bytes : (c i : ℕ) → after.block c i < 256
  unfolding bzero
  after_bytes c i = elim (ℕ_discrete c b) [
    | yes e ↦ rw (e, update_self (update s.block map_block marked) b (λ j. 0)) (omega arith)
    | no n ↦ elim (ℕ_discrete c map_block) [
      | yes e ↦ rw (e, at_map) (set_bit_small (s.block map_block) (b % bpb) (v.bytes map_block) i)
      | no m ↦ rw (elsewhere c n m) (v.bytes c i)
    ]
  ]

  after-Allocated : Allocated sb s b after
  unfolding bzero
  after-Allocated = record {
    inside = lt;
    was_free = free;
    marks = marks;
    zeroed =
        λ i. ap (λ (d : Block). d i) (update_self (update s.block map_block marked) b (λ j. 0));
    others = elsewhere;
    logged = append_assoc s.logged (map_block ∷ []) (b ∷ []);
    valid = record {
      small = v.small;
      bytes = after_bytes;
      boot = stays 0 (omega arith) v.boot;
      bitmap = λ c h. ((v.bitmap c h).0, stays (bblock sb c) ((v.bitmap c h).0) ((v.bitmap c h).1));
    };
  }

-- The loop has found nothing in the part of the bitmap that it read, or it has allocated a block.
balloc_loop-cases :
    (k b : ℕ) (sb : Superblock) (s : Disk)
    → IsDisk sb s
    → b % bpb ≡ 0
    → ((balloc_loop k b sb s ≡ (0, s))
        × ((c : ℕ) → b ≤ c → c < b + k * bpb → c < sb.size → in_use sb s c ≡ true))
      ⊎ ((n : ℕ) × (t : Disk) × (balloc_loop k b sb s ≡ (n, t)) × Allocated sb s n t)
unfolding balloc_loop
balloc_loop-cases zero b sb s v a = inl (refl, λ c p q r. absurd (omega arith))
balloc_loop-cases (suc k) b sb s v a = elim (Bool-cases (ltb b sb.size)) [
  | inr h ↦ inl (rw (balloc_loop, h) refl, λ c p q r. absurd (ground (arith, h)))
  | inl h ↦ elim (Option-cases (free_bit bpb 0 b sb.size (s.block (bblock sb b)))) [
    | inr (bi, e) ↦
        let f = free_bit-Found bpb 0 b sb.size bi (s.block (bblock sb b)) e in
        let q : bblock sb (b + bi) ≡ bblock sb b = omega (arith, f.below) in
        let m : (b + bi) % bpb ≡ bi = omega (arith, f.below) in
        let free : in_use sb s (b + bi) ≡ false = rw (q, m) f.clear in
        inr (
          b + bi,
          after sb s v (b + bi) f.inside free,
          rw (balloc_loop, h, e) (rw (q, m) refl),
          after-Allocated sb s v (b + bi) f.inside free,
        )
    | inl e ↦ elim (balloc_loop-cases k (b + bpb) sb s v (omega arith)) [
      | inr (n, t, r, w) ↦ inr (n, t, rw (balloc_loop, h, e) r, w)
      | inl (r, none_left) ↦ inl (
        rw (balloc_loop, h, e) r,
        λ c p q u. elim (dec_lt c (b + bpb)) [
          | no far ↦ none_left c (omega arith) (omega arith) u
          | yes near ↦
              let o : bblock sb c ≡ bblock sb b = omega arith in
              let m : c % bpb ≡ c - b = omega arith in
              rw (o, m)
                (free_bit-none bpb 0 b sb.size (c - b) (s.block (bblock sb b)) e (omega arith)
                  (omega arith) (omega arith))
        ],
      )
    ]
  ]
]

-- On a disk whose bitmap marks its own blocks and the boot block, `balloc` returns 0 and changes nothing
-- when every block is in use, and otherwise returns a block that was free: it is then in use and zero,
-- no other block's mark has changed, and no other block but that of its mark.
pub balloc_lem :
    (sb : Superblock) (s : Disk)
    → IsDisk sb s
    → ((balloc sb s ≡ (0, s)) × ((c : ℕ) → c < sb.size → in_use sb s c ≡ true))
      ⊎ ((n : ℕ) × (t : Disk) × (balloc sb s ≡ (n, t)) × (n ≢ 0) × Allocated sb s n t)
unfolding balloc
balloc_lem sb s v = elim (balloc_loop-cases (sb.size / bpb + 1) 0 sb s v refl) [
  | inl (r, full) ↦ inl (r, λ c h. full c (omega arith) (omega arith) h)
  | inr (n, t, r, a) ↦
      inr (n, t, r, (λ z. false≢true (sym a.was_free ∙ ap (in_use sb s) z ∙ v.boot)), a)
]
