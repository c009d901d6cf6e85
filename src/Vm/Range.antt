-- ===== src/Vm/Range.antt =====
-- Entries of a range of addresses.
use project_priv.Prelude.{
  ℕ, ◌+◌, ◌-◌, ◌*◌, ◌/◌, ◌≤◌, ◌<◌, ◌≡◌, ◌⊎◌, inl, inr, refl, ap, some, Bool, true, false, ◌&&◌,
  if◌then◌else◌, leb, ltb, arith, Bool-cases, not_lt→ltb, lt→ltb,
}
use Prim.Native.Nat.{bit_or}
use project_priv.Kalloc.{page_size}
use project_priv.Vm.{Ram, maxva, pa2pte, leaf_pte, walk_from, walk}
use project_priv.Vm.Bits.{bit_or_low, bit_or_one}

pub leb-false : (a b : ℕ) → b < a → leb a b ≡ false
leb-false a b h = ground arith

-- A walk below MAXVA is the walk from the root.
pub walk_below :
    (m : Ram) (root va : ℕ) (alloc : Bool)
    → va < maxva
    → walk m root va alloc ≡ some (walk_from 2 m root va alloc)
unfolding walk
walk_below m root va alloc h = rw (walk, leb-false maxva va h) refl

pub leaf_pte_is :
    (pa perm : ℕ) → perm < 1024 → leaf_pte pa perm ≡ (pa / page_size * 1024 + perm) / 2 * 2 + 1
leaf_pte_is pa perm h = omega (
  arith,
  bit_or_one (bit_or (pa2pte pa) perm),
  ap (λ (z : ℕ). z / 2 * 2 + 1) (bit_or_low (pa / page_size) perm h),
)

-- A value for the `n` pages from `a` on, and another for the rest.
abbrev pub ranged : (n a va new old : ℕ) → ℕ
ranged n a va new old = if leb a va && ltb va (a + page_size * n) then new else old

pub ranged_in : (n a va new old : ℕ) → a ≤ va → va < a + page_size * n → ranged n a va new old ≡ new
ranged_in n a va new old h l = rw (leb_true a va h, lt→ltb va (a + page_size * n) l) refl
  where
    leb_true : (x y : ℕ) → x ≤ y → leb x y ≡ true
    leb_true x y q = ground arith

pub ranged_out :
    (n a va new old : ℕ) → (va < a) ⊎ (a + page_size * n ≤ va) → ranged n a va new old ≡ old
ranged_out n a va new old (inl h) = rw (leb-false a va h) refl
ranged_out n a va new old (inr h) = elim (Bool-cases (leb a va)) [
  | inr e ↦ rw e refl
  | inl e ↦ rw (e, not_lt→ltb va (a + page_size * n) h) refl
]

-- The entry of an address after `n` pages from `a` on have been mapped to `pa`.
abbrev pub mapped : (n a pa perm va old : ℕ) → ℕ
mapped n a pa perm va old =
    ranged n a va (leaf_pte (pa + (va / page_size - a / page_size) * page_size) perm) old

pub mapped_in :
    (n a pa perm va old : ℕ)
    → a ≤ va
    → va < a + page_size * n
    → mapped n a pa perm va old ≡ leaf_pte (pa + (va / page_size - a / page_size) * page_size) perm
mapped_in n a pa perm va old h l = ranged_in n a va _ old h l

pub mapped_out :
    (n a pa perm va old : ℕ) → (va < a) ⊎ (a + page_size * n ≤ va) → mapped n a pa perm va old ≡ old
mapped_out n a pa perm va old h = ranged_out n a va _ old h
