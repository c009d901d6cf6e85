-- ===== src/Vm.antt =====
-- kernel/vm.c: page tables.
-- `Ram` is the physical memory as bytes, and the free pages that kalloc hands out in this order; Kalloc has how
-- kernel/kalloc.c keeps that list in the pages themselves. `kernel_end` is the linker's symbol `end`.
-- The outer `none` of a result is a panic.
pub mod Words
pub mod Bits
pub mod Table
pub mod Extend
pub mod Walk
pub mod Leaf
pub mod Range
pub mod Page
pub mod Map
pub mod Unmap
pub mod Copy
pub mod User
mod Fetch
mod RoundTrip
mod Boot
mod Tests
use Prim.Native.Nat.{bit_or}
use project_priv.Prelude.{
  ◌>>=◌, ℕ, zero, suc, ◌+◌, ◌-◌, ◌*◌, ◌/◌, ◌%◌, ◌^◌, List, [], ◌∷◌, Option, none, some, Bool, true,
  false, not, ◌==◌, ◌&&◌, ◌||◌, if◌then◌else◌, ltb, leb,
}
use project_priv.Kalloc.{page_size, phystop}
use project_priv.Vm.Words.{load64, store64}

abbrev pub u64 : ℕ
u64 = 2 ^ 64

-- riscv.h: MAXVA
abbrev pub maxva : ℕ
maxva = 2 ^ 38

pub record Ram : Type 0 where
  pub byte : ℕ → ℕ
  pub free : List ℕ

-- `memset` of a page.
abbrev pub fill : ℕ → ℕ → (ℕ → ℕ) → ℕ → ℕ
fill p c b a = if leb p a && ltb a (p + page_size) then c else b a

-- `none` is the null pointer.
pub take_first : List ℕ → Ram → Option (ℕ × Ram)
take_first [] m = none
take_first (p ∷ ps) m = some (p, record { byte = fill p 5 m.byte; free = ps })

pub kalloc : Ram → Option (ℕ × Ram)
kalloc m = take_first m.free m

pub kfree : (kernel_end pa : ℕ) → Ram → Option Ram
kfree kernel_end pa m =
    if not (pa % page_size == 0) || ltb pa kernel_end || leb phystop pa
    then none
    else some (record { byte = fill pa 1 m.byte; free = pa ∷ m.free })

-- `va >> PXSHIFT(level)`
abbrev pub vpn : ℕ → ℕ → ℕ
vpn zero va = va / page_size
vpn (suc level) va = vpn level va / 512

-- `PX(level, va)`
abbrev pub px : ℕ → ℕ → ℕ
px level va = vpn level va % 512

-- `PA2PTE`, `PTE2PA`, `PTE_FLAGS`
abbrev pub pa2pte : ℕ → ℕ
pa2pte pa = pa / page_size * 1024

abbrev pub pte2pa : ℕ → ℕ
pte2pa pte = pte / 1024 * page_size % u64

abbrev pub pte_flags : ℕ → ℕ
pte_flags pte = pte % 1024

-- Whether a PTE has PTE_V, PTE_W, PTE_U.
abbrev pub is_valid : ℕ → Bool
is_valid pte = pte % 2 == 1

abbrev pub is_writable : ℕ → Bool
is_writable pte = pte / 4 % 2 == 1

abbrev pub is_user : ℕ → Bool
is_user pte = pte / 16 % 2 == 1

-- `PA2PTE(pa) | perm | PTE_V`
abbrev pub leaf_pte : (pa perm : ℕ) → ℕ
leaf_pte pa perm = bit_or (bit_or (pa2pte pa) perm) 1

abbrev pub set_byte : Ram → (ℕ → ℕ) → Ram
set_byte m b = record m { byte = b }

-- A page-table page that kalloc has given is cleared, and the PTE at `slot` made to point to it.
pub add_table : (slot q : ℕ) → Ram → Ram
add_table slot q m = set_byte m (store64 (fill q 0 m.byte) slot (bit_or (pa2pte q) 1))

-- The loop of `walk` from the page `p` of a level down: the PTE's address, or `none` for 0.
pub walk_from : (level : ℕ) → Ram → (p va : ℕ) → (alloc : Bool) → Option ℕ × Ram
walk_from zero m p va alloc = (some (p + 8 * px 0 va), m)
walk_from (suc l) m p va alloc =
    let slot = p + 8 * px (suc l) va in
    elim (is_valid (load64 m.byte slot)) [
      | true ↦ walk_from l m (pte2pa (load64 m.byte slot)) va alloc
      | false ↦ elim alloc [
        | false ↦ (none, m)
        | true ↦ elim (kalloc m) [
          | none ↦ (none, m)
          | some (q, m1) ↦ walk_from l (add_table slot q m1) q va true
        ]
      ]
    ]

pub walk : Ram → (pagetable va : ℕ) → (alloc : Bool) → Option (Option ℕ × Ram)
walk m pagetable va alloc = if leb maxva va then none else some (walk_from 2 m pagetable va alloc)

-- A walk that does not allocate.
pub find_pte : Ram → (pagetable va : ℕ) → Option ℕ
find_pte m pagetable va = (walk_from 2 m pagetable va false).0

-- The PTE, or 0 where there is no page for it.
abbrev pub pte_at : Ram → Option ℕ → ℕ
pte_at m none = 0
pte_at m (some s) = load64 m.byte s

pub walkaddr : Ram → (pagetable va : ℕ) → ℕ
walkaddr m pagetable va =
    let pte = pte_at m (find_pte m pagetable va) in
    if leb maxva va then 0 else if is_valid pte && is_user pte then pte2pa pte else 0

-- The loop of `mappages`, with `k` pages left; false for -1.
pub map_loop : (k : ℕ) → Ram → (pagetable a last pa perm : ℕ) → Option (Bool × Ram)
map_loop zero m pagetable a last pa perm = none
map_loop (suc k) m pagetable a last pa perm = do
  (slot, m1) ← walk m pagetable a true
  elim slot [
    | none ↦ some (false, m1)
    | some s ↦ elim (is_valid (load64 m1.byte s)) [
      | true ↦ none
      | false ↦
          let m2 = set_byte m1 (store64 m1.byte s (leaf_pte pa perm)) in
          elim (a == last) [
            | true ↦ some (true, m2)
            | false ↦ map_loop k m2 pagetable (a + page_size) last (pa + page_size) perm
          ]
    ]
  ]

pub mappages : Ram → (pagetable va size pa perm : ℕ) → Option (Bool × Ram)
mappages m pagetable va size pa perm =
    if not (va % page_size == 0)
    then none
    else if not (size % page_size == 0)
    then none
    else if size == 0
    then none
    else map_loop (size / page_size) m pagetable va ((va + size + u64 - page_size) % u64) pa perm

-- The loop of `uvmunmap`, with `k` pages left.
pub unmap_loop : (kernel_end k : ℕ) → Ram → (pagetable a : ℕ) → (do_free : Bool) → Option Ram
unmap_loop kernel_end zero m pagetable a do_free = some m
unmap_loop kernel_end (suc k) m pagetable a do_free = do
  (slot, m1) ← walk m pagetable a false
  s ← slot
  let pte = load64 m1.byte s
  elim (not (is_valid pte) || pte_flags pte == 1) [
    | true ↦ none
    | false ↦ do
      m2 ← elim do_free [ true ↦ kfree kernel_end (pte2pa pte) m1 | false ↦ some m1 ]
      unmap_loop kernel_end k (set_byte m2 (store64 m2.byte s 0)) pagetable (a + page_size) do_free
  ]

pub uvmunmap : (kernel_end : ℕ) → Ram → (pagetable va npages : ℕ) → (do_free : Bool) → Option Ram
uvmunmap kernel_end m pagetable va npages do_free =
    if not (va % page_size == 0) then none else unmap_loop kernel_end npages m pagetable va do_free
