-- ===== src/Kalloc.antt =====
-- kernel/kalloc.c: the list of free pages.
-- A page is its address, 0 for the null pointer, and `next` is the pointer in its first bytes.
-- `kernel_end` is the linker's symbol `end`. A function that panics gives `none`.
pub mod Chain
mod Tests
use project_priv.Prelude.{
  ◌>>=◌, ℕ, zero, suc, ◌+◌, ◌-◌, ◌*◌, ◌/◌, ◌%◌, Option, none, some, Bool, true, false, not, ◌||◌,
  ltb, leb, ◌==◌, if◌then◌else◌, update,
}

abbrev pub page_size : ℕ
page_size = 4096

-- memlayout.h: PHYSTOP
abbrev pub phystop : ℕ
phystop = 0x88000000

pub record Kmem : Type 0 where
  pub freelist : ℕ
  pub next : ℕ → ℕ

-- The pointer that a page begins with once it is filled with a byte.
abbrev pub filled : ℕ → ℕ
filled byte = byte * 0x0101010101010101

pub kfree : (kernel_end pa : ℕ) → Kmem → Option Kmem
kfree kernel_end pa k =
    let next = update k.next pa (filled 1) in
    if not (pa % page_size == 0) || ltb pa kernel_end || leb phystop pa
    then none
    else some (record { freelist = pa; next = update next pa k.freelist })

pub kalloc : Kmem → ℕ × Kmem
kalloc k =
    let r = k.freelist in
    if r == 0
    then (r, k)
    else (r, record { freelist = k.next r; next = update k.next r (filled 5) })

-- `PGROUNDUP`
abbrev pub page_round_up : ℕ → ℕ
page_round_up a = (a + page_size - 1) / page_size * page_size

-- The loop of `freerange`, on at most as many pages as there are.
pub free_pages : (fuel kernel_end p pa_end : ℕ) → Kmem → Option Kmem
free_pages zero kernel_end p pa_end k = some k
free_pages (suc n) kernel_end p pa_end k =
    if leb (p + page_size) pa_end
    then (do k1 ← kfree kernel_end p k; free_pages n kernel_end (p + page_size) pa_end k1)
    else some k

pub freerange : (kernel_end pa_start pa_end : ℕ) → Kmem → Option Kmem
freerange kernel_end pa_start pa_end k =
    free_pages (pa_end / page_size) kernel_end (page_round_up pa_start) pa_end k

-- `kmem` is static, so its list is empty.
pub kinit : (kernel_end : ℕ) (junk : ℕ → ℕ) → Option Kmem
kinit kernel_end junk =
    freerange kernel_end kernel_end phystop (record { freelist = 0; next = junk })
