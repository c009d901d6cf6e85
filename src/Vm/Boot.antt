-- ===== src/Vm/Boot.antt =====
-- kernel/vm.c and kernel/proc.c: the kernel's own page table.
-- `etext` and `trampoline` are the linker's symbols.
use project_priv.Prelude.{◌>>=◌, ℕ, zero, suc, ◌+◌, ◌-◌, ◌*◌, Option, none, some, if◌then◌else◌}
use project_priv.Kalloc.{page_size, phystop}
use project_priv.Vm.{Ram, fill, kalloc, set_byte, mappages}
use project_priv.Vm.User.{trampoline_va, pte_r, pte_w, pte_x}

abbrev uart0 : ℕ
uart0 = 0x10000000

abbrev virtio0 : ℕ
virtio0 = 0x10001000

abbrev plic : ℕ
plic = 0x0c000000

abbrev kernbase : ℕ
kernbase = 0x80000000

-- `KSTACK(p)`
abbrev kstack : ℕ → ℕ
kstack p = trampoline_va - (p + 1) * 2 * page_size

kvmmap : Ram → (kpgtbl va pa sz perm : ℕ) → Option Ram
kvmmap m kpgtbl va pa sz perm = do
  (ok, m1) ← mappages m kpgtbl va sz pa perm
  if ok then some m1 else none

-- The loop of `proc_mapstacks`, with `k` processes left.
mapstacks_loop : (k p : ℕ) → Ram → (kpgtbl : ℕ) → Option Ram
mapstacks_loop zero p m kpgtbl = some m
mapstacks_loop (suc k) p m kpgtbl = do
  (pa, m1) ← kalloc m
  m2 ← kvmmap m1 kpgtbl (kstack p) pa page_size (pte_r + pte_w)
  mapstacks_loop k (p + 1) m2 kpgtbl

proc_mapstacks : Ram → (kpgtbl : ℕ) → Option Ram
proc_mapstacks m kpgtbl = mapstacks_loop 64 0 m kpgtbl

kvmmake : (etext trampoline : ℕ) → Ram → Option (ℕ × Ram)
kvmmake etext trampoline m = do
  (p, m1) ← kalloc m
  m2 ← kvmmap (set_byte m1 (fill p 0 m1.byte)) p uart0 uart0 page_size (pte_r + pte_w)
  m3 ← kvmmap m2 p virtio0 virtio0 page_size (pte_r + pte_w)
  m4 ← kvmmap m3 p plic plic 0x4000000 (pte_r + pte_w)
  m5 ← kvmmap m4 p kernbase kernbase (etext - kernbase) (pte_r + pte_x)
  m6 ← kvmmap m5 p etext etext (phystop - etext) (pte_r + pte_w)
  m7 ← kvmmap m6 p trampoline_va trampoline page_size (pte_r + pte_x)
  m8 ← proc_mapstacks m7 p
  some (p, m8)
