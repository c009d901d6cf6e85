-- ===== src/Vm/User.antt =====
-- kernel/vm.c and kernel/proc.c: the page tables of processes.
-- The outer `none` of a result is a panic. Where the code goes on with a null pointer, it faults.
use Prim.Native.Nat.{bit_or}
use project_priv.Prelude.{
  ◌>>=◌, ℕ, zero, suc, ◌+◌, ◌-◌, ◌*◌, ◌/◌, ◌%◌, Option, none, some, Bool, true, false, ◌==◌,
  if◌then◌else◌, ltb, leb,
}
use project_priv.Kalloc.{page_size, page_round_up}
use project_priv.Vm.{
  Ram, maxva, fill, kalloc, kfree, pte2pa, pte_flags, is_valid, is_user, set_byte, walk, mappages,
  uvmunmap,
}
use project_priv.Vm.Words.{load64, store64}
use project_priv.Vm.Copy.{move_in}

-- memlayout.h: TRAMPOLINE, TRAPFRAME
abbrev pub trampoline_va : ℕ
trampoline_va = maxva - page_size

abbrev pub trapframe_va : ℕ
trapframe_va = trampoline_va - page_size

-- `PTE_R`, `PTE_W`, `PTE_X`, `PTE_U`
abbrev pub pte_r : ℕ
pte_r = 2

abbrev pub pte_w : ℕ
pte_w = 4

abbrev pub pte_x : ℕ
pte_x = 8

abbrev pub pte_u : ℕ
pte_u = 16

-- The inner `none` is 0.
pub uvmcreate : Ram → Option (ℕ × Ram)
uvmcreate m = do (p, m1) ← kalloc m; some (p, set_byte m1 (fill p 0 m1.byte))

pub uvmfirst : (initcode : ℕ → ℕ) → Ram → (pagetable sz : ℕ) → Option Ram
uvmfirst initcode m pagetable sz = if leb page_size sz then none else do
  (mem, m1) ← kalloc m
  (ok, m2) ←
      mappages (set_byte m1 (fill mem 0 m1.byte)) pagetable 0 page_size mem
        (pte_w + pte_r + pte_x + pte_u)
  some (set_byte m2 (move_in mem 0 sz initcode m2.byte))

-- The new size.
pub uvmdealloc : (kernel_end : ℕ) → Ram → (pagetable oldsz newsz : ℕ) → Option (ℕ × Ram)
uvmdealloc kernel_end m pagetable oldsz newsz =
    let from = page_round_up newsz in
    let upto = page_round_up oldsz in
    if leb oldsz newsz
    then some (oldsz, m)
    else if ltb from upto
    then (do
      m1 ← uvmunmap kernel_end m pagetable from ((upto - from) / page_size) true
      some (newsz, m1))
    else some (newsz, m)

-- `uvmalloc` gives up at `a`.
pub give_back : (kernel_end : ℕ) → Ram → (pagetable a oldsz : ℕ) → Option (ℕ × Ram)
give_back kernel_end m pagetable a oldsz = do
  (sz, m1) ← uvmdealloc kernel_end m pagetable a oldsz
  some (0, m1)

-- The loop of `uvmalloc`, with `k` pages left at most: the new size, or 0.
pub uvmalloc_loop :
    (kernel_end k : ℕ) → Ram → (pagetable a oldsz newsz xperm : ℕ) → Option (ℕ × Ram)
uvmalloc_loop kernel_end zero m pagetable a oldsz newsz xperm = some (newsz, m)
uvmalloc_loop kernel_end (suc k) m pagetable a oldsz newsz xperm = elim (ltb a newsz) [
  | false ↦ some (newsz, m)
  | true ↦ elim (kalloc m) [
    | none ↦ give_back kernel_end m pagetable a oldsz
    | some (mem, m1) ↦ do
      (ok, m2) ←
          mappages (set_byte m1 (fill mem 0 m1.byte)) pagetable a page_size mem
            (bit_or (pte_r + pte_u) xperm)
      elim ok [
        | true ↦ uvmalloc_loop kernel_end k m2 pagetable (a + page_size) oldsz newsz xperm
        | false ↦ do m3 ← kfree kernel_end mem m2; give_back kernel_end m3 pagetable a oldsz
      ]
  ]
]

pub uvmalloc : (kernel_end : ℕ) → Ram → (pagetable oldsz newsz xperm : ℕ) → Option (ℕ × Ram)
uvmalloc kernel_end m pagetable oldsz newsz xperm =
    let from = page_round_up oldsz in
    if ltb newsz oldsz
    then some (oldsz, m)
    else uvmalloc_loop kernel_end (newsz / page_size + 1) m pagetable from from newsz xperm

-- The loop of `freewalk` over the entries, with `k` left; `free_child` is `freewalk` of a lower level.
pub freewalk_loop : (free_child : ℕ → Ram → Option Ram) → (k i p : ℕ) → Ram → Option Ram
freewalk_loop free_child zero i p m = some m
freewalk_loop free_child (suc k) i p m =
    let pte = load64 m.byte (p + 8 * i) in
    elim (is_valid pte) [
      | false ↦ freewalk_loop free_child k (i + 1) p m
      | true ↦ elim (pte / 2 % 8 == 0) [
        | false ↦ none
        | true ↦ do
          m1 ← free_child (pte2pa pte) m
          freewalk_loop free_child k (i + 1) p (set_byte m1 (store64 m1.byte (p + 8 * i) 0))
      ]
    ]

-- `depth` bounds the recursion: a page table has three levels.
pub freewalk : (kernel_end depth p : ℕ) → Ram → Option Ram
freewalk kernel_end zero p m = none
freewalk kernel_end (suc d) p m = do
  m1 ← freewalk_loop (freewalk kernel_end d) 512 0 p m
  kfree kernel_end p m1

pub uvmfree : (kernel_end : ℕ) → Ram → (pagetable sz : ℕ) → Option Ram
uvmfree kernel_end m pagetable sz = do
  m1 ←
      if ltb 0 sz
      then uvmunmap kernel_end m pagetable 0 (page_round_up sz / page_size) true
      else some m
  freewalk kernel_end 3 pagetable m1

-- The loop of `uvmcopy`, with `k` pages left at most; false for -1.
pub uvmcopy_loop : (kernel_end k : ℕ) → Ram → (old new i sz : ℕ) → Option (Bool × Ram)
uvmcopy_loop kernel_end zero m old new i sz = some (true, m)
uvmcopy_loop kernel_end (suc k) m old new i sz = elim (ltb i sz) [
  | false ↦ some (true, m)
  | true ↦ do
    (slot, m0) ← walk m old i false
    s ← slot
    let pte = load64 m.byte s
    elim (is_valid pte) [
      | false ↦ none
      | true ↦ elim (kalloc m) [
        | none ↦ do m1 ← uvmunmap kernel_end m new 0 (i / page_size) true; some (false, m1)
        | some (mem, m1) ↦ do
          let b = m1.byte
          (ok, m2) ←
              mappages (set_byte m1 (move_in mem (pte2pa pte) page_size b b)) new i page_size mem
                (pte_flags pte)
          elim ok [
            | true ↦ uvmcopy_loop kernel_end k m2 old new (i + page_size) sz
            | false ↦ do
              m3 ← kfree kernel_end mem m2
              m4 ← uvmunmap kernel_end m3 new 0 (i / page_size) true
              some (false, m4)
          ]
      ]
    ]
]

pub uvmcopy : (kernel_end : ℕ) → Ram → (old new sz : ℕ) → Option (Bool × Ram)
uvmcopy kernel_end m old new sz = uvmcopy_loop kernel_end (sz / page_size + 1) m old new 0 sz

pub uvmclear : Ram → (pagetable va : ℕ) → Option Ram
uvmclear m pagetable va = do
  (slot, m1) ← walk m pagetable va false
  s ← slot
  let pte = load64 m1.byte s
  some (set_byte m1 (store64 m1.byte s (if is_user pte then pte - pte_u else pte)))

-- `kernel/proc.c`: `trampoline` and `trapframe` are the addresses of these pages. The inner `none` is 0.
pub proc_pagetable : (kernel_end trampoline trapframe : ℕ) → Ram → Option (Option ℕ × Ram)
proc_pagetable kernel_end trampoline trapframe m = elim (uvmcreate m) [
  | none ↦ some (none, m)
  | some (p, m1) ↦ do
    (ok, m2) ← mappages m1 p trampoline_va page_size trampoline (pte_r + pte_x)
    elim ok [
      | false ↦ do m3 ← uvmfree kernel_end m2 p 0; some (none, m3)
      | true ↦ do
        (ok2, m3) ← mappages m2 p trapframe_va page_size trapframe (pte_r + pte_w)
        elim ok2 [
          | true ↦ some (some p, m3)
          | false ↦ do
            m4 ← uvmunmap kernel_end m3 p trampoline_va 1 false
            m5 ← uvmfree kernel_end m4 p 0
            some (none, m5)
        ]
    ]
]

pub proc_freepagetable : (kernel_end : ℕ) → Ram → (pagetable sz : ℕ) → Option Ram
proc_freepagetable kernel_end m pagetable sz = do
  m1 ← uvmunmap kernel_end m pagetable trampoline_va 1 false
  m2 ← uvmunmap kernel_end m1 pagetable trapframe_va 1 false
  uvmfree kernel_end m2 pagetable sz
