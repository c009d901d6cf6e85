-- ===== src/Vm/Copy.antt =====
-- kernel/vm.c: `copyout`, `copyin` and `copyinstr`.
-- What arrives in the kernel's buffer is a list, also when the call fails; false is -1. Each round of a loop
-- takes a byte at least, so `len` rounds are enough.
pub mod Input
pub mod Text
use project_priv.Prelude.{
  ℕ, zero, suc, ◌+◌, ◌-◌, ◌*◌, ◌/◌, ◌%◌, List, [], ◌∷◌, ◌++◌, Bool, true, false, not, ◌==◌, ◌&&◌,
  ◌||◌, if◌then◌else◌, ltb, leb, min,
}
use project_priv.Kalloc.{page_size}
use project_priv.Vm.{
  Ram, maxva, pte2pa, is_valid, is_user, is_writable, pte_at, find_pte, walkaddr, set_byte,
}

-- `PGROUNDDOWN`
abbrev pub page_of : ℕ → ℕ
page_of va = va / page_size * page_size

-- The bytes of `n` addresses.
unfoldable pub bytes_at : (ℕ → ℕ) → (a n : ℕ) → List ℕ
bytes_at b a zero = []
bytes_at b a (suc n) = b a ∷ bytes_at b (a + 1) n

-- `n = PGSIZE - (srcva - va0); if(n > len) n = len`
abbrev pub piece : (va len : ℕ) → ℕ
piece va len = min (page_size - (va - page_of va)) len

unfoldable pub copyin_loop : (fuel : ℕ) → Ram → (pagetable srcva len : ℕ) → Bool × List ℕ
copyin_loop zero m pagetable srcva len = (true, [])
copyin_loop (suc k) m pagetable srcva len = elim (len == 0) [
  | true ↦ (true, [])
  | false ↦
      let pa0 = walkaddr m pagetable (page_of srcva) in
      let n = piece srcva len in
      elim (pa0 == 0) [
        | true ↦ (false, [])
        | false ↦
            let (r, rest) = copyin_loop k m pagetable (page_of srcva + page_size) (len - n) in
            (r, bytes_at m.byte (pa0 + (srcva - page_of srcva)) n ++ rest)
      ]
]

unfoldable pub copyin : Ram → (pagetable srcva len : ℕ) → Bool × List ℕ
copyin m pagetable srcva len = copyin_loop len m pagetable srcva len

-- The inner loop of `copyinstr` over `n` bytes, with `next` for what follows if none of them is 0.
unfoldable pub str_bytes : (ℕ → ℕ) → (p n : ℕ) → (next : Bool × List ℕ) → Bool × List ℕ
str_bytes b p zero next = next
str_bytes b p (suc n) next = elim (b p == 0) [
  | true ↦ (true, 0 ∷ [])
  | false ↦ let (r, rest) = str_bytes b (p + 1) n next in (r, b p ∷ rest)
]

pub copyinstr_loop : (fuel : ℕ) → Ram → (pagetable srcva max : ℕ) → Bool × List ℕ
copyinstr_loop zero m pagetable srcva max = (false, [])
copyinstr_loop (suc k) m pagetable srcva max = elim (max == 0) [
  | true ↦ (false, [])
  | false ↦
      let pa0 = walkaddr m pagetable (page_of srcva) in
      let n = piece srcva max in
      elim (pa0 == 0) [
        | true ↦ (false, [])
        | false ↦
            str_bytes m.byte (pa0 + (srcva - page_of srcva)) n
              (copyinstr_loop k m pagetable (page_of srcva + page_size) (max - n))
      ]
]

pub copyinstr : Ram → (pagetable srcva max : ℕ) → Bool × List ℕ
copyinstr m pagetable srcva max = copyinstr_loop max m pagetable srcva max

-- `memmove` of `n` bytes of the kernel's, from `src` on, to `pa`.
abbrev pub move_in : (pa src n : ℕ) → (kernel b : ℕ → ℕ) → ℕ → ℕ
move_in pa src n kernel b a = if leb pa a && ltb a (pa + n) then kernel (src + (a - pa)) else b a

pub copyout_loop : (fuel : ℕ) → (kernel : ℕ → ℕ) → Ram → (pagetable dstva src len : ℕ) → Bool × Ram
copyout_loop zero kernel m pagetable dstva src len = (true, m)
copyout_loop (suc k) kernel m pagetable dstva src len = elim (len == 0) [
  | true ↦ (true, m)
  | false ↦
      let va0 = page_of dstva in
      let pte = pte_at m (find_pte m pagetable va0) in
      let n = piece dstva len in
      elim (leb maxva va0 || not (is_valid pte) || not (is_user pte) || not (is_writable pte)) [
        | true ↦ (false, m)
        | false ↦
            copyout_loop k kernel
              (set_byte m (move_in (pte2pa pte + (dstva - va0)) src n kernel m.byte)) pagetable
              (va0 + page_size) (src + n) (len - n)
      ]
]

pub copyout : (kernel : ℕ → ℕ) → Ram → (pagetable dstva src len : ℕ) → Bool × Ram
copyout kernel m pagetable dstva src len = copyout_loop len kernel m pagetable dstva src len
