-- ===== src/Vm/Fetch.antt =====
-- kernel/syscall.c and kernel/proc.c: what a system call takes from the memory of its process.
-- `sz` is the size of the process.
use mathlib.Core.Bool.{false≢true}
use project_priv.Prelude.{
  ◌>>=◌, ℕ, zero, suc, ◌+◌, ◌-◌, ◌%◌, ◌≤◌, ◌<◌, ◌≡◌, refl, sym, ap, subst, List, [], ◌∷◌, Option,
  none, some, Bool, true, false, ◌==◌, ◌||◌, if◌then◌else◌, ltb, leb, arith, Bool-cases, inl, inr,
  length,
}
use project_priv.Kalloc.{page_size}
use project_priv.Vm.{Ram, u64, walkaddr}
use project_priv.Vm.Copy.{page_of, copyin, copyinstr}
use project_priv.Vm.Copy.Text.{read_string, copyinstr_lem}
use project_priv.Vm.User.{pte_w, uvmalloc, uvmdealloc}

-- False is -1.
fetchaddr : Ram → (pagetable sz addr : ℕ) → Bool × List ℕ
fetchaddr m pagetable sz addr =
    if leb sz addr || ltb sz ((addr + 8) % u64) then (false, []) else copyin m pagetable addr 8

-- `strlen` of what is in the buffer.
buffer_length : List ℕ → ℕ
buffer_length [] = 0
buffer_length (c ∷ l) = let rest = buffer_length l in if c == 0 then 0 else suc rest

fetched : Bool × List ℕ → Option ℕ
fetched (true, l) = some (buffer_length l)
fetched (false, l) = none

-- The length, or `none` for -1.
fetchstr : Ram → (pagetable addr limit : ℕ) → Option ℕ
fetchstr m pagetable addr limit = fetched (copyinstr m pagetable addr limit)

-- `growproc` by `n` bytes, or by -`n` if it is `negative`: the new size, or `none` for -1.
growproc :
    (kernel_end : ℕ)
    → Ram
    → (pagetable sz : ℕ) → (negative : Bool) → (n : ℕ) → Option (Option ℕ × Ram)
growproc kernel_end m pagetable sz negative zero = some (some sz, m)
growproc kernel_end m pagetable sz false (suc n) = do
  (new, m1) ← uvmalloc kernel_end m pagetable sz ((sz + suc n) % u64) pte_w
  some (if new == 0 then none else some new, m1)
growproc kernel_end m pagetable sz true (suc n) = do
  (new, m1) ← uvmdealloc kernel_end m pagetable sz ((sz + u64 - suc n) % u64)
  some (some new, m1)

-- What a buffer of `limit` bytes gets fits it, and a string that has been found is shorter.
Fits : (limit : ℕ) → Bool × List ℕ → Type 0
Fits limit (ok, l) = (length l ≤ limit) × (ok ≡ true → buffer_length l < limit)

read_string-Fits : (n : ℕ) (m : Ram) (pagetable va : ℕ) → Fits n (read_string n m pagetable va)
unfolding read_string Fits buffer_length
read_string-Fits zero m pagetable va = (omega arith, λ e. absurd (false≢true e))
read_string-Fits (suc n) m pagetable va =
    elim (Bool-cases (walkaddr m pagetable (page_of va) == 0)) [
      | inl e ↦ rw (read_string, e) (omega arith, λ q. absurd (false≢true q))
      | inr e ↦
          elim (Bool-cases (m.byte (walkaddr m pagetable (page_of va) + va % page_size) == 0)) [
            | inl z ↦ rw (read_string, e, z) (omega arith, λ q. omega arith)
            | inr z ↦
                let (h, g) = read_string-Fits n m pagetable (va + 1) in
                rw (read_string, e, z) (omega (arith, h), λ q. rw z (omega (arith, g q)))
          ]
    ]

result-Fits :
    (limit n : ℕ) (r : Bool × List ℕ)
    → Fits limit r
    → (length r.1 ≤ limit) × (fetched r ≡ some n → n < limit)
unfolding fetched Fits
result-Fits limit n (true, l) (h, g) = (
  h,
  λ e.
      let same : buffer_length l ≡ n = ap (λ (o : Option ℕ). elim o [ none ↦ 0 | some x ↦ x ]) e in
      omega (arith, same, g refl),
)
result-Fits limit n (false, l) (h, g) =
    (h, λ e. absurd (false≢true (ap (λ (o : Option ℕ). elim o [ none ↦ false | some x ↦ true ]) e)))

-- `copyinstr` never delivers more than `limit` bytes, and the string that `fetchstr` has the length of ends
-- within them.
fetchstr-Fits :
    (m : Ram) (pagetable addr limit n : ℕ)
    → (length (copyinstr m pagetable addr limit).1 ≤ limit)
      × (fetchstr m pagetable addr limit ≡ some n → n < limit)
unfolding fetchstr Fits
fetchstr-Fits m pagetable addr limit n = result-Fits limit n (copyinstr m pagetable addr limit) (
    subst (Fits limit) (sym (copyinstr_lem m pagetable addr limit))
      (read_string-Fits limit m pagetable addr))
