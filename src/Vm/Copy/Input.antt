-- ===== src/Vm/Copy/Input.antt =====
-- `copyin` beside a reading of the virtual memory byte by byte.
use project_priv.Prelude.{
  ℕ, zero, suc, ◌+◌, ◌-◌, ◌%◌, ◌≤◌, ◌<◌, ◌≡◌, ◌≢◌, List, [], ◌∷◌, ◌++◌, Bool, true, false, ◌==◌,
  refl, sym, ap, ◌∙◌, arith, ℕ_discrete, eq→==, ne→==,
}
use project_priv.Kalloc.{page_size}
use project_priv.Vm.{Ram, walkaddr}
use project_priv.Vm.Copy.{page_of, bytes_at, piece, copyin_loop, copyin}

-- One byte at a time: the address's own page is looked up for each.
pub read_each : (len : ℕ) → Ram → (pagetable va : ℕ) → Bool × List ℕ
read_each zero m pagetable va = (true, [])
read_each (suc n) m pagetable va = elim (walkaddr m pagetable (page_of va) == 0) [
  | true ↦ (false, [])
  | false ↦
      let (r, rest) = read_each n m pagetable (va + 1) in
      (r, m.byte (walkaddr m pagetable (page_of va) + va % page_size) ∷ rest)
]

abbrev cons_bytes : List ℕ → Bool × List ℕ → Bool × List ℕ
cons_bytes l (r, rest) = (r, l ++ rest)

read_suc :
    (n : ℕ) (m : Ram) (pagetable va : ℕ)
    → walkaddr m pagetable (page_of va) ≢ 0
    → read_each (suc n) m pagetable va
      ≡ cons_bytes
          (m.byte (walkaddr m pagetable (page_of va) + va % page_size) ∷ [])
          (read_each n m pagetable (va + 1))
unfolding read_each
read_suc n m pagetable va h = rw (read_each, ne→== (walkaddr m pagetable (page_of va)) 0 h) refl

-- The bytes of one page.
read_page :
    (n rest : ℕ) (m : Ram) (pagetable va pa : ℕ)
    → walkaddr m pagetable (page_of va) ≡ pa
    → pa ≢ 0
    → va % page_size + n ≤ page_size
    → read_each (n + rest) m pagetable va
      ≡ cons_bytes (bytes_at m.byte (pa + va % page_size) n) (read_each rest m pagetable (va + n))
unfolding bytes_at
read_page zero rest m pagetable va pa e nz h =
    let none_here : 0 + rest ≡ rest = omega arith in
    let same : va ≡ va + 0 = omega arith in
    ap (λ (z : ℕ). read_each z m pagetable va) none_here ∙ ap (read_each rest m pagetable) same
read_page (suc n) rest m pagetable va pa e nz h = elim (ℕ_discrete n 0) [
  | yes z ↦
      let one_more : suc n + rest ≡ suc rest = omega (arith, z) in
      let last : va + 1 ≡ va + suc n = omega (arith, z) in
      ap (λ (x : ℕ). read_each x m pagetable va) one_more
      ∙ read_suc rest m pagetable va (λ q. nz (sym e ∙ q))
      ∙ ap
          (λ (x : ℕ).
            cons_bytes (m.byte (x + va % page_size) ∷ []) (read_each rest m pagetable (va + 1)))
          e
      ∙ ap
          (λ (x : ℕ). cons_bytes (m.byte (pa + va % page_size) ∷ []) (read_each rest m pagetable x))
          last
      ∙ ap
          (λ (x : ℕ).
            cons_bytes (m.byte (pa + va % page_size) ∷ bytes_at m.byte (pa + va % page_size + 1) x)
              (read_each rest m pagetable (va + suc n)))
          (sym z)
  | no nz' ↦
      let one_more : suc n + rest ≡ suc (n + rest) = omega arith in
      let page : page_of (va + 1) ≡ page_of va = omega (arith, nz') in
      let offset : pa + (va + 1) % page_size ≡ pa + va % page_size + 1 = omega (arith, nz') in
      let last : va + 1 + n ≡ va + suc n = omega arith in
      ap (λ (x : ℕ). read_each x m pagetable va) one_more
      ∙ read_suc (n + rest) m pagetable va (λ q. nz (sym e ∙ q))
      ∙ ap
          (λ (x : ℕ).
            cons_bytes (m.byte (x + va % page_size) ∷ [])
              (read_each (n + rest) m pagetable (va + 1)))
          e
      ∙ ap (cons_bytes (m.byte (pa + va % page_size) ∷ [])) (
          read_page n rest m pagetable (va + 1) pa (ap (walkaddr m pagetable) page ∙ e) nz
            (omega (arith, nz'))
          ∙ ap
              (λ (x : ℕ).
                cons_bytes (bytes_at m.byte x n) (read_each rest m pagetable (va + 1 + n)))
              offset
          ∙ ap
              (λ (x : ℕ).
                cons_bytes (bytes_at m.byte (pa + va % page_size + 1) n)
                  (read_each rest m pagetable x))
              last)
]

read_fails :
    (n : ℕ) (m : Ram) (pagetable va : ℕ)
    → walkaddr m pagetable (page_of va) ≡ 0
    → 0 < n
    → read_each n m pagetable va ≡ (false, [])
unfolding read_each
read_fails zero m pagetable va e h = absurd (omega arith)
read_fails (suc n) m pagetable va e h =
    rw (read_each, eq→== (walkaddr m pagetable (page_of va)) 0 e) refl

copyin_done : (k : ℕ) (m : Ram) (pagetable va : ℕ) → copyin_loop k m pagetable va 0 ≡ (true, [])
unfolding copyin_loop
copyin_done zero m pagetable va = refl
copyin_done (suc k) m pagetable va = refl

copyin_fails :
    (k : ℕ) (m : Ram) (pagetable va len : ℕ)
    → len ≢ 0
    → walkaddr m pagetable (page_of va) ≡ 0
    → copyin_loop (suc k) m pagetable va len ≡ (false, [])
unfolding copyin_loop
copyin_fails k m pagetable va len n z =
    rw (copyin_loop, ne→== len 0 n, eq→== (walkaddr m pagetable (page_of va)) 0 z) refl

copyin_step :
    (k : ℕ) (m : Ram) (pagetable va len : ℕ)
    → len ≢ 0
    → walkaddr m pagetable (page_of va) ≢ 0
    → copyin_loop (suc k) m pagetable va len
      ≡ cons_bytes
          (bytes_at m.byte (walkaddr m pagetable (page_of va) + (va - page_of va)) (piece va len))
          (copyin_loop k m pagetable (page_of va + page_size) (len - piece va len))
unfolding copyin_loop
copyin_step k m pagetable va len n z =
    rw (copyin_loop, ne→== len 0 n, ne→== (walkaddr m pagetable (page_of va)) 0 z) refl

-- The next round's address, or nothing is left.
next_page :
    (rest : ℕ) (m : Ram) (pagetable va len : ℕ)
    → len ≢ 0
    → len - piece va len ≡ rest
    → read_each rest m pagetable (page_of va + page_size)
      ≡ read_each rest m pagetable (va + piece va len)
unfolding read_each
next_page zero m pagetable va len n e = refl
next_page (suc rest) m pagetable va len n e =
    let same : page_of va + page_size ≡ va + piece va len = omega (arith, e) in
    ap (read_each (suc rest) m pagetable) same

copyin_loop_lem :
    (k : ℕ) (m : Ram) (pagetable va len : ℕ)
    → len ≤ k
    → copyin_loop k m pagetable va len ≡ read_each len m pagetable va
unfolding read_each
copyin_loop_lem zero m pagetable va len h =
    let none_left : len ≡ 0 = omega arith in
    ap (copyin_loop 0 m pagetable va) none_left
    ∙ copyin_done 0 m pagetable va
    ∙ ap (λ (x : ℕ). read_each x m pagetable va) (sym none_left)
copyin_loop_lem (suc k) m pagetable va len h = elim (ℕ_discrete len 0) [
  | yes z ↦
      ap (copyin_loop (suc k) m pagetable va) z
      ∙ copyin_done (suc k) m pagetable va
      ∙ ap (λ (x : ℕ). read_each x m pagetable va) (sym z)
  | no n ↦ elim (ℕ_discrete (walkaddr m pagetable (page_of va)) 0) [
    | yes z ↦
        copyin_fails k m pagetable va len n z ∙ sym (read_fails len m pagetable va z (omega arith))
    | no z ↦
        let c = piece va len in
        let w = walkaddr m pagetable (page_of va) in
        let whole : c + (len - c) ≡ len = omega arith in
        let offset : va - page_of va ≡ va % page_size = omega arith in
        copyin_step k m pagetable va len n z
        ∙ ap
            (λ (x : ℕ).
              cons_bytes (bytes_at m.byte (w + x) c)
                (copyin_loop k m pagetable (page_of va + page_size) (len - c)))
            offset
        ∙ ap (cons_bytes (bytes_at m.byte (w + va % page_size) c)) (
            copyin_loop_lem k m pagetable (page_of va + page_size) (len - c) (omega arith)
            ∙ next_page (len - c) m pagetable va len n refl)
        ∙ sym (read_page c (len - c) m pagetable va w refl z (omega arith))
        ∙ ap (λ (x : ℕ). read_each x m pagetable va) whole
  ]
]

-- `copyin` delivers the bytes that looking up each address by itself gives, in order, up to the first that
-- is not mapped for the user; it returns 0 just when there is none such.
pub copyin_lem :
    (m : Ram) (pagetable srcva len : ℕ)
    → copyin m pagetable srcva len ≡ read_each len m pagetable srcva
unfolding copyin
copyin_lem m pagetable srcva len = copyin_loop_lem len m pagetable srcva len (omega arith)
