-- ===== src/Vm/Copy/Text.antt =====
-- `copyinstr` beside a reading of the virtual memory byte by byte.
use project_priv.Prelude.{
  ℕ, zero, suc, ◌+◌, ◌-◌, ◌%◌, ◌≤◌, ◌≡◌, ◌≢◌, List, [], ◌∷◌, Bool, true, false, ◌==◌, refl, sym, ap,
  ◌∙◌, arith, Bool-cases, inl, inr, ℕ_discrete, eq→==, ne→==,
}
use project_priv.Kalloc.{page_size}
use project_priv.Vm.{Ram, walkaddr}
use project_priv.Vm.Copy.{page_of, piece, str_bytes, copyinstr_loop, copyinstr}

-- One byte at a time, at most `limit`: found is true when a 0 was read.
unfoldable pub read_string : (limit : ℕ) → Ram → (pagetable va : ℕ) → Bool × List ℕ
read_string zero m pagetable va = (false, [])
read_string (suc n) m pagetable va = elim (walkaddr m pagetable (page_of va) == 0) [
  | true ↦ (false, [])
  | false ↦ elim (m.byte (walkaddr m pagetable (page_of va) + va % page_size) == 0) [
    | true ↦ (true, 0 ∷ [])
    | false ↦
        let (r, rest) = read_string n m pagetable (va + 1) in
        (r, m.byte (walkaddr m pagetable (page_of va) + va % page_size) ∷ rest)
  ]
]

pub string_suc :
    (n : ℕ) (m : Ram) (pagetable va : ℕ)
    → walkaddr m pagetable (page_of va) ≢ 0
    → read_string (suc n) m pagetable va
      ≡ str_bytes m.byte
          (walkaddr m pagetable (page_of va) + va % page_size)
          1
          (read_string n m pagetable (va + 1))
unfolding read_string str_bytes
string_suc n m pagetable va h =
    elim (Bool-cases (m.byte (walkaddr m pagetable (page_of va) + va % page_size) == 0)) [
      | inl e ↦ rw (read_string, str_bytes, ne→== (walkaddr m pagetable (page_of va)) 0 h, e) refl
      | inr e ↦ rw (read_string, str_bytes, ne→== (walkaddr m pagetable (page_of va)) 0 h, e) refl
    ]

-- One byte and then `n` more.
str_bytes-suc :
    (b : ℕ → ℕ) (p n : ℕ) (next : Bool × List ℕ)
    → str_bytes b p 1 (str_bytes b (p + 1) n next) ≡ str_bytes b p (suc n) next
unfolding str_bytes
str_bytes-suc b p n next = elim (Bool-cases (b p == 0)) [
  | inl e ↦ rw (str_bytes, e) refl
  | inr e ↦ rw (str_bytes, e) refl
]

string_page :
    (n rest : ℕ) (m : Ram) (pagetable va pa : ℕ)
    → walkaddr m pagetable (page_of va) ≡ pa
    → pa ≢ 0
    → va % page_size + n ≤ page_size
    → read_string (n + rest) m pagetable va
      ≡ str_bytes m.byte (pa + va % page_size) n (read_string rest m pagetable (va + n))
unfolding str_bytes
string_page zero rest m pagetable va pa e nz h =
    let none_here : 0 + rest ≡ rest = omega arith in
    let same : va ≡ va + 0 = omega arith in
    ap (λ (z : ℕ). read_string z m pagetable va) none_here ∙ ap (read_string rest m pagetable) same
string_page (suc n) rest m pagetable va pa e nz h = elim (ℕ_discrete n 0) [
  | yes z ↦
      let one_more : suc n + rest ≡ suc rest = omega (arith, z) in
      let last : va + 1 ≡ va + suc n = omega (arith, z) in
      ap (λ (x : ℕ). read_string x m pagetable va) one_more
      ∙ string_suc rest m pagetable va (λ q. nz (sym e ∙ q))
      ∙ ap
          (λ (x : ℕ).
            str_bytes m.byte (x + va % page_size) 1 (read_string rest m pagetable (va + 1)))
          e
      ∙ ap (λ (x : ℕ). str_bytes m.byte (pa + va % page_size) 1 (read_string rest m pagetable x))
          last
      ∙ ap
          (λ (x : ℕ).
            str_bytes m.byte (pa + va % page_size) (suc x)
              (read_string rest m pagetable (va + suc n)))
          (sym z)
  | no nz' ↦
      let one_more : suc n + rest ≡ suc (n + rest) = omega arith in
      let page : page_of (va + 1) ≡ page_of va = omega (arith, nz') in
      let offset : pa + (va + 1) % page_size ≡ pa + va % page_size + 1 = omega (arith, nz') in
      let last : va + 1 + n ≡ va + suc n = omega arith in
      ap (λ (x : ℕ). read_string x m pagetable va) one_more
      ∙ string_suc (n + rest) m pagetable va (λ q. nz (sym e ∙ q))
      ∙ ap
          (λ (x : ℕ).
            str_bytes m.byte (x + va % page_size) 1 (read_string (n + rest) m pagetable (va + 1)))
          e
      ∙ ap (str_bytes m.byte (pa + va % page_size) 1) (
          string_page n rest m pagetable (va + 1) pa (ap (walkaddr m pagetable) page ∙ e) nz
            (omega (arith, nz'))
          ∙ ap (λ (x : ℕ). str_bytes m.byte x n (read_string rest m pagetable (va + 1 + n))) offset
          ∙ ap
              (λ (x : ℕ).
                str_bytes m.byte (pa + va % page_size + 1) n (read_string rest m pagetable x))
              last)
      ∙ str_bytes-suc m.byte (pa + va % page_size) n (read_string rest m pagetable (va + suc n))
]

string_fails :
    (n : ℕ) (m : Ram) (pagetable va : ℕ)
    → walkaddr m pagetable (page_of va) ≡ 0
    → read_string n m pagetable va ≡ (false, [])
unfolding read_string
string_fails zero m pagetable va e = refl
string_fails (suc n) m pagetable va e =
    rw (read_string, eq→== (walkaddr m pagetable (page_of va)) 0 e) refl

copyinstr_done :
    (k : ℕ) (m : Ram) (pagetable va : ℕ) → copyinstr_loop k m pagetable va 0 ≡ (false, [])
unfolding copyinstr_loop
copyinstr_done zero m pagetable va = refl
copyinstr_done (suc k) m pagetable va = refl

copyinstr_fails :
    (k : ℕ) (m : Ram) (pagetable va limit : ℕ)
    → walkaddr m pagetable (page_of va) ≡ 0
    → copyinstr_loop (suc k) m pagetable va limit ≡ (false, [])
unfolding copyinstr_loop
copyinstr_fails k m pagetable va limit z = elim (Bool-cases (limit == 0)) [
  | inl e ↦ rw (copyinstr_loop, e) refl
  | inr e ↦ rw (copyinstr_loop, e, eq→== (walkaddr m pagetable (page_of va)) 0 z) refl
]

copyinstr_step :
    (k : ℕ) (m : Ram) (pagetable va limit : ℕ)
    → limit ≢ 0
    → walkaddr m pagetable (page_of va) ≢ 0
    → copyinstr_loop (suc k) m pagetable va limit
      ≡ str_bytes m.byte
          (walkaddr m pagetable (page_of va) + (va - page_of va))
          (piece va limit)
          (copyinstr_loop k m pagetable (page_of va + page_size) (limit - piece va limit))
unfolding copyinstr_loop
copyinstr_step k m pagetable va limit n z =
    rw (copyinstr_loop, ne→== limit 0 n, ne→== (walkaddr m pagetable (page_of va)) 0 z) refl

string_next :
    (rest : ℕ) (m : Ram) (pagetable va limit : ℕ)
    → limit ≢ 0
    → limit - piece va limit ≡ rest
    → read_string rest m pagetable (page_of va + page_size)
      ≡ read_string rest m pagetable (va + piece va limit)
unfolding read_string
string_next zero m pagetable va limit n e = refl
string_next (suc rest) m pagetable va limit n e =
    let same : page_of va + page_size ≡ va + piece va limit = omega (arith, e) in
    ap (read_string (suc rest) m pagetable) same

copyinstr_loop_lem :
    (k : ℕ) (m : Ram) (pagetable va limit : ℕ)
    → limit ≤ k
    → copyinstr_loop k m pagetable va limit ≡ read_string limit m pagetable va
unfolding read_string
copyinstr_loop_lem zero m pagetable va limit h =
    let none_left : limit ≡ 0 = omega arith in
    ap (copyinstr_loop 0 m pagetable va) none_left
    ∙ copyinstr_done 0 m pagetable va
    ∙ ap (λ (x : ℕ). read_string x m pagetable va) (sym none_left)
copyinstr_loop_lem (suc k) m pagetable va limit h = elim (ℕ_discrete limit 0) [
  | yes z ↦
      ap (copyinstr_loop (suc k) m pagetable va) z
      ∙ copyinstr_done (suc k) m pagetable va
      ∙ ap (λ (x : ℕ). read_string x m pagetable va) (sym z)
  | no n ↦ elim (ℕ_discrete (walkaddr m pagetable (page_of va)) 0) [
    | yes z ↦ copyinstr_fails k m pagetable va limit z ∙ sym (string_fails limit m pagetable va z)
    | no z ↦
        let c = piece va limit in
        let w = walkaddr m pagetable (page_of va) in
        let whole : c + (limit - c) ≡ limit = omega arith in
        let offset : va - page_of va ≡ va % page_size = omega arith in
        copyinstr_step k m pagetable va limit n z
        ∙ ap
            (λ (x : ℕ).
              str_bytes m.byte (w + x) c
                (copyinstr_loop k m pagetable (page_of va + page_size) (limit - c)))
            offset
        ∙ ap (str_bytes m.byte (w + va % page_size) c) (
            copyinstr_loop_lem k m pagetable (page_of va + page_size) (limit - c) (omega arith)
            ∙ string_next (limit - c) m pagetable va limit n refl)
        ∙ sym (string_page c (limit - c) m pagetable va w refl z (omega arith))
        ∙ ap (λ (x : ℕ). read_string x m pagetable va) whole
  ]
]

-- `copyinstr` reads the virtual memory one address at a time, up to the first byte that is 0, the
-- first address that is not mapped for the user, or `limit` bytes; it returns 0 just when it reads
-- a byte 0, and delivers what it reads.
pub copyinstr_lem :
    (m : Ram) (pagetable srcva limit : ℕ)
    → copyinstr m pagetable srcva limit ≡ read_string limit m pagetable srcva
unfolding copyinstr
copyinstr_lem m pagetable srcva limit =
    copyinstr_loop_lem limit m pagetable srcva limit (omega arith)
