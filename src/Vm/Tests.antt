-- ===== src/Vm/Tests.antt =====
-- The page-table operations at concrete inputs.
use Prim.{tt}
use mathlib.Core.Bool.{false≢true}
use project_priv.Prelude.{
  ℕ, ◌+◌, ◌*◌, ◌%◌, ◌<◌, ◌≡◌, inl, inr, refl, sym, ap, ◌∙◌, subst, [], ◌∷◌, none, some, Bool, true,
  false, ◌==◌, if◌then◌else◌, arith, leb, update,
}
use project_priv.Kalloc.{page_size, phystop}
use project_priv.Kalloc.Chain.{In}
use project_priv.Vm.{Ram, maxva, is_valid, walkaddr, find_pte, walk_from, mappages, uvmunmap}
use project_priv.Fs.Bytes.{get32, put32, get16, put16}
use project_priv.Vm.Words.{load64, store64, load64_zero}
use project_priv.Vm.Table.{Labels, word, IsTable, entry, entry_invalid}
use project_priv.Vm.Range.{mapped, ranged}
use project_priv.Vm.Map.{mappages_lem}
use project_priv.Vm.RoundTrip.{uvmunmap-mappages}
use project_priv.Vm.Copy.{copyin, copyin_loop, bytes_at, copyinstr}
use project_priv.Vm.Copy.Input.{read_each, copyin_lem}
use project_priv.Vm.Copy.Text.{read_string, copyinstr_lem}

-- An empty page table, and three free pages.
abbrev root_page : ℕ
root_page = 0x80001000

abbrev blank : Ram
blank = record { byte = λ a. 0; free = 0x80002000 ∷ 0x80003000 ∷ 0x80004000 ∷ [] }

abbrev blank_labels : Labels
blank_labels p = if p == root_page then some (2, 0) else none

only_root : (p l pre : ℕ) → blank_labels p ≡ some (l, pre) → p ≡ root_page
only_root p l pre e = ground arith

zero_word : (p i : ℕ) → word blank p i ≡ 0
zero_word p i = load64_zero blank.byte (p + 8 * i) λ b h l. refl

no_word : (p i : ℕ) → is_valid (word blank p i) ≡ false
no_word p i = ap (λ (w : ℕ). is_valid w) (zero_word p i)

blank-IsTable : IsTable blank_labels blank
blank-IsTable = record {
  aligned = λ p l pre e. omega (arith, only_root p l pre e);
  small = λ p l pre e. omega (arith, only_root p l pre e);
  child = λ p l pre i e h ok. absurd (false≢true (sym (no_word p i) ∙ ok));
  spare = λ q h. spare q h;
  nodup = ((λ h. first h), ((λ h. second h), ((λ h. h), tt)));
}
  where
    here :
        (q x : ℕ)
        → x ≡ q
        → (blank_labels x ≡ none) × (x % page_size ≡ 0) × (x < phystop)
        → (blank_labels q ≡ none) × (q % page_size ≡ 0) × (q < phystop)
    here q x e = subst (λ (z : ℕ). (blank_labels z ≡ none) × (z % page_size ≡ 0) × (z < phystop)) e

    spare :
        (q : ℕ) → In q blank.free → (blank_labels q ≡ none) × (q % page_size ≡ 0) × (q < phystop)
    spare q (inl e) = here q 0x80002000 e (refl, refl, omega arith)
    spare q (inr (inl e)) = here q 0x80003000 e (refl, refl, omega arith)
    spare q (inr (inr (inl e))) = here q 0x80004000 e (refl, refl, omega arith)
    spare q (inr (inr (inr none_left))) = absurd none_left

    first : In 0x80002000 (0x80003000 ∷ 0x80004000 ∷ []) → ⊥
    first (inl e) = omega (arith, e)
    first (inr (inl e)) = omega (arith, e)
    first (inr (inr none_left)) = absurd none_left

    second : In 0x80003000 (0x80004000 ∷ []) → ⊥
    second (inl e) = omega (arith, e)
    second (inr none_left) = absurd none_left

no_entry : (x : ℕ) → is_valid (entry 2 blank root_page x) ≡ false
no_entry x = ap (λ (w : ℕ). is_valid w) (entry_invalid 1 blank root_page x (no_word root_page _))

mappages_example :
    (ok : Bool) × (count : ℕ) × (L' : Labels) × (m' : Ram) × (mappages blank root_page 0
        (page_size * 1)
        0x80005000
        6
      ≡ some (ok, m'))
    × (ok ≡ true → count ≡ 1)
    × (ok ≡ false → (count < 1) × (m'.free ≡ []))
    × IsTable L' m'
    × (L' root_page ≡ some (2, 0))
    × ((x : ℕ)
        → x < maxva
        → entry 2 m' root_page x ≡ mapped count 0 0x80005000 6 x (entry 2 blank root_page x))
mappages_example =
    mappages_lem blank_labels blank root_page 0 1 0x80005000 6 blank-IsTable refl refl (omega arith)
      (omega arith) refl (omega arith) (omega arith) (λ x h l. no_entry x)

uvmunmap-mappages_example :
    (ok : Bool) × (count : ℕ) × (m1 : Ram) × (L2 : Labels) × (m2 : Ram) × (mappages blank root_page
        0x7000
        (page_size * 1)
        0x80005000
        22
      ≡ some (ok, m1))
    × (ok ≡ true → count ≡ 1)
    × (ok ≡ false → count < 1)
    × (uvmunmap 0x80000000 m1 root_page 0x7000 count false ≡ some m2)
    × IsTable L2 m2
    × ((x : ℕ)
        → x < maxva
        → entry 2 m2 root_page x ≡ ranged count 0x7000 x 0 (entry 2 blank root_page x))
uvmunmap-mappages_example =
    uvmunmap-mappages 0x80000000 blank_labels blank root_page 0x7000 1 0x80005000 22 blank-IsTable
      refl refl (omega arith) (omega arith) refl (omega arith) (omega arith) (omega arith)
      (λ x h l. no_entry x)

-- The first page is mapped to one of the letter a.
abbrev one_page : Ram
one_page = record blank {
  byte =
      store64
        (store64 (store64 (λ a. if leb 0x80004000 a then 97 else 0) root_page 0x20000801) 0x80002000
          0x20000c01)
        0x80003000 0x20001017;
}

copyin-one_page : copyin one_page root_page 4094 3 ≡ (false, 97 ∷ 97 ∷ [])
unfolding copyin copyin_loop walkaddr find_pte walk_from bytes_at load64 store64 get32 put32 get16
    put16 update
copyin-one_page = refl

copyin_example : copyin one_page root_page 4094 3 ≡ read_each 3 one_page root_page 4094
copyin_example = copyin_lem one_page root_page 4094 3

copyinstr_example : copyinstr one_page root_page 4094 12 ≡ read_string 12 one_page root_page 4094
copyinstr_example = copyinstr_lem one_page root_page 4094 12
