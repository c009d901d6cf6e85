-- ===== src/Vm/Table.antt =====
-- What makes a tree of page-table pages sound, and the entry that it has for an address.
use project_priv.Prelude.{
  ℕ, zero, suc, ◌+◌, ◌*◌, ◌%◌, ◌≤◌, ◌<◌, ◌≡◌, ◌≢◌, ◌⊎◌, inl, inr, refl, ap, List, [], ◌∷◌, Option,
  none, some, Bool, true, false, arith, dec_lt,
}
use project_priv.Kalloc.{page_size, phystop}
use project_priv.Kalloc.Chain.{In}
use project_priv.Vm.{Ram, fill, px, pte2pa, is_valid, walk_from}
use project_priv.Vm.Words.{load64, load64_same}

-- Which pages are of the tree: the level of each, and the number that the indices above it make.
abbrev pub Labels : Type 0
Labels = ℕ → Option (ℕ × ℕ)

abbrev pub slot : ℕ → ℕ → ℕ
slot p i = p + 8 * i

abbrev pub word : Ram → ℕ → ℕ → ℕ
word m p i = load64 m.byte (slot p i)

abbrev pub NoDup : List ℕ → Type 0
NoDup [] = Unit
NoDup (x ∷ xs) = (In x xs → ⊥) × NoDup xs

-- A valid entry above the lowest level points to the page of the tree that has its place, so that no page
-- is in two places. Free pages are not of the tree.
pub record IsTable (L : Labels) (m : Ram) : Type 0 where
  pub aligned : (p l pre : ℕ) → L p ≡ some (l, pre) → p % page_size ≡ 0
  pub small : (p l pre : ℕ) → L p ≡ some (l, pre) → p < phystop
  pub child :
      (p l pre i : ℕ)
      → L p ≡ some (suc l, pre)
      → i < 512
      → is_valid (word m p i) ≡ true
      → L (pte2pa (word m p i)) ≡ some (l, pre * 512 + i)
  pub spare : (q : ℕ) → In q m.free → (L q ≡ none) × (q % page_size ≡ 0) × (q < phystop)
  pub nodup : NoDup m.free

-- The PTE for an address below the page `p`, or 0 if there is no page for it.
abbrev pub word_at : Ram → Option ℕ → ℕ
word_at m none = 0
word_at m (some s) = load64 m.byte s

unfoldable pub entry : (l : ℕ) → Ram → (p va : ℕ) → ℕ
entry l m p va = word_at m (walk_from l m p va false).0

pub walk_valid :
    (l : ℕ) (m : Ram) (p va : ℕ) (alloc : Bool)
    → is_valid (word m p (px (suc l) va)) ≡ true
    → walk_from (suc l) m p va alloc ≡ walk_from l m (pte2pa (word m p (px (suc l) va))) va alloc
unfolding walk_from
walk_valid l m p va alloc e = rw (walk_from, e) refl

pub walk_invalid :
    (l : ℕ) (m : Ram) (p va : ℕ)
    → is_valid (word m p (px (suc l) va)) ≡ false
    → walk_from (suc l) m p va false ≡ (none, m)
unfolding walk_from
walk_invalid l m p va e = rw (walk_from, e) refl

pub entry_valid :
    (l : ℕ) (m : Ram) (p va : ℕ)
    → is_valid (word m p (px (suc l) va)) ≡ true
    → entry (suc l) m p va ≡ entry l m (pte2pa (word m p (px (suc l) va))) va
unfolding entry
entry_valid l m p va e = ap (λ (r : Option ℕ × Ram). word_at m r.0) (walk_valid l m p va false e)

pub entry_invalid :
    (l : ℕ) (m : Ram) (p va : ℕ)
    → is_valid (word m p (px (suc l) va)) ≡ false
    → entry (suc l) m p va ≡ 0
unfolding entry
entry_invalid l m p va e = ap (λ (r : Option ℕ × Ram). word_at m r.0) (walk_invalid l m p va e)

pub entry_found :
    (l : ℕ) (m : Ram) (p va s : ℕ)
    → walk_from l m p va false ≡ (some s, m)
    → entry l m p va ≡ load64 m.byte s
unfolding entry
entry_found l m p va s e = ap (λ (r : Option ℕ × Ram). word_at m r.0) e

pub entry_leaf : (m : Ram) (p va : ℕ) → entry zero m p va ≡ word m p (px 0 va)
unfolding entry walk_from
entry_leaf m p va = refl

-- Two words of different pages do not overlap, nor two of one page.
pub slots_apart :
    (p q i j : ℕ)
    → p % page_size ≡ 0
    → q % page_size ≡ 0
    → i < 512
    → j < 512
    → p ≢ q
    → (slot p i + 8 ≤ slot q j) ⊎ (slot q j + 8 ≤ slot p i)
slots_apart p q i j a b h g n = elim (dec_lt p q) [
  | yes l ↦ inl (omega arith)
  | no l ↦ let less : q < p = omega (arith, n, l) in inr (omega arith)
]

pub slots_apart_same : (p i j : ℕ) → i ≢ j → (slot p i + 8 ≤ slot p j) ⊎ (slot p j + 8 ≤ slot p i)
slots_apart_same p i j n = elim (dec_lt i j) [
  | yes l ↦ inl (omega arith)
  | no l ↦ inr (omega (arith, n, l))
]

-- A word of another page than one that is filled.
pub fill_away :
    (q c : ℕ) (b : ℕ → ℕ) (p i : ℕ)
    → p % page_size ≡ 0
    → q % page_size ≡ 0
    → i < 512
    → p ≢ q
    → load64 (fill q c b) (slot p i) ≡ load64 b (slot p i)
fill_away q c b p i a h g n = load64_same (fill q c b) b (slot p i) λ x l u. elim (dec_lt p q) [
  | yes k ↦ let under : x < q = omega arith in ground arith
  | no k ↦
      let less : q < p = omega (arith, n, k) in
      let over : q + page_size ≤ x = omega arith in ground arith
]

pub fill_inside : (q c : ℕ) (b : ℕ → ℕ) (x : ℕ) → q ≤ x → x < q + page_size → fill q c b x ≡ c
fill_inside q c b x h g = ground arith
