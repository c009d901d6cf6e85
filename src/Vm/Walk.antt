-- ===== src/Vm/Walk.antt =====
-- `walk` of kernel/vm.c, where it may allocate.
use project_priv.Prelude.{
  ℕ, zero, suc, ◌+◌, ◌*◌, ◌<◌, ◌≡◌, ◌⊎◌, inl, inr, refl, sym, ap, ◌∙◌, subst, List, [], ◌∷◌, none,
  some, true, false, arith, Bool-cases,
}
use project_priv.Vm.{Ram, fill, vpn, px, pte2pa, is_valid, kalloc, take_first, add_table, walk_from}
use project_priv.Vm.Table.{Labels, slot, word, IsTable, entry, walk_valid}
use project_priv.Vm.Extend.{
  extended, labels, extends, label_q, points, now_valid, kept, extended-IsTable, entries,
}

-- The tree has grown, and every address has the entry that it had.
pub record Grown (L : Labels) (m : Ram) (L' : Labels) (m' : Ram) : Type 0 where
  pub table : IsTable L' m'
  pub extends : (y : ℕ) (k : ℕ × ℕ) → L y ≡ some k → L' y ≡ some k
  pub kept :
      (y j l pre : ℕ)
      → L y ≡ some (l, pre)
      → j < 512
      → is_valid (word m y j) ≡ true
      → word m' y j ≡ word m y j
  pub entries : (l y pre va : ℕ) → L y ≡ some (l, pre) → entry l m' y va ≡ entry l m y va

pub Grown-refl : (L : Labels) (m : Ram) → IsTable L m → Grown L m L m
Grown-refl L m v = record {
  table = v;
  extends = λ y k e. e;
  kept = λ y j l pre e h ok. refl;
  entries = λ l y pre va e. refl;
}

pub Grown-trans :
    (L : Labels) (m : Ram) (L1 : Labels) (m1 : Ram) (L2 : Labels) (m2 : Ram)
    → Grown L m L1 m1
    → Grown L1 m1 L2 m2
    → Grown L m L2 m2
Grown-trans L m L1 m1 L2 m2 g h = record {
  table = h.table;
  extends = λ y k e. h.extends y k (g.extends y k e);
  kept = λ y j l pre e b ok.
      let same = g.kept y j l pre e b ok in
      h.kept y j l pre (g.extends y (l, pre) e) b (ap (λ (w : ℕ). is_valid w) same ∙ ok) ∙ same;
  entries = λ l y pre va e. h.entries l y pre va (g.extends y (l, pre) e) ∙ g.entries l y pre va e;
}

-- Where the walk has ended: at a PTE of a page of the lowest level.
pub record Found (L : Labels) (m : Ram) (l p va s : ℕ) : Type 0 where
  pub page : ℕ
  pub label : L page ≡ some (0, vpn 1 va)
  pub place : s ≡ slot page (px 0 va)
  pub again : walk_from l m p va false ≡ (some s, m)

pub data WalkView (L : Labels) (l : ℕ) (m : Ram) (p va : ℕ) : Type 0 where
  full :
      (L' : Labels) (m' : Ram)
      → Grown L m L' m'
      → m'.free ≡ []
      → walk_from l m p va true ≡ (none, m')
      → WalkView L l m p va
  found :
      (L' : Labels) (m' : Ram) (s : ℕ)
      → Grown L m L' m'
      → Found L' m' l p va s
      → walk_from l m p va true ≡ (some s, m')
      → WalkView L l m p va

-- A page has been found below `p`, or added there.
below :
    (L : Labels) (l : ℕ) (m : Ram) (p va : ℕ) (pre : ℕ) (L1 : Labels) (m1 : Ram)
    → L p ≡ some (suc l, pre)
    → Grown L m L1 m1
    → is_valid (word m1 p (px (suc l) va)) ≡ true
    → walk_from (suc l) m p va true ≡ walk_from l m1 (pte2pa (word m1 p (px (suc l) va))) va true
    → WalkView L1 l m1 (pte2pa (word m1 p (px (suc l) va))) va
    → WalkView L (suc l) m p va
below L l m p va pre L1 m1 e g ok step (full L' m' h none_left run) =
    full L' m' (Grown-trans L m L1 m1 L' m' g h) none_left (step ∙ run)
below L l m p va pre L1 m1 e g ok step (found L' m' s h f run) =
    let same : word m' p (px (suc l) va) ≡ word m1 p (px (suc l) va) =
      h.kept p (px (suc l) va) (suc l) pre (g.extends p (suc l, pre) e) (omega arith) ok in
    found L' m' s (Grown-trans L m L1 m1 L' m' g h)
      (record {
        page = f.page;
        label = f.label;
        place = f.place;
        again =
            walk_valid l m' p va false (ap (λ (w : ℕ). is_valid w) same ∙ ok)
            ∙ ap (λ (w : ℕ). walk_from l m' (pte2pa w) va false) same
            ∙ f.again;
      })
      (step ∙ run)

pub kalloc-none : (m : Ram) → m.free ≡ [] → kalloc m ≡ none
unfolding kalloc take_first
kalloc-none m free = ap (λ (f : List ℕ). take_first f m) free

pub kalloc-some :
    (m : Ram) (q : ℕ) (rest : List ℕ)
    → m.free ≡ q ∷ rest
    → kalloc m ≡ some (q, record { byte = fill q 5 m.byte; free = rest })
unfolding kalloc take_first
kalloc-some m q rest free = ap (λ (f : List ℕ). take_first f m) free

walk_full :
    (l : ℕ) (m : Ram) (p va : ℕ)
    → is_valid (word m p (px (suc l) va)) ≡ false
    → m.free ≡ []
    → walk_from (suc l) m p va true ≡ (none, m)
unfolding walk_from
walk_full l m p va bad free = rw (walk_from, bad, kalloc-none m free) refl

walk_adds :
    (l : ℕ) (m : Ram) (p va q : ℕ) (rest : List ℕ)
    → is_valid (word m p (px (suc l) va)) ≡ false
    → m.free ≡ q ∷ rest
    → walk_from (suc l) m p va true
      ≡ walk_from l
          (add_table (slot p (px (suc l) va)) q (record { byte = fill q 5 m.byte; free = rest }))
          q
          va
          true
unfolding walk_from
walk_adds l m p va q rest bad free = rw (walk_from, bad, kalloc-some m q rest free) refl

List-cases : (l : List ℕ) → (l ≡ []) ⊎ ((q : ℕ) × (rest : List ℕ) × (l ≡ q ∷ rest))
List-cases [] = inl refl
List-cases (q ∷ rest) = inr (q, rest, refl)

pub walk-cases :
    (L : Labels) (l : ℕ) (m : Ram) (p va : ℕ)
    → IsTable L m
    → L p ≡ some (l, vpn (suc l) va)
    → WalkView L l m p va
unfolding walk_from
walk-cases L zero m p va v e =
    found L m (slot p (px 0 va)) (Grown-refl L m v)
      (record { page = p; label = e; place = refl; again = refl }) refl
walk-cases L (suc l) m p va v e = elim (Bool-cases (is_valid (word m p (px (suc l) va)))) [
  | inl ok ↦
      let child = v.child p l (vpn (suc (suc l)) va) (px (suc l) va) e (omega arith) ok in
      let prefix : vpn (suc (suc l)) va * 512 + px (suc l) va ≡ vpn (suc l) va = omega arith in
      below L l m p va (vpn (suc (suc l)) va) L m e (Grown-refl L m v) ok
        (walk_valid l m p va true ok)
        (walk-cases L l m (pte2pa (word m p (px (suc l) va))) va v
          (child ∙ ap (λ (z : ℕ). some (l, z)) prefix))
  | inr bad ↦ elim (List-cases m.free) [
    | inl free ↦ full L m (Grown-refl L m v) free (walk_full l m p va bad free)
    | inr (q, rest, free) ↦
        let j = px (suc l) va in
        let pre = vpn (suc (suc l)) va in
        let small : j < 512 = omega arith in
        let m1 = extended L m v p l pre j e small bad q rest free in
        let L1 = labels L m v p l pre j e small bad q rest free in
        let here : pte2pa (word m1 p j) ≡ q = points L m v p l pre j e small bad q rest free in
        let prefix : pre * 512 + j ≡ vpn (suc l) va = omega arith in
        let table : IsTable L1 m1 = extended-IsTable L m v p l pre j e small bad q rest free in
        below L l m p va pre L1 m1 e
          (record {
            table = table;
            extends = extends L m v p l pre j e small bad q rest free;
            kept = kept L m v p l pre j e small bad q rest free;
            entries = entries L m v p l pre j e small bad q rest free;
          })
          (now_valid L m v p l pre j e small bad q rest free)
          (walk_adds l m p va q rest bad free ∙ ap (λ (z : ℕ). walk_from l m1 z va true) (sym here))
          (subst (λ (z : ℕ). WalkView L1 l m1 z va) (sym here)
            (walk-cases L1 l m1 q va table (
              label_q L m v p l pre j e small bad q rest free
              ∙ ap (λ (z : ℕ). some (l, z)) prefix)))
  ]
]
