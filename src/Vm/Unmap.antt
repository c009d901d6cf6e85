-- ===== src/Vm/Unmap.antt =====
-- `uvmunmap` of kernel/vm.c, without freeing what is mapped.
use mathlib.Core.Bool.{false≢true}
use project_priv.Prelude.{
  ◌>>=◌, ℕ, zero, suc, ◌+◌, ◌*◌, ◌%◌, ◌^◌, ◌≤◌, ◌<◌, ◌≡◌, ◌≢◌, ◌⊎◌, inl, inr, refl, sym, ap, ◌∙◌,
  subst, Option, none, some, true, false, ◌==◌, arith, ℕ_discrete, dec_lt, Bool-cases, eq→==, ne→==,
}
use project_priv.Kalloc.{page_size}
use project_priv.Vm.{
  Ram, maxva, vpn, px, pte2pa, pte_flags, is_valid, walk_from, walk, set_byte, unmap_loop, uvmunmap,
}
use project_priv.Vm.Words.{load64, store64}
use project_priv.Vm.Table.{
  Labels, word, word_at, IsTable, entry, entry_found, walk_valid, walk_invalid,
}
use project_priv.Vm.Leaf.{
  entry_page, walk_place, written, word-written, written-IsTable, walk_written, entry_other,
}
use project_priv.Vm.Range.{walk_below, ranged, ranged_in, ranged_out}

-- A walk that does not allocate changes nothing.
walk_reads : (l : ℕ) (m : Ram) (p va : ℕ) → (walk_from l m p va false).1 ≡ m
unfolding walk_from
walk_reads zero m p va = refl
walk_reads (suc l) m p va = elim (Bool-cases (is_valid (word m p (px (suc l) va)))) [
  | inl ok ↦
      ap (λ (r : Option ℕ × Ram). r.1) (walk_valid l m p va false ok)
      ∙ walk_reads l m (pte2pa (word m p (px (suc l) va))) va
  | inr bad ↦ ap (λ (r : Option ℕ × Ram). r.1) (walk_invalid l m p va bad)
]

-- A valid entry is found.
pub valid_found :
    (l : ℕ) (m : Ram) (p va : ℕ)
    → is_valid (entry l m p va) ≡ true
    → (s : ℕ) × (walk_from l m p va false ≡ (some s, m)) × (load64 m.byte s ≡ entry l m p va)
unfolding entry
valid_found l m p va ok = go (walk_from l m p va false) refl
  where
    go :
        (r : Option ℕ × Ram)
        → walk_from l m p va false ≡ r
        → (s : ℕ) × (walk_from l m p va false ≡ (some s, m)) × (load64 m.byte s ≡ entry l m p va)
    go (none, t) e =
        absurd (false≢true (ap (λ (r : Option ℕ × Ram). is_valid (word_at m r.0)) (sym e) ∙ ok))
    go (some s, t) e =
        let same : t ≡ m = ap (λ (r : Option ℕ × Ram). r.1) (sym e) ∙ walk_reads l m p va in
        (
          s,
          e ∙ ap (λ (z : Ram). (some s, z)) same,
          ap (λ (r : Option ℕ × Ram). word_at m r.0) (sym e),
        )

-- A leaf that `uvmunmap` takes.
unfoldable pub IsLeaf : ℕ → Type 0
IsLeaf pte = (is_valid pte ≡ true) × (pte_flags pte ≢ 1)

-- A valid entry is set to `w`.
pub record Sets (L : Labels) (m : Ram) (root a w : ℕ) : Type 0 where
  pub place : ℕ
  pub found : walk_from 2 m root a false ≡ (some place, m)
  pub pte : load64 m.byte place ≡ entry 2 m root a
  pub ram : Ram
  pub stored : set_byte m (store64 m.byte place w) ≡ ram
  pub table : IsTable L ram
  pub entries : (va : ℕ) → va < maxva → entry 2 ram root va ≡ ranged 1 a va w (entry 2 m root va)

pub entry-Sets :
    (L : Labels) (m : Ram) (root a w : ℕ)
    → IsTable L m
    → L root ≡ some (2, 0)
    → a % page_size ≡ 0
    → a < maxva
    → w < 2 ^ 64
    → is_valid (entry 2 m root a) ≡ true
    → Sets L m root a w
entry-Sets L m root a w v at al below small ok =
    let (s, run, pte) = valid_found 2 m root a ok in
    let top : vpn 3 a ≡ 0 = omega arith in
    let (page, label, place) =
      walk_place L 2 m root a s v (at ∙ ap (λ (z : ℕ). some (2, z)) (sym top)) run in
    let j = px 0 a in
    let hj : j < 512 = omega arith in
    let m2 = written L m v page (vpn 1 a) j label hj w small in
    let here : entry 2 m2 root a ≡ w =
      entry_found 2 m2 root a s
        (walk_written L m v page (vpn 1 a) j label hj w small 2 root 0 a s at run)
      ∙ ap (load64 m2.byte) place
      ∙ word-written L m v page (vpn 1 a) j label hj w small in
    record {
      place = s;
      found = run;
      pte = pte;
      ram = m2;
      stored = ap (λ (z : ℕ). set_byte m (store64 m.byte z w)) place;
      table = written-IsTable L m v page (vpn 1 a) j label hj w small;
      entries = λ va h. elim (ℕ_discrete (vpn 0 va) (vpn 0 a)) [
        | yes e ↦
            entry_page 2 m2 root va a e
            ∙ here
            ∙ sym (
                ranged_in 1 a va w (entry 2 m root va) (omega (arith, e, al))
                  (omega (arith, e, al)))
        | no n ↦
            let high : vpn 3 va ≡ 0 = omega arith in
            entry_other L m v page (vpn 1 a) j label hj w small 2 root va
              (at ∙ ap (λ (z : ℕ). some (2, z)) (sym high)) (λ e. n (omega (arith, e)))
            ∙ sym (ranged_out 1 a va w (entry 2 m root va) (outside va n))
      ];
    }
  where
    outside : (va : ℕ) → vpn 0 va ≢ vpn 0 a → (va < a) ⊎ (a + page_size * 1 ≤ va)
    outside va n = elim (dec_lt va a) [ yes l ↦ inl l | no l ↦ inr (omega (arith, l, n, al)) ]

unmap_step :
    (kernel_end k : ℕ) (L : Labels) (m : Ram) (root a : ℕ) (o : Sets L m root a 0)
    → a < maxva
    → IsLeaf (entry 2 m root a)
    → unmap_loop kernel_end (suc k) m root a false
      ≡ unmap_loop kernel_end k o.ram root (a + page_size) false
unfolding unmap_loop IsLeaf
unmap_step kernel_end k L m root a o below (ok, leaf) =
    let whole_walk : walk m root a false ≡ some (some o.place, m) =
      walk_below m root a false below ∙ ap some o.found in
    let valid : is_valid (load64 m.byte o.place) ≡ true = ap (λ (w : ℕ). is_valid w) o.pte ∙ ok in
    let flags : (pte_flags (load64 m.byte o.place) == 1) ≡ false =
      ne→== (pte_flags (load64 m.byte o.place)) 1 (λ e. leaf (ap pte_flags (sym o.pte) ∙ e)) in
    rw (unmap_loop, whole_walk, ◌>>=◌, valid, flags)
      (ap (λ (r : Ram). unmap_loop kernel_end k r root (a + page_size) false) o.stored)

ranged-suc :
    (n a va new old : ℕ)
    → ranged n (a + page_size) va new (ranged 1 a va new old) ≡ ranged (suc n) a va new old
ranged-suc n a va new old = elim (dec_lt va a) [
  | yes l ↦
      ranged_out n (a + page_size) va new (ranged 1 a va new old) (inl (omega arith))
      ∙ ranged_out 1 a va new old (inl l)
      ∙ sym (ranged_out (suc n) a va new old (inl l))
  | no l ↦ elim (dec_lt va (a + page_size)) [
    | yes in_first ↦
        ranged_out n (a + page_size) va new (ranged 1 a va new old) (inl in_first)
        ∙ ranged_in 1 a va new old (omega (arith, l)) (omega arith)
        ∙ sym (ranged_in (suc n) a va new old (omega (arith, l)) (omega arith))
    | no past ↦ elim (dec_lt va (a + page_size * suc n)) [
      | yes u ↦
          ranged_in n (a + page_size) va new (ranged 1 a va new old) (omega (arith, past))
            (omega arith)
          ∙ sym (ranged_in (suc n) a va new old (omega (arith, l)) u)
      | no u ↦
          ranged_out n (a + page_size) va new (ranged 1 a va new old) (inr (omega (arith, u)))
          ∙ ranged_out 1 a va new old (inr (omega (arith, past)))
          ∙ sym (ranged_out (suc n) a va new old (inr (omega (arith, u))))
    ]
  ]
]

unmap_loop_lem :
    (kernel_end n : ℕ) (L : Labels) (m : Ram) (root a : ℕ)
    → IsTable L m
    → L root ≡ some (2, 0)
    → a % page_size ≡ 0
    → a + page_size * n ≤ maxva
    → ((x : ℕ) → a ≤ x → x < a + page_size * n → IsLeaf (entry 2 m root x))
    → (m' : Ram) × (unmap_loop kernel_end n m root a false ≡ some m')
      × IsTable L m'
      × ((x : ℕ) → x < maxva → entry 2 m' root x ≡ ranged n a x 0 (entry 2 m root x))
unfolding unmap_loop IsLeaf
unmap_loop_lem kernel_end zero L m root a v at al room leaves = (
  m,
  refl,
  v,
  λ x h. sym (
      ranged_out 0 a x 0 (entry 2 m root x)
        (elim (dec_lt x a) [ yes l ↦ inl l | no l ↦ inr (omega (arith, l)) ])),
)
unmap_loop_lem kernel_end (suc k) L m root a v at al room leaves =
    let below : a < maxva = omega arith in
    let leaf = leaves a (omega arith) (omega arith) in
    let o = entry-Sets L m root a 0 v at al below (omega arith) leaf.0 in
    let (m', run, table, entries) =
      unmap_loop_lem kernel_end k L o.ram root (a + page_size) o.table at (omega (arith, al))
        (omega arith)
        (λ x h l.
          subst IsLeaf
            (sym (
              o.entries x (omega arith)
              ∙ ranged_out 1 a x 0 (entry 2 m root x) (inr (omega (arith, h)))))
            (leaves x (omega arith) (omega arith))) in
    (
      m',
      unmap_step kernel_end k L m root a o below leaf ∙ run,
      table,
      λ x h.
          entries x h
          ∙ ap (ranged k (a + page_size) x 0) (o.entries x h)
          ∙ ranged-suc k a x 0 (entry 2 m root x),
    )

-- On a sound page table, `uvmunmap` of aligned pages below MAXVA that all have leaf entries, without freeing
-- what they map, does not panic: their addresses then have no entry, every other address has the one that
-- it had, and the page table is sound again.
pub uvmunmap_lem :
    (kernel_end n : ℕ) (L : Labels) (m : Ram) (root va : ℕ)
    → IsTable L m
    → L root ≡ some (2, 0)
    → va % page_size ≡ 0
    → va + page_size * n ≤ maxva
    → ((x : ℕ) → va ≤ x → x < va + page_size * n → IsLeaf (entry 2 m root x))
    → (m' : Ram) × (uvmunmap kernel_end m root va n false ≡ some m')
      × IsTable L m'
      × ((x : ℕ) → x < maxva → entry 2 m' root x ≡ ranged n va x 0 (entry 2 m root x))
unfolding uvmunmap
uvmunmap_lem kernel_end n L m root va v at al room leaves =
    let (m', run, table, entries) = unmap_loop_lem kernel_end n L m root va v at al room leaves in
    (m', rw (uvmunmap, eq→== (va % page_size) 0 al) run, table, entries)
