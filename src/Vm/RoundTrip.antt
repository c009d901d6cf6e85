-- ===== src/Vm/RoundTrip.antt =====
-- `uvmunmap` after `mappages`.
use project_priv.Prelude.{
  ℕ, ◌+◌, ◌-◌, ◌*◌, ◌/◌, ◌%◌, ◌^◌, ◌≤◌, ◌<◌, ◌≡◌, sym, ap, ◌∙◌, subst, inl, inr, dec_lt, Bool-cases,
  some, Bool, true, false, arith, eq→==,
}
use project_priv.Kalloc.{page_size}
use project_priv.Vm.{Ram, maxva, is_valid, leaf_pte, mappages, uvmunmap}
use project_priv.Vm.Table.{Labels, IsTable, entry}
use project_priv.Vm.Range.{ranged, ranged_in, mapped, mapped_in, mapped_out, leaf_pte_is}
use project_priv.Vm.Map.{mappages_lem}
use project_priv.Vm.Unmap.{IsLeaf, uvmunmap_lem}

-- An entry with a permission bit is a leaf.
leaf_pte-IsLeaf : (pa perm : ℕ) → perm < 1024 → 2 ≤ perm → IsLeaf (leaf_pte pa perm)
unfolding IsLeaf
leaf_pte-IsLeaf pa perm h g =
    let shape = leaf_pte_is pa perm h in
    (eq→== (leaf_pte pa perm % 2) 1 (omega (arith, shape)), λ e. omega (arith, shape, e, g))

-- On a sound page table, `mappages` of one or more pages of page-aligned addresses below MAXVA,
-- none of which has a valid entry, to page-aligned physical addresses below 2^56, with flags of 2
-- or more and below 2^10, maps all of them when it returns 0 and fewer when it returns -1; then
-- `uvmunmap` of as many pages as were mapped, with `do_free` 0, does not panic and leaves each
-- address outside them the entry that it had before, and none to those inside. The page table is
-- sound again.
pub uvmunmap-mappages :
    (kernel_end : ℕ) (L : Labels) (m : Ram) (root va n pa perm : ℕ)
    → IsTable L m
    → L root ≡ some (2, 0)
    → va % page_size ≡ 0
    → 0 < n
    → va + page_size * n ≤ maxva
    → pa % page_size ≡ 0
    → pa + page_size * n ≤ 2 ^ 56
    → perm < 1024
    → 2 ≤ perm
    → ((x : ℕ) → va ≤ x → x < va + page_size * n → is_valid (entry 2 m root x) ≡ false)
    → (ok : Bool) × (count : ℕ) × (m1 : Ram) × (L2 : Labels) × (m2 : Ram) × (mappages m root va
          (page_size * n)
          pa
          perm
        ≡ some (ok, m1))
      × (ok ≡ true → count ≡ n)
      × (ok ≡ false → count < n)
      × (uvmunmap kernel_end m1 root va count false ≡ some m2)
      × IsTable L2 m2
      × ((x : ℕ) → x < maxva → entry 2 m2 root x ≡ ranged count va x 0 (entry 2 m root x))
uvmunmap-mappages kernel_end L m root va n pa perm v at al some_pages room pal proom pperm useful
      empty =
    let (ok, count, L1, m1, run, whole, short, table, at1, entries) =
      mappages_lem L m root va n pa perm v at al some_pages room pal proom pperm empty in
    let bound : count ≤ n = elim (Bool-cases ok) [
      | inl e ↦ omega (arith, whole e)
      | inr e ↦ omega (arith, (short e).0)
    ] in
    let (m2, run2, table2, entries2) =
      uvmunmap_lem kernel_end count L1 m1 root va table at1 al (omega arith) (λ x h l.
        subst IsLeaf
          (sym (entries x (omega arith) ∙ mapped_in count va pa perm x (entry 2 m root x) h l))
          (leaf_pte-IsLeaf (pa + (x / page_size - va / page_size) * page_size) perm pperm
            useful)) in
    (
      ok,
      count,
      m1,
      L1,
      m2,
      run,
      whole,
      λ e. (short e).0,
      run2,
      table2,
      λ x h.
          entries2 x h
          ∙ ap (ranged count va x 0) (entries x h)
          ∙ twice count va pa perm x (entry 2 m root x),
    )
  where
    twice :
        (count va pa perm x old : ℕ)
        → ranged count va x 0 (mapped count va pa perm x old) ≡ ranged count va x 0 old
    twice count va pa perm x old = elim (dec_lt x va) [
      | yes l ↦ ap (ranged count va x 0) (mapped_out count va pa perm x old (inl l))
      | no l ↦ elim (dec_lt x (va + page_size * count)) [
        | yes u ↦
            ranged_in count va x 0 _ (omega (arith, l)) u
            ∙ sym (ranged_in count va x 0 old (omega (arith, l)) u)
        | no u ↦
            ap (ranged count va x 0) (mapped_out count va pa perm x old (inr (omega (arith, u))))
      ]
    ]
