-- ===== src/Vm/Page.antt =====
-- `mappages` of one page.
use project_priv.Prelude.{
  ℕ, ◌+◌, ◌-◌, ◌*◌, ◌/◌, ◌%◌, ◌^◌, ◌≤◌, ◌<◌, ◌≡◌, ◌≢◌, ◌⊎◌, inl, inr, sym, ap, ◌∙◌, some, true,
  false, arith, ℕ_discrete, dec_lt,
}
use project_priv.Kalloc.{page_size}
use project_priv.Vm.{Ram, maxva, vpn, px, is_valid, leaf_pte, walk_from, set_byte}
use project_priv.Vm.Words.{load64, store64}
use project_priv.Vm.Table.{Labels, IsTable, entry, entry_found}
use project_priv.Vm.Walk.{Grown, Found}
use project_priv.Vm.Leaf.{
  entry_page, written, word-written, written-IsTable, walk_written, entry_other,
}
use project_priv.Vm.Range.{leaf_pte_is, mapped, mapped_in, mapped_out}

-- One page is mapped.
pub record OneMapped (L : Labels) (m : Ram) (root a pa perm : ℕ) : Type 0 where
  pub labels : Labels
  pub walked : Ram
  pub place : ℕ
  pub ram : Ram
  pub run : walk_from 2 m root a true ≡ (some place, walked)
  pub free_slot : is_valid (load64 walked.byte place) ≡ false
  pub stored : set_byte walked (store64 walked.byte place (leaf_pte pa perm)) ≡ ram
  pub table : IsTable labels ram
  pub is_root : labels root ≡ some (2, 0)
  pub entries :
      (va : ℕ) → va < maxva → entry 2 ram root va ≡ mapped 1 a pa perm va (entry 2 m root va)

pub one_page :
    (L : Labels) (m : Ram) (root a pa perm : ℕ) (L' : Labels) (m' : Ram) (s : ℕ)
    → L root ≡ some (2, 0)
    → a % page_size ≡ 0
    → a < maxva
    → pa % page_size ≡ 0
    → pa < 2 ^ 56
    → perm < 1024
    → is_valid (entry 2 m root a) ≡ false
    → Grown L m L' m'
    → Found L' m' 2 root a s
    → walk_from 2 m root a true ≡ (some s, m')
    → OneMapped L m root a pa perm
one_page L m root a pa perm L' m' s at al below pal psmall pperm empty g f run =
    let small : leaf_pte pa perm < 2 ^ 64 = omega (arith, leaf_pte_is pa perm pperm) in
    let j = px 0 a in
    let hj : j < 512 = omega arith in
    let m2 = written L' m' g.table f.page (vpn 1 a) j f.label hj (leaf_pte pa perm) small in
    let root_at : L' root ≡ some (2, 0) = g.extends root (2, 0) at in
    let before : load64 m'.byte s ≡ entry 2 m root a =
      sym (entry_found 2 m' root a s f.again) ∙ g.entries 2 root 0 a at in
    let found_again : walk_from 2 m2 root a false ≡ (some s, m2) =
      walk_written L' m' g.table f.page (vpn 1 a) j f.label hj (leaf_pte pa perm) small 2 root 0 a s
        root_at f.again in
    let here : entry 2 m2 root a ≡ leaf_pte pa perm =
      entry_found 2 m2 root a s found_again
      ∙ ap (load64 m2.byte) f.place
      ∙ word-written L' m' g.table f.page (vpn 1 a) j f.label hj (leaf_pte pa perm) small in
    record {
      labels = L';
      walked = m';
      place = s;
      ram = m2;
      run = run;
      free_slot = ap (λ (w : ℕ). is_valid w) before ∙ empty;
      stored = ap (λ (z : ℕ). set_byte m' (store64 m'.byte z (leaf_pte pa perm))) f.place;
      table = written-IsTable L' m' g.table f.page (vpn 1 a) j f.label hj (leaf_pte pa perm) small;
      is_root = root_at;
      entries = λ va h. elim (ℕ_discrete (vpn 0 va) (vpn 0 a)) [
        | yes e ↦
            let first : pa + (va / page_size - a / page_size) * page_size ≡ pa = omega (arith, e) in
            entry_page 2 m2 root va a e
            ∙ here
            ∙ ap (λ (z : ℕ). leaf_pte z perm) (sym first)
            ∙ sym (
                mapped_in 1 a pa perm va (entry 2 m root va) (omega (arith, e, al))
                  (omega (arith, e, al)))
        | no n ↦
            let top : vpn 3 va ≡ 0 = omega arith in
            let far : vpn 0 va ≢ vpn 1 a * 512 + j = λ e. n (omega (arith, e)) in
            entry_other L' m' g.table f.page (vpn 1 a) j f.label hj (leaf_pte pa perm) small 2 root
              va (root_at ∙ ap (λ (z : ℕ). some (2, z)) (sym top)) far
            ∙ g.entries 2 root 0 va at
            ∙ sym (mapped_out 1 a pa perm va (entry 2 m root va) (outside va n))
      ];
    }
  where
    outside : (va : ℕ) → vpn 0 va ≢ vpn 0 a → (va < a) ⊎ (a + page_size * 1 ≤ va)
    outside va n = elim (dec_lt va a) [ yes l ↦ inl l | no l ↦ inr (omega (arith, l, n, al)) ]
