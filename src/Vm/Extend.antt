-- ===== src/Vm/Extend.antt =====
-- An empty page-table page is added to the tree, in `walk` of kernel/vm.c.
use mathlib.Core.Bool.{false≢true}
use project_priv.Prelude.{
  ℕ, zero, suc, ◌+◌, ◌*◌, ◌/◌, ◌%◌, ◌≤◌, ◌<◌, ◌≡◌, ◌≢◌, ◌⊎◌, inl, inr, refl, sym, ap, ◌∙◌, subst,
  List, ◌∷◌, Option, none, some, true, false, arith, ℕ_discrete, Bool-cases, update, update_self,
  update_ne,
}
use project_priv.Kalloc.{page_size, phystop}
use project_priv.Kalloc.Chain.{In}
use project_priv.Vm.{Ram, fill, px, pa2pte, pte2pa, is_valid, add_table}
use project_priv.Vm.Bits.{bit_or_one}
use project_priv.Vm.Words.{load64-store64, load64-store64_ne, load64_zero}
use project_priv.Vm.Table.{
  Labels, slot, word, NoDup, IsTable, entry, entry_valid, entry_invalid, entry_leaf, slots_apart,
  slots_apart_same, fill_away, fill_inside,
}
use Prim.Native.Nat.{bit_or}

pub some-injective {ℓ} : {A : Type ℓ} {x y : A} → some x ≡ some y → x ≡ y
some-injective e = cc

pub none≢some {ℓ} : {A : Type ℓ} (x : A) → none ≢ some x
none≢some x e = cc

module _ (L : Labels) (m : Ram) (v : IsTable L m) (x l pre i : ℕ) (at : L x ≡ some (suc l, pre))
    (hi : i < 512) (invalid : is_valid (word m x i) ≡ false) (q : ℕ) (rest : List ℕ)
    (free : m.free ≡ q ∷ rest) where
  -- What kalloc leaves.
  abbrev pub taken : Ram
  taken = record { byte = fill q 5 m.byte; free = rest }

  abbrev pub extended : Ram
  extended = add_table (slot x i) q taken

  abbrev pub labels : Labels
  labels = update L q (some (l, pre * 512 + i))

  q_free : (L q ≡ none) × (q % page_size ≡ 0) × (q < phystop)
  q_free = v.spare q (subst (In q) (sym free) (inl refl))

  pub not_q : (y : ℕ) (k : ℕ × ℕ) → L y ≡ some k → y ≢ q
  not_q y k e same = none≢some k (sym (q_free.0) ∙ ap L (sym same) ∙ e)

  pub extends : (y : ℕ) (k : ℕ × ℕ) → L y ≡ some k → labels y ≡ some k
  extends y k e = update_ne L q (some (l, pre * 512 + i)) y (not_q y k e) ∙ e

  pub label_q : labels q ≡ some (l, pre * 512 + i)
  label_q = update_self L q (some (l, pre * 512 + i))

  x_aligned : x % page_size ≡ 0
  x_aligned = v.aligned x (suc l) pre at

  abbrev pointer : ℕ
  pointer = bit_or (pa2pte q) 1

  pointer_is : pointer ≡ q / page_size * 1024 + 1
  pointer_is = omega (arith, bit_or_one (pa2pte q))

  word_self : word extended x i ≡ pointer
  unfolding add_table
  word_self =
      load64-store64 (fill q 0 taken.byte) (slot x i) pointer (omega (arith, pointer_is, q_free.2))

  pub points : pte2pa (word extended x i) ≡ q
  points = omega (arith, word_self, pointer_is, q_free.1, q_free.2)

  pub now_valid : is_valid (word extended x i) ≡ true
  now_valid =
      let odd : word extended x i % 2 ≡ 1 = omega (arith, word_self, pointer_is) in
      ground (arith, odd)

  word_apart :
      (y j : ℕ) (k : ℕ × ℕ)
      → L y ≡ some k
      → y % page_size ≡ 0
      → j < 512
      → (slot y j + 8 ≤ slot x i) ⊎ (slot x i + 8 ≤ slot y j)
      → word extended y j ≡ word m y j
  unfolding add_table
  word_apart y j k e a h apart =
      load64-store64_ne (fill q 0 taken.byte) (slot x i) pointer (slot y j) apart
      ∙ fill_away q 0 taken.byte y j a (q_free.1) h (not_q y k e)
      ∙ fill_away q 5 m.byte y j a (q_free.1) h (not_q y k e)

  pub word_other :
      (y j l' pre' : ℕ)
      → L y ≡ some (l', pre')
      → j < 512
      → (y ≢ x) ⊎ (j ≢ i)
      → word extended y j ≡ word m y j
  word_other y j l' pre' e h n = elim (ℕ_discrete y x) [
    | no a ↦
        word_apart y j (l', pre') e (v.aligned y l' pre' e) h
          (slots_apart y x j i (v.aligned y l' pre' e) x_aligned h hi a)
    | yes a ↦ elim n [
      | inl b ↦ absurd (b a)
      | inr b ↦
          word_apart y j (l', pre') e (v.aligned y l' pre' e) h
            (subst (λ (z : ℕ). (slot z j + 8 ≤ slot x i) ⊎ (slot x i + 8 ≤ slot z j)) (sym a)
              (slots_apart_same x j i b))
    ]
  ]

  -- The new page is empty.
  word_new : (j : ℕ) → j < 512 → word extended q j ≡ 0
  unfolding add_table
  word_new j h =
      load64-store64_ne (fill q 0 taken.byte) (slot x i) pointer (slot q j)
        (slots_apart q x j i (q_free.1) x_aligned h hi (λ e. not_q x (suc l, pre) at (sym e)))
      ∙ load64_zero (fill q 0 taken.byte) (slot q j)
          (λ b a u. fill_inside q 0 taken.byte b (omega arith) (omega arith))

  pub kept :
      (y j l' pre' : ℕ)
      → L y ≡ some (l', pre')
      → j < 512
      → is_valid (word m y j) ≡ true
      → word extended y j ≡ word m y j
  kept y j l' pre' e h ok = elim (ℕ_discrete y x) [
    | no a ↦ word_other y j l' pre' e h (inl a)
    | yes a ↦ elim (ℕ_discrete j i) [
      | no b ↦ word_other y j l' pre' e h (inr b)
      | yes b ↦ absurd (
          false≢true (
            sym invalid
            ∙ ap (λ (z : ℕ). is_valid (word m z i)) (sym a)
            ∙ ap (λ (z : ℕ). is_valid (word m y z)) (sym b)
            ∙ ok))
    ]
  ]

  label_cases :
      (y : ℕ) (k : ℕ × ℕ)
      → labels y ≡ some k
      → ((y ≡ q) × (some (l, pre * 512 + i) ≡ some k)) ⊎ (L y ≡ some k)
  label_cases y k e = elim (ℕ_discrete y q) [
    | yes a ↦ inl (a, sym label_q ∙ ap labels (sym a) ∙ e)
    | no a ↦ inr (sym (update_ne L q (some (l, pre * 512 + i)) y a) ∙ e)
  ]

  child_after :
      (p l' pre' j : ℕ)
      → labels p ≡ some (suc l', pre')
      → j < 512
      → is_valid (word extended p j) ≡ true
      → labels (pte2pa (word extended p j)) ≡ some (l', pre' * 512 + j)
  child_after p l' pre' j e h ok = elim (label_cases p (suc l', pre') e) [
    | inl (a, b) ↦
        let even : word extended p j ≡ 0 = ap (λ (z : ℕ). word extended z j) a ∙ word_new j h in
        absurd (ground (arith, ok, even))
    | inr old ↦ elim (ℕ_discrete p x) [
      | no a ↦ same_child p l' pre' j old h (word_other p j (suc l') pre' old h (inl a)) ok
      | yes a ↦ elim (ℕ_discrete j i) [
        | no b ↦ same_child p l' pre' j old h (word_other p j (suc l') pre' old h (inr b)) ok
        | yes b ↦
            let place : ◌≡◌ {A = Option (ℕ × ℕ)} (some (suc l, pre)) (some (suc l', pre')) =
              sym at ∙ ap L (sym a) ∙ old in
            let levels : l ≡ l' = cc in
            let prefixes : pre ≡ pre' = cc in
            let here : pte2pa (word extended p j) ≡ q =
              ap (λ (z : ℕ). pte2pa (word extended z j)) a
              ∙ ap (λ (z : ℕ). pte2pa (word extended x z)) b
              ∙ points in
            ap labels here
            ∙ label_q
            ∙ ap (λ (z : ℕ). some (z, pre * 512 + i)) levels
            ∙ ap (λ (z : ℕ). some (l', z * 512 + i)) prefixes
            ∙ ap (λ (z : ℕ). some (l', pre' * 512 + z)) (sym b)
      ]
    ]
  ]
    where
      same_child :
          (p l' pre' j : ℕ)
          → L p ≡ some (suc l', pre')
          → j < 512
          → word extended p j ≡ word m p j
          → is_valid (word extended p j) ≡ true
          → labels (pte2pa (word extended p j)) ≡ some (l', pre' * 512 + j)
      same_child p l' pre' j old h same ok =
          ap (λ (w : ℕ). labels (pte2pa w)) same
          ∙ extends (pte2pa (word m p j)) (l', pre' * 512 + j)
              (v.child p l' pre' j old h (ap (λ (w : ℕ). is_valid w) (sym same) ∙ ok))

  pub extended-IsTable : IsTable labels extended
  unfolding add_table
  extended-IsTable =
      let two = subst NoDup free v.nodup in
      record {
        aligned = λ p l' pre' e. elim (label_cases p (l', pre') e) [
          | inl (a, b) ↦ ap (λ (z : ℕ). z % page_size) a ∙ q_free.1
          | inr old ↦ v.aligned p l' pre' old
        ];
        small = λ p l' pre' e. elim (label_cases p (l', pre') e) [
          | inl (a, b) ↦ omega (arith, a, q_free.2)
          | inr old ↦ v.small p l' pre' old
        ];
        child = child_after;
        spare = λ p g.
            let before = v.spare p (subst (In p) (sym free) (inr g)) in
            let n : p ≢ q = λ e. two.0 (subst (λ (z : ℕ). In z rest) e g) in
            (update_ne L q (some (l, pre * 512 + i)) p n ∙ before.0, before.1, before.2);
        nodup = two.1;
      }

  empty_entry : (l' va : ℕ) → entry l' extended q va ≡ 0
  empty_entry zero va = entry_leaf extended q va ∙ word_new (px 0 va) (omega arith)
  empty_entry (suc l') va =
      let z = word_new (px (suc l') va) (omega arith) in
      entry_invalid l' extended q va (ground (arith, z))

  -- Every address keeps its entry below every page of the tree.
  pub entries :
      (l' y pre' va : ℕ) → L y ≡ some (l', pre') → entry l' extended y va ≡ entry l' m y va
  entries zero y pre' va e =
      let n : y ≢ x = λ a. level_clash (sym e ∙ ap L a ∙ at) in
      entry_leaf extended y va
      ∙ word_other y (px 0 va) zero pre' e (omega arith) (inl n)
      ∙ sym (entry_leaf m y va)
    where
      level_clash : ◌≡◌ {A = Option (ℕ × ℕ)} (some (zero, pre')) (some (suc l, pre)) → ⊥
      level_clash c = cc
  entries (suc l') y pre' va e = elim (Bool-cases (is_valid (word m y (px (suc l') va)))) [
    | inl ok ↦
        let same = kept y (px (suc l') va) (suc l') pre' e (omega arith) ok in
        entry_valid l' extended y va (ap (λ (w : ℕ). is_valid w) same ∙ ok)
        ∙ ap (λ (w : ℕ). entry l' extended (pte2pa w) va) same
        ∙ entries l' (pte2pa (word m y (px (suc l') va))) (pre' * 512 + px (suc l') va) va
            (v.child y l' pre' (px (suc l') va) e (omega arith) ok)
        ∙ sym (entry_valid l' m y va ok)
    | inr bad ↦ elim (Bool-cases (is_valid (word extended y (px (suc l') va)))) [
      | inr still ↦ entry_invalid l' extended y va still ∙ sym (entry_invalid l' m y va bad)
      | inl now ↦ elim (ℕ_discrete y x) [
        | no a ↦ absurd (
            false≢true (
              sym bad
              ∙ ap (λ (w : ℕ). is_valid w)
                  (sym (word_other y (px (suc l') va) (suc l') pre' e (omega arith) (inl a)))
              ∙ now))
        | yes a ↦ elim (ℕ_discrete (px (suc l') va) i) [
          | no b ↦ absurd (
              false≢true (
                sym bad
                ∙ ap (λ (w : ℕ). is_valid w)
                    (sym (word_other y (px (suc l') va) (suc l') pre' e (omega arith) (inr b)))
                ∙ now))
          | yes b ↦
              let here : pte2pa (word extended y (px (suc l') va)) ≡ q =
                ap (λ (z : ℕ). pte2pa (word extended z (px (suc l') va))) a
                ∙ ap (λ (z : ℕ). pte2pa (word extended x z)) b
                ∙ points in
              entry_valid l' extended y va now
              ∙ ap (λ (z : ℕ). entry l' extended z va) here
              ∙ empty_entry l' va
              ∙ sym (entry_invalid l' m y va bad)
        ]
      ]
    ]
  ]
