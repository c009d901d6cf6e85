-- ===== src/Vm/Leaf.antt =====
-- A PTE of the lowest level is written, and what this is to the entries of addresses.
use project_priv.Prelude.{
  ℕ, zero, suc, ◌+◌, ◌*◌, ◌/◌, ◌%◌, ◌^◌, ◌≤◌, ◌<◌, ◌≡◌, ◌≢◌, ◌⊎◌, inl, inr, sym, ap, ◌∙◌, subst,
  Option, some, false, arith, ℕ_discrete, Bool-cases,
}
use project_priv.Vm.{Ram, vpn, px, pte2pa, is_valid, walk_from, set_byte}
use project_priv.Vm.Words.{store64, load64-store64, load64-store64_ne}
use project_priv.Vm.Table.{
  Labels, slot, word, IsTable, entry, entry_valid, entry_invalid, entry_leaf, walk_valid,
  walk_invalid, slots_apart, slots_apart_same,
}
use project_priv.Vm.Extend.{none≢some}

-- Addresses in one page have one entry.
vpn_same : (l va va' : ℕ) → vpn 0 va ≡ vpn 0 va' → vpn l va ≡ vpn l va'
vpn_same zero va va' e = e
vpn_same (suc l) va va' e = ap (λ (z : ℕ). z / 512) (vpn_same l va va' e)

px_same : (l va va' : ℕ) → vpn 0 va ≡ vpn 0 va' → px l va ≡ px l va'
px_same l va va' e = ap (λ (z : ℕ). z % 512) (vpn_same l va va' e)

pub entry_page :
    (l : ℕ) (m : Ram) (p va va' : ℕ) → vpn 0 va ≡ vpn 0 va' → entry l m p va ≡ entry l m p va'
entry_page zero m p va va' e =
    entry_leaf m p va ∙ ap (word m p) (px_same 0 va va' e) ∙ sym (entry_leaf m p va')
entry_page (suc l) m p va va' e =
    let same : word m p (px (suc l) va) ≡ word m p (px (suc l) va') =
      ap (word m p) (px_same (suc l) va va' e) in
    elim (Bool-cases (is_valid (word m p (px (suc l) va)))) [
      | inl ok ↦
          entry_valid l m p va ok
          ∙ entry_page l m (pte2pa (word m p (px (suc l) va))) va va' e
          ∙ ap (λ (w : ℕ). entry l m (pte2pa w) va') same
          ∙ sym (entry_valid l m p va' (ap (λ (w : ℕ). is_valid w) (sym same) ∙ ok))
      | inr bad ↦
          entry_invalid l m p va bad
          ∙ sym (entry_invalid l m p va' (ap (λ (w : ℕ). is_valid w) (sym same) ∙ bad))
    ]

-- Where a walk that does not allocate ends.
pub walk_place :
    (L : Labels) (l : ℕ) (m : Ram) (p va s : ℕ)
    → IsTable L m
    → L p ≡ some (l, vpn (suc l) va)
    → walk_from l m p va false ≡ (some s, m)
    → (page : ℕ) × (L page ≡ some (0, vpn 1 va)) × (s ≡ slot page (px 0 va))
unfolding walk_from
walk_place L zero m p va s v e w = (p, e, cc)
walk_place L (suc l) m p va s v e w = elim (Bool-cases (is_valid (word m p (px (suc l) va)))) [
  | inr bad ↦
      absurd (none≢some s (ap (λ (r : Option ℕ × Ram). r.0) (sym (walk_invalid l m p va bad) ∙ w)))
  | inl ok ↦
      let child = v.child p l (vpn (suc (suc l)) va) (px (suc l) va) e (omega arith) ok in
      let prefix : vpn (suc (suc l)) va * 512 + px (suc l) va ≡ vpn (suc l) va = omega arith in
      walk_place L l m (pte2pa (word m p (px (suc l) va))) va s v
        (child ∙ ap (λ (z : ℕ). some (l, z)) prefix) (sym (walk_valid l m p va false ok) ∙ w)
]

module _ (L : Labels) (m : Ram) (v : IsTable L m) (p pre j : ℕ) (at : L p ≡ some (0, pre))
    (hj : j < 512) (w : ℕ) (small : w < 2 ^ 64) where
  abbrev pub written : Ram
  written = set_byte m (store64 m.byte (slot p j) w)

  pub word-written : word written p j ≡ w
  word-written = load64-store64 m.byte (slot p j) w small

  word_away :
      (y i l pre' : ℕ)
      → L y ≡ some (l, pre')
      → i < 512
      → (y ≢ p) ⊎ (i ≢ j)
      → word written y i ≡ word m y i
  word_away y i l pre' e h n = elim (ℕ_discrete y p) [
    | no a ↦
        load64-store64_ne m.byte (slot p j) w (slot y i)
          (slots_apart y p i j (v.aligned y l pre' e) (v.aligned p 0 pre at) h hj a)
    | yes a ↦ elim n [
      | inl b ↦ absurd (b a)
      | inr b ↦ load64-store64_ne m.byte (slot p j) w (slot y i) (
          subst (λ (z : ℕ). (slot z i + 8 ≤ slot p j) ⊎ (slot p j + 8 ≤ slot z i)) (sym a)
            (slots_apart_same p i j b))
    ]
  ]

  not_leaf : (y l pre' : ℕ) → L y ≡ some (suc l, pre') → y ≢ p
  not_leaf y l pre' e a = clash (sym e ∙ ap L a ∙ at)
    where
      clash : ◌≡◌ {A = Option (ℕ × ℕ)} (some (suc l, pre')) (some (0, pre)) → ⊥
      clash c = cc

  upper : (y i l pre' : ℕ) → L y ≡ some (suc l, pre') → i < 512 → word written y i ≡ word m y i
  upper y i l pre' e h = word_away y i (suc l) pre' e h (inl (not_leaf y l pre' e))

  pub written-IsTable : IsTable L written
  written-IsTable = record {
    aligned = v.aligned;
    small = v.small;
    child = λ y l pre' i e h ok.
        let same = upper y i l pre' e h in
        ap (λ (z : ℕ). L (pte2pa z)) same
        ∙ v.child y l pre' i e h (ap (λ (z : ℕ). is_valid z) (sym same) ∙ ok);
    spare = v.spare;
    nodup = v.nodup;
  }

  -- A walk ends where it did.
  pub walk_written :
      (l y pre' va s : ℕ)
      → L y ≡ some (l, pre')
      → walk_from l m y va false ≡ (some s, m)
      → walk_from l written y va false ≡ (some s, written)
  unfolding walk_from
  walk_written zero y pre' va s e f =
      ap (λ (z : Option ℕ). (z, written)) (ap (λ (r : Option ℕ × Ram). r.0) f)
  walk_written (suc l) y pre' va s e f =
      let i = px (suc l) va in
      let same = upper y i l pre' e (omega arith) in
      elim (Bool-cases (is_valid (word m y i))) [
        | inr bad ↦
            absurd
              (none≢some s (ap (λ (r : Option ℕ × Ram). r.0) (sym (walk_invalid l m y va bad) ∙ f)))
        | inl ok ↦
            walk_valid l written y va false (ap (λ (z : ℕ). is_valid z) same ∙ ok)
            ∙ ap (λ (z : ℕ). walk_from l written (pte2pa z) va false) same
            ∙ walk_written l (pte2pa (word m y i)) (pre' * 512 + i) va s
                (v.child y l pre' i e (omega arith) ok) (sym (walk_valid l m y va false ok) ∙ f)
      ]

  pub entry_other :
      (l y va : ℕ)
      → L y ≡ some (l, vpn (suc l) va)
      → vpn 0 va ≢ pre * 512 + j
      → entry l written y va ≡ entry l m y va
  entry_other zero y va e n =
      let apart : (y ≢ p) ⊎ (px 0 va ≢ j) = elim (ℕ_discrete y p) [
        | no a ↦ inl a
        | yes a ↦
            let prefix = same_prefix (vpn 1 va) (sym e ∙ ap L a ∙ at) in
            inr (λ b. n (omega (arith, prefix, b)))
      ] in
      entry_leaf written y va
      ∙ word_away y (px 0 va) 0 (vpn 1 va) e (omega arith) apart
      ∙ sym (entry_leaf m y va)
    where
      same_prefix : (z : ℕ) → ◌≡◌ {A = Option (ℕ × ℕ)} (some (0, z)) (some (0, pre)) → z ≡ pre
      same_prefix z c = cc
  entry_other (suc l) y va e n =
      let i = px (suc l) va in
      let same = upper y i l (vpn (suc (suc l)) va) e (omega arith) in
      elim (Bool-cases (is_valid (word m y i))) [
        | inr bad ↦
            entry_invalid l written y va (ap (λ (z : ℕ). is_valid z) same ∙ bad)
            ∙ sym (entry_invalid l m y va bad)
        | inl ok ↦
            let child = v.child y l (vpn (suc (suc l)) va) i e (omega arith) ok in
            let prefix : vpn (suc (suc l)) va * 512 + i ≡ vpn (suc l) va = omega arith in
            entry_valid l written y va (ap (λ (z : ℕ). is_valid z) same ∙ ok)
            ∙ ap (λ (z : ℕ). entry l written (pte2pa z) va) same
            ∙ entry_other l (pte2pa (word m y i)) va (child ∙ ap (λ (z : ℕ). some (l, z)) prefix) n
            ∙ sym (entry_valid l m y va ok)
      ]
