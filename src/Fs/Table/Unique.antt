-- ===== src/Fs/Table/Unique.antt =====
-- `iget`: no two entries of the table in use are for the same inode.
use mathlib.Core.Bool.{false≢true}
use project_priv.Prelude.{
  ℕ, zero, suc, ◌+◌, ◌≤◌, ◌<◌, ◌≡◌, ◌≢◌, ◌⊎◌, inl, inr, refl, sym, ap, ◌∙◌, Option, none, some,
  true, false, subst, update, update_self, update_ne, Bool-cases, arith, ℕ_discrete,
}
use project_priv.Fs.Inode.{Inode}
use project_priv.Fs.Table.{ninode, Itable, is_inode, remember, held, spare, scan, iget}

-- Two entries in use for one inode are the same entry.
abbrev pub IsUnique : Itable → Type 0
IsUnique t =
    (i j : ℕ)
    → i < ninode
    → j < ninode
    → 0 < (t i).ref
    → 0 < (t j).ref
    → (t i).dev ≡ (t j).dev
    → (t i).inum ≡ (t j).inum
    → i ≡ j

-- What the loop promises of the slot `e`, if it starts with the slot `empty`.
record Spare (k i : ℕ) (t : Itable) (empty e : Option ℕ) : Type 0 where
  none_left : e ≡ none → (j : ℕ) → i ≤ j → j < i + k → 0 < (t j).ref
  was_none : e ≡ none → empty ≡ none
  slot : (m : ℕ) → e ≡ some m → (empty ≡ some m) ⊎ ((i ≤ m) × (m < i + k) × ((t m).ref ≡ 0))

data ScanView (k i dev inum : ℕ) (t : Itable) (empty : Option ℕ) : Type 0 where
  at :
      (j : ℕ)
      → i ≤ j
      → j < i + k
      → is_inode dev inum (t j) ≡ true
      → scan k i dev inum t empty ≡ held j
      → ScanView k i dev inum t empty
  absent :
      (e : Option ℕ)
      → ((j : ℕ) → i ≤ j → j < i + k → is_inode dev inum (t j) ≡ false)
      → Spare k i t empty e
      → scan k i dev inum t empty ≡ spare e
      → ScanView k i dev inum t empty

remember-none :
    (i : ℕ) (ip : Inode) (empty : Option ℕ)
    → remember i ip empty ≡ none
    → (empty ≡ none) × (0 < ip.ref)
unfolding remember
remember-none i ip none h = (refl, ground (arith, h))
remember-none i ip (some j) h = cc

remember-some :
    (i m : ℕ) (ip : Inode) (empty : Option ℕ)
    → remember i ip empty ≡ some m
    → (empty ≡ some m) ⊎ ((i ≡ m) × (ip.ref ≡ 0))
unfolding remember
remember-some i m ip none h = inr (ground (arith, h), ground (arith, h))
remember-some i m ip (some j) h = inl h

scan-cases : (k i dev inum : ℕ) (t : Itable) (empty : Option ℕ) → ScanView k i dev inum t empty
unfolding scan
scan-cases zero i dev inum t empty =
    absent empty (λ j h l. absurd (omega arith))
      (record {
        none_left = λ e j h l. absurd (omega arith);
        was_none = λ e. e;
        slot = λ m e. inl e;
      })
      refl
scan-cases (suc k) i dev inum t empty = elim (Bool-cases (is_inode dev inum (t i))) [
  | inl e ↦ at i (omega arith) (omega arith) e (rw (scan, e) refl)
  | inr e ↦ elim (scan-cases k (i + 1) dev inum t (remember i (t i) empty)) [
    | at j h l is run ↦ at j (omega arith) (omega arith) is (rw (scan, e) run)
    | absent o none_for sp run ↦
        absent o
          (λ j h l. elim (ℕ_discrete j i) [
            | yes same ↦ ap (λ (x : ℕ). is_inode dev inum (t x)) same ∙ e
            | no n ↦ none_for j (omega arith) (omega arith)
          ])
          (record {
            none_left = λ z j h l. elim (ℕ_discrete j i) [
              | yes same ↦
                  let now = (remember-none i (t i) empty (sp.was_none z)).1 in
                  omega (arith, now, ap (λ (x : ℕ). (t x).ref) same)
              | no n ↦ sp.none_left z j (omega arith) (omega arith)
            ];
            was_none = λ z. (remember-none i (t i) empty (sp.was_none z)).0;
            slot = λ m z. elim (sp.slot m z) [
              | inr (h, l, r) ↦ inr (omega arith, omega arith, r)
              | inl q ↦ elim (remember-some i m (t i) empty q) [
                | inl was ↦ inl was
                | inr (same, r) ↦
                    inr (omega arith, omega arith, ap (λ (x : ℕ). (t x).ref) (sym same) ∙ r)
              ]
            ];
          })
          (rw (scan, e) run)
  ]
]

none≢some : (i : ℕ) → none ≢ some i
none≢some i e = cc

-- What `iget` promises of the entry and the table that it gives.
pub record Gets (dev inum : ℕ) (t : Itable) (i : ℕ) (t' : Itable) : Type 0 where
  pub inside : i < ninode
  pub dev_is : (t' i).dev ≡ dev
  pub inum_is : (t' i).inum ≡ inum
  pub ref_is : (t' i).ref ≡ (t i).ref + 1
  pub others : (j : ℕ) → j ≢ i → t' j ≡ t j
  pub was :
      (t' i ≡ record (t i) { ref = (t i).ref + 1 })
      ⊎ (((t i).ref ≡ 0)
          × ((t' i).valid ≡ false)
          × ((j : ℕ) → j < ninode → is_inode dev inum (t j) ≡ false))
  pub unique : IsUnique t'

is_inode-fields :
    (dev inum : ℕ) (ip : Inode)
    → is_inode dev inum ip ≡ true
    → (0 < ip.ref) × (ip.dev ≡ dev) × (ip.inum ≡ inum)
unfolding is_inode
is_inode-fields dev inum ip h = (ground (arith, h), ground (arith, h), ground (arith, h))

fields-is_inode :
    (dev inum : ℕ) (ip : Inode)
    → 0 < ip.ref
    → ip.dev ≡ dev
    → ip.inum ≡ inum
    → is_inode dev inum ip ≡ true
unfolding is_inode
fields-is_inode dev inum ip r d n = ground (arith, r, d, n)

-- An entry replaced by one in use for an inode that no other entry in use is for.
replaced-IsUnique :
    (t : Itable) (i : ℕ) (new : Inode)
    → IsUnique t
    → ((j : ℕ)
        → j < ninode
        → j ≢ i
        → 0 < (t j).ref
        → (t j).dev ≡ new.dev
        → (t j).inum ≡ new.inum
        → ⊥)
    → IsUnique (update t i new)
replaced-IsUnique t i new u alone j k g h r q d n =
    let self : update t i new i ≡ new = update_self t i new in
    let other : (m : ℕ) → m ≢ i → update t i new m ≡ t m = update_ne t i new in
    elim (ℕ_discrete j i) [
      | yes a ↦ elim (ℕ_discrete k i) [
        | yes b ↦ a ∙ sym b
        | no b ↦
            let at : update t i new j ≡ new = ap (update t i new) a ∙ self in
            absurd (
              alone k h b (subst (λ (x : Inode). 0 < x.ref) (other k b) q)
                (ap (λ (x : Inode). x.dev) (sym (other k b)) ∙ sym d ∙ ap (λ (x : Inode). x.dev) at)
                (ap (λ (x : Inode). x.inum) (sym (other k b))
                  ∙ sym n
                  ∙ ap (λ (x : Inode). x.inum) at))
      ]
      | no a ↦ elim (ℕ_discrete k i) [
        | yes b ↦
            let at : update t i new k ≡ new = ap (update t i new) b ∙ self in
            absurd (
              alone j g a (subst (λ (x : Inode). 0 < x.ref) (other j a) r)
                (ap (λ (x : Inode). x.dev) (sym (other j a)) ∙ d ∙ ap (λ (x : Inode). x.dev) at)
                (ap (λ (x : Inode). x.inum) (sym (other j a)) ∙ n ∙ ap (λ (x : Inode). x.inum) at))
        | no b ↦
            u j k g h (subst (λ (x : Inode). 0 < x.ref) (other j a) r)
              (subst (λ (x : Inode). 0 < x.ref) (other k b) q)
              (ap (λ (x : Inode). x.dev) (sym (other j a))
                ∙ d
                ∙ ap (λ (x : Inode). x.dev) (other k b))
              (ap (λ (x : Inode). x.inum) (sym (other j a))
                ∙ n
                ∙ ap (λ (x : Inode). x.inum) (other k b))
      ]
    ]

held-Gets :
    (dev inum : ℕ) (t : Itable) (i : ℕ)
    → IsUnique t
    → i < ninode
    → is_inode dev inum (t i) ≡ true
    → Gets dev inum t i (update t i (record (t i) { ref = (t i).ref + 1 }))
held-Gets dev inum t i u l e =
    let (r, d, n) = is_inode-fields dev inum (t i) e in
    let new : Inode = record (t i) { ref = (t i).ref + 1 } in
    let self : update t i new i ≡ new = update_self t i new in
    record {
      inside = l;
      dev_is = ap (λ (x : Inode). x.dev) self ∙ d;
      inum_is = ap (λ (x : Inode). x.inum) self ∙ n;
      ref_is = ap (λ (x : Inode). x.ref) self;
      others = update_ne t i new;
      was = inl self;
      unique = replaced-IsUnique t i new u (λ j g a q d1 n1. a (u j i g l q r d1 n1));
    }

spare-Gets :
    (dev inum : ℕ) (t : Itable) (i : ℕ)
    → IsUnique t
    → i < ninode
    → (t i).ref ≡ 0
    → ((j : ℕ) → j < ninode → is_inode dev inum (t j) ≡ false)
    → Gets dev inum t i
        (update t i (record (t i) { dev = dev; inum = inum; ref = 1; valid = false }))
spare-Gets dev inum t i u l z none_for =
    let new : Inode = record (t i) { dev = dev; inum = inum; ref = 1; valid = false } in
    let self : update t i new i ≡ new = update_self t i new in
    record {
      inside = l;
      dev_is = ap (λ (x : Inode). x.dev) self;
      inum_is = ap (λ (x : Inode). x.inum) self;
      ref_is = ap (λ (x : Inode). x.ref) self ∙ omega (arith, z);
      others = update_ne t i new;
      was = inr (z, ap (λ (x : Inode). x.valid) self, none_for);
      unique =
          replaced-IsUnique t i new u
            (λ j g a q d n. false≢true (sym (none_for j g) ∙ fields-is_inode dev inum (t j) q d n));
    }

-- `iget` on a table without two entries in use for one inode either panics, and then no entry is for the
-- inode and each is in use, or gives an entry that is for it and has one reference more: the one that was
-- for it, if there is one, with nothing else of it changed, and otherwise one that was not in use, to be
-- read from the disk. No other entry has changed, and again no two are for one inode.
pub iget_lem :
    (dev inum : ℕ) (t : Itable)
    → IsUnique t
    → ((iget dev inum t ≡ none)
        × ((j : ℕ) → j < ninode → (is_inode dev inum (t j) ≡ false) × (0 < (t j).ref)))
      ⊎ ((i : ℕ) × (t' : Itable) × (iget dev inum t ≡ some (i, t')) × Gets dev inum t i t')
unfolding iget
iget_lem dev inum t u = elim (scan-cases ninode 0 dev inum t none) [
  | at j h l is run ↦ inr (j, _, rw (iget, run) refl, held-Gets dev inum t j u (omega arith) is)
  | absent none none_for sp run ↦ inl (
    rw (iget, run) refl,
    λ j l.
        (none_for j (omega arith) (omega arith), sp.none_left refl j (omega arith) (omega arith)),
  )
  | absent (some i) none_for sp run ↦ elim (sp.slot i refl) [
    | inl clash ↦ absurd (none≢some i clash)
    | inr (h, l, z) ↦ inr (
      i,
      _,
      rw (iget, run) refl,
      spare-Gets dev inum t i u (omega arith) z (λ j g. none_for j (omega arith) (omega arith)),
    )
  ]
]
