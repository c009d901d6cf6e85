-- ===== src/Bio/Unique.antt =====
-- At most one buffer per block, and no buffer in use is given to another block.
use mathlib.Core.Bool.{false≢true}
use project_priv.Prelude.{
  ℕ, ◌+◌, ◌≡◌, ◌≢◌, ◌⊎◌, refl, sym, ap, ◌∙◌, List, [], ◌∷◌, ◌++◌, none, some, Bool, true, false,
  Bool-cases, Option-cases, inl, inr, update, update_self, update_ne, arith, ℕ_discrete,
}
use project_priv.Bio.{Buf, Cache, find, reversed, is_block, is_free, set_buf, bget}

abbrev pub In : ℕ → List ℕ → Type 0
In p [] = ⊥
In p (x ∷ xs) = (x ≡ p) ⊎ In p xs

find-some :
    (test : Buf → Bool) (buf : ℕ → Buf) (l : List ℕ) (b : ℕ)
    → find test buf l ≡ some b
    → In b l × (test (buf b) ≡ true)
unfolding find
find-some test buf [] b e = cc
find-some test buf (x ∷ xs) b e = elim (Bool-cases (test (buf x))) [
  | inl h ↦
      let same : x ≡ b = ground (arith, e, h) in (inl same, ap (λ y. test (buf y)) (sym same) ∙ h)
  | inr h ↦ let (i, t) = find-some test buf xs b (ground (arith, e, h)) in (inr i, t)
]

find-none :
    (test : Buf → Bool) (buf : ℕ → Buf) (l : List ℕ) (b : ℕ)
    → find test buf l ≡ none
    → In b l
    → test (buf b) ≡ false
unfolding find
find-none test buf [] b e i = absurd i
find-none test buf (x ∷ xs) b e (inl same) = elim (Bool-cases (test (buf x))) [
  | inl h ↦ absurd (ground (arith, e, h))
  | inr h ↦ ap (λ y. test (buf y)) (sym same) ∙ h
]
find-none test buf (x ∷ xs) b e (inr i) = elim (Bool-cases (test (buf x))) [
  | inl h ↦ absurd (ground (arith, e, h))
  | inr h ↦ find-none test buf xs b (ground (arith, e, h)) i
]

In-append : (b : ℕ) (xs ys : List ℕ) → In b (xs ++ ys) → In b xs ⊎ In b ys
In-append b [] ys i = inr i
In-append b (x ∷ xs) ys (inl e) = inl (inl e)
In-append b (x ∷ xs) ys (inr i) = elim (In-append b xs ys i) [ inl j ↦ inl (inr j) | inr j ↦ inr j ]

In-reversed : (b : ℕ) (l : List ℕ) → In b (reversed l) → In b l
In-reversed b [] i = i
In-reversed b (x ∷ xs) i = elim (In-append b (reversed xs) (x ∷ []) i) [
  | inl j ↦ inr (In-reversed b xs j)
  | inr (inl e) ↦ inl e
  | inr (inr n) ↦ absurd n
]

append-In : (b : ℕ) (xs ys : List ℕ) → In b xs ⊎ In b ys → In b (xs ++ ys)
append-In b [] ys (inl n) = absurd n
append-In b [] ys (inr i) = i
append-In b (x ∷ xs) ys (inl (inl e)) = inl e
append-In b (x ∷ xs) ys (inl (inr i)) = inr (append-In b xs ys (inl i))
append-In b (x ∷ xs) ys (inr i) = inr (append-In b xs ys (inr i))

reversed-In : (b : ℕ) (l : List ℕ) → In b l → In b (reversed l)
reversed-In b [] i = absurd i
reversed-In b (x ∷ xs) (inl e) = append-In b (reversed xs) (x ∷ []) (inr (inl e))
reversed-In b (x ∷ xs) (inr i) = append-In b (reversed xs) (x ∷ []) (inl (reversed-In b xs i))

-- No two buffers are for the same block; device 0 stands for no block.
abbrev pub Unique : Cache → Type 0
Unique s =
    (b c : ℕ)
    → In b s.order
    → In c s.order
    → (s.buf b).dev ≡ (s.buf c).dev
    → (s.buf b).blockno ≡ (s.buf c).blockno
    → (s.buf b).dev ≢ 0
    → b ≡ c

-- What `bget` promises of the buffer and the cache that it gives.
pub record Got (dev blockno : ℕ) (s : Cache) (b : ℕ) (t : Cache) : Type 0 where
  pub order : t.order ≡ s.order
  pub inside : In b s.order
  pub dev_is : (t.buf b).dev ≡ dev
  pub blockno_is : (t.buf b).blockno ≡ blockno
  pub refcnt_is : (t.buf b).refcnt ≡ (s.buf b).refcnt + 1
  pub others : (c : ℕ) → c ≢ b → t.buf c ≡ s.buf c
  pub was :
      ((is_block dev blockno (s.buf b) ≡ true)
        × ((t.buf b).valid ≡ (s.buf b).valid)
        × ((t.buf b).contents ≡ (s.buf b).contents))
      ⊎ (((c : ℕ) → In c s.order → is_block dev blockno (s.buf c) ≡ false)
          × ((s.buf b).refcnt ≡ 0)
          × ((t.buf b).valid ≡ false))
  pub unique : Unique t

hit-Got :
    (dev blockno : ℕ) (s : Cache) (b : ℕ)
    → Unique s
    → In b s.order
    → is_block dev blockno (s.buf b) ≡ true
    → Got dev blockno s b (set_buf b (record (s.buf b) { refcnt = (s.buf b).refcnt + 1 }) s)
unfolding update
hit-Got dev blockno s b u i h = record {
  order = refl;
  inside = i;
  dev_is = ground (arith, h);
  blockno_is = ground (arith, h);
  refcnt_is = ground arith;
  others = λ c n. update_ne s.buf b _ c n;
  was = inl (h, ground arith, ground arith);
  unique = λ c d j k e f n. u c d j k (ground (arith, e)) (ground (arith, f)) (ground (arith, n));
}

is_block-true :
    (dev blockno : ℕ) (b : Buf) → b.dev ≡ dev → b.blockno ≡ blockno → is_block dev blockno b ≡ true
is_block-true dev blockno b e f = ground (arith, e, f)

miss-Got :
    (dev blockno : ℕ) (s : Cache) (b : ℕ)
    → Unique s
    → In b s.order
    → ((c : ℕ) → In c s.order → is_block dev blockno (s.buf c) ≡ false)
    → (s.buf b).refcnt ≡ 0
    → Got dev blockno s b
        (set_buf b (record (s.buf b) { dev = dev; blockno = blockno; valid = false; refcnt = 1 }) s)
miss-Got dev blockno s b u i absent h =
    let new : Buf = record (s.buf b) { dev = dev; blockno = blockno; valid = false; refcnt = 1 } in
    let self : update s.buf b new b ≡ new = update_self s.buf b new in
    let other : (c : ℕ) → c ≢ b → update s.buf b new c ≡ s.buf c = update_ne s.buf b new in
    let clash : (c : ℕ) → In c s.order → (s.buf c).dev ≡ dev → (s.buf c).blockno ≡ blockno → ⊥ =
      λ c j e f. (false≢true (sym (absent c j) ∙ is_block-true dev blockno (s.buf c) e f)) in
    record {
      order = refl;
      inside = i;
      dev_is = ap (λ (x : Buf). x.dev) self;
      blockno_is = ap (λ (x : Buf). x.blockno) self;
      refcnt_is = ap (λ (x : Buf). x.refcnt) self ∙ omega (arith, h);
      others = other;
      was = inr (absent, h, ap (λ (x : Buf). x.valid) self);
      unique = λ c d j k e f n. elim (ℕ_discrete c b) [
        | yes p ↦ elim (ℕ_discrete d b) [
          | yes q ↦ p ∙ sym q
          | no q ↦ absurd (
              clash d k
                (ap (λ (x : Buf). x.dev) (sym (other d q))
                  ∙ sym e
                  ∙ ap (λ (x : ℕ). (update s.buf b new x).dev) p
                  ∙ ap (λ (x : Buf). x.dev) self)
                (ap (λ (x : Buf). x.blockno) (sym (other d q))
                  ∙ sym f
                  ∙ ap (λ (x : ℕ). (update s.buf b new x).blockno) p
                  ∙ ap (λ (x : Buf). x.blockno) self))
        ]
        | no p ↦ elim (ℕ_discrete d b) [
          | yes q ↦ absurd (
              clash c j
                (ap (λ (x : Buf). x.dev) (sym (other c p))
                  ∙ e
                  ∙ ap (λ (x : ℕ). (update s.buf b new x).dev) q
                  ∙ ap (λ (x : Buf). x.dev) self)
                (ap (λ (x : Buf). x.blockno) (sym (other c p))
                  ∙ f
                  ∙ ap (λ (x : ℕ). (update s.buf b new x).blockno) q
                  ∙ ap (λ (x : Buf). x.blockno) self))
          | no q ↦
              u c d j k
                (ap (λ (x : Buf). x.dev) (sym (other c p))
                  ∙ e
                  ∙ ap (λ (x : Buf). x.dev) (other d q))
                (ap (λ (x : Buf). x.blockno) (sym (other c p))
                  ∙ f
                  ∙ ap (λ (x : Buf). x.blockno) (other d q))
                (λ z. n (ap (λ (x : Buf). x.dev) (other c p) ∙ z))
        ]
      ];
    }

-- `bget` on a cache without two buffers for one block either panics, and then no buffer is for the
-- block and each has a reference, or gives a buffer: the one that was for the block, whose contents
-- and `valid` stay, or, if there was none, one that had no reference, which is no longer valid. It
-- is then for the block and has one reference more, no other buffer has changed, and again no two
-- buffers are for one block; device 0 stands for no block.
pub bget_lem :
    (dev blockno : ℕ) (s : Cache)
    → Unique s
    → ((bget dev blockno s ≡ none)
        × ((c : ℕ)
            → In c s.order
            → (is_block dev blockno (s.buf c) ≡ false) × (is_free (s.buf c) ≡ false)))
      ⊎ ((b : ℕ) × (t : Cache) × (bget dev blockno s ≡ some (b, t)) × Got dev blockno s b t)
unfolding bget
bget_lem dev blockno s u = elim (Option-cases (find (is_block dev blockno) s.buf s.order)) [
  | inr (b, e) ↦
      let (i, h) = find-some (is_block dev blockno) s.buf s.order b e in
      inr (b, _, rw (bget, e) refl, hit-Got dev blockno s b u i h)
  | inl e ↦
      let absent : (c : ℕ) → In c s.order → is_block dev blockno (s.buf c) ≡ false =
        λ c i. find-none (is_block dev blockno) s.buf s.order c e i in
      elim (Option-cases (find is_free s.buf (reversed s.order))) [
        | inr (b, f) ↦
            let (i, h) = find-some is_free s.buf (reversed s.order) b f in
            inr (
              b,
              _,
              rw (bget, e, f) refl,
              miss-Got dev blockno s b u (In-reversed b s.order i) absent (ground (arith, h)),
            )
        | inl f ↦ inl (
          rw (bget, e, f) refl,
          λ c i. (
            absent c i,
            find-none is_free s.buf (reversed s.order) c f (reversed-In c s.order i),
          ),
        )
      ]
]
