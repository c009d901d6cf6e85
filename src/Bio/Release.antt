-- ===== src/Bio/Release.antt =====
-- `brelse`: the order of use.
use project_priv.Prelude.{
  ℕ, ◌-◌, ◌<◌, ◌++◌, some, none, true, false, sub32, u32, eq→==, ne→==, ◌≡◌, ◌≢◌, refl, sym, ap,
  List, [], ◌∷◌, Bool-cases, inl, inr, update, update_self, update_ne, subst, ◌∙◌, ℕ_discrete,
  arith, ◌==◌, if◌then◌else◌,
}
use project_priv.Bio.{Buf, Cache, without, brelse}
use project_priv.Bio.Unique.{In, Unique}

tail_or_cons :
    (b c x : ℕ) (xs rest : List ℕ)
    → (In c rest → In c xs)
    → In c (if x == b then xs else x ∷ rest)
    → In c (x ∷ xs)
tail_or_cons b c x xs rest f i = elim (Bool-cases (x == b)) [
  | inl e ↦ inr (subst (λ t. In c (if t then xs else x ∷ rest)) e i)
  | inr e ↦ elim (subst (λ t. In c (if t then xs else x ∷ rest)) e i) [
    | inl same ↦ inl same
    | inr j ↦ inr (f j)
  ]
]

without-In : (b c : ℕ) (l : List ℕ) → In c (without b l) → In c l
unfolding without
without-In b c [] i = i
without-In b c (x ∷ xs) i = tail_or_cons b c x xs (without b xs) (without-In b c xs) i

-- The first place of a buffer.
without-split :
    (b : ℕ) (l : List ℕ)
    → In b l
    → (xs : List ℕ) × (ys : List ℕ) × (l ≡ xs ++ (b ∷ ys)) × (without b l ≡ xs ++ ys)
unfolding without
without-split b [] i = absurd i
without-split b (x ∷ l) i = elim (ℕ_discrete x b) [
  | yes e ↦ ([], l, ap (λ (y : ℕ). y ∷ l) e, rw (without, eq→== x b e) refl)
  | no n ↦ elim i [
    | inl e ↦ absurd (n e)
    | inr j ↦
        let (xs, ys, whole, rest) = without-split b l j in
        (
          x ∷ xs,
          ys,
          ap (λ (z : List ℕ). x ∷ z) whole,
          rw (without, ne→== x b n) (ap (λ (z : List ℕ). x ∷ z) rest),
        )
  ]
]

-- The order of use after `brelse`: with no reference left, the buffer goes from its place to the front.
pub data Reordered (b left : ℕ) (s t : Cache) : Type 0 where
  stays : left ≢ 0 → t.order ≡ s.order → Reordered b left s t
  goes_first :
      (xs ys : List ℕ)
      → left ≡ 0
      → s.order ≡ xs ++ (b ∷ ys)
      → t.order ≡ b ∷ (xs ++ ys)
      → Reordered b left s t

-- The cache after `brelse`.
pub record Released (b : ℕ) (s t : Cache) : Type 0 where
  pub buffer : t.buf b ≡ record (s.buf b) { refcnt = (s.buf b).refcnt - 1 }
  pub others : (c : ℕ) → c ≢ b → t.buf c ≡ s.buf c
  pub order : Reordered b ((s.buf b).refcnt - 1) s t
  pub unique : Unique t

-- `brelse` by a process that does not hold the buffer's lock panics. By one that does, of a buffer
-- of the order with a reference, in a cache without two buffers for one block, it takes one
-- reference off and changes nothing else of the buffer and no other buffer; if no reference is left
-- it moves the buffer from its place in the order of use to the front, and else the order stays.
-- Again no two buffers are for one block.
pub brelse_lem :
    (b : ℕ) (s : Cache)
    → In b s.order
    → Unique s
    → 0 < (s.buf b).refcnt
    → (s.buf b).refcnt < u32
    → (brelse false b s ≡ none) × (t : Cache) × (brelse true b s ≡ some t) × Released b s t
unfolding brelse
brelse_lem b s i u some_left fits =
    let new : Buf = record (s.buf b) { refcnt = sub32 (s.buf b).refcnt 1 } in
    let less : sub32 (s.buf b).refcnt 1 ≡ (s.buf b).refcnt - 1 = omega arith in
    let same : (c : ℕ)
        → ((update s.buf b new c).dev ≡ (s.buf c).dev)
          × ((update s.buf b new c).blockno ≡ (s.buf c).blockno) =
      λ c. elim (ℕ_discrete c b) [
        | yes e ↦ rw e (
          ap (λ (x : Buf). x.dev) (update_self s.buf b new),
          ap (λ (x : Buf). x.blockno) (update_self s.buf b new),
        )
        | no e ↦ (
          ap (λ (x : Buf). x.dev) (update_ne s.buf b new c e),
          ap (λ (x : Buf). x.blockno) (update_ne s.buf b new c e),
        )
      ] in
    let keys : (c d : ℕ)
        → In c s.order
        → In d s.order
        → (update s.buf b new c).dev ≡ (update s.buf b new d).dev
        → (update s.buf b new c).blockno ≡ (update s.buf b new d).blockno
        → (update s.buf b new c).dev ≢ 0
        → c ≡ d =
      λ c d j k e f n.
        u c d j k (sym ((same c).0) ∙ e ∙ (same d).0) (sym ((same c).1) ∙ f ∙ (same d).1)
          (λ z. n ((same c).0 ∙ z)) in
    let self : update s.buf b new b ≡ new = update_self s.buf b new in
    let count : (update s.buf b new b).refcnt ≡ (s.buf b).refcnt - 1 =
      ap (λ (x : Buf). x.refcnt) self ∙ less in
    let buffer : update s.buf b new b ≡ record (s.buf b) { refcnt = (s.buf b).refcnt - 1 } =
      self ∙ ap (λ (n : ℕ). record (s.buf b) { refcnt = n }) less in
    let back : (c : ℕ) → In c (b ∷ without b s.order) → In c s.order =
      λ c j. elim j [ inl e ↦ subst (λ x. In x s.order) e i | inr k ↦ without-In b c s.order k ] in
    let (xs, ys, whole, rest) = without-split b s.order i in
    let done : (t : Cache) × (brelse true b s ≡ some t) × Released b s t =
      elim (ℕ_discrete ((s.buf b).refcnt - 1) 0) [
        | yes e ↦ (
          record { buf = update s.buf b new; order = b ∷ without b s.order },
          rw (brelse, eq→== (update s.buf b new b).refcnt 0 (count ∙ e)) refl,
          record {
            buffer = buffer;
            others = λ c n. update_ne s.buf b new c n;
            order = goes_first xs ys e whole (ap (λ (z : List ℕ). b ∷ z) rest);
            unique = λ c d j k. keys c d (back c j) (back d k);
          },
        )
        | no e ↦ (
          record { buf = update s.buf b new; order = s.order },
          rw (brelse, ne→== (update s.buf b new b).refcnt 0 (λ z. e (sym count ∙ z))) refl,
          record {
            buffer = buffer;
            others = λ c n. update_ne s.buf b new c n;
            order = stays e refl;
            unique = keys;
          },
        )
      ] in
    (refl, done.0, done.1, done.2)
