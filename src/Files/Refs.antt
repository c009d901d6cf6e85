-- ===== src/Files/Refs.antt =====
-- How many descriptors refer to a file.
use project_priv.Prelude.{
  ℕ, zero, suc, ◌+◌, ◌<◌, ◌≡◌, refl, sym, ap, ap₂, ◌∙◌, Option, none, some, ◌==◌, if◌then◌else◌,
  update, update_self, update_ne, arith, ℕ_discrete, ◌≢◌, ◌≤◌,
}
use project_priv.Files.{nproc, nofile}

pub total : (k : ℕ) → (ℕ → ℕ) → ℕ
total zero g = 0
total (suc k) g = total k g + g k

pub total_same : (k : ℕ) (g h : ℕ → ℕ) → ((i : ℕ) → i < k → g i ≡ h i) → total k g ≡ total k h
unfolding total
total_same zero g h e = refl
total_same (suc k) g h e = ap₂ ◌+◌ (total_same k g h (λ i p. e i (omega arith))) (e k (omega arith))

-- Two sums whose terms differ at `j` only.
pub total_change :
    (k j : ℕ) (g h : ℕ → ℕ)
    → j < k
    → ((i : ℕ) → i ≢ j → g i ≡ h i)
    → total k g + h j ≡ total k h + g j
unfolding total
total_change zero j g h p e = absurd (omega arith)
total_change (suc k) j g h p e = elim (ℕ_discrete k j) [
  | yes q ↦ let s = total_same k g h (λ i r. e i (omega arith)) in rw (sym q) (omega (arith, s))
  | no q ↦ omega (arith, total_change k j g h (omega arith) e, e k q)
]

pub total_at : (k j : ℕ) (g : ℕ → ℕ) → j < k → g j ≤ total k g
unfolding total
total_at zero j g p = absurd (omega arith)
total_at (suc k) j g p = elim (ℕ_discrete k j) [
  | yes q ↦ rw q (omega arith)
  | no q ↦ omega (arith, total_at k j g (omega arith))
]

-- 1 for a descriptor of the file.
abbrev pub points : ℕ → Option ℕ → ℕ
points f none = 0
points f (some g) = if g == f then 1 else 0

-- The descriptors of the file over all processes.
unfoldable pub refs : (ℕ → ℕ → Option ℕ) → ℕ → ℕ
refs ofile f = total nproc (λ p. total nofile (λ fd. points f (ofile p fd)))

module _ (ofile : ℕ → ℕ → Option ℕ) (me fd : ℕ) (v : Option ℕ) (f : ℕ) where
  abbrev replaced : ℕ → ℕ → Option ℕ
  replaced = update ofile me (update (ofile me) fd v)

  abbrev row : (ℕ → ℕ → Option ℕ) → ℕ → ℕ
  row t p = total nofile (λ i. points f (t p i))

  row-replaced : fd < nofile → row ofile me + points f v ≡ row replaced me + points f (ofile me fd)
  row-replaced q =
      let here : replaced me ≡ update (ofile me) fd v =
        update_self ofile me (update (ofile me) fd v) in
      let new_fd : replaced me fd ≡ v = rw here (update_self (ofile me) fd v) in
      let change =
        total_change nofile fd (λ i. points f (ofile me i)) (λ i. points f (replaced me i)) q
          (λ i ne. ap (points f) (sym (rw here (update_ne (ofile me) fd v i ne)))) in
      omega (arith, change, ap (points f) new_fd)

  pub refs-set_fd :
      me < nproc
      → fd < nofile
      → refs replaced f + points f (ofile me fd) ≡ refs ofile f + points f v
  unfolding refs
  refs-set_fd p q =
      let all = total_change nproc me (row ofile) (row replaced) p (λ i ne.
        ap (λ (t : ℕ → Option ℕ). total nofile (λ j. points f (t j)))
          (sym (update_ne ofile me (update (ofile me) fd v) i ne))) in
      omega (arith, row-replaced q, all)

pub points-refs :
    (ofile : ℕ → ℕ → Option ℕ) (me fd f : ℕ)
    → me < nproc
    → fd < nofile
    → ofile me fd ≡ some f
    → 0 < refs ofile f
unfolding refs
points-refs ofile me fd f p q e =
    let one : points f (ofile me fd) ≡ 1 = ground (arith, e) in
    let low = total_at nofile fd (λ i. points f (ofile me i)) q in
    let high = total_at nproc me (λ p. total nofile (λ i. points f (ofile p i))) p in
    omega (arith, one, low, high)

total_zero : (k : ℕ) → total k (λ i. 0) ≡ 0
unfolding total
total_zero zero = refl
total_zero (suc k) = omega (arith, total_zero k)

pub refs-none : (f : ℕ) → refs (λ p fd. none) f ≡ 0
unfolding refs
refs-none f =
    total_same nproc (λ p. total nofile (λ fd. 0)) (λ p. 0) (λ p h. total_zero nofile)
    ∙ total_zero nproc
