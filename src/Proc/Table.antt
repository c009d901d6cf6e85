-- ===== src/Proc/Table.antt =====
-- Loops over the process table of kernel/proc.c, entry by entry.
use project_priv.Prelude.{
  ℕ, zero, suc, ◌+◌, ◌≤◌, ◌<◌, ◌≡◌, refl, sym, ◌∙◌, Option, none, some, Bool, true, false, not,
  ◌&&◌, ltb, leb, ◌==◌, if◌then◌else◌, Bool-cases, inl, inr, arith, update, ℕ_discrete,
  Option-cases, subst,
}
use mathlib.Core.Bool.{false≢true}
use project_priv.Proc.{Proc, Table, runnable, is_sleeping, is_at, sweep, first, wakeup, nproc}

-- Each entry in range is updated once, and from its old value.
pub sweep-get :
    (k i : ℕ) (f : ℕ → Proc → Proc) (t : Table) (j : ℕ)
    → sweep k i f t j ≡ (if leb i j && ltb j (i + k) then f j (t j) else t j)
unfolding sweep update
sweep-get zero i f t j = ground arith
sweep-get (suc k) i f t j = ground (arith, sweep-get k (i + 1) f (update t i (f i (t i))) j)

-- What a search finds.
pub record Found (k i : ℕ) (test : Proc → Bool) (t : Table) (j : ℕ) : Type 0 where
  pub from : i ≤ j
  pub below : j < i + k
  pub passes : test (t j) ≡ true
  pub least : (m : ℕ) → i ≤ m → m < j → test (t m) ≡ false

pub first-Found :
    (k i : ℕ) (test : Proc → Bool) (t : Table) (j : ℕ)
    → first k i test t ≡ some j
    → Found k i test t j
unfolding first
first-Found zero i test t j e = cc
first-Found (suc k) i test t j e = elim (Bool-cases (test (t i))) [
  | inl hit ↦ subst (Found (suc k) i test t) (ground arith) (record {
    from = omega arith;
    below = omega arith;
    passes = hit;
    least = λ m p q. absurd (omega arith);
  })
  | inr miss ↦
      (let f = first-Found k (i + 1) test t j (ground arith) in
        record {
          from = omega (arith, f.from);
          below = omega (arith, f.below);
          passes = f.passes;
          least = λ m p q. elim (ℕ_discrete m i) [
            | yes e ↦ rw e miss
            | no ne ↦ f.least m (omega arith) q
          ];
        })
]

pub first-none :
    (k i : ℕ) (test : Proc → Bool) (t : Table) (m : ℕ)
    → first k i test t ≡ none
    → i ≤ m
    → m < i + k
    → test (t m) ≡ false
unfolding first
first-none zero i test t m e p q = absurd (omega arith)
first-none (suc k) i test t m e p q = elim (ℕ_discrete m i) [
  | yes same ↦ rw same (ground arith)
  | no ne ↦ first-none k (i + 1) test t m (ground arith) (omega arith) (omega arith)
]

pub first-some :
    (k i : ℕ) (test : Proc → Bool) (t : Table) (m : ℕ)
    → i ≤ m
    → m < i + k
    → test (t m) ≡ true
    → (j : ℕ) × (first k i test t ≡ some j)
first-some k i test t m p q h = elim (Option-cases (first k i test t)) [
  | inl e ↦ absurd (false≢true (sym (first-none k i test t m e p q) ∙ h))
  | inr (j, e) ↦ (j, e)
]

-- A search reads only its test.
pub first_congr :
    (k i : ℕ) (test : Proc → Bool) (t u : Table)
    → ((j : ℕ) → test (t j) ≡ test (u j))
    → first k i test t ≡ first k i test u
unfolding first
first_congr zero i test t u h = refl
first_congr (suc k) i test t u h = rw (h i, first_congr k (i + 1) test t u h)

-- `wakeup` makes exactly the other processes that sleep on `chan` runnable.
pub wakeup-get :
    (me : Option ℕ) (chan : ℕ) (t : Table) (j : ℕ)
    → wakeup me chan t j ≡ (
        if ltb j nproc && (not (is_at me j) && (is_sleeping (t j).state && (t j).chan == chan))
        then record (t j) { state = runnable }
        else t j)
unfolding wakeup
wakeup-get me chan t j = rw sweep-get (ground arith)
