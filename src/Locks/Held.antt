-- ===== src/Locks/Held.antt =====
-- The locks that a CPU holds, and their number.
use mathlib.Core.Bool.{false≢true}
use project_priv.Prelude.{
  ℕ, zero, suc, ◌+◌, ◌<◌, ◌≤◌, ◌≡◌, ◌≢◌, refl, sym, ap, ◌∙◌, none, some, Bool, true, false, ◌&&◌,
  update, update_self, update_ne, Bool-cases, Option-cases, inl, inr, arith, ℕ_discrete, eq→==,
  ne→==, ==_iff,
}
use project_priv.Locks.{Lock, is_cpu, holding}

-- A lock has one holder.
pub same_holder : (c d : ℕ) (lk : Lock) → holding c lk ≡ true → holding d lk ≡ true → d ≡ c
unfolding is_cpu
same_holder c d lk h e = elim (Option-cases lk.holder) [
  | inl z ↦ absurd (not_free c lk z h)
  | inr (x, z) ↦ sym (holder_is d x lk z e) ∙ holder_is c x lk z h
]
  where
    and_right : (a b : Bool) → (a && b) ≡ true → b ≡ true
    and_right true b q = q
    and_right false b q = absurd (false≢true q)

    not_free : (y : ℕ) (k : Lock) → k.holder ≡ none → holding y k ≡ true → ⊥
    not_free y k z q = false≢true (sym (rw z refl) ∙ and_right k.locked (is_cpu y k.holder) q)

    holder_is : (y x : ℕ) (k : Lock) → k.holder ≡ some x → holding y k ≡ true → x ≡ y
    holder_is y x k z q =
        (==_iff x y).0 (sym (ap (is_cpu y) z) ∙ and_right k.locked (is_cpu y k.holder) q)

unfoldable pub one : Bool → ℕ
one true = 1
one false = 0

-- How many of the first `k` locks the CPU holds.
unfoldable pub held : (k c : ℕ) → (ℕ → Lock) → ℕ
unfolding one
held zero c locks = 0
held (suc k) c locks = held k c locks + one (holding c (locks k))

held_above :
    (k c l : ℕ) (locks : ℕ → Lock) (x : Lock) → k ≤ l → held k c (update locks l x) ≡ held k c locks
unfolding held
held_above zero c l locks x h = refl
held_above (suc k) c l locks x h = omega (
  arith,
  held_above k c l locks x (omega arith),
  ap (λ (y : Lock). one (holding c y)) (update_ne locks l x k (λ e. omega (arith, e, h))),
)

pub held-update :
    (k c l : ℕ) (locks : ℕ → Lock) (x : Lock)
    → l < k
    → held k c (update locks l x) + one (holding c (locks l)) ≡ held k c locks + one (holding c x)
unfolding held
held-update zero c l locks x h = absurd (omega arith)
held-update (suc k) c l locks x h = elim (ℕ_discrete k l) [
  | yes e ↦ omega (
    arith,
    held_above k c l locks x (omega (arith, e)),
    ap (λ (y : ℕ). one (holding c (update locks l x y))) e,
    ap (λ (y : Lock). one (holding c y)) (update_self locks l x),
    ap (λ (y : ℕ). one (holding c (locks y))) e,
  )
  | no n ↦ omega (
    arith,
    held-update k c l locks x (omega arith),
    ap (λ (y : Lock). one (holding c y)) (update_ne locks l x k n),
  )
]

pub held_some :
    (k c l : ℕ) (locks : ℕ → Lock) → l < k → holding c (locks l) ≡ true → 0 < held k c locks
unfolding held one
held_some zero c l locks h e = absurd (omega arith)
held_some (suc k) c l locks h e = elim (ℕ_discrete l k) [
  | yes s ↦ omega (arith, ap one (ap (λ (y : ℕ). holding c (locks y)) (sym s) ∙ e))
  | no n ↦ omega (arith, held_some k c l locks (omega arith) e)
]

pub free_lock : (d : ℕ) (lk : Lock) → lk.locked ≡ false → holding d lk ≡ false
free_lock d lk e = rw e refl

pub taken_lock : (d c : ℕ) → d ≢ c → holding d (record { locked = true; holder = some c }) ≡ false
unfolding is_cpu
taken_lock d c a = ne→== c d (λ e. a (sym e))

pub own_lock : (c : ℕ) → holding c (record { locked = true; holder = some c }) ≡ true
unfolding is_cpu
own_lock c = eq→== c c refl

pub other_lock : (c d : ℕ) (lk : Lock) → d ≢ c → holding c lk ≡ true → holding d lk ≡ false
unfolding is_cpu
other_lock c d lk a h = elim (Bool-cases (holding d lk)) [
  | inr e ↦ e
  | inl e ↦ absurd (a (same_holder c d lk h e))
]
