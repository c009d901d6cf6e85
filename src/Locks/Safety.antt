-- ===== src/Locks/Safety.antt =====
-- A CPU that holds a spin lock runs with interrupts off.
use project_priv.Prelude.{
  ℕ, zero, suc, ◌-◌, ◌<◌, ◌≡◌, ◌≢◌, refl, sym, ap, ◌∙◌, subst, none, some, true, false, ◌==◌, ◌&&◌,
  ltb, update, Bool-cases, inl, inr, arith, ne→==, not_lt→ltb,
}
use project_priv.Locks.{
  mark, Lock, Cpu, Machine, holding, push_off, pop_off, begin_acquire, test_and_set, release,
  set_intr, Step, starts, tries, releases, sets, idle, Reach, start, after,
}
use project_priv.Locks.Held.{
  same_holder, one, held, held-update, held_some, free_lock, taken_lock, own_lock, other_lock,
}
use project_priv.Locks.Invariant.{spinning, IsSound, mark-owns, changed-IsSound}

none≢some {ℓ} : {A : Type ℓ} (x : A) → none ≢ some x
none≢some x e = cc

some-injective {ℓ} : {A : Type ℓ} {x y : A} → some x ≡ some y → x ≡ y
some-injective e = cc

begin_acquire-IsSound :
    (n c l : ℕ) (m m' : Machine)
    → l < n
    → IsSound n m
    → (m.cpus c).spins ≡ none
    → begin_acquire c l m ≡ some m'
    → IsSound n m'
unfolding begin_acquire push_off spinning
begin_acquire-IsSound n c l m m' h v idle_cpu e = elim (Bool-cases (holding c (m.locks l))) [
  | inl own ↦ absurd (none≢some m' (sym (rw (begin_acquire, own) refl) ∙ e))
  | inr own ↦
      let p = push_off (m.cpus c) in
      let done : record m { cpus = update m.cpus c (record p { spins = some l }) } ≡ m' =
        some-injective (sym (rw (begin_acquire, own) refl) ∙ e) in
      subst (IsSound n) done (
        changed-IsSound n m c (record p { spins = some l }) m.locks m.acquired v (λ d a. refl)
          (omega (arith, v.depth c, ap spinning idle_cpu)) (λ q. refl)
          (λ k q. subst (λ (y : ℕ). y < n) (some-injective q) h) v.owns)
]

test_and_set-IsSound :
    (n c l : ℕ) (m : Machine)
    → IsSound n m
    → (m.cpus c).spins ≡ some l
    → IsSound n (test_and_set c l m)
unfolding test_and_set one spinning
test_and_set-IsSound n c l m v waits = elim (Bool-cases (m.locks l).locked) [
  | inl e ↦ rw (test_and_set, e) v
  | inr e ↦
      let taken : Lock = record { locked = true; holder = some c } in
      rw (test_and_set, e)
        (changed-IsSound n m c (record (m.cpus c) { spins = none }) (update m.locks l taken)
          (mark c l true m.acquired) v
          (λ d a. omega (
            arith,
            held-update n d l m.locks taken (v.inside c l waits),
            ap one (free_lock d (m.locks l) e),
            ap one (taken_lock d c a),
          ))
          (omega (
            arith,
            v.depth c,
            ap spinning waits,
            held-update n c l m.locks taken (v.inside c l waits),
            ap one (free_lock c (m.locks l) e),
            ap one (own_lock c),
          ))
          (λ q. v.quiet c q) (λ k q. absurd (none≢some k q))
          (mark-owns m.acquired m.locks c l true taken v.owns (sym (own_lock c))
            (λ d a. free_lock d (m.locks l) e ∙ sym (taken_lock d c a))))
]

pop_off_runs :
    (p : Cpu)
    → p.intr ≡ false
    → 0 < p.noff
    → pop_off p ≡ some (record p { noff = p.noff - 1; intr = p.noff - 1 == 0 && p.intena })
unfolding pop_off
pop_off_runs p off some_left =
    let left : ltb p.noff 1 ≡ false = not_lt→ltb p.noff 1 (omega arith) in
    rw (pop_off, off, left) refl

release_fails : (c l : ℕ) (m : Machine) → holding c (m.locks l) ≡ false → release c l m ≡ none
unfolding release
release_fails c l m f = rw (release, f) refl

-- What a release by the holder does.
released : (c l : ℕ) → Machine → Machine
released c l m =
    let p = m.cpus c in
    record m {
      locks = update m.locks l (record { locked = false; holder = none });
      cpus = update m.cpus c (record p { noff = p.noff - 1; intr = p.noff - 1 == 0 && p.intena });
      acquired = mark c l false m.acquired;
    }

release_runs :
    (n c l : ℕ) (m : Machine)
    → l < n
    → IsSound n m
    → holding c (m.locks l) ≡ true
    → release c l m ≡ some (released c l m)
unfolding release released
release_runs n c l m h v own =
    let deep : 0 < (m.cpus c).noff = omega (arith, v.depth c, held_some n c l m.locks h own) in
    rw (release, own, pop_off_runs (m.cpus c) (v.quiet c deep) deep) refl

released-IsSound :
    (n c l : ℕ) (m : Machine)
    → l < n
    → IsSound n m
    → holding c (m.locks l) ≡ true
    → (m.cpus c).spins ≡ none
    → IsSound n (released c l m)
unfolding released one spinning
released-IsSound n c l m h v own runs =
    let p = m.cpus c in
    let deep : 0 < p.noff = omega (arith, v.depth c, held_some n c l m.locks h own) in
    let free : Lock = record { locked = false; holder = none } in
    changed-IsSound n m c (record p { noff = p.noff - 1; intr = p.noff - 1 == 0 && p.intena })
      (update m.locks l free) (mark c l false m.acquired) v
      (λ d a. omega (
        arith,
        held-update n d l m.locks free h,
        ap one (other_lock c d (m.locks l) a own),
        ap one (free_lock d free refl),
      ))
      (omega (
        arith,
        v.depth c,
        held-update n c l m.locks free h,
        ap one own,
        ap one (free_lock c free refl),
      ))
      (λ q. rw (ne→== (p.noff - 1) 0 (λ z. omega (arith, z, q))) refl) (λ k q. v.inside c k q)
      (mark-owns m.acquired m.locks c l false free v.owns refl
        (λ d a. other_lock c d (m.locks l) a own))

Step-IsSound : (n : ℕ) (m m' : Machine) → IsSound n m → Step n m m' → IsSound n m'
unfolding set_intr
Step-IsSound n m m' v (starts c l h runs e) = begin_acquire-IsSound n c l m m' h v runs e
Step-IsSound n m m' v (tries c l waits e) =
    subst (IsSound n) e (test_and_set-IsSound n c l m v waits)
Step-IsSound n m m' v (releases c l h runs e) = elim (Bool-cases (holding c (m.locks l))) [
  | inr f ↦ absurd (none≢some m' (sym (release_fails c l m f) ∙ e))
  | inl own ↦
      subst (IsSound n) (some-injective (sym (release_runs n c l m h v own) ∙ e))
        (released-IsSound n c l m h v own runs)
]
Step-IsSound n m m' v (sets c b z e) = subst (IsSound n) e (
    changed-IsSound n m c (record (m.cpus c) { intr = b }) m.locks m.acquired v (λ d a. refl)
      (v.depth c) (λ q. absurd (omega (arith, q, z))) (λ k q. v.inside c k q) v.owns)

none_held : (k c : ℕ) → held k c idle.locks ≡ 0
unfolding held one
none_held zero c = refl
none_held (suc k) c = omega (arith, none_held k c)

Reach-IsSound : (n : ℕ) (m : Machine) → Reach n m → IsSound n m
unfolding spinning
Reach-IsSound n m start = record {
  depth = λ c. omega (arith, none_held n c);
  quiet = λ c h. absurd (omega (arith, h));
  inside = λ c l e. absurd (none≢some l e);
  owns = λ c l. refl;
}
Reach-IsSound n m (after p q r s) = Step-IsSound n p m (Reach-IsSound n p r) s

-- In every state that CPUs reach by acquiring and releasing spin locks, a CPU that has left the
-- loop of an acquire of a lock and not released it since is the only one, has its interrupts off,
-- and can release the lock without a panic. The swap of an acquire that succeeds is one step with
-- the note of the holder, and a release is one step.
pub holder_safe :
    (n c l : ℕ) (m : Machine)
    → Reach n m
    → l < n
    → m.acquired c l ≡ true
    → ((d : ℕ) → m.acquired d l ≡ true → d ≡ c)
      × ((m.cpus c).intr ≡ false)
      × ((m' : Machine) × (release c l m ≡ some m'))
holder_safe n c l m r h has =
    let v = Reach-IsSound n m r in
    let own : holding c (m.locks l) ≡ true = sym (v.owns c l) ∙ has in
    (
      (λ d e. same_holder c d (m.locks l) own (sym (v.owns d l) ∙ e)),
      v.quiet c (omega (arith, v.depth c, held_some n c l m.locks h own)),
      (released c l m, release_runs n c l m h v own),
    )
