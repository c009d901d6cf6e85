-- ===== src/Locks/Tests.antt =====
-- The theorem about kernel/spinlock.c at a concrete input.
use project_priv.Prelude.{ℕ, ◌≡◌, refl, some, true, false, arith, update}
use project_priv.Locks.{
  Machine, is_cpu, mark, push_off, begin_acquire, test_and_set, release, idle, Reach, start, after,
  starts, tries,
}
use project_priv.Locks.Safety.{holder_safe}

-- CPU 1 acquires lock 2 of three.
abbrev waiting : Machine
waiting = record idle {
  cpus = update idle.cpus 1 (record { intr = false; noff = 1; intena = true; spins = some 2 });
}

abbrev taken : Machine
unfolding test_and_set
taken = test_and_set 1 2 waiting

waits : begin_acquire 1 2 idle ≡ some waiting
unfolding begin_acquire push_off is_cpu
waits = refl

taken-Reach : Reach 3 taken
unfolding taken update
taken-Reach =
    after waiting taken (after idle waiting start (starts 1 2 (omega arith) refl waits))
      (tries 1 2 refl refl)

taken_held : taken.acquired 1 2 ≡ true
unfolding taken test_and_set mark
taken_held = refl

holder_safe_example :
    ((d : ℕ) → taken.acquired d 2 ≡ true → d ≡ 1)
    × ((taken.cpus 1).intr ≡ false)
    × ((m' : Machine) × (release 1 2 taken ≡ some m'))
holder_safe_example = holder_safe 3 1 2 taken taken-Reach (omega arith) taken_held
