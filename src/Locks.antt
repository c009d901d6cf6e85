-- ===== src/Locks.antt =====
-- kernel/spinlock.c: the spin locks of several CPUs, and how deep each has turned interrupts off.
-- An acquire is cut at its loop: `begin_acquire` is what comes before it, and `test_and_set` one round, with
-- the note of the holder when the round succeeds. A release is one step. `acquired` is no part of the program:
-- it tells which CPUs have left the loop of an acquire of a lock and have not released it since.
mod Held
mod Invariant
mod Safety
mod Tests
use project_priv.Prelude.{
  ℕ, zero, suc, ◌+◌, ◌-◌, Option, none, some, Bool, true, false, not, ◌==◌, ◌&&◌, if◌then◌else◌,
  ltb, update, ◌<◌, ◌≡◌,
}

-- `struct spinlock`; `holder` is the field `cpu`.
pub record Lock : Type 0 where
  pub locked : Bool
  pub holder : Option ℕ

-- `struct cpu` with the interrupt flag of its register, and the lock on which it spins.
pub record Cpu : Type 0 where
  pub intr : Bool
  pub noff : ℕ
  pub intena : Bool
  pub spins : Option ℕ

pub record Machine : Type 0 where
  pub locks : ℕ → Lock
  pub cpus : ℕ → Cpu
  pub acquired : (c l : ℕ) → Bool

abbrev pub initlock : Lock
initlock = record { locked = false; holder = none }

unfoldable pub is_cpu : ℕ → Option ℕ → Bool
is_cpu c none = false
is_cpu c (some d) = d == c

abbrev pub holding : ℕ → Lock → Bool
holding c lk = lk.locked && is_cpu c lk.holder

pub push_off : Cpu → Cpu
push_off p = record p {
  intr = false;
  intena = if p.noff == 0 then p.intr else p.intena;
  noff = p.noff + 1;
}

-- `none` is a panic.
pub pop_off : Cpu → Option Cpu
pop_off p =
    if p.intr
    then none
    else if ltb p.noff 1
    then none
    else some (record p { noff = p.noff - 1; intr = p.noff - 1 == 0 && p.intena })

-- CPU `c` enters or leaves what lock `l` protects.
pub mark : (c l : ℕ) → Bool → ((c l : ℕ) → Bool) → (d k : ℕ) → Bool
mark c l b f d k = if d == c && k == l then b else f d k

pub begin_acquire : (c l : ℕ) → Machine → Option Machine
begin_acquire c l m =
    let p = push_off (m.cpus c) in
    if holding c (m.locks l)
    then none
    else some (record m { cpus = update m.cpus c (record p { spins = some l }) })

pub test_and_set : (c l : ℕ) → Machine → Machine
test_and_set c l m = if (m.locks l).locked then m else record m {
  locks = update m.locks l (record { locked = true; holder = some c });
  cpus = update m.cpus c (record (m.cpus c) { spins = none });
  acquired = mark c l true m.acquired;
}

pub release : (c l : ℕ) → Machine → Option Machine
release c l m = elim (holding c (m.locks l)) [
  | false ↦ none
  | true ↦ elim (pop_off (m.cpus c)) [
    | none ↦ none
    | some p ↦ some (record m {
      locks = update m.locks l (record { locked = false; holder = none });
      cpus = update m.cpus c p;
      acquired = mark c l false m.acquired;
    })
  ]
]

-- Interrupts are turned on or off where none are pushed.
pub set_intr : (c : ℕ) → Bool → Machine → Machine
set_intr c b m = record m { cpus = update m.cpus c (record (m.cpus c) { intr = b }) }

-- A step of one CPU, with `n` locks.
pub data Step (n : ℕ) (m m' : Machine) : Type 0 where
  starts : (c l : ℕ) → l < n → (m.cpus c).spins ≡ none → begin_acquire c l m ≡ some m' → Step n m m'
  tries : (c l : ℕ) → (m.cpus c).spins ≡ some l → test_and_set c l m ≡ m' → Step n m m'
  releases : (c l : ℕ) → l < n → (m.cpus c).spins ≡ none → release c l m ≡ some m' → Step n m m'
  sets : (c : ℕ) (b : Bool) → (m.cpus c).noff ≡ 0 → set_intr c b m ≡ m' → Step n m m'

abbrev pub idle : Machine
idle = record {
  locks = λ l. initlock;
  cpus = λ c. record { intr = true; noff = 0; intena = false; spins = none };
  acquired = λ c l. false;
}

pub data Reach (n : ℕ) : Machine → Type 0 where
  start : Reach n idle
  after : (p m : Machine) → Reach n p → Step n p m → Reach n m
