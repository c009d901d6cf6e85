-- ===== src/Proc/Tests.antt =====
-- Runs of the process table, and the theorems of its modules at concrete inputs.
use project_priv.Prelude.{
  ℕ, ◌+◌, ◌≡◌, refl, [], none, some, true, false, ◌==◌, if◌then◌else◌, arith, update,
}
use project_priv.Proc.{
  Proc, Kernel, unused, running, runnable, zombie, first, fork, allocproc, allocpid, kill,
}
use project_priv.Proc.Invariant.{Inv, Reach, here, next, forks, is_alive}
use project_priv.Proc.Safety.{cpu_exclusive, no_orphan}
use project_priv.Proc.Calls.{kill_unused}

abbrev empty_entry : Proc
empty_entry = record {
  state = unused;
  chan = 0;
  killed = false;
  xstate = 0;
  pid = 0;
  parent = none;
  sz = 0;
  pagetable = 0;
  trapframe = 0;
  ofile = λ fd. 0;
  cwd = 0;
  name = [];
}

-- Process 1 is init and runs on CPU 0.
abbrev only_init : Kernel
only_init = record {
  table = λ i. if i == 0 then record empty_entry { state = running; pid = 1 } else empty_entry;
  cpu = λ c. if c == 0 then some 0 else none;
  nextpid = 2;
  initproc = 0;
  freed_pages = [];
  freed_tables = [];
}

only_init-Inv : Inv only_init
only_init-Inv = record {
  init_small = omega arith;
  init_alive = refl;
  runs = λ c p h. (ground arith, ground arith);
  alone = λ c d p h h'. ground arith;
  has_parent = λ p h e ne. ground arith;
  parent_alive = λ p q h e. absurd (ground arith);
}

abbrev forked : Kernel
forked = (fork 0x1000 0x2000 true 0 only_init).1

Reach-forked : Reach (λ i. i + 1) only_init forked
Reach-forked = next here (forks 0 0 0x1000 0x2000 true refl refl)

cpu_exclusive_example : ◌≡◌ {A = ℕ} 0 0 × ((forked.table 0).state ≡ running)
cpu_exclusive_example =
    cpu_exclusive (λ i. i + 1) only_init forked 0 0 0 only_init-Inv Reach-forked
      (unfold fork allocproc allocpid first in refl) (unfold fork allocproc allocpid first in refl)

no_orphan_example :
    (q : ℕ) × ((forked.table 1).parent ≡ some q) × (is_alive (forked.table q).state ≡ true)
no_orphan_example =
    no_orphan (λ i. i + 1) only_init forked 1 only_init-Inv Reach-forked (omega arith)
      (unfold fork allocproc allocpid first update in refl)
      (unfold fork allocproc allocpid first update in omega arith)

kill_unused_example :
    let (found, t) = kill 0 only_init in
    let (result, u) = fork 0x1000 0x2000 true 0 t in
    (found ≡ true)
    × (result ≡ some 2)
    × ((u.table 1).pid ≡ 2)
    × ((u.table 1).parent ≡ some 0)
    × ((u.table 1).state ≡ runnable)
    × ((u.table 1).killed ≡ true)
kill_unused_example =
    kill_unused 0x1000 0x2000 0 1 only_init (omega arith) (omega arith) (unfold first in refl)
      (unfold first in refl)

-- The child has exited.
abbrev zombie_child : Kernel
zombie_child = record only_init {
  table =
      update only_init.table 1
        (record empty_entry { state = zombie; pid = 2; parent = some 0; trapframe = 0x1000 });
}
