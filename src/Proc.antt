-- ===== src/Proc.antt =====
-- kernel/proc.c: the process table and its states.
-- A pointer into `proc[]` is an index, or `none` for the null pointer; a page or an inode is its
-- address, 0 for the null pointer. Each function is one step under the locks that it takes, and the
-- calling process is `me`. What kernel/kalloc.c and kernel/vm.c return is an argument.
pub mod Table
pub mod Invariant
pub mod Exit
pub mod Fork
pub mod Safety
pub mod Calls
mod Tests
use project_priv.Prelude.{
  ℕ, zero, suc, ◌+◌, ◌-◌, ◌≤◌, ◌<◌, List, [], ◌∷◌, ◌++◌, Option, none, some, Bool, true, false, not,
  ◌&&◌, ◌||◌, ltb, ◌==◌, if◌then◌else◌, update,
}

-- param.h: NPROC, NOFILE
abbrev pub nproc : ℕ
nproc = 64

abbrev pub nofile : ℕ
nofile = 16

pub data State : Type 0 where
  unused used sleeping runnable running zombie : State

abbrev pub is_unused : State → Bool
is_unused unused = true
is_unused _ = false

abbrev pub is_sleeping : State → Bool
is_sleeping sleeping = true
is_sleeping _ = false

abbrev pub is_runnable : State → Bool
is_runnable runnable = true
is_runnable _ = false

abbrev pub is_zombie : State → Bool
is_zombie zombie = true
is_zombie _ = false

-- `struct proc`, without its lock, kernel stack and saved contexts. `ofile` is by descriptor.
pub record Proc : Type 0 where
  pub state : State
  pub chan : ℕ
  pub killed : Bool
  pub xstate : ℕ
  pub pid : ℕ
  pub parent : Option ℕ
  pub sz : ℕ
  pub pagetable : ℕ
  pub trapframe : ℕ
  pub ofile : ℕ → ℕ
  pub cwd : ℕ
  pub name : List ℕ

abbrev pub Table : Type 0
Table = ℕ → Proc

-- `cpus[]` by `c->proc`, the table, `nextpid` and `initproc`; and what has been freed so far, latest
-- first: pages by `kfree`, page tables by `proc_freepagetable`.
pub record Kernel : Type 0 where
  pub table : Table
  pub cpu : ℕ → Option ℕ
  pub nextpid : ℕ
  pub initproc : ℕ
  pub freed_pages : List ℕ
  pub freed_tables : List ℕ

-- `for(p = proc; p < &proc[NPROC]; p++)` with `k` rounds left from index `i`: an update of each entry.
pub sweep : (k i : ℕ) → (ℕ → Proc → Proc) → Table → Table
sweep zero i f t = t
sweep (suc k) i f t = sweep k (i + 1) f (update t i (f i (t i)))

-- The same loop as a search for the first entry that passes a test.
pub first : (k i : ℕ) → (Proc → Bool) → Table → Option ℕ
first zero i test t = none
first (suc k) i test t = let rest = first k (i + 1) test t in if test (t i) then some i else rest

abbrev pub is_at : Option ℕ → ℕ → Bool
is_at none i = false
is_at (some j) i = j == i

-- `procinit` on the zeroed table
pub procinit : Table → Table
procinit = sweep nproc 0 (λ i p. record p { state = unused })

pub allocpid : Kernel → ℕ × Kernel
allocpid s = (s.nextpid, record s { nextpid = s.nextpid + 1 })

pub freeproc : ℕ → Kernel → Kernel
freeproc i s =
    let p = s.table i in
    record s {
      freed_pages = (if p.trapframe == 0 then s.freed_pages else p.trapframe ∷ s.freed_pages);
      freed_tables = (if p.pagetable == 0 then s.freed_tables else p.pagetable ∷ s.freed_tables);
      table = update s.table i (record p {
        state = unused;
        chan = 0;
        killed = false;
        xstate = 0;
        pid = 0;
        parent = none;
        sz = 0;
        pagetable = 0;
        trapframe = 0;
        name = [];
      });
    }

-- `page` is what `kalloc` returns for the trapframe, `pagetable` what `proc_pagetable` returns.
pub allocproc : (page pagetable : ℕ) → Kernel → Option ℕ × Kernel
allocproc page pagetable s = elim (first nproc 0 (λ p. is_unused p.state) s.table) [
  | none ↦ (none, s)
  | some i ↦
      let (pid, s1) = allocpid s in
      let p1 = record (s1.table i) { pid = pid; state = used; trapframe = page } in
      let s2 = record s1 { table = update s1.table i p1 } in
      let s3 = record s1 { table = update s1.table i (record p1 { pagetable = pagetable }) } in
      if page == 0
      then (none, freeproc i s2)
      else if pagetable == 0
      then (none, freeproc i s3)
      else (some i, s3)
]

pub wakeup : (me : Option ℕ) → (chan : ℕ) → Table → Table
wakeup me chan = sweep nproc 0 (λ i p.
    if not (is_at me i) && (is_sleeping p.state && p.chan == chan)
    then record p { state = runnable }
    else p)

-- The pid of the new process or -1 as `none`. `copied` is whether `uvmcopy` succeeds; `filedup` and
-- `idup` return their argument, and `safestrcpy` copies a name that fits.
pub fork : (page pagetable : ℕ) (copied : Bool) (me : ℕ) → Kernel → Option ℕ × Kernel
fork page pagetable copied me s =
    let (np, s1) = allocproc page pagetable s in
    let p = s1.table me in
    elim np [
      | none ↦ (none, s1)
      | some i ↦
          if copied
          then (
            some (s1.table i).pid,
            record s1 {
              table = update s1.table i (record (s1.table i) {
                sz = p.sz;
                ofile = (λ fd.
                    if ltb fd nofile && not (p.ofile fd == 0)
                    then p.ofile fd
                    else (s1.table i).ofile fd);
                cwd = p.cwd;
                name = p.name;
                parent = some me;
                state = runnable;
              });
            },
          )
          else (none, freeproc i s1)
    ]

-- The address of an entry, as a sleep channel.
module _ (chan_of : ℕ → ℕ) where
  -- `wakeup(initproc)` runs at each child, before the scan goes on.
  pub reparent_loop : (k i me initproc : ℕ) → Table → Table
  reparent_loop zero i me initproc t = t
  reparent_loop (suc k) i me initproc t = reparent_loop k (i + 1) me initproc (
      if is_at (t i).parent me
      then wakeup (some me) (chan_of initproc)
          (update t i (record (t i) { parent = some initproc }))
      else t)

  pub reparent : (me initproc : ℕ) → Table → Table
  reparent me initproc t = reparent_loop nproc 0 me initproc t

  -- `wakeup(p->parent)`: a null parent is channel 0.
  abbrev pub parent_chan : Option ℕ → ℕ
  parent_chan none = 0
  parent_chan (some q) = chan_of q

  -- The table that `exit` leaves to the scheduler.
  pub exit_table : (me status initproc : ℕ) → Table → Table
  exit_table me status initproc t =
      let closed =
        update t me (record (t me) {
          ofile = (λ fd. if ltb fd nofile then 0 else (t me).ofile fd);
          cwd = 0;
        }) in
      let t1 = reparent me initproc closed in
      let t2 = wakeup (some me) (parent_chan (t1 me).parent) t1 in
      update t2 me (record (t2 me) { xstate = status; state = zombie })

  -- `exit` on CPU `c`, up to the switch to the scheduler; `none` is a panic.
  pub exit : (c me status : ℕ) → Kernel → Option Kernel
  exit c me status s =
      if me == s.initproc
      then none
      else some
          (record s { table = exit_table me status s.initproc s.table; cpu = update s.cpu c none })

-- What one scan of `wait` comes to.
pub data Waited : Type 0 where
  reaped : (pid : ℕ) → Waited
  failed : Waited
  sleeps : Waited

abbrev pub is_child : ℕ → Proc → Bool
is_child me p = is_at p.parent me

-- One scan of `wait`. `store` is whether `addr` is null or `copyout` succeeds.
pub wait : (me : ℕ) (store : Bool) → Kernel → Waited × Kernel
wait me store s = elim (first nproc 0 (λ p. is_child me p && is_zombie p.state) s.table) [
  | some i ↦ if store then (reaped (s.table i).pid, freeproc i s) else (failed, s)
  | none ↦ elim (first nproc 0 (is_child me) s.table) [
    | none ↦ (failed, s)
    | some j ↦ if (s.table me).killed then (failed, s) else (sleeps, s)
  ]
]

-- A round of `scheduler` on CPU `c` at entry `i`: `none` if the entry is not runnable.
pub schedule : (c i : ℕ) → Kernel → Option Kernel
schedule c i s =
    if is_runnable (s.table i).state
    then some (record s {
      table = update s.table i (record (s.table i) { state = running });
      cpu = update s.cpu c (some i);
    })
    else none

-- `yield` on CPU `c`, up to the switch; then the scheduler clears `c->proc`.
pub yield_cpu : (c me : ℕ) → Kernel → Kernel
yield_cpu c me s = record s {
  table = update s.table me (record (s.table me) { state = runnable });
  cpu = update s.cpu c none;
}

-- `sleep` on CPU `c` up to the switch.
pub sleep : (c me chan : ℕ) → Kernel → Kernel
sleep c me chan s = record s {
  table = update s.table me (record (s.table me) { chan = chan; state = sleeping });
  cpu = update s.cpu c none;
}

-- `sleep` after the switch back.
pub awake : ℕ → Kernel → Kernel
awake me s = record s { table = update s.table me (record (s.table me) { chan = 0 }) }

-- Whether a process with that pid was found.
pub kill : ℕ → Kernel → Bool × Kernel
kill pid s = elim (first nproc 0 (λ p. p.pid == pid) s.table) [
  | none ↦ (false, s)
  | some i ↦
      let p = record (s.table i) { killed = true } in
      (
        true,
        record s {
          table =
              update s.table i (if is_sleeping p.state then record p { state = runnable } else p);
        },
      )
]

pub setkilled : ℕ → Kernel → Kernel
setkilled i s = record s { table = update s.table i (record (s.table i) { killed = true }) }

-- `grown` is what `uvmalloc` returns and `shrunk` what `uvmdealloc` returns, from the old size.
-- `n` is signed: `up` says that it is above 0, `down` that it is below.
pub growproc : (up down : Bool) (grown shrunk : ℕ) (me : ℕ) → Kernel → Bool × Kernel
growproc up down grown shrunk me s =
    let set_sz =
      λ (n : ℕ). record s { table = update s.table me (record (s.table me) { sz = n }) } in
    if up
    then (if grown == 0 then (false, s) else (true, set_sz grown))
    else (if down then (true, set_sz shrunk) else (true, set_sz (s.table me).sz))
