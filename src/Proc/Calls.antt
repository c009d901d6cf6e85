-- ===== src/Proc/Calls.antt =====
-- What single calls of kernel/proc.c do.
use project_priv.Prelude.{
  ℕ, ◌≡◌, refl, ap, ◌∙◌, ◌≢◌, ◌∷◌, Option, none, some, Bool, true, false, ◌&&◌, ◌==◌, if◌then◌else◌,
  Option-cases, inl, inr, arith, update, update_self,
}
use project_priv.Proc.{
  Proc, Kernel, unused, runnable, is_unused, is_sleeping, is_zombie, is_at, is_child, first, nproc,
  kill, fork, allocproc, allocpid, freeproc, wait, reaped,
}
use project_priv.Proc.Table.{first-Found, first_congr}
use project_priv.Proc.Fork.{free_entry}

-- A `fork` whose `uvmcopy` fails returns -1, frees the page and the page table that it was given, and
-- leaves every entry but the free one that it took as it was, and that one unused again.
pub fork_rollback :
    (page pagetable me i p : ℕ) (s : Kernel)
    → page ≢ 0
    → pagetable ≢ 0
    → free_entry s.table ≡ some i
    → p ≢ i
    → let (result, u) = fork page pagetable false me s in
      (result ≡ none)
      × (u.freed_pages ≡ page ∷ s.freed_pages)
      × (u.freed_tables ≡ pagetable ∷ s.freed_tables)
      × (u.table p ≡ s.table p)
      × ((u.table i).state ≡ unused)
unfolding fork allocproc allocpid freeproc update
fork_rollback page pagetable me i p s h h' e ne =
    (ground (arith, e), ground (arith, e), ground (arith, e), ground (arith, e), ground (arith, e))

abbrev pub is_found : Option ℕ → Bool
is_found none = false
is_found (some i) = true

-- The entry that `kill` marks.
abbrev marked : ℕ → Kernel → Kernel
marked i s = record s { table = update s.table i (record (s.table i) { killed = true }) }

kill_unused_entry :
    (i : ℕ) (s : Kernel)
    → free_entry s.table ≡ some i
    → first nproc 0 (λ p. p.pid == 0) s.table ≡ some i
    → kill 0 s ≡ (true, marked i s)
unfolding kill
kill_unused_entry i s e e' =
    ground (arith, e', (first-Found nproc 0 (λ p. is_unused p.state) s.table i e).passes)

free_entry-marked : (i : ℕ) (s : Kernel) → free_entry (marked i s).table ≡ free_entry s.table
unfolding update
free_entry-marked i s =
    first_congr nproc 0 (λ p. is_unused p.state) (marked i s).table s.table (λ j. ground arith)

fork_killed :
    (page pagetable me i : ℕ) (s : Kernel)
    → page ≢ 0
    → pagetable ≢ 0
    → free_entry s.table ≡ some i
    → let (result, u) = fork page pagetable true me s in
      (result ≡ some s.nextpid)
      × ((u.table i).pid ≡ s.nextpid)
      × ((u.table i).parent ≡ some me)
      × ((u.table i).state ≡ runnable)
      × ((u.table i).killed ≡ (s.table i).killed)
unfolding fork allocproc allocpid update
fork_killed page pagetable me i s h h' e =
    (ground (arith, e), ground (arith, e), ground (arith, e), ground (arith, e), ground (arith, e))

-- If the first entry with pid 0 is the first unused one, `kill(0)` reports success and marks that
-- entry killed, and the next `fork`, when its allocations and copies work, puts its child in that
-- entry, with the new pid, the caller as its parent, runnable, and already killed.
pub kill_unused :
    (page pagetable me i : ℕ) (s : Kernel)
    → page ≢ 0
    → pagetable ≢ 0
    → free_entry s.table ≡ some i
    → first nproc 0 (λ p. p.pid == 0) s.table ≡ some i
    → let (found, t) = kill 0 s in
      let (result, u) = fork page pagetable true me t in
      (found ≡ true)
      × (result ≡ some s.nextpid)
      × ((u.table i).pid ≡ s.nextpid)
      × ((u.table i).parent ≡ some me)
      × ((u.table i).state ≡ runnable)
      × ((u.table i).killed ≡ true)
kill_unused page pagetable me i s h h' e e' =
    let (works, pid, parent, state, dead) =
      fork_killed page pagetable me i (marked i s) h h' (free_entry-marked i s ∙ e) in
    rw (kill_unused_entry i s e e') (
      refl,
      works,
      pid,
      parent,
      state,
      dead ∙ ap (λ (p : Proc). p.killed) (update_self s.table i _),
    )

-- `kill` of a pid that the table has marks the first entry with it as killed, makes it runnable if it
-- sleeps, and changes the mark and the state of no other entry; of any other pid it fails and changes
-- none of them.
pub kill_lem :
    (pid p : ℕ) (s : Kernel)
    → let (found, u) = kill pid s in
      let target = first nproc 0 (λ q. q.pid == pid) s.table in
      (found ≡ is_found target)
      × ((u.table p).killed ≡ (if is_at target p then true else (s.table p).killed))
      × ((u.table p).state ≡ (
          if is_at target p && is_sleeping (s.table p).state then runnable else (s.table p).state))
unfolding kill update
kill_lem pid p s = elim (Option-cases (first nproc 0 (λ q. q.pid == pid) s.table)) [
  | inl e ↦ (ground (arith, e), ground (arith, e), ground (arith, e))
  | inr (i, e) ↦ (ground (arith, e), ground (arith, e), ground (arith, e))
]

-- A `wait` that finds a zombie child gives the pid of the first, and empties its entry alone.
pub wait_reaps :
    (me i p : ℕ) (s : Kernel)
    → first nproc 0 (λ q. is_child me q && is_zombie q.state) s.table ≡ some i
    → p ≢ i
    → let (result, u) = wait me true s in
      (result ≡ reaped (s.table i).pid)
      × ((u.table i).state ≡ unused)
      × ((u.table i).parent ≡ none)
      × (u.table p ≡ s.table p)
unfolding wait freeproc update
wait_reaps me i p s e ne =
    (ground (arith, e), ground (arith, e), ground (arith, e), ground (arith, e))
