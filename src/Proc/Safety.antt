-- ===== src/Proc/Safety.antt =====
-- What holds in every state that the calls of kernel/proc.c reach.
use project_priv.Prelude.{ℕ, ◌<◌, ◌≡◌, ◌≢◌, some, true, false, Option-cases, inl, inr}
use project_priv.Proc.{Kernel, running, is_unused, nproc}
use project_priv.Proc.Invariant.{
  Inv, Step, schedules, yields, sleeps, resumes, wakes, forks, exits, waits, kills, Reach, here,
  next, is_alive, schedule-Inv, yield-Inv, sleep-Inv, awake-Inv, wakeup-Inv, kill-Inv,
}
use project_priv.Proc.Exit.{exit-Inv}
use project_priv.Proc.Fork.{fork-Inv, wait-Inv}

module _ (chan_of : ℕ → ℕ) where
  Step-Inv : {s u : Kernel} → Step chan_of s u → Inv s → Inv u
  Step-Inv {s} {u} (schedules c i small free e) v = schedule-Inv s u c i v small free e
  Step-Inv {s} {u} (yields c me on e) v = rw e (yield-Inv s c me v on)
  Step-Inv {s} {u} (sleeps c me chan on e) v = rw e (sleep-Inv s c me chan v on)
  Step-Inv {s} {u} (resumes c me on e) v = rw e (awake-Inv s me v)
  Step-Inv {s} {u} (wakes me chan e) v = rw e (wakeup-Inv s me chan v)
  Step-Inv {s} {u} (forks c me page pagetable copied on e) v =
      rw e (fork-Inv s c me page pagetable copied v on)
  Step-Inv {s} {u} (exits c me status on e) v = exit-Inv chan_of c me status s u v on e
  Step-Inv {s} {u} (waits c me store on e) v = rw e (wait-Inv s me store v)
  Step-Inv {s} {u} (kills pid e) v = rw e (kill-Inv s pid v)

  pub Reach-Inv : {s u : Kernel} → Reach chan_of s u → Inv s → Inv u
  Reach-Inv here v = v
  Reach-Inv (next r st) v = Step-Inv st (Reach-Inv r v)

  -- From a state that meets the invariant, `schedule`, `yield`, `sleep`, `wakeup`, `fork`, `exit`,
  -- `wait` and `kill` in any order reach only states in which a process on a CPU is in state RUNNING
  -- and on no other CPU.
  pub cpu_exclusive :
      (s u : Kernel) (c d p : ℕ)
      → Inv s
      → Reach chan_of s u
      → u.cpu c ≡ some p
      → u.cpu d ≡ some p
      → (c ≡ d) × ((u.table p).state ≡ running)
  cpu_exclusive s u c d p v r on on' =
      let w = Reach-Inv r v in (w.alone c d p on on', (w.runs c p on).1)

  -- In every such state each process but init, zombies included, has a parent that is neither an
  -- unused entry nor a zombie, so that somebody can wait for it.
  pub no_orphan :
      (s u : Kernel) (p : ℕ)
      → Inv s
      → Reach chan_of s u
      → p < nproc
      → is_unused (u.table p).state ≡ false
      → p ≢ u.initproc
      → (q : ℕ) × ((u.table p).parent ≡ some q) × (is_alive (u.table q).state ≡ true)
  no_orphan s u p v r small in_use other =
      let w = Reach-Inv r v in
      elim (Option-cases (u.table p).parent) [
        | inl e ↦ absurd (w.has_parent p small in_use other e)
        | inr (q, e) ↦ (q, e, (w.parent_alive p q small e).1)
      ]
