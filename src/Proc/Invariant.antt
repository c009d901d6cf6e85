-- ===== src/Proc/Invariant.antt =====
-- Which processes run and which are waited for, in every state that the calls of kernel/proc.c reach.
-- A call's changes to the table are one step here.
use project_priv.Prelude.{
  ℕ, ◌<◌, ◌≡◌, refl, sym, ◌∙◌, ◌≢◌, Option, none, some, Bool, true, false, arith, update,
}
use project_priv.Proc.{
  Proc, Table, Kernel, State, unused, running, zombie, is_unused, wakeup, nproc, schedule,
  yield_cpu, sleep, awake, fork, exit, wait, kill,
}
use project_priv.Proc.Table.{wakeup-get}

abbrev pub is_alive : State → Bool
is_alive unused = false
is_alive zombie = false
is_alive _ = true

module _ (chan_of : ℕ → ℕ) where
  -- One call by the process on CPU `c`, a round of the scheduler there, or an interrupt's `wakeup`.
  pub data Step (s u : Kernel) : Type 0 where
    schedules : (c i : ℕ) → i < nproc → s.cpu c ≡ none → schedule c i s ≡ some u → Step s u
    yields : (c me : ℕ) → s.cpu c ≡ some me → u ≡ yield_cpu c me s → Step s u
    sleeps : (c me chan : ℕ) → s.cpu c ≡ some me → u ≡ sleep c me chan s → Step s u
    resumes : (c me : ℕ) → s.cpu c ≡ some me → u ≡ awake me s → Step s u
    wakes : (me : Option ℕ) (chan : ℕ) → u ≡ record s { table = wakeup me chan s.table } → Step s u
    forks :
        (c me page pagetable : ℕ) (copied : Bool)
        → s.cpu c ≡ some me
        → u ≡ (fork page pagetable copied me s).1
        → Step s u
    exits : (c me status : ℕ) → s.cpu c ≡ some me → exit chan_of c me status s ≡ some u → Step s u
    waits : (c me : ℕ) (store : Bool) → s.cpu c ≡ some me → u ≡ (wait me store s).1 → Step s u
    kills : (pid : ℕ) → u ≡ (kill pid s).1 → Step s u

  pub data Reach (s : Kernel) : Kernel → Type 0 where
    here : Reach s s
    next : {t u : Kernel} → Reach s t → Step t u → Reach s u

-- A process on a CPU is running, on that CPU only; every process in use but init has a parent, and a
-- parent is neither unused nor a zombie.
pub record Inv (s : Kernel) : Type 0 where
  pub init_small : s.initproc < nproc
  pub init_alive : is_alive (s.table s.initproc).state ≡ true
  pub runs : (c p : ℕ) → s.cpu c ≡ some p → (p < nproc) × ((s.table p).state ≡ running)
  pub alone : (c d p : ℕ) → s.cpu c ≡ some p → s.cpu d ≡ some p → c ≡ d
  pub has_parent :
      (p : ℕ)
      → p < nproc
      → is_unused (s.table p).state ≡ false
      → p ≢ s.initproc
      → (s.table p).parent ≢ none
  pub parent_alive :
      (p q : ℕ)
      → p < nproc
      → (s.table p).parent ≡ some q
      → (q < nproc) × (is_alive (s.table q).state ≡ true)

-- An entry whose family ties a step leaves alone.
pub record Kept (p p' : Proc) : Type 0 where
  pub parent : p'.parent ≡ p.parent
  pub alive : is_alive p'.state ≡ is_alive p.state
  pub in_use : is_unused p'.state ≡ is_unused p.state

-- A step that leaves the ties alone keeps the invariant if it keeps the CPUs in order.
Inv-Kept :
    (s u : Kernel)
    → Inv s
    → u.initproc ≡ s.initproc
    → ((p : ℕ) → Kept (s.table p) (u.table p))
    → ((c p : ℕ) → u.cpu c ≡ some p → (p < nproc) × ((u.table p).state ≡ running))
    → ((c d p : ℕ) → u.cpu c ≡ some p → u.cpu d ≡ some p → c ≡ d)
    → Inv u
Inv-Kept s u v init kept runs alone = record {
  init_small = rw init v.init_small;
  init_alive = rw (init, (kept s.initproc).alive) v.init_alive;
  runs = runs;
  alone = alone;
  has_parent = λ p h e ne.
      rw (kept p).parent (v.has_parent p h (sym (kept p).in_use ∙ e) (λ q. ne (q ∙ sym init)));
  parent_alive = λ p q h e.
      let (small, on) = v.parent_alive p q h (sym (kept p).parent ∙ e) in
      (small, (kept q).alive ∙ on);
}

pub schedule-Inv :
    (s u : Kernel) (c i : ℕ) → Inv s → i < nproc → s.cpu c ≡ none → schedule c i s ≡ some u → Inv u
unfolding schedule update
schedule-Inv s u c i v small free e =
    Inv-Kept s u v (ground arith) (λ p. ground arith) (λ d p h. ground (arith, v.runs d p))
      (λ d d' p h h'. ground (arith, v.runs d i, v.runs d' i, v.alone d d' p))

pub yield-Inv : (s : Kernel) (c me : ℕ) → Inv s → s.cpu c ≡ some me → Inv (yield_cpu c me s)
unfolding yield_cpu update
yield-Inv s c me v on =
    Inv-Kept s (yield_cpu c me s) v refl (λ p. ground (arith, v.runs c me))
      (λ d p h. ground (arith, v.runs d p, v.alone c d me))
      (λ d d' p h h'. ground (arith, v.alone d d' p))

pub sleep-Inv : (s : Kernel) (c me chan : ℕ) → Inv s → s.cpu c ≡ some me → Inv (sleep c me chan s)
unfolding sleep update
sleep-Inv s c me chan v on =
    Inv-Kept s (sleep c me chan s) v refl (λ p. ground (arith, v.runs c me))
      (λ d p h. ground (arith, v.runs d p, v.alone c d me))
      (λ d d' p h h'. ground (arith, v.alone d d' p))

pub awake-Inv : (s : Kernel) (me : ℕ) → Inv s → Inv (awake me s)
unfolding awake update
awake-Inv s me v =
    Inv-Kept s (awake me s) v refl (λ p. ground arith) (λ d p h. ground (arith, v.runs d p))
      (λ d d' p h h'. v.alone d d' p h h')

pub wakeup-Kept : (me : Option ℕ) (chan : ℕ) (t : Table) (p : ℕ) → Kept (t p) (wakeup me chan t p)
wakeup-Kept me chan t p = ground (arith, wakeup-get me chan t p)

pub wakeup-Inv :
    (s : Kernel) (me : Option ℕ) (chan : ℕ)
    → Inv s
    → Inv (record s { table = wakeup me chan s.table })
wakeup-Inv s me chan v =
    Inv-Kept s (record s { table = wakeup me chan s.table }) v refl (wakeup-Kept me chan s.table)
      (λ d p h. ground (arith, v.runs d p h, wakeup-get me chan s.table p))
      (λ d d' p h h'. v.alone d d' p h h')

pub kill-Inv : (s : Kernel) (pid : ℕ) → Inv s → Inv (kill pid s).1
unfolding kill update
kill-Inv s pid v =
    Inv-Kept s (kill pid s).1 v (ground arith) (λ p. ground arith)
      (λ d p h. ground (arith, v.runs d p)) (λ d d' p h h'. ground (arith, v.alone d d' p))
