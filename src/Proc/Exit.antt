-- ===== src/Proc/Exit.antt =====
-- `exit` and `wait` of kernel/proc.c: whose child a process is.
use project_priv.Prelude.{
  ℕ, zero, suc, ◌+◌, ◌≡◌, refl, sym, ap, ◌∙◌, ◌≢◌, Option, none, some, false, ◌&&◌, ltb, leb, ◌==◌,
  if◌then◌else◌, Bool-cases, inl, inr, arith, update, ℕ_discrete, subst,
}
use project_priv.Proc.{
  Proc, Table, Kernel, running, zombie, is_unused, is_at, wakeup, nproc, nofile, exit, exit_table,
  reparent, reparent_loop, parent_chan,
}
use project_priv.Proc.Table.{wakeup-get}
use project_priv.Proc.Invariant.{Inv, is_alive, wakeup-Kept}

-- An entry that stays in use, alive and running if it was.
pub record Steady (p p' : Proc) : Type 0 where
  pub alive : is_alive p'.state ≡ is_alive p.state
  pub in_use : is_unused p'.state ≡ is_unused p.state
  pub runs : p.state ≡ running → p'.state ≡ running

wakeup-Steady : (me : Option ℕ) (chan : ℕ) (t : Table) (p : ℕ) → Steady (t p) (wakeup me chan t p)
wakeup-Steady me chan t p = record {
  alive = (wakeup-Kept me chan t p).alive;
  in_use = (wakeup-Kept me chan t p).in_use;
  runs = λ e. ground (arith, wakeup-get me chan t p);
}

Steady-trans : (p q r : Proc) → Steady p q → Steady q r → Steady p r
Steady-trans p q r a b = record {
  alive = b.alive ∙ a.alive;
  in_use = b.in_use ∙ a.in_use;
  runs = λ e. b.runs (a.runs e);
}

module _ (chan_of : ℕ → ℕ) (me init : ℕ) where
  -- One round of `reparent`.
  abbrev adopt : ℕ → Table → Table
  adopt i t =
      if is_at (t i).parent me
      then wakeup (some me) (chan_of init) (update t i (record (t i) { parent = some init }))
      else t

  adopt-Steady : (i : ℕ) (t : Table) (p : ℕ) → Steady (t p) (adopt i t p)
  unfolding update
  adopt-Steady i t p = elim (Bool-cases (is_at (t i).parent me)) [
    | inl e ↦ rw e (
        Steady-trans (t p) (update t i (record (t i) { parent = some init }) p) _
          (record { alive = ground arith; in_use = ground arith; runs = λ h. ground arith })
          (wakeup-Steady (some me) (chan_of init) (update t i (record (t i) { parent = some init }))
            p))
    | inr e ↦ rw e (record { alive = refl; in_use = refl; runs = λ h. h })
  ]

  adopt-parent :
      (i : ℕ) (t : Table) (p : ℕ)
      → (adopt i t p).parent ≡ (if p == i && is_at (t i).parent me then some init else (t p).parent)
  unfolding update
  adopt-parent i t p = elim (Bool-cases (is_at (t i).parent me)) [
    | inl e ↦ rw e (
        (wakeup-Kept (some me) (chan_of init) (update t i (record (t i) { parent = some init }))
          p).parent
        ∙ ground arith)
    | inr e ↦ rw e (ground arith)
  ]

  reparent_loop-Steady :
      (k i : ℕ) (t : Table) (p : ℕ) → Steady (t p) (reparent_loop chan_of k i me init t p)
  unfolding reparent_loop
  reparent_loop-Steady zero i t p = record { alive = refl; in_use = refl; runs = λ h. h }
  reparent_loop-Steady (suc k) i t p =
      Steady-trans (t p) (adopt i t p) _ (adopt-Steady i t p)
        (reparent_loop-Steady k (i + 1) (adopt i t) p)

  adopt-parent_at :
      (i : ℕ) (t : Table) (p : ℕ)
      → (adopt i t p).parent ≡ (if p == i && is_at (t p).parent me then some init else (t p).parent)
  adopt-parent_at i t p = elim (ℕ_discrete p i) [
    | yes e ↦ rw e (adopt-parent i t i)
    | no ne ↦ adopt-parent i t p ∙ ground arith
  ]

  adopted_range :
      (old new : Option ℕ) (i k p : ℕ)
      → new ≡ (if p == i && is_at old me then some init else old)
      → (if (leb (i + 1) p && ltb p (i + 1 + k)) && is_at new me then some init else new)
        ≡ (if (leb i p && ltb p (i + suc k)) && is_at old me then some init else old)
  adopted_range old new i k p e = elim (ℕ_discrete p i) [
    | yes same ↦ ground arith
    | no ne ↦ (let e' : new ≡ old = ground arith in rw e' (ground arith))
  ]

  reparent_loop-parent :
      (k i : ℕ) (t : Table) (p : ℕ)
      → (reparent_loop chan_of k i me init t p).parent
        ≡ (if (leb i p && ltb p (i + k)) && is_at (t p).parent me then some init else (t p).parent)
  unfolding reparent_loop
  reparent_loop-parent zero i t p = ground arith
  reparent_loop-parent (suc k) i t p =
      reparent_loop-parent k (i + 1) (adopt i t) p
      ∙ adopted_range (t p).parent (adopt i t p).parent i k p (adopt-parent_at i t p)

  -- After `reparent`, the children of `me` are init's.
  pub reparent-parent :
      (t : Table) (p : ℕ)
      → (reparent chan_of me init t p).parent
        ≡ (if ltb p nproc && is_at (t p).parent me then some init else (t p).parent)
  unfolding reparent
  reparent-parent t p = reparent_loop-parent nproc 0 t p ∙ ground arith

  pub reparent-Steady : (t : Table) (p : ℕ) → Steady (t p) (reparent chan_of me init t p)
  unfolding reparent
  reparent-Steady t p = reparent_loop-Steady nproc 0 t p

-- What `exit` leaves at each entry.
record Exited (me init : ℕ) (t u : Table) : Type 0 where
  dead : (u me).state ≡ zombie
  steady : (p : ℕ) → p ≢ me → Steady (t p) (u p)
  adopted :
      (p : ℕ)
      → (u p).parent ≡ (if ltb p nproc && is_at (t p).parent me then some init else (t p).parent)

exit_table-Exited :
    (chan_of : ℕ → ℕ) (me status init : ℕ) (t : Table)
    → Exited me init t (exit_table chan_of me status init t)
unfolding exit_table update
exit_table-Exited chan_of me status init t = record {
  dead = ground arith;
  steady = λ p ne.
      let a : Steady (t p) (closed p) = record {
        alive = ground arith;
        in_use = ground arith;
        runs = λ h. ground arith;
      } in
      let b = Steady-trans (t p) (closed p) (t1 p) a (reparent-Steady chan_of me init closed p) in
      let c = Steady-trans (t p) (t1 p) (t2 p) b (wakeup-Steady (some me) _ t1 p) in
      let same : exit_table chan_of me status init t p ≡ t2 p = ground arith in
      subst (Steady (t p)) (sym same) c;
  adopted = λ p.
      let same : (exit_table chan_of me status init t p).parent ≡ (t2 p).parent = ground arith in
      let old : (closed p).parent ≡ (t p).parent = ground arith in
      same
      ∙ (wakeup-Kept (some me) _ t1 p).parent
      ∙ reparent-parent chan_of me init closed p
      ∙ rw old;
}
  where
    closed : Table
    closed =
        update t me
          (record (t me) { ofile = (λ fd. if ltb fd nofile then 0 else (t me).ofile fd); cwd = 0 })

    t1 : Table
    t1 = reparent chan_of me init closed

    t2 : Table
    t2 = wakeup (some me) (parent_chan chan_of (t1 me).parent) t1

exit-some :
    (chan_of : ℕ → ℕ) (c me status : ℕ) (s u : Kernel)
    → exit chan_of c me status s ≡ some u
    → (me ≢ s.initproc)
      × (u ≡ record s {
        table = exit_table chan_of me status s.initproc s.table;
        cpu = update s.cpu c none;
      })
unfolding exit
exit-some chan_of c me status s u e = (λ same. ground arith, ground arith)

exit_kernel-Inv :
    (chan_of : ℕ → ℕ) (c me status : ℕ) (s : Kernel)
    → Inv s
    → s.cpu c ≡ some me
    → me ≢ s.initproc
    → Inv (record s {
      table = exit_table chan_of me status s.initproc s.table;
      cpu = update s.cpu c none;
    })
unfolding update
exit_kernel-Inv chan_of c me status s v on ne =
    let x = exit_table-Exited chan_of me status s.initproc s.table in
    record {
      init_small = v.init_small;
      init_alive = (x.steady s.initproc (λ e. ne (sym e))).alive ∙ v.init_alive;
      runs = λ d p h.
          let old : s.cpu d ≡ some p = ground arith in
          let p_ne : p ≢ me = λ e. ground (arith, v.alone c d p) in
          ((v.runs d p old).0, (x.steady p p_ne).runs (v.runs d p old).1);
      alone = λ d d' p h h'. ground (arith, v.alone d d' p);
      has_parent = λ p h e other.
          let before : is_unused (s.table p).state ≡ false = elim (ℕ_discrete p me) [
            | yes same ↦ rw same (ap is_unused (v.runs c me on).1)
            | no p_ne ↦ sym (x.steady p p_ne).in_use ∙ e
          ] in
          λ no_parent. ground (arith, x.adopted p, v.has_parent p h before other);
      parent_alive = λ p q h e. elim (Bool-cases (is_at (s.table p).parent me)) [
        | inl child ↦
            (let same : q ≡ s.initproc = ground (arith, x.adopted p) in
              rw same (v.init_small, (x.steady s.initproc (λ e. ne (sym e))).alive ∙ v.init_alive))
        | inr other ↦
            (let old : (s.table p).parent ≡ some q = ground (arith, x.adopted p) in
              let q_ne : q ≢ me = λ e. ground arith in
              let (small, alive) = v.parent_alive p q h old in
              (small, (x.steady q q_ne).alive ∙ alive))
      ];
    }

pub exit-Inv :
    (chan_of : ℕ → ℕ) (c me status : ℕ) (s u : Kernel)
    → Inv s
    → s.cpu c ≡ some me
    → exit chan_of c me status s ≡ some u
    → Inv u
exit-Inv chan_of c me status s u v on e =
    let (ne, same) = exit-some chan_of c me status s u e in
    rw same (exit_kernel-Inv chan_of c me status s v on ne)
