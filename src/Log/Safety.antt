-- ===== src/Log/Safety.antt =====
-- The system calls over kernel/log.c: when they panic, and crash safety in every reachable state.
use project_priv.Prelude.{
  ℕ, zero, suc, ◌+◌, ◌<◌, ◌≡◌, refl, sym, ap, ◌∙◌, ◌≢◌, List, [], ◌∷◌, ◌++◌, Option, none, some,
  inl, inr, Bool, true, false, Bool-cases, arith, length, length-append, update, update_self, leb,
  if◌then◌else◌, dec_lt,
}
use project_priv.Log.{
  Block, Log, Store, initlog, recover_from_log, write_head, bwrite, end_op_enter, log_write,
  log_size, read_head, install_loop, install_trans,
}
use project_priv.Log.Loops.{OutsideLog}
use project_priv.Log.Recovery.{head_block_count, recovered, boot}
use project_priv.Log.Crash.{crashed, commit_crash, after_commit_other}
use project_priv.Log.Reserve.{System, Inv, Reach, modified, sum, sum-append}
use project_priv.Log.Written.{log_write-full}
use project_priv.Log.Invariant.{Reach-Inv, Reach-size, write-Logged}

-- The file system at boot, recovered, with no call running.
unfoldable pub booted : (logstart nlog : ℕ) → (ℕ → Block) → System
booted logstart nlog d =
    let (l, s) = initlog logstart nlog (boot d) in record { log = l; store = s; budgets = [] }

bwrite-same :
    (b : ℕ) (x : Block) (s : Store) → s.cache ≡ s.disk → (bwrite b x s).cache ≡ (bwrite b x s).disk
unfolding bwrite
bwrite-same b x s e = ap (λ f. update f b x) e

install_loop-same :
    (l : Log) (k i : ℕ) (s : Store)
    → s.cache ≡ s.disk
    → (install_loop true l k i s).cache ≡ (install_loop true l k i s).disk
unfolding install_loop
install_loop-same l zero i s e = e
install_loop-same l (suc k) i s e =
    let s1 : Store = bwrite (l.block i) (s.cache (l.start + i + 1)) s in
    install_loop-same l k (i + 1) s1 (bwrite-same (l.block i) (s.cache (l.start + i + 1)) s e)

booted-same :
    (logstart nlog : ℕ) (d : ℕ → Block)
    → (booted logstart nlog d).store.cache ≡ (booted logstart nlog d).store.disk
unfolding booted initlog recover_from_log write_head install_trans boot
booted-same logstart nlog d = bwrite-same _ _ _ (install_loop-same _ _ _ _ refl)

booted-Inv : (logstart nlog : ℕ) (d : ℕ → Block) → 0 < nlog → Inv (booted logstart nlog d)
unfolding booted initlog recover_from_log read_head write_head bwrite
booted-Inv logstart nlog d h = record {
  reserved = omega arith;
  running = refl;
  small = tt;
  idle = λ p. refl;
  header = record {
    fits = omega arith;
    within = h;
    home = λ i h. elim h [ ];
    distinct = λ i j p q. elim q [ ];
  };
  clear = ap (λ (f : Block). f 0) (update_self _ logstart _) ∙ head_block_count _ _;
  clean = λ c o. inl (ap (λ (f : ℕ → Block). f c) (booted-same logstart nlog d));
}

booted-size :
    (logstart nlog : ℕ) (d : ℕ → Block)
    → ((booted logstart nlog d).log.start ≡ logstart) × ((booted logstart nlog d).log.size ≡ nlog)
unfolding booted initlog recover_from_log read_head
booted-size logstart nlog d = (refl, refl)

-- Whether an operation panics.
abbrev pub panics {ℓ} : {A : Type ℓ} → Option A → Bool
panics none = true
panics (some x) = false

panics-some {ℓ} : {A : Type ℓ} {x : A} {o : Option A} → o ≡ some x → panics o ≡ false
panics-some e = rw e refl

-- In a state reached from boot, with a log of at least one block, by system calls of at most
-- `max_op_blocks` writes each, fewer than `log_size` blocks are logged when a call has budget left.
-- Then its `log_write` of a block outside the log that it has changed panics exactly when the
-- `nlog` blocks of the log, the header among them, have no room for another one, and its `end_op`
-- does not panic.
pub no_panic :
    (logstart nlog : ℕ) (d : ℕ → Block) {t : System} (xs ys : List ℕ) (m b : ℕ) (x : Block)
    → 0 < nlog
    → Reach (booted logstart nlog d) t
    → t.budgets ≡ xs ++ suc m ∷ ys
    → OutsideLog logstart nlog b
    → (t.log.n < log_size)
      × (panics (log_write t.log b (modified b x t.store)) ≡ leb nlog (t.log.n + 1))
      × (end_op_enter t.log ≢ none)
unfolding end_op_enter
no_panic logstart nlog d {t} xs ys m b x h r e out = (
  omega (arith, v.reserved, ap sum e, sum-append xs (suc m ∷ ys)),
  elim (dec_lt (t.log.n + 1) t.log.size) [
    | yes room ↦
        let (_, _, written, _) = write-Logged t xs ys m b x v e (rw (start, size) out) room in
        panics-some written ∙ ground (arith, size)
    | no full ↦
        rw (log_write-full t.log b (modified b x t.store) (omega (arith, full)))
          (ground (arith, size))
  ],
  elim (Bool-cases t.log.committing) [
    | inl on ↦
        absurd (omega (arith, v.idle on, v.running, ap length e, length-append xs (suc m ∷ ys)))
    | inr off ↦ λ p. ground arith
  ],
)
  where
    v : Inv t
    v = Reach-Inv r (booted-Inv logstart nlog d h)

    start : t.log.start ≡ logstart
    start = (Reach-size r).0 ∙ (booted-size logstart nlog d).0

    size : t.log.size ≡ nlog
    size = (Reach-size r).1 ∙ (booted-size logstart nlog d).1

-- In a state reached from boot, with a log of at least one block, by system calls of at most
-- `max_op_blocks` writes each, which change a cached block and then call `log_write`, a crash after
-- `j` disk writes of a commit and the recovery leave each block outside the log as the disk had it
-- before the commit if `j` is at most the number of blocks logged, and otherwise as the cache has
-- it, with all that the calls have written.
pub crash_safe :
    (logstart nlog : ℕ) (d : ℕ → Block) {t : System} (j c : ℕ)
    → 0 < nlog
    → Reach (booted logstart nlog d) t
    → OutsideLog logstart nlog c
    → recovered logstart nlog (crashed t.log t.store j) c
      ≡ (if leb j t.log.n then t.store.disk c else t.store.cache c)
crash_safe logstart nlog d {t} j c h r out =
    let v : Inv t = Reach-Inv r (booted-Inv logstart nlog d h) in
    let start : t.log.start ≡ logstart = (Reach-size r).0 ∙ (booted-size logstart nlog d).0 in
    let size : t.log.size ≡ nlog = (Reach-size r).1 ∙ (booted-size logstart nlog d).1 in
    let out' : OutsideLog t.log.start t.log.size c = rw (start, size) out in
    rw (sym start, sym size)
      (commit_crash t.log t.store j c v.header v.clear out'
        ∙ ap (λ (x : Block). if leb j t.log.n then t.store.disk c else x)
            (after_commit_other t.log t.store c (v.clean c out')))
