-- ===== src/Log/Tests.antt =====
-- Runs of the log, and the theorems of its modules at concrete inputs.
use project_priv.Prelude.{
  ℕ, ◌+◌, ◌<◌, ◌≡◌, refl, ◌≢◌, inr, [], ◌∷◌, none, true, false, arith, take, update, if◌then◌else◌,
  leb,
}
use project_priv.Log.{
  Block, Store, Log, begin_op, end_op_enter, log_write, commit, initlog, recover_from_log,
  read_head, read_loop, install_trans, install_loop, write_head, head_block, head_loop, bwrite,
  bunpin, bpin, absorb, commit_log, write_log, write_loop,
}
use project_priv.Log.Loops.{replay}
use project_priv.Log.Recovery.{IsHeader, recovered, boot, recover_crash}
use project_priv.Log.Crash.{commit_installs, commit_crash, crashed}
use project_priv.Log.Reserve.{System, Reach, here, next, begins, writes, modified}
use project_priv.Log.Safety.{booted, panics, no_panic, crash_safe}

-- A log at block 2, with blocks 50 and 60 in the transaction.
abbrev two_blocks : ℕ → ℕ
two_blocks i = if leb 1 i then 60 else 50

abbrev log_2 : Log
log_2 = record {
  start = 2;
  size = 30;
  outstanding = 0;
  committing = true;
  n = 2;
  block = two_blocks;
}

-- Block `b` holds `b` in the cache and 0 on disk.
abbrev store_2 : Store
store_2 = record { cache = λ b w. b; disk = λ b w. 0; pins = λ b. 0; trace = [] }

two_blocks-IsHeader : IsHeader 2 30 2 two_blocks
two_blocks-IsHeader = record {
  fits = omega arith;
  within = omega arith;
  home = λ i h. inr (ground arith);
  distinct = λ i j p q. ground arith;
}

commit_runs : (commit log_2 store_2).1.disk 60 7 ≡ 60
unfolding commit commit_log write_log write_loop write_head head_block head_loop install_trans
    install_loop bwrite bunpin update
commit_runs = refl

commit_installs_example : (commit log_2 store_2).1.disk 60 ≡ λ w. 60
commit_installs_example = commit_installs log_2 store_2 60 two_blocks-IsHeader (inr (omega arith))

commit_crash_example : recovered 2 30 (crashed log_2 store_2 3) 60 ≡ λ w. 60
commit_crash_example = commit_crash log_2 store_2 3 60 two_blocks-IsHeader refl (inr (omega arith))

-- A disk whose log holds a committed transaction.
abbrev disk_2 : ℕ → Block
disk_2 b w = if leb b 2 then (if leb 2 w then 60 else if leb 1 w then 50 else 2) else 7

disk_2-IsHeader : IsHeader 2 30 (disk_2 2 0) (λ i. disk_2 2 (i + 1))
disk_2-IsHeader = record {
  fits = omega arith;
  within = omega arith;
  home = λ i h. inr (ground arith);
  distinct = λ i j p q. ground arith;
}

recover_crash_example :
    recovered 2 30 (replay disk_2 (take 1 (initlog 2 30 (boot disk_2)).1.trace)) 60
    ≡ recovered 2 30 disk_2 60
recover_crash_example = recover_crash 2 30 1 60 disk_2 disk_2-IsHeader (inr (omega arith))

-- On the disk that mkfs makes, one call runs and has changed block 60.
abbrev at_boot : System
at_boot = booted 2 30 store_2.disk

abbrev one_running : System
one_running = record at_boot { log = record at_boot.log { outstanding = 1 }; budgets = 10 ∷ [] }

abbrev ones : Block
ones w = 1

abbrev one_written : System
one_written = record one_running {
  log = record one_running.log { n = 1; block = update one_running.log.block 0 60 };
  store = bpin 60 (modified 60 ones one_running.store);
  budgets = 9 ∷ [];
}

Reach-one_written : Reach at_boot one_written
unfolding booted initlog recover_from_log read_head read_loop begin_op log_write absorb
Reach-one_written =
    next (next here (begins one_running.log refl refl))
      (writes [] [] 9 60 ones one_written.log one_written.store refl (inr (omega arith)) refl refl)

no_panic_example :
    (one_written.log.n < 30)
    × (panics (log_write one_written.log 70 (modified 70 ones one_written.store)) ≡ false)
    × (end_op_enter one_written.log ≢ none)
unfolding booted initlog recover_from_log read_head read_loop
no_panic_example =
    no_panic 2 30 store_2.disk [] [] 8 70 ones (omega arith) Reach-one_written refl
      (inr (omega arith))

crash_safe_example : recovered 2 30 (crashed one_written.log one_written.store 3) 60 ≡ ones
unfolding bpin update
crash_safe_example =
    crash_safe 2 30 store_2.disk 3 60 (omega arith) Reach-one_written (inr (omega arith))
