-- ===== src/Files/Tests.antt =====
-- The theorems about descriptors at concrete inputs.
use project_priv.Prelude.{
  ℕ, ◌≡◌, refl, [], ◌∷◌, none, some, true, false, ◌==◌, if◌then◌else◌, update, arith,
}
use project_priv.Files.{nofile, Files, fd_inode, set_fd, sys_close}
use project_priv.Files.Refs.{refs-none}
use project_priv.Files.Held.{Counted, stored-Counted}
use project_priv.Files.Loops.{Copied, fork_files_lem}
use project_priv.Files.Calls.{Returns, Closed, sys_close-Returns}

-- File 3 is an inode with one reference, which no descriptor is.
abbrev held : Files
held = record {
  ftable = λ f. record {
    kind = fd_inode;
    ref = (if f == 3 then 1 else 0);
    readable = true;
    writable = false;
    pipe = 0;
    ip = 7;
  };
  ofile = λ p fd. none;
  ended = [];
}

-- It is descriptor 0 of process 5.
abbrev opened : Files
opened = set_fd 5 0 (some 3) held

held-Counted : Counted (3 ∷ []) held
held-Counted f = ground (arith, refs-none f)

opened-Counted : Counted [] opened
opened-Counted = stored-Counted 5 0 3 [] held (omega arith) (omega arith) refl held-Counted

sys_close-Returns_example : Returns (sys_close 5 0 opened) (Closed 5 0 opened)
sys_close-Returns_example = sys_close-Returns 5 0 opened (omega arith) opened-Counted

only_in_5 : (i : ℕ) → opened.ofile 6 i ≡ none
unfolding update
only_in_5 i = refl

fork_files_lem_example : Copied nofile 0 5 6 opened
fork_files_lem_example =
    fork_files_lem 5 6 opened (omega arith) (omega arith) (λ q. omega (arith, q)) only_in_5
      opened-Counted
