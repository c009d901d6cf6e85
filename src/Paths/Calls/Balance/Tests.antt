-- ===== src/Paths/Calls/Balance/Tests.antt =====
-- The calls on paths at concrete inputs.
use project_priv.Prelude.{ℕ, [], false, ◌==◌, if◌then◌else◌}
use project_priv.Fs.{Superblock}
use project_priv.Paths.Calls.{Sys}

abbrev sb : Superblock
sb = record { size = 100; ninodes = 20; inodestart = 32; bmapstart = 45 }

-- The root directory is in the first entry of the table, and is empty.
abbrev root_only : Sys
root_only = record {
  itable = λ i. record {
    dev = 1;
    inum = if i == 0 then 1 else 0;
    ref = if i == 0 then 1 else 0;
    valid = i == 0;
    type = if i == 0 then 1 else 0;
    major = 0;
    minor = 0;
    nlink = 1;
    size = 0;
    addrs = λ j. 0;
  };
  disk = record { block = λ b x. 0; logged = [] };
  ops = 0;
  locks = record { count = λ i. 0; unheld = false };
  cwd = 0;
}

abbrev no_name : ℕ → ℕ
no_name i = 0
