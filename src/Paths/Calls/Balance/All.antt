-- ===== src/Paths/Calls/Balance/All.antt =====
-- The transactions and locks of the calls that make and remove names.
use project_priv.Prelude.{Bool}
use project_priv.Paths.Calls.{Sys, Run}
use project_priv.Paths.Calls.Balance.{Leaves}

-- A run that leaves as many transactions open, and as many inodes locked, as there were before.
abbrev pub Balanced : Sys → Run Bool → Type 0
Balanced k r = Leaves k.ops (λ b. k.locks) r
