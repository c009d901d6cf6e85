-- ===== src/Strings/Tests.antt =====
-- The theorems about kernel/string.c at concrete inputs.
use project_priv.Prelude.{◌%◌, ◌==◌, if◌then◌else◌}
use project_priv.Strings.{Memory}

-- "ab" at 0 and at 8, zero elsewhere.
abbrev twice_ab : Memory
twice_ab a = if a % 8 == 0 then b'a' else if a % 8 == 1 then b'b' else 0
