-- ===== src/Shell/Tests.antt =====
-- The theorems about user/my_shell.c at concrete inputs.
use project_priv.Prelude.{ℕ, ◌≡◌, ◌≢◌, refl, [], ◌∷◌, none, some, false, ◌==◌, if◌then◌else◌, arith}
use project_priv.Shell.{
  Line, Arguments, Redirection, simple, pipeline, sequence, run_command, redirect, cut,
}
use project_priv.Shell.Lines.{printed, Parsed, run_command_lem}
use project_priv.Shell.Redirects.{strip, Stripped, redirect-Stripped}

-- "a|b;c"
abbrev line : Line
line = b'a' ∷ b'|' ∷ b'b' ∷ b';' ∷ b'c' ∷ []

line_tree :
    run_command 6 100 line
    ≡ pipeline (simple (b'a' ∷ [])) (sequence (simple (b'b' ∷ [])) (simple (b'c' ∷ [])))
unfolding run_command cut
line_tree = refl

run_command_lem_example :
    (printed (run_command 6 100 line) ≡ line) × Parsed (run_command 6 100 line)
run_command_lem_example = run_command_lem 6 100 line (omega arith) (omega arith)

abbrev ls : Line
ls = b'l' ∷ b's' ∷ []

ls_bytes : ◌≢◌ {A = ℕ} b'l' b' ' × ◌≢◌ {A = ℕ} b'l' 9 × ◌≢◌ {A = ℕ} b's' b' ' × ◌≢◌ {A = ℕ} b's' 9
ls_bytes = (
  (λ q. omega (arith, q)),
  (λ q. omega (arith, q)),
  (λ q. omega (arith, q)),
  (λ q. omega (arith, q)),
)

-- "ls", ">" and "ls", and then the null pointer and bytes that were never set.
abbrev array : Arguments
array i =
    if i == 0
    then some ls
    else if i == 1
    then some (b'>' ∷ [])
    else if i == 2
    then some ls
    else if i == 3
    then none
    else some (b'?' ∷ [])

abbrev nowhere : Redirection
nowhere = record { left = none; right = none; append = false }

redirect-Stripped_example :
    Stripped (redirect 10 0 3 array nowhere) 0 (strip (ls ∷ (b'>' ∷ []) ∷ ls ∷ []) nowhere) array
redirect-Stripped_example =
    redirect-Stripped 10 0 3 (ls ∷ (b'>' ∷ []) ∷ ls ∷ []) array nowhere (omega arith) (omega arith)
      (omega arith) (refl, (refl, (refl, refl)))
