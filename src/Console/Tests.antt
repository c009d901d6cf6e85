-- ===== src/Console/Tests.antt =====
-- The theorems about kernel/console.c at concrete inputs.
use Prim.{tt}
use project_priv.Prelude.{ℕ, ◌≡◌, refl, [], ◌∷◌, true, false, arith, ◌==◌, if◌then◌else◌}
use project_priv.Console.{Console, newline, returns, accept, consoleintr, consoleread}
use project_priv.Console.Lines.{committed}
use project_priv.Console.Keys.{Keyed, consoleintr_lem}
use project_priv.Console.Reader.{consoleread_line}

-- "hi" and a newline in the ring.
abbrev greeting : ℕ → ℕ
greeting i = if i == 0 then b'h' else if i == 1 then b'i' else newline

-- "hi" is being edited.
abbrev editing : Console
editing = record { buf = greeting; r = 0; w = 0; e = 2; screen = [] }

-- "hi" and its newline wait for a reader.
abbrev entered : Console
entered = record { buf = greeting; r = 0; w = 3; e = 3; screen = [] }

enter_wakes : (consoleintr 13 editing).1 ≡ true
unfolding consoleintr accept
enter_wakes = refl

consoleintr_lem_example : let (d, wake) = consoleintr 13 editing in Keyed 13 editing d wake
consoleintr_lem_example = consoleintr_lem 13 editing (record {
  r_small = omega arith;
  w_small = omega arith;
  e_small = omega arith;
  order = omega arith;
  bounded = omega arith;
})

consoleread_line_example :
    let (o, d, out) = consoleread (λ a. true) false 10 0 10 entered in
    (o ≡ returns 3) × (out ≡ b'h' ∷ b'i' ∷ newline ∷ []) × (committed d ≡ [])
consoleread_line_example =
    consoleread_line false 10 0 10 entered (b'h' ∷ b'i' ∷ []) []
      (record { r_small = omega arith; w_small = omega arith })
      (
        ((λ q. omega (arith, q)), (λ q. omega (arith, q))),
        (((λ q. omega (arith, q)), (λ q. omega (arith, q))), tt),
      )
      (omega arith) refl
