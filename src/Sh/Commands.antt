-- ===== src/Sh/Commands.antt =====
-- What is said of commands and of outcomes of the parser.
use Prim.{tt}
use project_priv.Prelude.{
  ℕ, ◌+◌, ◌≤◌, List, [], ◌∷◌, ◌++◌, ◌==◌, arith, Bool-cases, inl, inr, length, length-append,
}
use project_priv.Sh.{
  Cmd, exec_cmd, redir_cmd, pipe_cmd, list_cmd, back_cmd, Outcome, parsed, panics, out_of_fuel,
  and_then, Token, redirected, add_arg,
}
use project_priv.Sh.Words.{IsToken}

abbrev pub EachArg : (P : ℕ → ℕ → Type 0) → List (ℕ × ℕ) → Type 0
EachArg P [] = Unit {0}
EachArg P ((q, eq) ∷ l) = P q eq × EachArg P l

-- `P` holds of every string of a command.
abbrev pub Each : (P : ℕ → ℕ → Type 0) → Cmd → Type 0
Each P (exec_cmd argv) = EachArg P argv
Each P (redir_cmd cmd file efile mode fd) = Each P cmd × P file efile
Each P (pipe_cmd left right) = Each P left × Each P right
Each P (list_cmd left right) = Each P left × Each P right
Each P (back_cmd cmd) = Each P cmd

-- Each `argv` has at most `n` arguments, and is followed by a null pointer within its MAXARGS places if this is less.
abbrev pub Fits : (n : ℕ) → Cmd → Type 0
Fits n (exec_cmd argv) = length argv ≤ n
Fits n (redir_cmd cmd file efile mode fd) = Fits n cmd
Fits n (pipe_cmd left right) = Fits n left × Fits n right
Fits n (list_cmd left right) = Fits n left × Fits n right
Fits n (back_cmd cmd) = Fits n cmd

abbrev pub Good : (text : ℕ → ℕ) → (start es n : ℕ) → Cmd → Type 0
Good text start es n cmd = Each (IsToken text start es) cmd × Fits n cmd

-- An outcome that stops at a place from `lo` on with something of the kind `P`, or is a panic.
abbrev pub Stops : (P : Cmd → Type 0) → (lo : ℕ) → (place : ℕ → Type 0) → Outcome Cmd → Type 0
Stops P lo place (parsed a p) = (lo ≤ p) × place p × P a
Stops P lo place panics = Unit {0}
Stops P lo place out_of_fuel = ⊥

pub Stops-from :
    (P : Cmd → Type 0) (lo lo2 : ℕ) (place : ℕ → Type 0) (o : Outcome Cmd)
    → lo ≤ lo2
    → Stops P lo2 place o
    → Stops P lo place o
Stops-from P lo lo2 place (parsed a p) h (later, inside, good) = (omega arith, inside, good)
Stops-from P lo lo2 place panics h s = tt
Stops-from P lo lo2 place out_of_fuel h s = s

pub and_then-Stops :
    (P Q : Cmd → Type 0) (lo : ℕ) (place : ℕ → Type 0) (o : Outcome Cmd) (f : Cmd → ℕ → Outcome Cmd)
    → Stops P lo place o
    → ((a : Cmd) (p : ℕ) → lo ≤ p → place p → P a → Stops Q lo place (f a p))
    → Stops Q lo place (and_then o f)
unfolding and_then
and_then-Stops P Q lo place (parsed a p) f (later, inside, good) h = h a p later inside good
and_then-Stops P Q lo place panics f s h = tt
and_then-Stops P Q lo place out_of_fuel f s h = absurd s

pub Fits-more : (n k : ℕ) (cmd : Cmd) → n ≤ k → Fits n cmd → Fits k cmd
Fits-more n k (exec_cmd argv) h f = omega (arith, f)
Fits-more n k (redir_cmd cmd file efile mode fd) h f = Fits-more n k cmd h f
Fits-more n k (pipe_cmd left right) h (f, g) = (Fits-more n k left h f, Fits-more n k right h g)
Fits-more n k (list_cmd left right) h (f, g) = (Fits-more n k left h f, Fits-more n k right h g)
Fits-more n k (back_cmd cmd) h f = Fits-more n k cmd h f

-- An argument is added to a command.
module _ (text : ℕ → ℕ) (start es q eq : ℕ) (t : IsToken text start es q eq) where
  EachArg-append :
      (l : List (ℕ × ℕ))
      → EachArg (IsToken text start es) l
      → EachArg (IsToken text start es) (l ++ ((q, eq) ∷ []))
  EachArg-append [] h = (t, tt)
  EachArg-append ((a, b) ∷ l) (h, hs) = (h, EachArg-append l hs)

  pub add_arg-Good :
      (n : ℕ) (cmd : Cmd) → Good text start es n cmd → Good text start es (n + 1) (add_arg q eq cmd)
  unfolding add_arg
  add_arg-Good n (exec_cmd argv) (s, f) =
      (EachArg-append argv s, omega (arith, f, length-append argv ((q, eq) ∷ [])))
  add_arg-Good n (redir_cmd cmd file efile mode fd) ((s, u), f) =
      let r = add_arg-Good n cmd (s, f) in ((r.0, u), r.1)
  add_arg-Good n (pipe_cmd left right) (s, f) =
      (s, Fits-more n (n + 1) (pipe_cmd left right) (omega arith) f)
  add_arg-Good n (list_cmd left right) (s, f) =
      (s, Fits-more n (n + 1) (list_cmd left right) (omega arith) f)
  add_arg-Good n (back_cmd cmd) (s, f) = (s, Fits-more n (n + 1) (back_cmd cmd) (omega arith) f)

pub redirected-Good :
    (text : ℕ → ℕ) (start es n tok : ℕ) (file : Token) (cmd : Cmd)
    → IsToken text start es file.q file.eq
    → Good text start es n cmd
    → Good text start es n (redirected tok file cmd)
redirected-Good text start es n tok file cmd t (s, f) = elim (Bool-cases (tok == 60)) [
  | inl e ↦ rw e ((s, t), f)
  | inr e ↦ elim (Bool-cases (tok == 62)) [
    | inl e2 ↦ rw (e, e2) ((s, t), f)
    | inr e2 ↦ elim (Bool-cases (tok == 43)) [
      | inl e3 ↦ rw (e, e2, e3) ((s, t), f)
      | inr e3 ↦ rw (e, e2, e3) (s, f)
    ]
  ]
]
