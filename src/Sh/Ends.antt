-- ===== src/Sh/Ends.antt =====
-- A command line that `parsecmd` takes, and the strings that it ends in memory.
use Prim.{tt}
use mathlib.Core.Bool.{false≢true}
use project_priv.Prelude.{
  ℕ, ◌+◌, ◌*◌, ◌≤◌, ◌<◌, ◌≡◌, ◌≢◌, refl, sym, ap, ◌∙◌, subst, Bool, true, false, ◌==◌, arith,
  Bool-cases, inl, inr,
}
use project_priv.Sh.{
  Cmd, Outcome, parsed, panics, out_of_fuel, and_then, skip, nulterminate, parse_text, parsecmd,
}
use project_priv.Sh.Words.{IsToken, At, skip-At, skip-Skipped}
use project_priv.Sh.Commands.{Each, Fits, Good, Stops, and_then-Stops}
use project_priv.Sh.Parse.{parsers}
use project_priv.Sh.Memory.{Kept, nulterminate-Kept, Each-map, Ended, nulterminate-Ended}

parse_text-Stops :
    (text : ℕ → ℕ) (s len : ℕ)
    → text (s + len) ≡ 0
    → Stops (Good text s (s + len) 9) s (At text s (s + len)) (parse_text text s len)
unfolding parse_text
parse_text-Stops text s len z =
    let es = s + len in
    let (line, pipe, exec, block) = parsers text s es z (4 * len + 4) in
    and_then-Stops (Good text s es 9) (Good text s es 9) s (At text s es) _ _
      (line s (omega arith, omega arith, inl refl) (omega arith))
      λ cmd p later inside good.
        let k = skip-Skipped text es p inside.0 in
        elim (Bool-cases (skip text es p == es)) [
          | inl e ↦ rw e (omega (arith, later, k.later), skip-At text s es p inside, good)
          | inr e ↦ rw e tt
        ]

-- A string of a command: a word of the line, with a 0 behind it in memory.
pub record InMemory (text : ℕ → ℕ) (start es : ℕ) (m : ℕ → ℕ) (q eq : ℕ) : Type 0 where
  pub token : IsToken text start es q eq
  pub kept : (x : ℕ) → q ≤ x → x < eq → m x ≡ text x
  pub ended : m eq ≡ 0

-- On a line that ends in 0, the parser does not use up its fuel: it panics or gives a command.
pub parsecmd_ends :
    (text : ℕ → ℕ) (s len : ℕ) → text (s + len) ≡ 0 → parsecmd text s len ≢ out_of_fuel
unfolding parsecmd and_then
parsecmd_ends text s len z = go (parse_text text s len) (parse_text-Stops text s len z)
  where
    is_end : Outcome (Cmd × (ℕ → ℕ)) → Bool
    is_end (parsed a p) = false
    is_end panics = false
    is_end out_of_fuel = true

    go :
        (o : Outcome Cmd)
        → Stops (Good text s (s + len) 9) s (At text s (s + len)) o
        → and_then {B = Cmd × (ℕ → ℕ)} o (λ cmd p. parsed (cmd, nulterminate cmd text) p)
          ≢ out_of_fuel
    go (parsed a p) h e = false≢true (ap is_end e)
    go panics h e = false≢true (ap is_end e)
    go out_of_fuel h e = h

-- What `parsecmd` has parsed.
record Parsed (text : ℕ → ℕ) (s len : ℕ) (cmd : Cmd) (m : ℕ → ℕ) (p : ℕ) : Type 0 where
  good : Good text s (s + len) 9 cmd
  memory : m ≡ nulterminate cmd text

parsecmd-Parsed :
    (text : ℕ → ℕ) (s len : ℕ) (cmd : Cmd) (m : ℕ → ℕ) (p : ℕ)
    → text (s + len) ≡ 0
    → parsecmd text s len ≡ parsed (cmd, m) p
    → Parsed text s len cmd m p
unfolding parsecmd and_then
parsecmd-Parsed text s len cmd m p z e =
    go (parse_text text s len) (parse_text-Stops text s len z) e
  where
    command : Outcome (Cmd × (ℕ → ℕ)) → Cmd × (ℕ → ℕ)
    command (parsed a p) = a
    command panics = (cmd, m)
    command out_of_fuel = (cmd, m)

    is_parsed : Outcome (Cmd × (ℕ → ℕ)) → Bool
    is_parsed (parsed a p) = true
    is_parsed panics = false
    is_parsed out_of_fuel = false

    go :
        (o : Outcome Cmd)
        → Stops (Good text s (s + len) 9) s (At text s (s + len)) o
        → and_then {B = Cmd × (ℕ → ℕ)} o (λ cmd2 p2. parsed (cmd2, nulterminate cmd2 text) p2)
          ≡ parsed (cmd, m) p
        → Parsed text s len cmd m p
    go (parsed a q) (later, inside, good) e =
        let same : a ≡ cmd = ap (λ (o : Outcome (Cmd × (ℕ → ℕ))). (command o).0) e in
        record {
          good = subst (Good text s (s + len) 9) same good;
          memory =
              sym (ap (λ (o : Outcome (Cmd × (ℕ → ℕ))). (command o).1) e)
              ∙ ap (λ (c : Cmd). nulterminate c text) same;
        }
    go panics h e = absurd (false≢true (ap is_parsed e))
    go out_of_fuel h e = absurd h

-- Each `argv` of a command that `parsecmd` gives for a line that ends in 0 has fewer than MAXARGS arguments.
pub parsecmd-Fits :
    (text : ℕ → ℕ) (s len : ℕ) (cmd : Cmd) (m : ℕ → ℕ) (p : ℕ)
    → text (s + len) ≡ 0
    → parsecmd text s len ≡ parsed (cmd, m) p
    → Fits 9 cmd
parsecmd-Fits text s len cmd m p z e = let r = parsecmd-Parsed text s len cmd m p z e in r.good.1

-- Each string of a command that `parsecmd` gives for a line that ends in 0, argument or file name,
-- is a whole word of the line: it has no blank or symbol in it, the line begins there or one of
-- them stands before it, and the line ends or one of them follows. In the memory that `parsecmd`
-- leaves, the word still stands there, with a 0 behind it.
pub parsecmd-InMemory :
    (text : ℕ → ℕ) (s len : ℕ) (cmd : Cmd) (m : ℕ → ℕ) (p : ℕ)
    → text (s + len) ≡ 0
    → parsecmd text s len ≡ parsed (cmd, m) p
    → Each (InMemory text s (s + len) m) cmd
parsecmd-InMemory text s len cmd m p z e =
    let r = parsecmd-Parsed text s len cmd m p z e in
    let es = s + len in
    let kept : Kept text es (nulterminate cmd text) =
      nulterminate-Kept text s es cmd text r.good.0 (λ x h w. refl) in
    subst (λ (k : ℕ → ℕ). Each (InMemory text s es k) cmd) (sym r.memory)
      (Each-map (Ended (IsToken text s es) (nulterminate cmd text))
        (InMemory text s es (nulterminate cmd text)) cmd
        (λ q eq u. record {
          token = u.0;
          kept = λ x h l. kept x (omega (arith, l, u.0.inside)) (u.0.word x h l);
          ended = u.1;
        })
        (nulterminate-Ended (IsToken text s es) cmd text r.good.0))
