-- ===== src/Console.antt =====
-- kernel/console.c: the line discipline of the console.
-- `consputc` of kernel/uart.c is the list of what is sent to the screen. A reader runs while it holds
-- `cons.lock`, from its start or the end of a `sleep` to the next `sleep` or its return.
pub mod Lines
pub mod Keys
pub mod Reader
mod Tests
use project_priv.Prelude.{
  ℕ, zero, suc, ◌+◌, ◌-◌, ◌%◌, ◌<◌, List, [], ◌∷◌, ◌++◌, Option, none, some, Bool, true, false, not,
  ◌&&◌, ◌||◌, ltb, ◌==◌, if◌then◌else◌, update, add32, sub32,
}

abbrev pub input_buf_size : ℕ
input_buf_size = 128

-- `C(x)`: Control-x
abbrev pub ctrl : ℕ → ℕ
ctrl x = x - b'@'

abbrev pub backspace : ℕ
backspace = 0x100

abbrev pub newline : ℕ
newline = 10

-- The input ring `cons` and the screen, latest last.
pub record Console : Type 0 where
  pub buf : ℕ → ℕ
  pub r : ℕ
  pub w : ℕ
  pub e : ℕ
  pub screen : List ℕ

-- `cons.e--; consputc(BACKSPACE)`
pub erase : Console → Console
erase c = record c { e = sub32 c.e 1; screen = c.screen ++ (backspace ∷ []) }

-- The loop of Control-U, which a ring of bytes ends within `input_buf_size` rounds.
pub kill_line : (fuel : ℕ) → Console → Console
kill_line zero c = c
kill_line (suc fuel) c =
    let rest = kill_line fuel (erase c) in
    if not (c.e == c.w) && not (c.buf (sub32 c.e 1 % input_buf_size) == newline) then rest else c

-- The default case of `consoleintr`: the console and whether the readers are woken.
pub accept : ℕ → Console → Console × Bool
accept key c =
    let ch = if key == 13 then newline else key in
    let c1 = record c {
      screen = c.screen ++ (ch ∷ []);
      buf = update c.buf (c.e % input_buf_size) ch;
      e = add32 c.e 1;
    } in
    if not (key == 0) && ltb (sub32 c.e c.r) input_buf_size
    then (if (ch == newline || ch == ctrl b'D') || sub32 c1.e c1.r == input_buf_size
        then (record c1 { w = c1.e }, true)
        else (c1, false))
    else (c, false)

-- `consoleintr`; `procdump` of Control-P changes nothing here.
pub consoleintr : ℕ → Console → Console × Bool
consoleintr key c =
    if key == ctrl b'P'
    then (c, false)
    else if key == ctrl b'U'
    then (kill_line input_buf_size c, false)
    else if key == ctrl b'H' || key == 0x7f
    then ((if c.e == c.w then c else erase c), false)
    else accept key c

pub data Outcome : Type 0 where
  returns : ℕ → Outcome
  fails : Outcome
  sleeps : ℕ → Outcome

-- `consoleread` with `n` bytes to go of `target`: how it leaves the lock, the console, and the bytes
-- that reach the reader. `copyout` is whether an address of the reader can be written.
pub consoleread :
    (copyout : ℕ → Bool) (killed : Bool) (target dst n : ℕ) → Console → Outcome × Console × List ℕ
consoleread copyout killed target dst zero c = (returns target, c, [])
consoleread copyout killed target dst (suc n) c =
    let ch = c.buf (c.r % input_buf_size) in
    let c1 = record c { r = add32 c.r 1 } in
    let (o, c2, out) = consoleread copyout killed target (dst + 1) n c1 in
    if c.r == c.w
    then ((if killed then fails else sleeps (suc n)), c, [])
    else if ch == ctrl b'D'
    then (returns (target - suc n), (if ltb (suc n) target then c else c1), [])
    else if copyout dst
    then (if ch == newline then (returns (target - n), c1, ch ∷ []) else (o, c2, ch ∷ out))
    else (returns (target - suc n), c1, [])

-- `consolewrite`: the count and what is sent. `copyin` reads the writer's memory.
pub consolewrite : (copyin : ℕ → Option ℕ) (src k i : ℕ) → ℕ × List ℕ
consolewrite copyin src zero i = (i, [])
consolewrite copyin src (suc k) i = elim (copyin (src + i)) [
  | none ↦ (i, [])
  | some ch ↦ let (j, out) = consolewrite copyin src k (i + 1) in (j, ch ∷ out)
]
