-- ===== src/Shell.antt =====
-- user/my_shell.c: how `run_command` reads a command line.
-- A string is the list of its bytes before the zero. The code cuts the buffer in place by writing zeros:
-- a string that starts at a pointer is then what is read up to the zero.
pub mod Lines
pub mod Words
pub mod Redirects
mod Tests
use project_priv.Prelude.{
  ℕ, zero, suc, ◌+◌, ◌-◌, List, [], ◌∷◌, Option, none, some, Bool, true, false, ◌&&◌, ◌||◌, ltb,
  ◌==◌, if◌then◌else◌, update,
}

abbrev pub Line : Type 0
Line = List ℕ

-- `MAX`
abbrev pub max_arguments : ℕ
max_arguments = 10

-- What the scan for `|` and `;` finds, with the two sides.
pub data Cut : Type 0 where
  plain : Cut
  piped sequenced : Line → Line → Cut

abbrev pub after_byte : ℕ → Cut → Cut
after_byte x plain = plain
after_byte x (piped l r) = piped (x ∷ l) r
after_byte x (sequenced l r) = sequenced (x ∷ l) r

-- The scan, with `k = nbuf - i` rounds left.
pub cut : (k : ℕ) → Line → Cut
cut zero l = plain
cut (suc k) [] = plain
cut (suc k) (x ∷ xs) =
    let rest = cut k xs in
    if x == b'|' then piped [] xs else if x == b';' then sequenced [] xs else after_byte x rest

-- The processes of a command line: the two sides of a pipe, one command and then another, or a line
-- that is split into words.
pub data Command : Type 0 where
  simple : Line → Command
  pipeline sequence : Command → Command → Command

-- `run_command` up to the words of each command; each call has a shorter line.
pub run_command : (fuel nbuf : ℕ) → Line → Command
run_command zero nbuf l = simple l
run_command (suc k) nbuf l = elim (cut nbuf l) [
  | plain ↦ simple l
  | piped a b ↦ pipeline (run_command k nbuf a) (run_command k nbuf b)
  | sequenced a b ↦ sequence (run_command k nbuf a) (run_command k nbuf b)
]

-- `while (*pointer == ' ' || *pointer == '\t') pointer++`
pub skip_blanks : Line → Line
skip_blanks [] = []
skip_blanks (x ∷ xs) = let rest = skip_blanks xs in if x == b' ' || x == 9 then rest else x ∷ xs

-- The argument at the pointer, and the line after the byte that ends it.
pub next_word : Line → Line × Line
next_word [] = ([], [])
next_word (x ∷ xs) = let (w, rest) = next_word xs in if x == b' ' then ([], xs) else (x ∷ w, rest)

-- The loop that fills `arguments`, with `k = MAX - 1 - numargs` rounds left.
pub tokens : (k : ℕ) → Line → List Line
tokens zero l = []
tokens (suc k) [] = []
tokens (suc k) (x ∷ xs) = let (w, rest) = next_word (skip_blanks (x ∷ xs)) in w ∷ tokens k rest

-- `arguments`, with `none` for the null pointer; past the end it is not initialised.
abbrev pub Arguments : Type 0
Arguments = ℕ → Option Line

pub record Redirection : Type 0 where
  pub left : Option Line
  pub right : Option Line
  pub append : Bool

-- `strcmp(a, b) == 0`
pub same : Line → Line → Bool
same [] [] = true
same [] (y ∷ ys) = false
same (x ∷ xs) [] = false
same (x ∷ xs) (y ∷ ys) = (x == y) && same xs ys

-- `for (int j = i; arguments[j] != 0; j++) arguments[j] = arguments[j + 2]`
pub shift : (fuel j : ℕ) → Arguments → Arguments
shift zero j a = a
shift (suc k) j a = elim (a j) [ none ↦ a | some w ↦ shift k (j + 1) (update a j (a (j + 2))) ]

-- What an operator with its file does: `none` for a word that is not an operator.
pub operator : Line → Line → Redirection → Option Redirection
operator w f r =
    if same w (b'>' ∷ b'>' ∷ [])
    then some (record r { right = some f; append = true })
    else if same w (b'>' ∷ [])
    then some (record r { right = some f; append = false })
    else if same w (b'<' ∷ [])
    then some (record r { left = some f })
    else none

-- The loop on the redirections, at `i` of `n` arguments: `none` is a null pointer that is read.
pub redirect : (fuel i n : ℕ) → Arguments → Redirection → Option (Arguments × ℕ × Redirection)
redirect zero i n a r = some (a, n, r)
redirect (suc k) i n a r =
    if ltb i n
    then elim (a i) [
      | none ↦ none
      | some w ↦ elim (a (i + 1)) [
        | none ↦ redirect k (i + 1) n a r
        | some f ↦ elim (operator w f r) [
          | none ↦ redirect k (i + 1) n a r
          | some r1 ↦ redirect k i (n - 2) (shift max_arguments i a) r1
        ]
      ]
    ]
    else some (a, n, r)
