-- ===== src/Grep.antt =====
-- user/grep.c: `match` and its helpers. A string is its characters up to the terminating 0.
mod Pattern
mod Star
mod Matcher
mod Tests
use project_priv.Prelude.{ℕ, zero, suc, List, [], ◌∷◌, Bool, true, false, ◌==◌, ◌||◌, if◌then◌else◌}

abbrev pub caret : ℕ
caret = 94

abbrev pub dollar : ℕ
dollar = 36

abbrev pub dot : ℕ
dot = 46

abbrev pub star : ℕ
star = 42

-- `*text == '\0'`
pub at_end : List ℕ → Bool
at_end [] = true
at_end (x ∷ text) = false

-- One character of the text against `c`, and then the rest of the pattern, which is `here`.
pub match_one : (here : List ℕ → Bool) → ℕ → List ℕ → Bool
match_one here c [] = false
match_one here c (x ∷ text) = elim (c == dot || c == x) [ true ↦ here text | false ↦ false ]

-- `matchstar`, where `here` is `matchhere` of the rest of the pattern.
pub matchstar : (here : List ℕ → Bool) → ℕ → List ℕ → Bool
matchstar here c [] = here []
matchstar here c (x ∷ text) = elim (here (x ∷ text)) [
  | true ↦ true
  | false ↦ elim (x == c || c == dot) [ true ↦ matchstar here c text | false ↦ false ]
]

pub matchhere : List ℕ → List ℕ → Bool
matchhere [] text = true
matchhere (c ∷ []) text = elim (c == dollar) [
  | true ↦ at_end text
  | false ↦ match_one (matchhere []) c text
]
matchhere (c ∷ d ∷ re) text = elim (d == star) [
  | true ↦ matchstar (matchhere re) c text
  | false ↦ match_one (matchhere (d ∷ re)) c text
]

-- The loop of `match`.
pub match_loop : (here : List ℕ → Bool) → List ℕ → Bool
match_loop here [] = here []
match_loop here (x ∷ text) = elim (here (x ∷ text)) [ true ↦ true | false ↦ match_loop here text ]

pub match : List ℕ → List ℕ → Bool
match [] text = match_loop (matchhere []) text
match (c ∷ re) text = elim (c == caret) [
  | true ↦ matchhere re text
  | false ↦ match_loop (matchhere (c ∷ re)) text
]
