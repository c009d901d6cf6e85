-- ===== src/Grep/Pattern.antt =====
-- What a pattern of user/grep.c means.
use project_priv.Prelude.{ℕ, List, [], ◌∷◌, ◌++◌, ◌≡◌, ◌⊎◌, Bool, true, false, ◌==◌}
use project_priv.Grep.{caret, dollar, dot, star}

-- A character of a pattern, with or without a star after it.
pub data Piece : Type 0 where
  single : ℕ → Piece
  starred : ℕ → Piece

-- A pattern without its `^` as pieces, and whether it ends with a `$` for the end of the text.
unfoldable pub pieces : List ℕ → List Piece
pieces [] = []
pieces (c ∷ []) = elim (c == dollar) [ true ↦ [] | false ↦ single c ∷ [] ]
pieces (c ∷ d ∷ re) = elim (d == star) [
  | true ↦ starred c ∷ pieces re
  | false ↦ single c ∷ pieces (d ∷ re)
]

unfoldable pub ends : List ℕ → Bool
ends [] = false
ends (c ∷ []) = c == dollar
ends (c ∷ d ∷ re) = elim (d == star) [ true ↦ ends re | false ↦ ends (d ∷ re) ]

unfoldable pub rooted : List ℕ → Bool
rooted [] = false
rooted (c ∷ re) = c == caret

unfoldable pub body : List ℕ → List ℕ
body [] = []
body (c ∷ re) = elim (c == caret) [ true ↦ re | false ↦ c ∷ re ]

unfoldable pub Fits : ℕ → ℕ → Type 0
Fits c x = (c ≡ dot) ⊎ (c ≡ x)

unfoldable pub AllFit : ℕ → List ℕ → Type 0
AllFit c [] = Unit
AllFit c (x ∷ text) = Fits c x × AllFit c text

-- A string that the pieces describe: a piece without a star is one character that fits, and one with a
-- star any number of them.
unfoldable pub Denotes : List Piece → List ℕ → Type 0
Denotes [] w = w ≡ []
Denotes (single c ∷ ps) w = (x : ℕ) × (v : List ℕ) × (w ≡ x ∷ v) × Fits c x × Denotes ps v
Denotes (starred c ∷ ps) w = (u v : List ℕ) × (w ≡ u ++ v) × AllFit c u × Denotes ps v

-- The text begins with such a string, and is no more than it if the pattern ends the text.
unfoldable pub Begins : List Piece → Bool → List ℕ → Type 0
Begins ps e text = (w after : List ℕ) × (text ≡ w ++ after) × Denotes ps w × (e ≡ true → after ≡ [])

-- The text has a string of the pattern in it, at its start if the pattern is rooted.
unfoldable pub Occurs : List ℕ → List ℕ → Type 0
unfolding rooted body
Occurs re text =
    (before rest : List ℕ) × (text ≡ before ++ rest)
    × (rooted re ≡ true → before ≡ [])
    × Begins (pieces (body re)) (ends (body re)) rest
