-- ===== src/Shell/Words.antt =====
-- The words of a command.
use project_priv.Prelude.{
  ℕ, zero, suc, ◌≡◌, ◌≢◌, refl, sym, ap, ◌∙◌, List, [], ◌∷◌, ◌++◌, take, ne→==,
}
use project_priv.Shell.{Line, skip_blanks, next_word, tokens}

abbrev pub NoBlank : Line → Type 0
NoBlank [] = Unit {0}
NoBlank (x ∷ xs) = (x ≢ b' ') × (x ≢ 9) × NoBlank xs

abbrev pub IsWord : Line → Type 0
IsWord [] = ⊥
IsWord (x ∷ xs) = NoBlank (x ∷ xs)

abbrev pub AllWords : List Line → Type 0
AllWords [] = Unit {0}
AllWords (w ∷ ws) = IsWord w × AllWords ws

-- The words with a space between each two.
abbrev pub joined : List Line → Line
joined [] = []
joined (w ∷ []) = w
joined (w ∷ v ∷ ws) = w ++ b' ' ∷ joined (v ∷ ws)

next_word_space : (w rest : Line) → NoBlank w → next_word (w ++ b' ' ∷ rest) ≡ (w, rest)
unfolding next_word
next_word_space [] rest h = refl
next_word_space (x ∷ xs) rest (p, q, h) = rw (ne→== x b' ' p, next_word_space xs rest h) refl

next_word_end : (w : Line) → NoBlank w → next_word w ≡ (w, [])
unfolding next_word
next_word_end [] h = refl
next_word_end (x ∷ xs) (p, q, h) = rw (ne→== x b' ' p, next_word_end xs h) refl

skip_blanks_word : (x : ℕ) (xs : Line) → x ≢ b' ' → x ≢ 9 → skip_blanks (x ∷ xs) ≡ x ∷ xs
unfolding skip_blanks
skip_blanks_word x xs p q = rw (ne→== x b' ' p, ne→== x 9 q) refl

tokens-nil : (k : ℕ) → tokens k [] ≡ []
unfolding tokens
tokens-nil zero = refl
tokens-nil (suc k) = refl

take-nil : (k : ℕ) → take {A = Line} k [] ≡ []
take-nil zero = refl
take-nil (suc k) = refl

-- A line of words with one space between each two is split into these words, up to the number that the
-- array of arguments has room for.
pub tokens_lem : (k : ℕ) (ws : List Line) → AllWords ws → tokens k (joined ws) ≡ take k ws
unfolding tokens
tokens_lem zero ws h = refl
tokens_lem (suc k) [] h = refl
tokens_lem (suc k) ([] ∷ ws) (h, t) = absurd h
tokens_lem (suc k) ((x ∷ xs) ∷ []) ((p, q, h), t) =
    rw (tokens, skip_blanks_word x xs p q, next_word_end (x ∷ xs) (p, q, h))
      (ap (λ l. (x ∷ xs) ∷ l) (tokens-nil k ∙ sym (take-nil k)))
tokens_lem (suc k) ((x ∷ xs) ∷ v ∷ ws) ((p, q, h), t) =
    rw
      (
        tokens,
        skip_blanks_word x (xs ++ b' ' ∷ joined (v ∷ ws)) p q,
        next_word_space (x ∷ xs) (joined (v ∷ ws)) (p, q, h),
      )
      (ap (λ l. (x ∷ xs) ∷ l) (tokens_lem k (v ∷ ws) t))

-- A word with two spaces after it gives the word and an argument that is empty.
pub tokens_extra :
    (k : ℕ) (w : Line) → IsWord w → tokens (suc (suc k)) (w ++ b' ' ∷ b' ' ∷ []) ≡ w ∷ [] ∷ []
unfolding tokens skip_blanks next_word
tokens_extra k [] h = absurd h
tokens_extra k (x ∷ xs) (p, q, h) =
    rw
      (
        tokens,
        skip_blanks_word x (xs ++ b' ' ∷ b' ' ∷ []) p q,
        next_word_space (x ∷ xs) (b' ' ∷ []) (p, q, h),
      )
      (ap (λ l. (x ∷ xs) ∷ [] ∷ l) (tokens-nil k))
