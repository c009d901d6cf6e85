-- ===== src/Shell/Lines.antt =====
-- The cuts of a command line at `|` and `;`.
use Prim.{tt}
use project_priv.Prelude.{
  ℕ, zero, suc, ◌<◌, ◌≤◌, ◌≡◌, ◌≢◌, refl, sym, ap, ap₂, subst, ◌∙◌, [], ◌∷◌, ◌++◌, ◌==◌, length,
  Bool-cases, inl, inr, arith,
}
use project_priv.Shell.{
  Line, Cut, plain, piped, sequenced, after_byte, cut, Command, simple, pipeline, sequence,
  run_command,
}

abbrev pub NoSeparator : Line → Type 0
NoSeparator [] = Unit {0}
NoSeparator (x ∷ xs) = (x ≢ b'|') × (x ≢ b';') × NoSeparator xs

-- What a cut of a line is.
abbrev pub Cuts : Line → Cut → Type 0
Cuts l plain = NoSeparator l
Cuts l (piped a b) =
    NoSeparator a × (l ≡ a ++ b'|' ∷ b) × (length a < length l) × (length b < length l)
Cuts l (sequenced a b) =
    NoSeparator a × (l ≡ a ++ b';' ∷ b) × (length a < length l) × (length b < length l)

Cuts-after :
    (x : ℕ) (xs : Line) (c : Cut) → x ≢ b'|' → x ≢ b';' → Cuts xs c → Cuts (x ∷ xs) (after_byte x c)
Cuts-after x xs plain p q h = (p, q, h)
Cuts-after x xs (piped a b) p q (n, e, s, t) =
    ((p, q, n), ap (λ l. x ∷ l) e, omega arith, omega arith)
Cuts-after x xs (sequenced a b) p q (n, e, s, t) =
    ((p, q, n), ap (λ l. x ∷ l) e, omega arith, omega arith)

cut-Cuts : (k : ℕ) (l : Line) → length l ≤ k → Cuts l (cut k l)
unfolding cut
cut-Cuts zero [] h = tt
cut-Cuts zero (x ∷ xs) h = absurd (omega arith)
cut-Cuts (suc k) [] h = tt
cut-Cuts (suc k) (x ∷ xs) h = elim (Bool-cases (x == b'|')) [
  | inl e ↦ rw e (tt, ap (λ y. y ∷ xs) (ground (arith, e)), omega arith, omega arith)
  | inr e ↦ elim (Bool-cases (x == b';')) [
    | inl d ↦ rw (e, d) (tt, ap (λ y. y ∷ xs) (ground (arith, d)), omega arith, omega arith)
    | inr d ↦
        rw (e, d)
          (Cuts-after x xs (cut k xs) (λ p. ground (arith, e, p)) (λ p. ground (arith, d, p))
            (cut-Cuts k xs (omega arith)))
  ]
]

-- To split on a cut and keep the equation.
data CutView (c : Cut) : Type 0 where
  plainly : c ≡ plain → CutView c
  pipes : (a b : Line) → c ≡ piped a b → CutView c
  sequences : (a b : Line) → c ≡ sequenced a b → CutView c

Cut-cases : (c : Cut) → CutView c
Cut-cases plain = plainly refl
Cut-cases (piped a b) = pipes a b refl
Cut-cases (sequenced a b) = sequences a b refl

-- A command tree written out again.
abbrev pub printed : Command → Line
printed (simple l) = l
printed (pipeline a b) = printed a ++ b'|' ∷ printed b
printed (sequence a b) = printed a ++ b';' ∷ printed b

-- Every simple command is without separators, and so is the left side of a pipe or a sequence.
abbrev pub Parsed : Command → Type 0
Parsed (simple l) = NoSeparator l
Parsed (pipeline a b) = NoSeparator (printed a) × Parsed a × Parsed b
Parsed (sequence a b) = NoSeparator (printed a) × Parsed a × Parsed b

-- A line that fits the buffer is cut, in at most as many nested calls as it has bytes and one, into
-- simple commands without `|` and `;`, of which the first one ends at the first separator of the line, and
-- which with the separators between them are the line again.
pub run_command_lem :
    (k nbuf : ℕ) (l : Line)
    → length l < k
    → length l ≤ nbuf
    → (printed (run_command k nbuf l) ≡ l) × Parsed (run_command k nbuf l)
unfolding run_command
run_command_lem zero nbuf l h b = absurd (omega arith)
run_command_lem (suc k) nbuf l h b =
    let cuts = cut-Cuts nbuf l b in
    elim (Cut-cases (cut nbuf l)) [
      | plainly e ↦ rw (run_command, e) (refl, subst (Cuts l) e cuts)
      | pipes x y e ↦
          let (n, joined, s, t) = subst (Cuts l) e cuts in
          let (p, good) = run_command_lem k nbuf x (omega arith) (omega arith) in
          let (q, also) = run_command_lem k nbuf y (omega arith) (omega arith) in
          rw (run_command, e)
            (
              ap₂ (λ (u v : Line). u ++ b'|' ∷ v) p q ∙ sym joined,
              (subst NoSeparator (sym p) n, good, also),
            )
      | sequences x y e ↦
          let (n, joined, s, t) = subst (Cuts l) e cuts in
          let (p, good) = run_command_lem k nbuf x (omega arith) (omega arith) in
          let (q, also) = run_command_lem k nbuf y (omega arith) (omega arith) in
          rw (run_command, e)
            (
              ap₂ (λ (u v : Line). u ++ b';' ∷ v) p q ∙ sym joined,
              (subst NoSeparator (sym p) n, good, also),
            )
    ]
