-- ===== src/Shell/Redirects.antt =====
-- Redirections: what the loop over the array of arguments makes of the words.
use project_priv.Prelude.{
  ℕ, zero, suc, ◌+◌, ◌-◌, ◌<◌, ◌≡◌, refl, sym, ap, ◌∙◌, List, [], ◌∷◌, Option, none, some, length,
  ◌==◌, ◌&&◌, if◌then◌else◌, true, false, lt→ltb, not_lt→ltb, Option-cases, inl, inr, arith, update,
  update_self, update_ne,
}
use project_priv.Shell.{
  Line, Arguments, Redirection, max_arguments, shift, operator, same, redirect,
}

-- The words from index `i` on, and the null pointer after them.
abbrev pub Holds : ℕ → List Line → Arguments → Type 0
Holds i [] a = a i ≡ none
Holds i (w ∷ ws) a = (a i ≡ some w) × Holds (i + 1) ws a

-- Setting an earlier argument.
Holds-update :
    (i j : ℕ) (ws : List Line) (v : Option Line) (a : Arguments)
    → j < i
    → Holds i ws a
    → Holds i ws (update a j v)
Holds-update i j [] v a p h = update_ne a j v i (omega arith) ∙ h
Holds-update i j (w ∷ ws) v a p (h, t) =
    (update_ne a j v i (omega arith) ∙ h, Holds-update (i + 1) j ws v a (omega arith) t)

shift_below : (k j i : ℕ) (a : Arguments) → i < j → shift k j a i ≡ a i
unfolding shift
shift_below zero j i a p = refl
shift_below (suc k) j i a p = elim (Option-cases (a j)) [
  | inl e ↦ rw (shift, e) refl
  | inr (w, e) ↦
      rw (shift, e)
        (shift_below k (j + 1) i (update a j (a (j + 2))) (omega arith)
          ∙ update_ne a j (a (j + 2)) i (omega arith))
]

-- The two words at `j` go, whatever the array holds past its end.
shift-Holds :
    (k j : ℕ) (x y : Line) (ws : List Line) (a : Arguments)
    → length ws < k
    → Holds j (x ∷ y ∷ ws) a
    → Holds j ws (shift k j a)
unfolding shift
shift-Holds zero j x y ws a p h = absurd (omega arith)
shift-Holds (suc k) j x y [] a p (h, (i, t)) =
    let two : j + 1 + 1 ≡ j + 2 = omega arith in
    rw (shift, h)
      (shift_below k (j + 1) j (update a j (a (j + 2))) (omega arith)
        ∙ update_self a j (a (j + 2))
        ∙ ap a (sym two)
        ∙ t)
shift-Holds (suc k) j x y (w ∷ ws) a p (h, (i, (t, u))) =
    let two : j + 1 + 1 ≡ j + 2 = omega arith in
    let a1 : Arguments = update a j (a (j + 2)) in
    rw (shift, h)
      (
        shift_below k (j + 1) j a1 (omega arith) ∙ update_self a j (a (j + 2)) ∙ ap a (sym two) ∙ t,
        shift-Holds k (j + 1) y w ws a1 (omega arith)
            (Holds-update (j + 1) j (y ∷ w ∷ ws) (a (j + 2)) a (omega arith) (i, (t, u))),
      )

-- What a word and the file after it mean: `<` gives the input, `>` the output and `>>` the output that is
-- appended to; `none` if the word is no redirection.
pub meant : (w f : Line) → Redirection → Option Redirection
meant [] f r = none
meant (c ∷ []) f r =
    if c == b'<'
    then some (record { left = some f; right = r.right; append = r.append })
    else if c == b'>'
    then some (record { left = r.left; right = some f; append = false })
    else none
meant (c ∷ d ∷ []) f r =
    if c == b'>' && d == b'>'
    then some (record { left = r.left; right = some f; append = true })
    else none
meant (c ∷ d ∷ e ∷ w) f r = none

operator-meant : (w f : Line) (r : Redirection) → operator w f r ≡ meant w f r
unfolding operator meant same
operator-meant [] f r = refl
operator-meant (c ∷ []) f r = ground arith
operator-meant (c ∷ d ∷ []) f r = ground arith
operator-meant (c ∷ d ∷ e ∷ w) f r = ground arith

-- The words without the redirections, and what these mean, from left to right, the last one of a kind
-- counting.
pub strip : List Line → Redirection → List Line × Redirection
strip [] r = ([], r)
strip (w ∷ []) r = (w ∷ [], r)
strip (w ∷ f ∷ ws) r =
    let (xs, s) = strip (f ∷ ws) r in
    elim (meant w f r) [ none ↦ (w ∷ xs, s) | some r1 ↦ strip ws r1 ]

-- The array after the loop from `i` on: `words` are there, and what was before `i` stays.
pub record Stripped (r : Option (Arguments × ℕ × Redirection)) (i : ℕ)
    (words : List Line × Redirection) (a : Arguments) : Type 0 where
  pub after : Arguments
  pub result : r ≡ some (after, i + length (words.0), words.1)
  pub kept : Holds i (words.0) after
  pub before : (m : ℕ) → m < i → after m ≡ a m

-- When the array has the words from `i` on and then the null pointer, and there is room for them,
-- the loop on the redirections ends with no null pointer read. The words without the redirections
-- stand from `i` on, followed by the null pointer, and their number is right; each `<`, `>` or `>>`
-- with a word behind it is one redirection, of the input, of the output, or of the output with
-- append, and the last one for the input and the last one for the output count, whatever the array
-- holds past its end. No earlier argument has changed.
pub redirect-Stripped :
    (k i n : ℕ) (ws : List Line) (a : Arguments) (r : Redirection)
    → length ws < k
    → length ws < max_arguments
    → n ≡ i + length ws
    → Holds i ws a
    → Stripped (redirect k i n a r) i (strip ws r) a
unfolding redirect strip
redirect-Stripped zero i n ws a r p q e h = absurd (omega arith)
redirect-Stripped (suc k) i n [] a r p q e h = record {
  after = a;
  result = rw (redirect, not_lt→ltb i n (omega (arith, e)), e) refl;
  kept = h;
  before = λ m l. refl;
}
redirect-Stripped (suc k) i n (w ∷ []) a r p q e (h, t) =
    let rest =
      redirect-Stripped k (i + 1) n [] a r (omega arith) (omega arith) (omega (arith, e)) t in
    record {
      after = rest.after;
      result =
          rw (redirect, lt→ltb i n (omega (arith, e)), h, t)
            (rest.result ∙ ap (λ m. some (rest.after, m, r)) (omega arith));
      kept = (rest.before i (omega arith) ∙ h, rest.kept);
      before = λ m l. rest.before m (omega arith);
    }
redirect-Stripped (suc k) i n (w ∷ f ∷ ws) a r p q e (h, (t, u)) =
    let room = lt→ltb i n (omega (arith, e)) in
    elim (Option-cases (meant w f r)) [
      | inl o ↦
          let rest =
            redirect-Stripped k (i + 1) n (f ∷ ws) a r (omega arith) (omega arith)
              (omega (arith, e)) (t, u) in
          let (xs, s) = strip (f ∷ ws) r in
          rw (strip, o)
            (record {
              after = rest.after;
              result =
                  rw (redirect, room, h, t, operator-meant w f r ∙ o)
                    (rest.result ∙ ap (λ m. some (rest.after, m, s)) (omega arith));
              kept = (rest.before i (omega arith) ∙ h, rest.kept);
              before = λ m l. rest.before m (omega arith);
            })
      | inr (r1, o) ↦
          let rest =
            redirect-Stripped k i (n - 2) ws (shift max_arguments i a) r1 (omega arith)
              (omega arith) (omega (arith, e))
              (shift-Holds max_arguments i w f ws a (omega arith) (h, (t, u))) in
          rw (strip, o)
            (record {
              after = rest.after;
              result = rw (redirect, room, h, t, operator-meant w f r ∙ o) rest.result;
              kept = rest.kept;
              before = λ m l. rest.before m l ∙ shift_below max_arguments i m a l;
            })
    ]
