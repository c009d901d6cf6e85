-- ===== src/Grep/Matcher.antt =====
-- `match` decides whether a pattern occurs in a text.
use project_priv.Prelude.{
  ℕ, List, [], ◌∷◌, ◌++◌, append_assoc, ◌≡◌, ◌↔◌, inl, inr, refl, sym, ap, ◌∙◌, Bool, true, false,
  ◌==◌, Bool-cases, subst,
}
use mathlib.Core.Bool.{false≢true}
use project_priv.Grep.{caret, dollar, star, at_end, matchhere, match}
use project_priv.Grep.Pattern.{
  Piece, single, starred, pieces, ends, rooted, body, Fits, AllFit, Denotes, Begins, Occurs,
}
use project_priv.Grep.Star.{
  at_end_nil, match_one_sound, match_one_complete, matchstar_sound, matchstar_complete,
  match_loop_sound, match_loop_complete,
}

Begins-none : (text : List ℕ) → Begins [] false text
unfolding Begins Denotes
Begins-none text = ([], text, refl, refl, λ e. absurd (false≢true e))

Begins-end : (text : List ℕ) → text ≡ [] → Begins [] true text
unfolding Begins Denotes
Begins-end text h = ([], text, refl, refl, λ e. h)

-- One more piece at the front of the text.
Begins-single :
    (c x : ℕ) (ps : List Piece) (e : Bool) (rest : List ℕ)
    → Fits c x
    → Begins ps e rest
    → Begins (single c ∷ ps) e (x ∷ rest)
unfolding Begins Denotes
Begins-single c x ps e rest f (w, after, split, d, last) =
    (x ∷ w, after, ap (λ (l : List ℕ). x ∷ l) split, (x, w, refl, f, d), last)

Begins-starred :
    (c : ℕ) (ps : List Piece) (e : Bool) (u v : List ℕ)
    → AllFit c u
    → Begins ps e v
    → Begins (starred c ∷ ps) e (u ++ v)
unfolding Begins Denotes
Begins-starred c ps e u v all (w, after, split, d, last) = (
  u ++ w,
  after,
  ap (λ (l : List ℕ). u ++ l) split ∙ sym (append_assoc u w after),
  (u, w, refl, all, d),
  last,
)

matchhere_sound : (re text : List ℕ) → matchhere re text ≡ true → Begins (pieces re) (ends re) text
unfolding matchhere pieces ends
matchhere_sound [] text h = Begins-none text
matchhere_sound (c ∷ []) text h = elim (Bool-cases (c == dollar)) [
  | inl e ↦
      rw (pieces, ends, e) (Begins-end text (at_end_nil text (sym (rw (matchhere, e) refl) ∙ h)))
  | inr e ↦
      let (x, rest, split, f, here) =
        match_one_sound (matchhere []) c text (sym (rw (matchhere, e) refl) ∙ h) in
      rw (pieces, ends, e, split) (Begins-single c x [] false rest f (Begins-none rest))
]
matchhere_sound (c ∷ d ∷ re) text h = elim (Bool-cases (d == star)) [
  | inl e ↦
      let (u, v, split, all, rest) =
        matchstar_sound (matchhere re) c text (sym (rw (matchhere, e) refl) ∙ h) in
      rw (pieces, ends, e, split)
        (Begins-starred c (pieces re) (ends re) u v all (matchhere_sound re v rest))
  | inr e ↦
      let (x, rest, split, f, here) =
        match_one_sound (matchhere (d ∷ re)) c text (sym (rw (matchhere, e) refl) ∙ h) in
      rw (pieces, ends, e, split)
        (Begins-single c x (pieces (d ∷ re)) (ends (d ∷ re)) rest f
          (matchhere_sound (d ∷ re) rest here))
]

-- The front piece taken off.
single-Begins :
    (c : ℕ) (ps : List Piece) (e : Bool) (text : List ℕ)
    → Begins (single c ∷ ps) e text
    → (x : ℕ) × (rest : List ℕ) × (text ≡ x ∷ rest) × Fits c x × Begins ps e rest
unfolding Begins Denotes
single-Begins c ps e text (w, after, split, (x, v, w_is, f, d), last) =
    (x, v ++ after, split ∙ ap (λ (l : List ℕ). l ++ after) w_is, f, (v, after, refl, d, last))

starred-Begins :
    (c : ℕ) (ps : List Piece) (e : Bool) (text : List ℕ)
    → Begins (starred c ∷ ps) e text
    → (u v : List ℕ) × (text ≡ u ++ v) × AllFit c u × Begins ps e v
unfolding Begins Denotes
starred-Begins c ps e text (w, after, split, (u, v, w_is, all, d), last) = (
  u,
  v ++ after,
  split ∙ ap (λ (l : List ℕ). l ++ after) w_is ∙ append_assoc u v after,
  all,
  (v, after, refl, d, last),
)

stop-Begins : (text : List ℕ) → Begins [] true text → text ≡ []
unfolding Begins Denotes
stop-Begins text (w, after, split, d, last) = split ∙ ap (λ (l : List ℕ). l ++ after) d ∙ last refl

-- A pattern whose pieces and end are known.
as_read :
    (re text : List ℕ) (ps : List Piece) (e : Bool)
    → pieces re ≡ ps
    → ends re ≡ e
    → Begins (pieces re) (ends re) text
    → Begins ps e text
as_read re text ps e p q b =
    subst (λ (z : Bool). Begins ps z text) q
      (subst (λ (z : List Piece). Begins z (ends re) text) p b)

matchhere_complete :
    (re text : List ℕ) → Begins (pieces re) (ends re) text → matchhere re text ≡ true
unfolding matchhere pieces ends at_end
matchhere_complete [] text b = refl
matchhere_complete (c ∷ []) text b = elim (Bool-cases (c == dollar)) [
  | inl e ↦
      let stop = stop-Begins text (as_read (c ∷ []) text [] true (rw (pieces, e) refl) e b) in
      rw (matchhere, e) (ap at_end stop)
  | inr e ↦
      let (x, rest, split, f, more) =
        single-Begins c [] false text
          (as_read (c ∷ []) text (single c ∷ []) false (rw (pieces, e) refl) e b) in
      rw (matchhere, e, split) (match_one_complete (matchhere []) c x rest f refl)
]
matchhere_complete (c ∷ d ∷ re) text b = elim (Bool-cases (d == star)) [
  | inl e ↦
      let (u, v, split, all, more) = starred-Begins c (pieces re) (ends re) text (
        as_read (c ∷ d ∷ re) text (starred c ∷ pieces re) (ends re) (rw (pieces, e) refl)
          (rw (ends, e) refl) b) in
      rw (matchhere, e, split)
        (matchstar_complete (matchhere re) c u v all (matchhere_complete re v more))
  | inr e ↦
      let (x, rest, split, f, more) = single-Begins c (pieces (d ∷ re)) (ends (d ∷ re)) text (
        as_read (c ∷ d ∷ re) text (single c ∷ pieces (d ∷ re)) (ends (d ∷ re)) (rw (pieces, e) refl)
          (rw (ends, e) refl) b) in
      rw (matchhere, e, split)
        (match_one_complete (matchhere (d ∷ re)) c x rest f (matchhere_complete (d ∷ re) rest more))
]

match_sound : (re text : List ℕ) → match re text ≡ true → Occurs re text
unfolding match rooted body Occurs
match_sound [] text h =
    let (before, rest, split, found) = match_loop_sound (matchhere []) text h in
    (before, rest, split, (λ e. absurd (false≢true e)), matchhere_sound [] rest found)
match_sound (c ∷ re) text h = elim (Bool-cases (c == caret)) [
  | inl e ↦
      rw (body, e)
        ([], text, refl, (λ q. refl), matchhere_sound re text (sym (rw (match, e) refl) ∙ h))
  | inr e ↦
      let (before, rest, split, found) =
        match_loop_sound (matchhere (c ∷ re)) text (sym (rw (match, e) refl) ∙ h) in
      rw (body, e)
        (before, rest, split, (λ q. absurd (false≢true q)), matchhere_sound (c ∷ re) rest found)
]

body_at :
    (re : List ℕ) (p : List ℕ) (text : List ℕ)
    → body re ≡ p
    → Begins (pieces (body re)) (ends (body re)) text
    → Begins (pieces p) (ends p) text
body_at re p text q b = subst (λ (z : List ℕ). Begins (pieces z) (ends z) text) q b

match_complete : (re text : List ℕ) → Occurs re text → match re text ≡ true
unfolding match rooted body Occurs
match_complete [] text (before, rest, split, root, b) =
    rw split (match_loop_complete (matchhere []) before rest (matchhere_complete [] rest b))
match_complete (c ∷ re) text (before, rest, split, root, b) = elim (Bool-cases (c == caret)) [
  | inl e ↦
      let here : text ≡ rest = split ∙ ap (λ (l : List ℕ). l ++ rest) (root e) in
      rw (match, e, here)
        (matchhere_complete re rest (body_at (c ∷ re) re rest (rw (body, e) refl) b))
  | inr e ↦
      rw (match, e, split)
        (match_loop_complete (matchhere (c ∷ re)) before rest
          (matchhere_complete (c ∷ re) rest (body_at (c ∷ re) (c ∷ re) rest (rw (body, e) refl) b)))
]

-- `match` returns true just when the text has in it a string that the pattern describes: at the text's
-- start if the pattern begins with `^`, and at its end if the pattern ends with `$`.
pub match_iff : (re text : List ℕ) → (match re text ≡ true) ↔ Occurs re text
match_iff re text = (match_sound re text, match_complete re text)
