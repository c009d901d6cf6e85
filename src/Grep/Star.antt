-- ===== src/Grep/Star.antt =====
-- `matchstar` tries every number of characters.
use project_priv.Prelude.{
  ℕ, List, [], ◌∷◌, ◌++◌, ◌≡◌, inl, inr, refl, sym, ap, ◌∙◌, Bool, true, false, ◌==◌, ◌||◌,
  Bool-cases, ℕ_discrete, eq→==, ne→==,
}
use mathlib.Core.Bool.{false≢true}
use project_priv.Grep.{dot, match_one, matchstar, match_loop, at_end}
use project_priv.Grep.Pattern.{Fits, AllFit}

or_true : (a b : Bool) → a ≡ true → (a || b) ≡ true
or_true true b e = refl
or_true false b e = absurd (false≢true e)

true_or : (a b : Bool) → b ≡ true → (a || b) ≡ true
true_or true b e = refl
true_or false b e = e

pub test-Fits : (c x : ℕ) → (c == dot || c == x) ≡ true → Fits c x
unfolding Fits
test-Fits c x h = elim (ℕ_discrete c dot) [
  | yes e ↦ inl e
  | no n ↦ elim (ℕ_discrete c x) [
    | yes e ↦ inr e
    | no m ↦ absurd (false≢true (sym (rw (ne→== c dot n, ne→== c x m) refl) ∙ h))
  ]
]

pub Fits-test : (c x : ℕ) → Fits c x → (c == dot || c == x) ≡ true
unfolding Fits
Fits-test c x (inl e) = or_true (c == dot) (c == x) (eq→== c dot e)
Fits-test c x (inr e) = true_or (c == dot) (c == x) (eq→== c x e)

swapped : (c x : ℕ) → (x == c || c == dot) ≡ (c == dot || c == x)
swapped c x = elim (ℕ_discrete c dot) [
  | yes e ↦
      true_or (x == c) (c == dot) (eq→== c dot e)
      ∙ sym (or_true (c == dot) (c == x) (eq→== c dot e))
  | no n ↦ elim (ℕ_discrete c x) [
    | yes e ↦
        or_true (x == c) (c == dot) (eq→== x c (sym e))
        ∙ sym (true_or (c == dot) (c == x) (eq→== c x e))
    | no m ↦ rw (ne→== c dot n, ne→== c x m, ne→== x c (λ e. m (sym e))) refl
  ]
]

pub at_end_nil : (text : List ℕ) → at_end text ≡ true → text ≡ []
unfolding at_end
at_end_nil [] h = refl
at_end_nil (x ∷ text) h = absurd (false≢true h)

pub match_one_sound :
    (here : List ℕ → Bool) (c : ℕ) (text : List ℕ)
    → match_one here c text ≡ true
    → (x : ℕ) × (rest : List ℕ) × (text ≡ x ∷ rest) × Fits c x × (here rest ≡ true)
unfolding match_one
match_one_sound here c [] h = absurd (false≢true h)
match_one_sound here c (x ∷ text) h = elim (Bool-cases (c == dot || c == x)) [
  | inl e ↦ (x, text, refl, test-Fits c x e, sym (rw (match_one, e) refl) ∙ h)
  | inr e ↦ absurd (false≢true (sym (rw (match_one, e) refl) ∙ h))
]

pub match_one_complete :
    (here : List ℕ → Bool) (c x : ℕ) (rest : List ℕ)
    → Fits c x
    → here rest ≡ true
    → match_one here c (x ∷ rest) ≡ true
unfolding match_one
match_one_complete here c x rest f h = rw (match_one, Fits-test c x f) h

pub matchstar_sound :
    (here : List ℕ → Bool) (c : ℕ) (text : List ℕ)
    → matchstar here c text ≡ true
    → (u v : List ℕ) × (text ≡ u ++ v) × AllFit c u × (here v ≡ true)
unfolding matchstar AllFit
matchstar_sound here c [] h = ([], [], refl, tt, h)
matchstar_sound here c (x ∷ text) h = elim (Bool-cases (here (x ∷ text))) [
  | inl e ↦ ([], x ∷ text, refl, tt, e)
  | inr e ↦ elim (Bool-cases (x == c || c == dot)) [
    | inr g ↦ absurd (false≢true (sym (rw (matchstar, e, g) refl) ∙ h))
    | inl g ↦
        let (u, v, split, all, rest) =
          matchstar_sound here c text (sym (rw (matchstar, e, g) refl) ∙ h) in
        (
          x ∷ u,
          v,
          ap (λ (l : List ℕ). x ∷ l) split,
          (test-Fits c x (sym (swapped c x) ∙ g), all),
          rest,
        )
  ]
]

matchstar_here :
    (here : List ℕ → Bool) (c : ℕ) (text : List ℕ) → here text ≡ true → matchstar here c text ≡ true
unfolding matchstar
matchstar_here here c [] h = h
matchstar_here here c (x ∷ text) h = rw (matchstar, h) refl

pub matchstar_complete :
    (here : List ℕ → Bool) (c : ℕ) (u v : List ℕ)
    → AllFit c u
    → here v ≡ true
    → matchstar here c (u ++ v) ≡ true
unfolding matchstar AllFit
matchstar_complete here c [] v all h = matchstar_here here c v h
matchstar_complete here c (x ∷ u) v (f, all) h = elim (Bool-cases (here (x ∷ (u ++ v)))) [
  | inl e ↦ matchstar_here here c (x ∷ (u ++ v)) e
  | inr e ↦ rw (matchstar, e, swapped c x, Fits-test c x f) (matchstar_complete here c u v all h)
]

pub match_loop_sound :
    (here : List ℕ → Bool) (text : List ℕ)
    → match_loop here text ≡ true
    → (before rest : List ℕ) × (text ≡ before ++ rest) × (here rest ≡ true)
unfolding match_loop
match_loop_sound here [] h = ([], [], refl, h)
match_loop_sound here (x ∷ text) h = elim (Bool-cases (here (x ∷ text))) [
  | inl e ↦ ([], x ∷ text, refl, e)
  | inr e ↦
      let (u, v, split, found) = match_loop_sound here text (sym (rw (match_loop, e) refl) ∙ h) in
      (x ∷ u, v, ap (λ (l : List ℕ). x ∷ l) split, found)
]

match_loop_here :
    (here : List ℕ → Bool) (text : List ℕ) → here text ≡ true → match_loop here text ≡ true
unfolding match_loop
match_loop_here here [] h = h
match_loop_here here (x ∷ text) h = rw (match_loop, h) refl

pub match_loop_complete :
    (here : List ℕ → Bool) (before rest : List ℕ)
    → here rest ≡ true
    → match_loop here (before ++ rest) ≡ true
unfolding match_loop
match_loop_complete here [] rest h = match_loop_here here rest h
match_loop_complete here (x ∷ before) rest h = elim (Bool-cases (here (x ∷ (before ++ rest)))) [
  | inl e ↦ match_loop_here here (x ∷ (before ++ rest)) e
  | inr e ↦ rw (match_loop, e) (match_loop_complete here before rest h)
]
