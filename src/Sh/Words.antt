-- ===== src/Sh/Words.antt =====
-- The words of a line, and where one may start.
use mathlib.Core.Bool.{false≢true}
use project_priv.Prelude.{
  ℕ, zero, suc, ◌+◌, ◌-◌, ◌≤◌, ◌<◌, ◌≡◌, ◌⊎◌, inl, inr, refl, sym, ap, subst, ◌∙◌, true, false,
  arith, Bool-cases, ℕ_discrete, dec_lt,
}
use project_priv.Sh.{whitespace, in_set, is_word, skip_loop, skip, word_end}

-- No word that started before `p` goes on at `p`.
abbrev pub IsFresh : (text : ℕ → ℕ) → (start es p : ℕ) → Type 0
IsFresh text start es p =
    (p ≡ start)
    ⊎ (p ≡ es)
    ⊎ (is_word (text p) ≡ false)
    ⊎ ((before : ℕ) × (before + 1 ≡ p) × (is_word (text before) ≡ false))

-- A place in the line at which the parser may be.
abbrev pub At : (text : ℕ → ℕ) → (start es p : ℕ) → Type 0
At text start es p = (p ≤ es) × (start ≤ p) × IsFresh text start es p

-- The characters from `q` to `eq` are a whole word of the line that begins at `start` and ends at `es`.
pub record IsToken (text : ℕ → ℕ) (start es q eq : ℕ) : Type 0 where
  pub within : start ≤ q
  pub starts : (q ≡ start) ⊎ ((before : ℕ) × (before + 1 ≡ q) × (is_word (text before) ≡ false))
  pub nonempty : q < eq
  pub inside : eq ≤ es
  pub word : (x : ℕ) → q ≤ x → x < eq → is_word (text x) ≡ true
  pub ends : (eq ≡ es) ⊎ (is_word (text eq) ≡ false)

-- Where `skip` stops.
pub record Skipped (text : ℕ → ℕ) (es s e : ℕ) : Type 0 where
  pub later : s ≤ e
  pub blanks :
      (e ≡ s) ⊎ ((before : ℕ) × (before + 1 ≡ e) × (in_set whitespace (text before) ≡ true))
  pub inside : e ≤ es
  pub stops : (e ≡ es) ⊎ (in_set whitespace (text e) ≡ false)

skip_loop-Skipped :
    (k : ℕ) (text : ℕ → ℕ) (es s : ℕ) → s + k ≡ es → Skipped text es s (skip_loop k text s)
unfolding skip_loop
skip_loop-Skipped zero text es s h = record {
  later = omega arith;
  blanks = inl refl;
  inside = omega arith;
  stops = inl (omega arith);
}
skip_loop-Skipped (suc k) text es s h = elim (Bool-cases (in_set whitespace (text s))) [
  | inl e ↦
      let r = skip_loop-Skipped k text es (s + 1) (omega arith) in
      rw e (record {
        later = omega (arith, r.later);
        blanks = elim r.blanks [ inl q ↦ inr (s, sym q, e) | inr (b, q, w) ↦ inr (b, q, w) ];
        inside = r.inside;
        stops = r.stops;
      })
  | inr e ↦
      rw e (record { later = omega arith; blanks = inl refl; inside = omega arith; stops = inr e })
]

pub skip-Skipped : (text : ℕ → ℕ) (es s : ℕ) → s ≤ es → Skipped text es s (skip text es s)
skip-Skipped text es s h = skip_loop-Skipped (es - s) text es s (omega arith)

blank_not_word : (c : ℕ) → in_set whitespace c ≡ true → is_word c ≡ false
unfolding is_word
blank_not_word c e = ground (arith, e)

-- `skip` stops where a word may start.
pub skip-At :
    (text : ℕ → ℕ) (start es s : ℕ) → At text start es s → At text start es (skip text es s)
skip-At text start es s (h, l, f) =
    let k = skip-Skipped text es s h in
    (
      k.inside,
      omega (arith, l, k.later),
      elim k.blanks [
        | inl e ↦ subst (λ (x : ℕ). IsFresh text start es x) (sym e) f
        | inr (b, e, w) ↦ inr (inr (inr (b, e, blank_not_word (text b) w)))
      ],
    )

word_end_lem :
    (k : ℕ) (text : ℕ → ℕ) (es s : ℕ)
    → s + k ≡ es
    → (s ≤ word_end k text s)
      × (word_end k text s ≤ es)
      × ((x : ℕ) → s ≤ x → x < word_end k text s → is_word (text x) ≡ true)
      × ((word_end k text s ≡ es) ⊎ (is_word (text (word_end k text s)) ≡ false))
unfolding word_end
word_end_lem zero text es s h =
    (omega arith, omega arith, (λ x a b. absurd (omega arith)), inl (omega arith))
word_end_lem (suc k) text es s h = elim (Bool-cases (is_word (text s))) [
  | inl e ↦
      let (later, inside, word, ends) = word_end_lem k text es (s + 1) (omega arith) in
      rw e (
        omega (arith, later),
        inside,
        (λ x a b. elim (ℕ_discrete x s) [
          | yes q ↦ ap (λ (z : ℕ). is_word (text z)) q ∙ e
          | no n ↦ word x (omega (arith, n)) b
        ]),
        ends,
      )
  | inr e ↦ rw e (omega arith, omega arith, (λ x a b. absurd (omega arith)), inr e)
]

-- A word starts here.
pub word_end-IsToken :
    (text : ℕ → ℕ) (start es s : ℕ)
    → s < es
    → start ≤ s
    → IsFresh text start es s
    → is_word (text s) ≡ true
    → IsToken text start es s (word_end (es - s) text s)
word_end-IsToken text start es s h l f e =
    let (later, inside, word, ends) = word_end_lem (es - s) text es s (omega arith) in
    record {
      within = l;
      starts = elim f [
        | inl q ↦ inl q
        | inr (inl q) ↦ absurd (omega (arith, q))
        | inr (inr (inl q)) ↦ absurd (false≢true (sym q ∙ e))
        | inr (inr (inr q)) ↦ inr q
      ];
      nonempty = elim (dec_lt s (word_end (es - s) text s)) [
        | yes l ↦ l
        | no n ↦
            let same : word_end (es - s) text s ≡ s = omega (arith, n, later) in
            elim ends [
              | inl q ↦ absurd (omega (arith, q, same))
              | inr q ↦ absurd (false≢true (sym q ∙ ap (λ (z : ℕ). is_word (text z)) same ∙ e))
            ]
      ];
      inside = inside;
      word = word;
      ends = ends;
    }
