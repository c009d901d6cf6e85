-- ===== src/Sh/Lex.antt =====
-- Where the tokens of a line stand.
use mathlib.Core.Bool.{false≢true}
use project_priv.Prelude.{
  ℕ, ◌+◌, ◌≤◌, ◌<◌, ◌≡◌, ◌≢◌, ◌⊎◌, inl, inr, refl, sym, ap, ◌∙◌, List, [], ◌∷◌, Bool, true, false,
  arith, Bool-cases, ℕ_discrete, eq→==, ne→==,
}
use project_priv.Sh.{Token, whitespace, in_set, is_word, skip, token_at, gettoken, peek}
use project_priv.Sh.Words.{IsFresh, At, IsToken, skip-Skipped, skip-At, word_end-IsToken}

not_end : (text : ℕ → ℕ) (es s : ℕ) → text es ≡ 0 → s ≤ es → text s ≢ 0 → s < es
not_end text es s z h n = elim (ℕ_discrete s es) [
  | yes e ↦ absurd (n (ap text e ∙ z))
  | no d ↦ omega (arith, d)
]

-- A character that is none of those before the default case starts a word.
word_start :
    (c : ℕ)
    → in_set whitespace c ≡ false
    → in_set (124 ∷ 40 ∷ 41 ∷ 59 ∷ 38 ∷ 60 ∷ []) c ≡ false
    → c ≢ 62
    → is_word c ≡ true
unfolding is_word in_set
word_start c b s n = ground arith

symbol_not_word : (c : ℕ) → in_set (124 ∷ 40 ∷ 41 ∷ 59 ∷ 38 ∷ 60 ∷ []) c ≡ true → is_word c ≡ false
unfolding is_word in_set
symbol_not_word c e = ground arith

greater_not_word : (c : ℕ) → c ≡ 62 → is_word c ≡ false
unfolding is_word in_set
greater_not_word c e = rw e refl

not_letter : (c : ℕ) → in_set (124 ∷ 40 ∷ 41 ∷ 59 ∷ 38 ∷ 60 ∷ []) c ≡ true → c ≢ 97
unfolding in_set
not_letter c s e = ground arith

-- The token at `s`, which is `r.0` and ends at `r.1`.
record TokenAt (text : ℕ → ℕ) (start es s : ℕ) (r : ℕ × ℕ) : Type 0 where
  later : s ≤ r.1
  inside : r.1 ≤ es
  fresh : IsFresh text start es r.1
  moves : text s ≢ 0 → s < r.1
  word : r.0 ≡ 97 → IsToken text start es s r.1

token_at-TokenAt :
    (text : ℕ → ℕ) (start es s : ℕ)
    → text es ≡ 0
    → At text start es s
    → (s ≡ es) ⊎ (in_set whitespace (text s) ≡ false)
    → TokenAt text start es s (token_at text es s)
unfolding token_at
token_at-TokenAt text start es s z (h, l, f) stops = elim (ℕ_discrete (text s) 0) [
  | yes e ↦
      rw (token_at, eq→== (text s) 0 e)
        (record {
          later = omega arith;
          inside = h;
          fresh = f;
          moves = λ n. absurd (n e);
          word = λ q. absurd (omega (arith, q));
        })
  | no n ↦
      let below : s < es = not_end text es s z h n in
      elim (Bool-cases (in_set (124 ∷ 40 ∷ 41 ∷ 59 ∷ 38 ∷ 60 ∷ []) (text s))) [
        | inl e ↦
            rw (token_at, ne→== (text s) 0 n, e)
              (record {
                later = omega arith;
                inside = omega arith;
                fresh = inr (inr (inr (s, refl, symbol_not_word (text s) e)));
                moves = λ d. omega arith;
                word = λ q. absurd (not_letter (text s) e q);
              })
        | inr e ↦ elim (ℕ_discrete (text s) 62) [
          | no d ↦
              let starts_word : is_word (text s) ≡ true = elim stops [
                | inl q ↦ absurd (omega (arith, q, below))
                | inr q ↦ word_start (text s) q e d
              ] in
              let t = word_end-IsToken text start es s below l f starts_word in
              rw (token_at, ne→== (text s) 0 n, e, ne→== (text s) 62 d)
                (record {
                  later = omega (arith, t.nonempty);
                  inside = t.inside;
                  fresh = elim t.ends [ inl q ↦ inr (inl q) | inr q ↦ inr (inr (inl q)) ];
                  moves = λ q. t.nonempty;
                  word = λ q. t;
                })
          | yes d ↦ elim (ℕ_discrete (text (s + 1)) 62) [
            | no d2 ↦
                rw
                  (token_at, ne→== (text s) 0 n, e, eq→== (text s) 62 d, ne→== (text (s + 1)) 62 d2)
                  (record {
                    later = omega arith;
                    inside = omega arith;
                    moves = λ q. omega arith;
                    fresh = inr (inr (inr (s, refl, greater_not_word (text s) d)));
                    word = λ q. absurd (omega (arith, q));
                  })
            | yes d2 ↦
                let more : s + 1 < es =
                  not_end text es (s + 1) z (omega arith) (λ q. omega (arith, q, d2)) in
                rw
                  (token_at, ne→== (text s) 0 n, e, eq→== (text s) 62 d, eq→== (text (s + 1)) 62 d2)
                  (record {
                    later = omega arith;
                    inside = omega arith;
                    moves = λ q. omega arith;
                    fresh =
                        inr (inr (inr (s + 1, omega arith, greater_not_word (text (s + 1)) d2)));
                    word = λ q. absurd (omega (arith, q));
                  })
          ]
        ]
      ]
]

-- What `gettoken` does from `p` on.
pub record Got (text : ℕ → ℕ) (start es p : ℕ) (t : Token) : Type 0 where
  pub later : p ≤ t.ps
  pub inside : At text start es t.ps
  pub moves : text p ≢ 0 → p < t.ps
  pub word : t.ret ≡ 97 → IsToken text start es t.q t.eq

pub gettoken-Got :
    (text : ℕ → ℕ) (start es p : ℕ)
    → text es ≡ 0
    → At text start es p
    → Got text start es p (gettoken text es p)
unfolding gettoken
gettoken-Got text start es p z h =
    let s = skip-Skipped text es p h.0 in
    let at = skip-At text start es p h in
    let t = token_at-TokenAt text start es (skip text es p) z at s.stops in
    let e = skip-Skipped text es (token_at text es (skip text es p)).1 t.inside in
    record {
      later = omega (arith, s.later, t.later, e.later);
      inside =
          skip-At text start es (token_at text es (skip text es p)).1
            (t.inside, omega (arith, at.1, t.later), t.fresh);
      moves = λ n. elim (ℕ_discrete (skip text es p) p) [
        | yes q ↦
            let forward = t.moves (λ c. n (ap text (sym q) ∙ c)) in
            omega (arith, forward, q, e.later)
        | no q ↦ omega (arith, q, s.later, t.later, e.later)
      ];
      word = t.word;
    }

-- What `peek` does from `p` on.
pub record Peeked (text : ℕ → ℕ) (start es p : ℕ) (r : Bool × ℕ) : Type 0 where
  pub later : p ≤ r.1
  pub inside : At text start es r.1
  pub found : r.0 ≡ true → text r.1 ≢ 0

pub peek-Peeked :
    (text : ℕ → ℕ) (start es : ℕ) (toks : List ℕ) (p : ℕ)
    → At text start es p
    → Peeked text start es p (peek text es toks p)
unfolding peek
peek-Peeked text start es toks p h =
    let s = skip-Skipped text es p h.0 in
    record {
      later = s.later;
      inside = skip-At text start es p h;
      found = λ e z. false≢true (sym (rw (eq→== (text (skip text es p)) 0 z) refl) ∙ e);
    }
