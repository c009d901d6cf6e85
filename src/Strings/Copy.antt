-- ===== src/Strings/Copy.antt =====
-- `strncpy` and `safestrcpy` of kernel/string.c, on strings that do not overlap.
use project_priv.Prelude.{
  ℕ, zero, suc, ◌+◌, ◌-◌, ◌≤◌, ◌<◌, ◌≡◌, refl, ap, ◌∙◌, ◌⊎◌, ◌&&◌, ltb, leb, ne→==, if◌then◌else◌,
  arith, update, List, ◌∷◌, get_or, ℕ_discrete,
}
use project_priv.Strings.{Memory, pad, strncpy, safe_loop, safestrcpy}
use project_priv.Strings.Compare.{text}

pad-get :
    (s n : ℕ) (m : Memory) (a : ℕ) → pad s n m a ≡ (if leb s a && ltb a (s + n) then 0 else m a)
unfolding pad update
pad-get s zero m a = ground arith
pad-get s (suc n) m a = ground (arith, pad-get (s + 1) n (update m s 0) a)

text_congr :
    (m m' : Memory) (t n : ℕ)
    → ((a : ℕ) → t ≤ a → a < t + n → m' a ≡ m a)
    → text m' t n ≡ text m t n
text_congr m m' t zero h = refl
text_congr m m' t (suc n) h = ground (
  arith,
  h t (omega arith) (omega arith),
  text_congr m m' (t + 1) n (λ a p q. h a (omega arith) (omega arith)),
)

get_or-next :
    (s a b : ℕ) (xs : List ℕ) → s < a → get_or (b ∷ xs) (a - s) 0 ≡ get_or xs (a - (s + 1)) 0
get_or-next s a b xs h = let e : a - s ≡ suc (a - (s + 1)) = omega arith in rw e

-- `strncpy` leaves in the `n` bytes at `s` the string at `t`, cut at `n` bytes, and zeros after it, and
-- changes no other byte, if the two ranges are apart.
pub strncpy_lem :
    (s t n : ℕ) (m : Memory) (a : ℕ)
    → (t + n ≤ s) ⊎ (s + n ≤ t)
    → strncpy s t n m a ≡ (if leb s a && ltb a (s + n) then get_or (text m t n) (a - s) 0 else m a)
unfolding strncpy update
strncpy_lem s t zero m a h = ground arith
strncpy_lem s t (suc n) m a h = elim (ℕ_discrete (m t) 0) [
  | yes e ↦ ground (arith, e, pad-get (s + 1) n (update m s (m t)) a)
  | no ne ↦
      (let same : text (update m s (m t)) (t + 1) n ≡ text m (t + 1) n =
          text_congr m (update m s (m t)) (t + 1) n (λ b p q. ground arith) in
        let rest = rw same at (strncpy_lem (s + 1) (t + 1) n (update m s (m t)) a (omega arith)) in
        elim (ℕ_discrete a s) [
          | yes here ↦ (let e : a - s ≡ 0 = omega arith in ground (arith, e, rest))
          | no away ↦ ground (arith, rest, get_or-next s a (m t) (text m (t + 1) n))
        ])
]

safe_loop_below : (s t k : ℕ) (m : Memory) (a : ℕ) → a < s → safe_loop s t k m a ≡ m a
unfolding safe_loop update
safe_loop_below s t zero m a h = ground arith
safe_loop_below s t (suc k) m a h =
    ground (arith, safe_loop_below (s + 1) (t + 1) k (update m s (m t)) a)

safe_loop-text :
    (s t k : ℕ) (m : Memory)
    → (t + k ≤ s) ⊎ (s + k < t)
    → text (safe_loop s t k m) s (suc k) ≡ text m t k
unfolding safe_loop update
safe_loop-text s t zero m h = ground arith
safe_loop-text s t (suc k) m h = elim (ℕ_discrete (m t) 0) [
  | yes e ↦ ground (arith, e)
  | no ne ↦
      (let same : text (update m s (m t)) (t + 1) k ≡ text m (t + 1) k =
          text_congr m (update m s (m t)) (t + 1) k (λ b p q. ground arith) in
        let rest = rw same at (safe_loop-text (s + 1) (t + 1) k (update m s (m t)) (omega arith)) in
        let kept = safe_loop_below (s + 1) (t + 1) k (update m s (m t)) s (omega arith) in
        ground (arith, rest, kept))
]

safestrcpy-suc : (s t k : ℕ) (m : Memory) → safestrcpy s t (suc k) m ≡ safe_loop s t k m
unfolding safestrcpy
safestrcpy-suc s t k m =
    let e : suc k - 1 ≡ k = omega arith in rw (ne→== (suc k) 0 (omega arith), e)

-- `safestrcpy` leaves at `s` a string of at most `n - 1` bytes, the string at `t` cut there, if the two
-- ranges are apart.
pub safestrcpy_lem :
    (s t n : ℕ) (m : Memory)
    → 0 < n
    → (t + n ≤ s) ⊎ (s + n ≤ t)
    → text (safestrcpy s t n m) s n ≡ text m t (n - 1)
safestrcpy_lem s t zero m h apart = elim h [ ]
safestrcpy_lem s t (suc k) m h apart =
    ap (λ m'. text m' s (suc k)) (safestrcpy-suc s t k m)
    ∙ safe_loop-text s t k m (omega arith)
    ∙ (let e : k ≡ suc k - 1 = omega arith in ap (text m t) e)
