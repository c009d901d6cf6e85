-- ===== src/Strings/Compare.antt =====
-- `strncmp`, `memcmp` and `strlen` of kernel/string.c.
use project_priv.Prelude.{
  ℕ, zero, suc, ◌+◌, ◌≤◌, ◌<◌, ◌≡◌, refl, ◌≢◌, ◌↔◌, List, [], ◌∷◌, some, ◌==◌, ne→==, if◌then◌else◌,
  arith, ℕ_discrete,
}
use project_priv.Strings.{Memory, memcmp, strncmp, strlen}

-- The `n` bytes from `a` on.
abbrev pub bytes : Memory → (a n : ℕ) → List ℕ
bytes m a zero = []
bytes m a (suc n) = m a ∷ bytes m (a + 1) n

-- The string at `a`, up to its zero, cut at `n` bytes.
abbrev pub text : Memory → (a n : ℕ) → List ℕ
text m a zero = []
text m a (suc n) = if m a == 0 then [] else m a ∷ text m (a + 1) n

pub memcmp_iff :
    (m : Memory) (s t n : ℕ)
    → ((a : ℕ) → m a < 256)
    → (memcmp m s t n ≡ 0) ↔ (bytes m s n ≡ bytes m t n)
unfolding memcmp
memcmp_iff m s t zero h = (λ e. refl, λ e. refl)
memcmp_iff m s t (suc n) h = elim (ℕ_discrete (m s) (m t)) [
  | yes e ↦
      (let (to, from) = memcmp_iff m (s + 1) (t + 1) n h in
        (λ z. ground (arith, e, to), λ z. ground (arith, e, from)))
  | no ne ↦ (λ z. absurd (ground (arith, ne, h s, h t)), λ z. absurd (ground (arith, ne)))
]

-- `strncmp` gives 0 exactly if the two strings, cut at `n` bytes, are the same.
pub strncmp_iff :
    (m : Memory) (p q n : ℕ)
    → ((a : ℕ) → m a < 256)
    → (strncmp m p q n ≡ 0) ↔ (text m p n ≡ text m q n)
unfolding strncmp
strncmp_iff m p q zero h = (λ e. refl, λ e. refl)
strncmp_iff m p q (suc n) h =
    let (to, from) = strncmp_iff m (p + 1) (q + 1) n h in
    (λ z. ground (arith, h p, h q, to), λ z. ground (arith, h p, h q, from))

-- `strlen` gives the offset of the first zero byte, for any fuel above it.
pub strlen_lem :
    (fuel k n : ℕ) (m : Memory) (s : ℕ)
    → k < fuel
    → ((i : ℕ) → n ≤ i → i < n + k → m (s + i) ≢ 0)
    → m (s + (n + k)) ≡ 0
    → strlen fuel m s n ≡ some (n + k)
unfolding strlen
strlen_lem zero k n m s h before at = elim h [ ]
strlen_lem (suc fuel) zero n m s h before at = let e : n + 0 ≡ n = omega arith in rw (rw e at at, e)
strlen_lem (suc fuel) (suc k) n m s h before at =
    let e : n + suc k ≡ n + 1 + k = omega arith in
    rw (
      ne→== (m (s + n)) 0 (before n (omega arith) (omega arith)),
      strlen_lem fuel k (n + 1) m s (omega arith) (λ i p q. before i (omega arith) (omega arith))
          (rw e at at),
      e,
    )
