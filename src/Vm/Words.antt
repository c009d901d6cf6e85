-- ===== src/Vm/Words.antt =====
-- 64-bit words in memory, low byte first.
use project_priv.Prelude.{ℕ, ◌+◌, ◌*◌, ◌/◌, ◌%◌, ◌^◌, ◌≤◌, ◌<◌, ◌≡◌, ◌⊎◌, inl, inr, ◌∙◌, arith, u32}
use project_priv.Fs.Bytes.{get16, put16, get32, put32, put16_ne, get32-put32, get32-put32_ne}

unfoldable pub load64 : (ℕ → ℕ) → ℕ → ℕ
load64 m a = get32 m a + u32 * get32 m (a + 4)

unfoldable pub store64 : (ℕ → ℕ) → ℕ → ℕ → ℕ → ℕ
store64 m a v = put32 (put32 m a (v % u32)) (a + 4) (v / u32)

pub load64-store64 : (m : ℕ → ℕ) (a v : ℕ) → v < 2 ^ 64 → load64 (store64 m a v) a ≡ v
unfolding load64 store64
load64-store64 m a v h = omega (
  arith,
  get32-put32_ne (put32 m a (v % u32)) (a + 4) (v / u32) a (inl (omega arith)),
  get32-put32 m a (v % u32) (omega arith),
  get32-put32 (put32 m a (v % u32)) (a + 4) (v / u32) (omega arith),
)

pub load64-store64_ne :
    (m : ℕ → ℕ) (a v b : ℕ) → (b + 8 ≤ a) ⊎ (a + 8 ≤ b) → load64 (store64 m a v) b ≡ load64 m b
unfolding load64 store64
load64-store64_ne m a v b (inl h) = omega (
  arith,
  get32-put32_ne (put32 m a (v % u32)) (a + 4) (v / u32) b (inl (omega arith)),
  get32-put32_ne (put32 m a (v % u32)) (a + 4) (v / u32) (b + 4) (inl (omega arith)),
  get32-put32_ne m a (v % u32) b (inl (omega arith)),
  get32-put32_ne m a (v % u32) (b + 4) (inl (omega arith)),
)
load64-store64_ne m a v b (inr h) = omega (
  arith,
  get32-put32_ne (put32 m a (v % u32)) (a + 4) (v / u32) b (inr (omega arith)),
  get32-put32_ne (put32 m a (v % u32)) (a + 4) (v / u32) (b + 4) (inr (omega arith)),
  get32-put32_ne m a (v % u32) b (inr (omega arith)),
  get32-put32_ne m a (v % u32) (b + 4) (inr (omega arith)),
)

put32_away : (m : ℕ → ℕ) (a v b : ℕ) → (b < a) ⊎ (a + 4 ≤ b) → put32 m a v b ≡ m b
unfolding put32
put32_away m a v b (inl h) =
    put16_ne (put16 m a (v % 65536)) (a + 2) (v / 65536) b (λ e. omega (arith, e, h))
      (λ e. omega (arith, e, h))
    ∙ put16_ne m a (v % 65536) b (λ e. omega (arith, e, h)) (λ e. omega (arith, e, h))
put32_away m a v b (inr h) =
    put16_ne (put16 m a (v % 65536)) (a + 2) (v / 65536) b (λ e. omega (arith, e, h))
      (λ e. omega (arith, e, h))
    ∙ put16_ne m a (v % 65536) b (λ e. omega (arith, e, h)) (λ e. omega (arith, e, h))

-- A byte outside a stored word.
pub store64_ne : (m : ℕ → ℕ) (a v b : ℕ) → (b < a) ⊎ (a + 8 ≤ b) → store64 m a v b ≡ m b
unfolding store64
store64_ne m a v b (inl h) =
    put32_away (put32 m a (v % u32)) (a + 4) (v / u32) b (inl (omega arith))
    ∙ put32_away m a (v % u32) b (inl h)
store64_ne m a v b (inr h) =
    put32_away (put32 m a (v % u32)) (a + 4) (v / u32) b (inr (omega arith))
    ∙ put32_away m a (v % u32) b (inr (omega arith))

-- Words of two memories that agree on their bytes.
pub load64_same :
    (m k : ℕ → ℕ) (a : ℕ) → ((b : ℕ) → a ≤ b → b < a + 8 → m b ≡ k b) → load64 m a ≡ load64 k a
unfolding load64 get32 get16
load64_same m k a h = omega (
  arith,
  h a (omega arith) (omega arith),
  h (a + 1) (omega arith) (omega arith),
  h (a + 2) (omega arith) (omega arith),
  h (a + 2 + 1) (omega arith) (omega arith),
  h (a + 4) (omega arith) (omega arith),
  h (a + 4 + 1) (omega arith) (omega arith),
  h (a + 4 + 2) (omega arith) (omega arith),
  h (a + 4 + 2 + 1) (omega arith) (omega arith),
)

-- A word all of whose bytes are 0.
pub load64_zero : (m : ℕ → ℕ) (a : ℕ) → ((b : ℕ) → a ≤ b → b < a + 8 → m b ≡ 0) → load64 m a ≡ 0
unfolding load64 get32 get16
load64_zero m a h = omega (arith, load64_same m (λ b. 0) a h)
