-- ===== src/Ulib/Decimal.antt =====
-- `atoi` reads a decimal number.
use project_priv.Prelude.{
  ℕ, zero, suc, ◌+◌, ◌-◌, ◌*◌, ◌%◌, ◌<◌, ◌≤◌, ◌≡◌, refl, List, [], ◌∷◌, some, true, false, length,
  u32, arith,
}
use project_priv.Strings.{Memory}
use project_priv.Ulib.{is_digit, atoi_loop, atoi}

-- The number that digits, the first one most significant, add to `n`.
unfoldable pub value : List ℕ → ℕ → ℕ
value [] n = n
value (d ∷ ds) n = value ds (n * 10 + d)

-- The digits stand from `s` on, and the byte after them is none.
unfoldable pub Stand : Memory → ℕ → List ℕ → Type 0
unfolding is_digit
Stand m s [] = is_digit (m s) ≡ false
Stand m s (d ∷ ds) = (d < 10) × (m s ≡ 48 + d) × Stand m (s + 1) ds

value_grows : (ds : List ℕ) (n : ℕ) → n ≤ value ds n
unfolding value
value_grows [] n = omega arith
value_grows (d ∷ ds) n = omega (arith, value_grows ds (n * 10 + d))

atoi_loop_lem :
    (k s n : ℕ) (m : Memory) (ds : List ℕ)
    → length ds < k
    → Stand m s ds
    → value ds n < u32
    → atoi_loop k m s n ≡ some (value ds n)
unfolding atoi_loop value Stand
atoi_loop_lem zero s n m ds h st b = absurd (omega arith)
atoi_loop_lem (suc k) s n m [] h st b = rw (atoi_loop, st) refl
atoi_loop_lem (suc k) s n m (d ∷ ds) h (small, e, st) b =
    let digit : is_digit (m s) ≡ true = is_digit_at (m s) d small e in
    let next : (n * 10 + (m s - 48)) % u32 ≡ n * 10 + d =
      omega (arith, e, b, value_grows ds (n * 10 + d)) in
    rw (atoi_loop, digit, next) (atoi_loop_lem k (s + 1) (n * 10 + d) m ds (omega arith) st b)
  where
    is_digit_at : (c d : ℕ) → d < 10 → c ≡ 48 + d → is_digit c ≡ true
    is_digit_at c d l e = ground (arith, l, e)

-- `atoi` at a decimal number below 2^32, with fuel for more than its digits, gives that number.
pub atoi_lem :
    (fuel s : ℕ) (m : Memory) (ds : List ℕ)
    → length ds < fuel
    → Stand m s ds
    → value ds 0 < u32
    → atoi fuel m s ≡ some (value ds 0)
unfolding atoi
atoi_lem fuel s m ds h st b = atoi_loop_lem fuel s 0 m ds h st b
