-- ===== src/Vm/Bits.antt =====
-- `bit_or` of numbers that share no binary digit.
use Prim.Native.Nat.{bit_or, bit_or-bitwise, digits}
use project_priv.Prelude.{
  ℕ, zero, suc, ◌+◌, ◌*◌, ◌/◌, ◌%◌, ◌≤◌, ◌<◌, ◌≡◌, refl, max, arith, ◌∙◌, ap,
}

-- The digits of `a` below the `k`th are 0, and those of `b` from the `k`th on.
Apart : ℕ → ℕ → ℕ → Type 0
Apart zero a b = b ≡ 0
Apart (suc k) a b = (a % 2 ≡ 0) × Apart k (a / 2) (b / 2)

abbrev joined : ℕ → ℕ → ℕ → ℕ
joined n a b = digits (λ b. b) max n a b

joined_zero : (n a : ℕ) → a ≤ n → joined n a 0 ≡ a
joined_zero zero a h = omega (arith, h)
joined_zero (suc n) zero h = refl
joined_zero (suc n) (suc a) h = omega (arith, joined_zero n (suc a / 2) (omega arith))

disjoint_bits : (k n a b : ℕ) → a ≤ n → Apart k a b → joined n a b ≡ a + b
unfolding Apart
disjoint_bits zero n a b h e = ap (joined n a) e ∙ omega (arith, joined_zero n a h, e)
disjoint_bits (suc k) zero a b h (e, r) = omega (arith, h)
disjoint_bits (suc k) (suc n) zero b h (e, r) = omega arith
disjoint_bits (suc k) (suc n) (suc a) b h (e, r) =
    omega (arith, e, disjoint_bits k n (suc a / 2) (b / 2) (omega arith) r)

joined_one : (n a : ℕ) → a ≤ n → joined n a 1 ≡ a / 2 * 2 + 1
joined_one zero a h = omega (arith, h)
joined_one (suc n) zero h = refl
joined_one (suc n) (suc a) h = omega (arith, joined_zero n (suc a / 2) (omega arith))

low_Apart : (x y : ℕ) → y < 1024 → Apart 10 (x * 1024) y
unfolding Apart
low_Apart x y h = omega arith

pub bit_or_low : (x y : ℕ) → y < 1024 → bit_or (x * 1024) y ≡ x * 1024 + y
bit_or_low x y h = omega (
  arith,
  bit_or-bitwise (x * 1024) y,
  disjoint_bits 10 (x * 1024) (x * 1024) y (omega arith) (low_Apart x y h),
)

pub bit_or_one : (x : ℕ) → bit_or x 1 ≡ x / 2 * 2 + 1
bit_or_one x = omega (arith, bit_or-bitwise x 1, joined_one x x (omega arith))
