-- ===== src/Prelude/Words.antt =====
-- C's `uint` arithmetic, and maps from numbers (arrays, memories, disks) with one place changed.
use Prim.Native.Nat.{ℕ, ◌+◌, ◌-◌, ◌%◌, ◌^◌}
use mathlib.Core.Path.{◌≡◌}
use mathlib.Core.Logic.{◌≢◌}
use native.Mathlib.Omega.{arith}
use project_priv.Prelude.Tests.{◌==◌, if◌then◌else◌}

abbrev pub u32 : ℕ
u32 = 2 ^ 32

-- `a + b` and `a - b` on `uint`.
abbrev pub add32 : ℕ → ℕ → ℕ
add32 a b = (a + b) % u32

abbrev pub sub32 : ℕ → ℕ → ℕ
sub32 a b = (a + u32 - b) % u32

module _ {ℓ} {A : Type ℓ} where
  -- The map `f` with `a` at `k`.
  unfoldable pub update : (ℕ → A) → ℕ → A → ℕ → A
  update f k a i = if i == k then a else f i

  pub update_self : (f : ℕ → A) (k : ℕ) (a : A) → update f k a k ≡ a
  unfolding update
  update_self f k a = ground arith

  pub update_ne : (f : ℕ → A) (k : ℕ) (a : A) (i : ℕ) → i ≢ k → update f k a i ≡ f i
  unfolding update
  update_ne f k a i h = ground arith
