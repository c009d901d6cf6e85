-- ===== src/Uprintf.antt =====
-- user/printf.c: how a number is printed.
-- An `int` is its 32 bits. `buf` is a list with the latest character first, which is the order in which they
-- are printed.
mod Decimal
mod Tests
use project_priv.Prelude.{
  ℕ, zero, suc, ◌+◌, ◌-◌, ◌*◌, ◌/◌, ◌%◌, List, [], ◌∷◌, Bool, true, false, ◌==◌, ◌&&◌,
  if◌then◌else◌, ltb, leb, u32,
}

-- `digits[d]`
abbrev pub digit : ℕ → ℕ
digit d = if ltb d 10 then 48 + d else 55 + d

-- The loop over the digits of `x`. Each round but the last makes it smaller, so that x + 1 rounds are enough.
unfoldable pub digits_loop : (fuel x base : ℕ) → (buf : List ℕ) → List ℕ
digits_loop zero x base buf = buf
digits_loop (suc k) x base buf =
    let buf1 = digit (x % base) ∷ buf in
    let rest = digits_loop k (x / base) base buf1 in if x / base == 0 then buf1 else rest

-- What is printed.
unfoldable pub printint : (xx base : ℕ) → (sgn : Bool) → List ℕ
printint xx base sgn =
    let neg = sgn && leb (u32 / 2) xx in
    let x = if neg then u32 - xx else xx in
    let buf = digits_loop (x + 1) x base [] in if neg then 45 ∷ buf else buf
