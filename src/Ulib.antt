-- ===== src/Ulib.antt =====
-- user/ulib.c: the strings of the user programs, over a memory of bytes.
-- A loop that runs to the end of a string recurses on fuel, and is `none` when that runs out.
pub mod Decimal
mod Tests
use project_priv.Prelude.{
  ℕ, zero, suc, ◌+◌, ◌-◌, ◌*◌, ◌%◌, List, [], ◌∷◌, Option, none, some, Bool, true, false, not, ◌==◌,
  ◌&&◌, ◌||◌, if◌then◌else◌, ltb, leb, update, sub32, u32,
}
use project_priv.Strings.{Memory}

pub strcpy : (fuel s t : ℕ) → Memory → Option Memory
strcpy zero s t m = none
strcpy (suc k) s t m =
    let m1 = update m s (m t) in
    let rest = strcpy k (s + 1) (t + 1) m1 in if m t == 0 then some m1 else rest

pub strcmp : (fuel : ℕ) → Memory → (p q : ℕ) → Option ℕ
strcmp zero m p q = none
strcmp (suc k) m p q =
    let rest = strcmp k m (p + 1) (q + 1) in
    if not (m p == 0) && m p == m q then rest else some (sub32 (m p) (m q))

pub strlen : (fuel : ℕ) → Memory → (s n : ℕ) → Option ℕ
strlen zero m s n = none
strlen (suc k) m s n = let rest = strlen k m s (n + 1) in if m (s + n) == 0 then some n else rest

-- The loop of `memset`, from the `i`th byte on.
pub memset_loop : (dst c k i : ℕ) → Memory → Memory
memset_loop dst c zero i m = m
memset_loop dst c (suc k) i m = memset_loop dst c k (i + 1) (update m (dst + i) (c % 256))

pub memset : (dst c n : ℕ) → Memory → Memory
memset dst c n m = memset_loop dst c n 0 m

-- The inner `none` is the null pointer.
pub strchr : (fuel : ℕ) → Memory → (s c : ℕ) → Option (Option ℕ)
strchr zero m s c = none
strchr (suc k) m s c =
    let rest = strchr k m (s + 1) c in
    if m s == 0 then some none else if m s == c then some (some s) else rest

-- The loop of `gets`, on what is left of the input: the next place, and the input after it.
pub gets_loop : (buf max k i : ℕ) → List ℕ → Memory → ℕ × List ℕ × Memory
gets_loop buf max zero i input m = (i, input, m)
gets_loop buf max (suc k) i [] m = (i, [], m)
gets_loop buf max (suc k) i (c ∷ input) m =
    let m1 = update m (buf + i) c in
    let rest = gets_loop buf max k (i + 1) input m1 in
    if ltb (i + 1) max
    then (if c == 10 || c == 13 then (i + 1, input, m1) else rest)
    else (i, c ∷ input, m)

pub gets : (buf max : ℕ) → List ℕ → Memory → List ℕ × Memory
gets buf max input m =
    let (i, left, m1) = gets_loop buf max max 0 input m in (left, update m1 (buf + i) 0)

unfoldable pub is_digit : ℕ → Bool
is_digit c = leb 48 c && leb c 57

-- The loop of `atoi`. It wraps at 32 bits, where the `int` of the source would overflow, which C leaves
-- undefined.
pub atoi_loop : (fuel : ℕ) → Memory → (s n : ℕ) → Option ℕ
atoi_loop zero m s n = none
atoi_loop (suc k) m s n =
    let rest = atoi_loop k m (s + 1) ((n * 10 + (m s - 48)) % u32) in
    if is_digit (m s) then rest else some n

pub atoi : (fuel : ℕ) → Memory → (s : ℕ) → Option ℕ
atoi fuel m s = atoi_loop fuel m s 0

pub move_up : (dst src n : ℕ) → Memory → Memory
move_up dst src zero m = m
move_up dst src (suc n) m = move_up (dst + 1) (src + 1) n (update m dst (m src))

pub move_down : (dst src n : ℕ) → Memory → Memory
move_down dst src zero m = m
move_down dst src (suc n) m = move_down dst src n (update m (dst + n) (m (src + n)))

pub memmove : (dst src n : ℕ) → Memory → Memory
memmove dst src n m = if ltb dst src then move_up dst src n m else move_down dst src n m

-- `char` is unsigned on RISC-V.
pub memcmp : Memory → (p q n : ℕ) → ℕ
memcmp m p q zero = 0
memcmp m p q (suc n) =
    let rest = memcmp m (p + 1) (q + 1) n in if m p == m q then rest else sub32 (m p) (m q)

pub memcpy : (dst src n : ℕ) → Memory → Memory
memcpy dst src n m = memmove dst src n m
