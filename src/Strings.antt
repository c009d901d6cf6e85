-- ===== src/Strings.antt =====
-- kernel/string.c over a byte memory. A pointer is an address; addresses do not wrap. An `int` result
-- is its 32-bit pattern. A loop that the C code ends by a test alone takes fuel.
pub mod Move
pub mod Compare
pub mod Copy
mod Tests
use project_priv.Prelude.{
  ℕ, zero, suc, ◌+◌, ◌-◌, ◌%◌, Option, none, some, Bool, true, false, not, ◌&&◌, ltb, ◌==◌,
  if◌then◌else◌, update, sub32,
}

-- `char` values are kept as bytes.
abbrev pub Memory : Type 0
Memory = ℕ → ℕ

-- The loop of `memset`, with `k = n - i` rounds left.
pub memset_loop : (dst c k i : ℕ) → Memory → Memory
memset_loop dst c zero i m = m
memset_loop dst c (suc k) i m = memset_loop dst c k (i + 1) (update m (dst + i) (c % 256))

pub memset : (dst c n : ℕ) → Memory → Memory
memset dst c n m = memset_loop dst c n 0 m

pub memcmp : Memory → (s1 s2 n : ℕ) → ℕ
memcmp m s1 s2 zero = 0
memcmp m s1 s2 (suc n) =
    let rest = memcmp m (s1 + 1) (s2 + 1) n in
    if not (m s1 == m s2) then sub32 (m s1) (m s2) else rest

-- `while(n-- > 0) *--d = *--s` from `s + n` and `d + n`
pub move_down : (d s n : ℕ) → Memory → Memory
move_down d s zero m = m
move_down d s (suc n) m = move_down d s n (update m (d + n) (m (s + n)))

-- `while(n-- > 0) *d++ = *s++`
pub move_up : (d s n : ℕ) → Memory → Memory
move_up d s zero m = m
move_up d s (suc n) m = move_up (d + 1) (s + 1) n (update m d (m s))

pub memmove : (dst src n : ℕ) → Memory → Memory
memmove dst src n m =
    if n == 0
    then m
    else if ltb src dst && ltb dst (src + n)
    then move_down dst src n m
    else move_up dst src n m

pub strncmp : Memory → (p q n : ℕ) → ℕ
strncmp m p q zero = 0
strncmp m p q (suc n) =
    let rest = strncmp m (p + 1) (q + 1) n in
    if not (m p == 0) && m p == m q then rest else sub32 (m p) (m q)

-- `while(n-- > 0) *s++ = 0`
pub pad : (s n : ℕ) → Memory → Memory
pad s zero m = m
pad s (suc n) m = pad (s + 1) n (update m s 0)

pub strncpy : (s t n : ℕ) → Memory → Memory
strncpy s t zero m = m
strncpy s t (suc n) m =
    let m' = update m s (m t) in
    let rest = strncpy (s + 1) (t + 1) n m' in if m t == 0 then pad (s + 1) n m' else rest

-- The loop of `safestrcpy` with `n - 1` rounds left, and the zero after it.
pub safe_loop : (s t k : ℕ) → Memory → Memory
safe_loop s t zero m = update m s 0
safe_loop s t (suc k) m =
    let m' = update m s (m t) in
    let rest = safe_loop (s + 1) (t + 1) k m' in if m t == 0 then update m' (s + 1) 0 else rest

pub safestrcpy : (s t n : ℕ) → Memory → Memory
safestrcpy s t n m = if n == 0 then m else safe_loop s t (n - 1) m

-- `none` when the fuel runs out.
pub strlen : (fuel : ℕ) → Memory → (s n : ℕ) → Option ℕ
strlen zero m s n = none
strlen (suc fuel) m s n =
    let rest = strlen fuel m s (n + 1) in if m (s + n) == 0 then some n else rest
