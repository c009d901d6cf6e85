-- ===== src/Strings/Move.antt =====
-- `memset` and `memmove` of kernel/string.c.
use project_priv.Prelude.{
  ℕ, zero, suc, ◌+◌, ◌-◌, ◌%◌, ◌≤◌, ◌<◌, ◌≡◌, ◌⊎◌, ◌&&◌, ltb, leb, ne→==, if◌then◌else◌, Bool-cases,
  inl, inr, arith, update, ℕ_discrete,
}
use project_priv.Strings.{Memory, memset_loop, memset, move_down, move_up, memmove}

memset_loop-get :
    (dst c k i : ℕ) (m : Memory) (a : ℕ)
    → memset_loop dst c k i m a ≡ (if leb (dst + i) a && ltb a (dst + i + k) then c % 256 else m a)
unfolding memset_loop update
memset_loop-get dst c zero i m a = ground arith
memset_loop-get dst c (suc k) i m a =
    ground (arith, memset_loop-get dst c k (i + 1) (update m (dst + i) (c % 256)) a)

-- `memset` sets the `n` bytes from `dst` on to the low byte of `c`, and no other.
pub memset_lem :
    (dst c n : ℕ) (m : Memory) (a : ℕ)
    → memset dst c n m a ≡ (if leb dst a && ltb a (dst + n) then c % 256 else m a)
unfolding memset
memset_lem dst c n m a = ground (arith, memset_loop-get dst c n 0 m a)

-- Downwards, a byte is read before it is overwritten if the target lies above the source.
move_down-get :
    (d s n : ℕ) (m : Memory) (a : ℕ)
    → s < d
    → move_down d s n m a ≡ (if leb d a && ltb a (d + n) then m (s + (a - d)) else m a)
unfolding move_down update
move_down-get d s zero m a h = ground arith
move_down-get d s (suc n) m a h =
    ground (arith, move_down-get d s n (update m (d + n) (m (s + n))) a)

move_up-get :
    (d s n : ℕ) (m : Memory) (a : ℕ)
    → (d ≤ s) ⊎ (s + n ≤ d)
    → move_up d s n m a ≡ (if leb d a && ltb a (d + n) then m (s + (a - d)) else m a)
unfolding move_up update
move_up-get d s zero m a h = ground arith
move_up-get d s (suc n) m a h =
    ground (arith, move_up-get (d + 1) (s + 1) n (update m d (m s)) a (omega arith))

-- `memmove` leaves at `dst` what the `n` bytes from `src` on were, however the two overlap, and changes
-- no other byte.
pub memmove_lem :
    (dst src n : ℕ) (m : Memory) (a : ℕ)
    → memmove dst src n m a ≡ (if leb dst a && ltb a (dst + n) then m (src + (a - dst)) else m a)
unfolding memmove
memmove_lem dst src n m a = elim (ℕ_discrete n 0) [
  | yes e ↦ ground arith
  | no ne ↦ elim (Bool-cases (ltb src dst && ltb dst (src + n))) [
    | inl e ↦ rw (ne→== n 0 ne, e) (move_down-get dst src n m a (ground arith))
    | inr e ↦ rw (ne→== n 0 ne, e) (move_up-get dst src n m a (ground arith))
  ]
]
