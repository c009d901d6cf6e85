-- ===== src/Fs/Bytes.antt =====
-- Numbers in the bytes of a block: bits, and little-endian `ushort` and `uint`.
use Prim.Native.Nat.{bit_and, bit_or}
use project_priv.Prelude.{
  ℕ, zero, suc, ◌+◌, ◌-◌, ◌*◌, ◌/◌, ◌%◌, ◌^◌, ◌≤◌, ◌<◌, ◌≡◌, ◌≢◌, u32, ◌⊎◌, inl, inr, refl, sym, ap,
  ◌∙◌, ltb→lt, eq→==, ne→==, ℕ_discrete, Bool-cases, update_self, update_ne, Bool, true, false, not,
  ◌&&◌, ltb, ◌==◌, if◌then◌else◌, update, arith,
}

abbrev pub Bytes : Type 0
Bytes = ℕ → ℕ

-- `1 << (i % 8)`
abbrev pub mask : ℕ → ℕ
mask i = 2 ^ (i % 8)

-- Bit `i` of a bitmap.
unfoldable pub bit_of : Bytes → ℕ → Bool
bit_of d i = not (bit_and (d (i / 8)) (mask i) == 0)

-- `d[i/8] |= m`
unfoldable pub set_bit : Bytes → ℕ → Bytes
set_bit d i = update d (i / 8) (bit_or (d (i / 8)) (mask i))

-- `d[i/8] &= ~m`
unfoldable pub clear_bit : Bytes → ℕ → Bytes
clear_bit d i = update d (i / 8) (bit_and (d (i / 8)) (255 - mask i))

unfoldable pub get16 : Bytes → ℕ → ℕ
get16 d o = d o + 256 * d (o + 1)

unfoldable pub put16 : Bytes → ℕ → ℕ → Bytes
put16 d o v = update (update d o (v % 256)) (o + 1) (v / 256 % 256)

unfoldable pub get32 : Bytes → ℕ → ℕ
get32 d o = get16 d o + 65536 * get16 d (o + 2)

unfoldable pub put32 : Bytes → ℕ → ℕ → Bytes
put32 d o v = put16 (put16 d o (v % 65536)) (o + 2) (v / 65536)

-- Bits of a byte, by evaluation: whether a test is true of each number below a bound.
table : (ℕ → Bool) → ℕ → Bool
table f zero = true
table f (suc bound) = if f bound then table f bound else false

table-entry : (f : ℕ → Bool) (bound : ℕ) → table f bound ≡ true → (k : ℕ) → k < bound → f k ≡ true
unfolding table
table-entry f zero whole k inside = absurd (omega arith)
table-entry f (suc bound) whole k inside = elim (Bool-cases (f bound)) [
  | inr e ↦ absurd (ground (arith, whole, e))
  | inl e ↦ elim (ℕ_discrete k bound) [
    | yes last ↦ ap f last ∙ e
    | no before ↦ table-entry f bound (ground (arith, whole, e)) k (omega arith)
  ]
]

agree : Bool → Bool → Bool
agree true b = b
agree false b = not b

test : ℕ → ℕ → Bool
test x k = not (bit_and x (2 ^ k) == 0)

set_table : ℕ → ℕ → ℕ → Bool
set_table x k j =
    agree (test (bit_or x (2 ^ k)) j) (if j == k then true else test x j)
    && ltb (bit_or x (2 ^ k)) 256

clear_table : ℕ → ℕ → ℕ → Bool
clear_table x k j =
    agree (test (bit_and x (255 - 2 ^ k)) j) (if j == k then false else test x j)
    && ltb (bit_and x (255 - 2 ^ k)) 256

set_table_all : table (λ x. table (λ k. table (set_table x k) 8) 8) 256 ≡ true
unfolding table set_table agree test
set_table_all = refl

clear_table_all : table (λ x. table (λ k. table (clear_table x k) 8) 8) 256 ≡ true
unfolding table clear_table agree test
clear_table_all = refl

and_left : (a b : Bool) → (a && b) ≡ true → a ≡ true
and_left true b h = refl
and_left false b h = h

and_right : (a b : Bool) → (a && b) ≡ true → b ≡ true
and_right true b h = h
and_right false b h = cc

agree_eq : (a b : Bool) → agree a b ≡ true → a ≡ b
unfolding agree
agree_eq true b h = ground (arith, h)
agree_eq false b h = ground (arith, h)

set_table_at : (x k j : ℕ) → x < 256 → k < 8 → j < 8 → set_table x k j ≡ true
set_table_at x k j p q r =
    let at_byte = table-entry (λ x. table (λ k. table (set_table x k) 8) 8) 256 set_table_all x p in
    let at_bit = table-entry (λ k. table (set_table x k) 8) 8 at_byte k q in
    table-entry (set_table x k) 8 at_bit j r

clear_table_at : (x k j : ℕ) → x < 256 → k < 8 → j < 8 → clear_table x k j ≡ true
clear_table_at x k j p q r =
    let at_byte =
      table-entry (λ x. table (λ k. table (clear_table x k) 8) 8) 256 clear_table_all x p in
    let at_bit = table-entry (λ k. table (clear_table x k) 8) 8 at_byte k q in
    table-entry (clear_table x k) 8 at_bit j r

same_byte : (j i : ℕ) → j / 8 ≡ i / 8 → (j % 8 == i % 8) ≡ (j == i)
same_byte j i e = elim (ℕ_discrete j i) [
  | yes p ↦ rw p (eq→== (i % 8) (i % 8) refl ∙ sym (eq→== i i refl))
  | no n ↦ ne→== (j % 8) (i % 8) (λ q. n (omega (arith, e, q))) ∙ sym (ne→== j i n)
]

module _ (d : Bytes) (i : ℕ) (small : (o : ℕ) → d o < 256) where
  -- A change `f` of byte `i / 8` that sets bit `i % 8` to `v` and leaves the others.
  changed :
      (f : ℕ) (v : Bool)
      → ((j : ℕ) → j < 8 → test f j ≡ (if j == i % 8 then v else test (d (i / 8)) j))
      → (j : ℕ) → bit_of (update d (i / 8) f) j ≡ (if j == i then v else bit_of d j)
  unfolding bit_of test
  changed f v h j = elim (ℕ_discrete (j / 8) (i / 8)) [
    | yes e ↦
        ap (λ (x : ℕ). test x (j % 8)) (ap (update d (i / 8) f) e ∙ update_self d (i / 8) f)
        ∙ h (j % 8) (omega arith)
        ∙ ap (λ (b : Bool). if b then v else test (d (i / 8)) (j % 8)) (same_byte j i e)
        ∙ ap (λ (o : ℕ). if j == i then v else test (d o) (j % 8)) (sym e)
    | no n ↦
        ap (λ (x : ℕ). test x (j % 8)) (update_ne d (i / 8) f (j / 8) n)
        ∙ rw (ne→== j i (λ q. n (ap (λ (x : ℕ). x / 8) q))) refl
  ]

  pub bit_of-set_bit : (j : ℕ) → bit_of (set_bit d i) j ≡ (if j == i then true else bit_of d j)
  unfolding set_bit set_table
  bit_of-set_bit = changed (bit_or (d (i / 8)) (mask i)) true (λ j h.
      agree_eq _ _
        (and_left _ _ (set_table_at (d (i / 8)) (i % 8) j (small (i / 8)) (omega arith) h)))

  pub bit_of-clear_bit : (j : ℕ) → bit_of (clear_bit d i) j ≡ (if j == i then false else bit_of d j)
  unfolding clear_bit clear_table
  bit_of-clear_bit = changed (bit_and (d (i / 8)) (255 - mask i)) false (λ j h.
      agree_eq _ _
        (and_left _ _ (clear_table_at (d (i / 8)) (i % 8) j (small (i / 8)) (omega arith) h)))

  pub set_bit_small : (o : ℕ) → set_bit d i o < 256
  unfolding set_bit set_table
  set_bit_small o =
      let bound =
        and_right _ _
          (set_table_at (d (i / 8)) (i % 8) 0 (small (i / 8)) (omega arith) (omega arith)) in
      elim (ℕ_discrete o (i / 8)) [
        | yes e ↦ rw (e, update_self d (i / 8) (bit_or (d (i / 8)) (mask i))) (ltb→lt _ _ bound)
        | no n ↦ rw (update_ne d (i / 8) (bit_or (d (i / 8)) (mask i)) o n) (small o)
      ]

  pub clear_bit_small : (o : ℕ) → clear_bit d i o < 256
  unfolding clear_bit clear_table
  clear_bit_small o =
      let bound =
        and_right _ _
          (clear_table_at (d (i / 8)) (i % 8) 0 (small (i / 8)) (omega arith) (omega arith)) in
      elim (ℕ_discrete o (i / 8)) [
        | yes e ↦
            rw (e, update_self d (i / 8) (bit_and (d (i / 8)) (255 - mask i))) (ltb→lt _ _ bound)
        | no n ↦ rw (update_ne d (i / 8) (bit_and (d (i / 8)) (255 - mask i)) o n) (small o)
      ]

-- Numbers written and read again, at the same place and elsewhere.
pub get16-put16 : (d : Bytes) (o v : ℕ) → v < 65536 → get16 (put16 d o v) o ≡ v
unfolding get16 put16 update
get16-put16 d o v h = ground arith

pub put16_ne : (d : Bytes) (o v i : ℕ) → i ≢ o → i ≢ o + 1 → put16 d o v i ≡ d i
unfolding put16 update
put16_ne d o v i h k = ground arith

pub get16-put16_ne :
    (d : Bytes) (o v i : ℕ) → (i + 2 ≤ o) ⊎ (o + 2 ≤ i) → get16 (put16 d o v) i ≡ get16 d i
unfolding get16 put16 update
get16-put16_ne d o v i (inl h) = ground arith
get16-put16_ne d o v i (inr h) = ground arith

pub put16_small : (d : Bytes) (o v i : ℕ) → d i < 256 → put16 d o v i < 256
unfolding put16 update
put16_small d o v i h = ground arith

pub get32-put32 : (d : Bytes) (o v : ℕ) → v < u32 → get32 (put32 d o v) o ≡ v
unfolding get32 put32
get32-put32 d o v h =
    let low = get16-put16_ne (put16 d o (v % 65536)) (o + 2) (v / 65536) o (inl (omega arith)) in
    omega (
      arith,
      low,
      get16-put16 d o (v % 65536) (omega arith),
      get16-put16 (put16 d o (v % 65536)) (o + 2) (v / 65536) (omega arith),
    )

pub get32-put32_ne :
    (d : Bytes) (o v i : ℕ) → (i + 4 ≤ o) ⊎ (o + 4 ≤ i) → get32 (put32 d o v) i ≡ get32 d i
unfolding get32 put32
get32-put32_ne d o v i (inl h) = omega (
  arith,
  get16-put16_ne (put16 d o (v % 65536)) (o + 2) (v / 65536) i (inl (omega arith)),
  get16-put16_ne d o (v % 65536) i (inl (omega arith)),
  get16-put16_ne (put16 d o (v % 65536)) (o + 2) (v / 65536) (i + 2) (inl (omega arith)),
  get16-put16_ne d o (v % 65536) (i + 2) (inl (omega arith)),
)
get32-put32_ne d o v i (inr h) = omega (
  arith,
  get16-put16_ne (put16 d o (v % 65536)) (o + 2) (v / 65536) i (inr (omega arith)),
  get16-put16_ne d o (v % 65536) i (inr (omega arith)),
  get16-put16_ne (put16 d o (v % 65536)) (o + 2) (v / 65536) (i + 2) (inr (omega arith)),
  get16-put16_ne d o (v % 65536) (i + 2) (inr (omega arith)),
)

pub put32_small : (d : Bytes) (o v i : ℕ) → d i < 256 → put32 d o v i < 256
unfolding put32
put32_small d o v i h =
    put16_small (put16 d o (v % 65536)) (o + 2) (v / 65536) i (put16_small d o (v % 65536) i h)
