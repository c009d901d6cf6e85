-- ===== src/Uprintf/Decimal.antt =====
-- Decimal numbers that are printed, and read by `atoi`.
use project_priv.Prelude.{
  ℕ, zero, suc, ◌+◌, ◌-◌, ◌*◌, ◌/◌, ◌%◌, ◌^◌, ◌≤◌, ◌<◌, ◌≡◌, refl, sym, ap, ◌∙◌, subst, List, [],
  ◌∷◌, some, Bool, false, ◌&&◌, leb, length, u32, arith, Bool-cases, ℕ_discrete, eq→==, ne→==, inl,
  inr,
}
use project_priv.Strings.{Memory}
use project_priv.Ulib.{is_digit, atoi}
use project_priv.Ulib.Decimal.{value, Stand, atoi_lem}
use project_priv.Uprintf.{digit, digits_loop, printint}

-- A string in memory.
unfoldable pub Text : Memory → ℕ → List ℕ → Type 0
Text m s [] = m s ≡ 0
Text m s (c ∷ cs) = (m s ≡ c) × Text m (s + 1) cs

-- Decimal digits that make `v` of a number `n` before them.
Reads : List ℕ → (n v : ℕ) → Type 0
Reads [] n v = n ≡ v
Reads (c ∷ cs) n v = (d : ℕ) × (d < 10) × (c ≡ 48 + d) × Reads cs (n * 10 + d) v

digits_loop-Reads :
    (k x : ℕ) (buf : List ℕ) (v : ℕ) → x < k → Reads buf x v → Reads (digits_loop k x 10 buf) 0 v
unfolding digits_loop Reads
digits_loop-Reads zero x buf v h r = absurd (omega arith)
digits_loop-Reads (suc k) x buf v h r =
    let char : digit (x % 10) ≡ 48 + x % 10 = ground arith in
    let whole : x / 10 * 10 + x % 10 ≡ x = omega arith in
    let next : Reads (digit (x % 10) ∷ buf) (x / 10) v =
      (x % 10, omega arith, char, subst (λ (n : ℕ). Reads buf n v) (sym whole) r) in
    elim (ℕ_discrete (x / 10) 0) [
      | yes e ↦
          rw (digits_loop, eq→== (x / 10) 0 e)
            (subst (λ (n : ℕ). Reads (digit (x % 10) ∷ buf) n v) e next)
      | no n ↦
          rw (digits_loop, ne→== (x / 10) 0 n)
            (digits_loop-Reads k (x / 10) (digit (x % 10) ∷ buf) v (omega (arith, n)) next)
    ]

-- As the numbers that `atoi_lem` is about.
Reads-Stand :
    (cs : List ℕ) (n v s : ℕ) (m : Memory)
    → Reads cs n v
    → Text m s cs
    → (ds : List ℕ) × Stand m s ds × (value ds n ≡ v) × (length ds ≡ length cs)
unfolding Reads Text Stand value is_digit
Reads-Stand [] n v s m r t = ([], ground (arith, t), r, refl)
Reads-Stand (c ∷ cs) n v s m (d, small, e, r) (t, ts) =
    let (ds, stand, val, len) = Reads-Stand cs (n * 10 + d) v (s + 1) m r ts in
    (d ∷ ds, (small, t ∙ e, stand), val, ap suc len)

printint-unsigned : (x : ℕ) → printint x 10 false ≡ digits_loop (x + 1) x 10 []
unfolding printint
printint-unsigned x = refl

-- `atoi` of what `printint` prints for an unsigned decimal number below 2^31, which its `int`
-- holds, gives the number, with fuel for more than its characters.
pub atoi-printint :
    (x fuel s : ℕ) (m : Memory)
    → x < 2 ^ 31
    → Text m s (printint x 10 false)
    → length (printint x 10 false) < fuel
    → atoi fuel m s ≡ some x
unfolding Reads
atoi-printint x fuel s m small t h =
    let r : Reads (printint x 10 false) 0 x =
      subst (λ (cs : List ℕ). Reads cs 0 x) (sym (printint-unsigned x))
        (digits_loop-Reads (x + 1) x [] x (omega arith) refl) in
    let (ds, stand, val, len) = Reads-Stand (printint x 10 false) 0 x s m r t in
    atoi_lem fuel s m ds (omega (arith, len, h)) stand (omega (arith, val, small)) ∙ ap some val

-- 10 to the power of `n`.
power : ℕ → ℕ
power zero = 1
power (suc n) = 10 * power n

power_10 : power 10 ≡ 10000000000
unfolding power
power_10 = refl

digits_loop_short :
    (k n x : ℕ) (buf : List ℕ)
    → x < power (suc n)
    → length (digits_loop k x 10 buf) ≤ length buf + suc n
unfolding digits_loop power
digits_loop_short zero n x buf h = omega arith
digits_loop_short (suc k) zero x buf h =
    let one_digit : x / 10 ≡ 0 = omega (arith, h) in
    rw (digits_loop, eq→== (x / 10) 0 one_digit) (omega arith)
digits_loop_short (suc k) (suc n) x buf h = elim (ℕ_discrete (x / 10) 0) [
  | yes e ↦ rw (digits_loop, eq→== (x / 10) 0 e) (omega arith)
  | no d ↦
      rw (digits_loop, ne→== (x / 10) 0 d)
        (omega (arith, digits_loop_short k n (x / 10) (digit (x % 10) ∷ buf) (omega (arith, h))))
]

-- `printint` of an int in decimal, signed or not, fills at most 11 of the 16 bytes of its buffer.
printint-fits : (xx : ℕ) (sgn : Bool) → xx < u32 → length (printint xx 10 sgn) ≤ 11
unfolding printint
printint-fits xx sgn h = elim (Bool-cases (sgn && leb (u32 / 2) xx)) [
  | inl e ↦
      rw e
        (omega (arith, digits_loop_short (u32 - xx + 1) 9 (u32 - xx) [] (omega (arith, power_10))))
  | inr e ↦ rw e (omega (arith, digits_loop_short (xx + 1) 9 xx [] (omega (arith, power_10))))
]
