-- ===== src/Console/Lines.antt =====
-- What the keyboard may change: editing never reaches a line that readers can have.
use project_priv.Prelude.{
  ℕ, zero, suc, ◌+◌, ◌%◌, ◌≤◌, ◌<◌, ◌≡◌, refl, ap, ap₂, ◌≢◌, List, [], ◌∷◌, ◌++◌, ◌==◌, Bool-cases,
  inl, inr, arith, update, update_ne, update_self, u32, add32, sub32,
}
use project_priv.Console.{Console, input_buf_size, newline, erase, kill_line}

pub record IsValid (c : Console) : Type 0 where
  pub r_small : c.r < u32
  pub w_small : c.w < u32
  pub e_small : c.e < u32
  pub order : sub32 c.w c.r ≤ sub32 c.e c.r
  pub bounded : sub32 c.e c.r ≤ input_buf_size

-- The `n` bytes from count `r` on.
abbrev pub window : (ℕ → ℕ) → (r n : ℕ) → List ℕ
window buf r zero = []
window buf r (suc n) = buf (r % input_buf_size) ∷ window buf (add32 r 1) n

-- What readers can have, and what is still being edited.
abbrev pub committed : Console → List ℕ
committed c = window c.buf c.r (sub32 c.w c.r)

abbrev pub edited : Console → List ℕ
edited c = window c.buf c.w (sub32 c.e c.w)

pub erase-IsValid : (c : Console) → IsValid c → c.e ≢ c.w → IsValid (erase c)
unfolding erase
erase-IsValid c v h = omega arith

-- What erasing leaves alone.
pub record Erased (c d : Console) : Type 0 where
  pub valid : IsValid d
  pub buf : d.buf ≡ c.buf
  pub r : d.r ≡ c.r
  pub w : d.w ≡ c.w

Erased-of : (c d : Console) → Erased (erase c) d → Erased c d
unfolding erase
Erased-of c d x = record { valid = x.valid; buf = x.buf; r = x.r; w = x.w }

pub erase-Erased : (c : Console) → IsValid c → c.e ≢ c.w → Erased c (erase c)
unfolding erase
erase-Erased c v h = record { valid = erase-IsValid c v h; buf = refl; r = refl; w = refl }

pub kill_line-Erased : (fuel : ℕ) (c : Console) → IsValid c → Erased c (kill_line fuel c)
unfolding kill_line
kill_line-Erased zero c v = record { valid = v; buf = refl; r = refl; w = refl }
kill_line-Erased (suc fuel) c v =
    let stop : Erased c c = record { valid = v; buf = refl; r = refl; w = refl } in
    elim (Bool-cases (c.e == c.w)) [
      | inl e ↦ rw e stop
      | inr e ↦ elim (Bool-cases (c.buf (sub32 c.e 1 % input_buf_size) == newline)) [
        | inl f ↦ rw (e, f) stop
        | inr f ↦
            rw (e, f)
              (Erased-of c (kill_line fuel (erase c))
                (kill_line-Erased fuel (erase c) (erase-IsValid c v (λ p. ground (arith, e, p)))))
      ]
    ]

window-update :
    (buf : ℕ → ℕ) (ch i n r : ℕ)
    → ((k : ℕ) → k < n → add32 r k % input_buf_size ≢ i)
    → r < u32
    → window (update buf i ch) r n ≡ window buf r n
window-update buf ch i zero r h s = refl
window-update buf ch i (suc n) r h s =
    ap₂ ◌∷◌ (update_ne buf i ch (r % input_buf_size) (λ e. h 0 (omega arith) (omega arith))) (
      window-update buf ch i n (add32 r 1) (λ k p e. h (k + 1) (omega arith) (omega arith))
        (omega arith))

pub window-add :
    (buf : ℕ → ℕ) (r n m : ℕ)
    → r < u32
    → window buf r (n + m) ≡ window buf r n ++ window buf (add32 r n) m
window-add buf r zero m s =
    let e : add32 r 0 ≡ r = omega arith in let z : 0 + m ≡ m = omega arith in rw (e, z)
window-add buf r (suc n) m s =
    let e : add32 r (suc n) ≡ add32 (add32 r 1) n = omega arith in
    let z : suc n + m ≡ suc (n + m) = omega arith in
    rw (e, z)
      (ap (λ l. buf (r % input_buf_size) ∷ l) (window-add buf (add32 r 1) n m (omega arith)))

-- From the readers' first byte to the last one typed.
abbrev pub pending : Console → List ℕ
pending c = window c.buf c.r (sub32 c.e c.r)

pub pending-append : (c : Console) → IsValid c → pending c ≡ committed c ++ edited c
pending-append c v =
    let e : sub32 c.e c.r ≡ sub32 c.w c.r + sub32 c.e c.w = omega (arith, v.order) in
    let f : add32 c.r (sub32 c.w c.r) ≡ c.w = omega arith in
    rw e (rw (window-add c.buf c.r (sub32 c.w c.r) (sub32 c.e c.w) v.r_small) (rw f))

-- Typing `ch` where there is room.
pub typed :
    (c : Console) (ch : ℕ)
    → IsValid c
    → sub32 c.e c.r < input_buf_size
    → let buf = update c.buf (c.e % input_buf_size) ch in
      (window buf c.r (sub32 (add32 c.e 1) c.r) ≡ pending c ++ (ch ∷ []))
      × (window buf c.r (sub32 c.w c.r) ≡ committed c)
typed c ch v h =
    let e : sub32 (add32 c.e 1) c.r ≡ sub32 c.e c.r + 1 = omega arith in
    let f : add32 c.r (sub32 c.e c.r) ≡ c.e = omega arith in
    let apart : (k : ℕ) → k < sub32 c.e c.r → add32 c.r k % input_buf_size ≢ c.e % input_buf_size =
      λ k p q. omega arith in
    (
      rw e (
          rw (window-add (update c.buf (c.e % input_buf_size) ch) c.r (sub32 c.e c.r) 1 v.r_small) (
            rw f (
              ap₂ ◌++◌
                (window-update c.buf ch (c.e % input_buf_size) (sub32 c.e c.r) c.r apart v.r_small)
                (ap (λ x. x ∷ []) (update_self c.buf (c.e % input_buf_size) ch))))),
      window-update c.buf ch (c.e % input_buf_size) (sub32 c.w c.r) c.r
          (λ k p. apart k (omega (arith, v.order))) v.r_small,
    )
