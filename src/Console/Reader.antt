-- ===== src/Console/Reader.antt =====
-- `consoleread`: a reader takes one line.
use project_priv.Prelude.{
  ℕ, zero, suc, ◌+◌, ◌-◌, ◌%◌, ◌<◌, ◌≡◌, refl, ap, ◌≢◌, List, [], ◌∷◌, ◌++◌, Bool, true, length,
  arith, u32, add32, sub32, ne→==,
}
use project_priv.Console.{Console, input_buf_size, ctrl, newline, returns, consoleread}
use project_priv.Console.Lines.{window, committed}

-- A byte that ends no line.
abbrev pub IsPlain : ℕ → Type 0
IsPlain b = (b ≢ newline) × (b ≢ ctrl b'D')

abbrev pub AllPlain : List ℕ → Type 0
AllPlain [] = Unit
AllPlain (b ∷ bs) = IsPlain b × AllPlain bs

pub record Counts (c : Console) : Type 0 where
  pub r_small : c.r < u32
  pub w_small : c.w < u32

-- The committed bytes begin with `b`: the reader is not at the writer, and what follows is next.
first_byte :
    (buf : ℕ → ℕ) (r w b : ℕ) (bs : List ℕ) (k : ℕ)
    → r < u32
    → w < u32
    → k ≡ sub32 w r
    → window buf r k ≡ b ∷ bs
    → (r ≢ w) × (buf (r % input_buf_size) ≡ b) × (window buf (add32 r 1) (sub32 w (add32 r 1)) ≡ bs)
first_byte buf r w b bs zero hr hw e h = absurd cc
first_byte buf r w b bs (suc k) hr hw e h =
    let f : sub32 w (add32 r 1) ≡ k = omega (arith, e) in ((λ q. omega (arith, e, q)), cc, rw f cc)

-- A reader of a console whose committed bytes begin with a line, and whose memory takes every
-- byte, is given that line with its newline if it asked for as much, without sleeping, and the bytes
-- after the line stay for the next reader.
pub consoleread_line :
    (killed : Bool) (target dst n : ℕ) (c : Console) (line rest : List ℕ)
    → Counts c
    → AllPlain line
    → length line < n
    → committed c ≡ line ++ newline ∷ rest
    → let (o, d, out) = consoleread (λ a. true) killed target dst n c in
      (o ≡ returns (target - (n - (length line + 1))))
      × (out ≡ line ++ newline ∷ [])
      × (committed d ≡ rest)
unfolding consoleread
consoleread_line killed target dst zero c line rest v p h e = absurd (omega arith)
consoleread_line killed target dst (suc n) c [] rest v p h e =
    let (a, b, t) =
      first_byte c.buf c.r c.w newline rest (sub32 c.w c.r) v.r_small v.w_small refl e in
    let f : suc n - (0 + 1) ≡ n = omega arith in rw (ne→== c.r c.w a, b, f) (refl, refl, t)
consoleread_line killed target dst (suc n) c (x ∷ xs) rest v (p, q) h e =
    let (a, b, t) =
      first_byte c.buf c.r c.w x (xs ++ newline ∷ rest) (sub32 c.w c.r) v.r_small v.w_small refl
        e in
    let f : suc n - (suc (length xs) + 1) ≡ n - (length xs + 1) = omega arith in
    let (i, j, k) =
      consoleread_line killed target (dst + 1) n (record c { r = add32 c.r 1 }) xs rest
        (record { r_small = omega arith; w_small = v.w_small }) q (omega arith) t in
    rw (ne→== c.r c.w a, b, ne→== x newline (p.0), ne→== x (ctrl b'D') (p.1), f)
      (i, ap (λ l. x ∷ l) j, k)
