-- ===== src/Pipe/Contents.antt =====
-- The bytes in a pipe, oldest first, and its invariant.
use project_priv.Prelude.{
  ℕ, zero, suc, ◌%◌, ◌≤◌, ◌<◌, ◌≡◌, refl, ap, ap₂, ◌≢◌, List, [], ◌∷◌, ◌++◌, arith, length, update,
  update_self, update_ne, u32, add32, sub32,
}
use project_priv.Pipe.{Pipe, pipe_size, put, fresh}

-- The `n` bytes from count `r` on. A count is a `uint`, and `pipe_size` divides its range.
abbrev pub window : (ℕ → ℕ) → (r n : ℕ) → List ℕ
window buf r zero = []
window buf r (suc n) = buf (r % pipe_size) ∷ window buf (add32 r 1) n

abbrev pub level : Pipe → ℕ
level p = sub32 p.nwrite p.nread

abbrev pub contents : Pipe → List ℕ
contents p = window p.buf p.nread (level p)

pub record IsValid (p : Pipe) : Type 0 where
  pub read_small : p.nread < u32
  pub write_small : p.nwrite < u32
  pub bounded : level p ≤ pipe_size

pub fresh-IsValid : (junk : ℕ → ℕ) → IsValid (fresh junk)
unfolding fresh
fresh-IsValid junk = omega arith

length-window : (buf : ℕ → ℕ) (r n : ℕ) → length (window buf r n) ≡ n
length-window buf r zero = refl
length-window buf r (suc n) = ap suc (length-window buf (add32 r 1) n)

pub length-contents : (p : Pipe) → length (contents p) ≡ level p
length-contents p = length-window p.buf p.nread (level p)

-- A byte stored just past a window extends it.
window-update :
    (buf : ℕ → ℕ) (ch n r i : ℕ)
    → n < pipe_size
    → i ≡ add32 r n % pipe_size
    → window (update buf i ch) r (suc n) ≡ window buf r n ++ (ch ∷ [])
window-update buf ch zero r i h e = let e' : r % pipe_size ≡ i = omega arith in rw (e', update_self)
window-update buf ch (suc n) r i h e =
    ap₂ ◌∷◌ (update_ne buf i ch (r % pipe_size) (omega arith))
      (window-update buf ch n (add32 r 1) i (omega arith) (omega arith))

pub put-IsValid : (p : Pipe) (ch : ℕ) → IsValid p → level p < pipe_size → IsValid (put p ch)
unfolding put
put-IsValid p ch v h = omega arith

-- `put` appends.
pub contents-put :
    (p : Pipe) (ch : ℕ)
    → IsValid p
    → level p < pipe_size
    → contents (put p ch) ≡ contents p ++ (ch ∷ [])
unfolding put
contents-put p ch v h =
    let e : sub32 (add32 p.nwrite 1) p.nread ≡ suc (level p) = omega arith in
    rw e (window-update p.buf ch (level p) p.nread (p.nwrite % pipe_size) h (omega arith))

-- What `piperead` takes off.
abbrev pub advance : Pipe → Pipe
advance p = record p { nread = add32 p.nread 1 }

pub advance-IsValid : (p : Pipe) → IsValid p → p.nread ≢ p.nwrite → IsValid (advance p)
advance-IsValid p v h = omega arith

pub contents-advance :
    (p : Pipe)
    → IsValid p
    → p.nread ≢ p.nwrite
    → contents p ≡ p.buf (p.nread % pipe_size) ∷ contents (advance p)
contents-advance p v h = let e : level p ≡ suc (level (advance p)) = omega arith in rw e

pub contents_empty : (p : Pipe) → p.nread ≡ p.nwrite → p.nread < u32 → contents p ≡ []
contents_empty p h s = let e : level p ≡ 0 = omega arith in rw e
