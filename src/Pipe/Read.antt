-- ===== src/Pipe/Read.antt =====
-- What one run of `piperead` moves.
use project_priv.Prelude.{
  ℕ, zero, suc, ◌+◌, ◌%◌, ◌<◌, ◌≡◌, refl, ap, ◌∙◌, ◌≢◌, List, [], ◌∷◌, ◌++◌, min, Bool, ◌&&◌, ◌==◌,
  if◌then◌else◌, ℕ_discrete, Bool-cases, inl, inr, eq→==, ne→==, arith, length, take, drop,
  length-append, true, false,
}
use project_priv.Pipe.{
  Pipe, Channel, on_nwrite, Outcome, returns, fails, sleeps, pipe_size, read_loop, piperead,
}
use project_priv.Pipe.Contents.{
  IsValid, contents, level, advance, advance-IsValid, contents-advance, contents_empty,
  length-contents,
}

-- A read of up to `k` bytes from a queue: the count, the bytes that stay and the bytes delivered. A
-- byte that the caller's memory does not take is gone.
unfoldable pub receive : (copyout : ℕ → Bool) (addr k i : ℕ) → List ℕ → ℕ × List ℕ × List ℕ
receive copyout addr zero i bytes = (i, bytes, [])
receive copyout addr (suc k) i [] = (i, [], [])
receive copyout addr (suc k) i (b ∷ bytes) =
    let (j, rest, out) = receive copyout addr k (i + 1) bytes in
    if copyout (addr + i) then (j, rest, b ∷ out) else (i, bytes, [])

module _ (copyout : ℕ → Bool) (addr k i : ℕ) (p : Pipe) where
  read_loop-stop : p.nread ≡ p.nwrite → read_loop copyout addr (suc k) i p ≡ (i, p, [])
  unfolding read_loop
  read_loop-stop e = simp (eq→== p.nread p.nwrite e)

  read_loop-lose :
      p.nread ≢ p.nwrite
      → copyout (addr + i) ≡ false
      → read_loop copyout addr (suc k) i p ≡ (i, advance p, [])
  unfolding read_loop
  read_loop-lose ne e = simp (ne→== p.nread p.nwrite ne, e)

  read_loop-give :
      p.nread ≢ p.nwrite
      → copyout (addr + i) ≡ true
      → let (j, q, out) = read_loop copyout addr k (i + 1) (advance p) in
        read_loop copyout addr (suc k) i p ≡ (j, q, p.buf (p.nread % pipe_size) ∷ out)
  unfolding read_loop
  read_loop-give ne e = simp (ne→== p.nread p.nwrite ne, e)

  receive-lose :
      (b : ℕ) (bytes : List ℕ)
      → copyout (addr + i) ≡ false
      → receive copyout addr (suc k) i (b ∷ bytes) ≡ (i, bytes, [])
  unfolding receive
  receive-lose b bytes e = simp e

  receive-give :
      (b : ℕ) (bytes : List ℕ)
      → copyout (addr + i) ≡ true
      → let (j, rest, out) = receive copyout addr k (i + 1) bytes in
        receive copyout addr (suc k) i (b ∷ bytes) ≡ (j, rest, b ∷ out)
  unfolding receive
  receive-give b bytes e = simp e

-- What the copying loop leaves and delivers.
pub record Received (bytes : ℕ × List ℕ × List ℕ) (run : ℕ × Pipe × List ℕ) : Type 0 where
  pub valid : IsValid run.1
  pub count : run.0 ≡ bytes.0
  pub rest : contents run.1 ≡ bytes.1
  pub delivered : run.2 ≡ bytes.2

pub read_loop-Received :
    (copyout : ℕ → Bool) (addr k i : ℕ) (p : Pipe)
    → IsValid p
    → Received (receive copyout addr k i (contents p)) (read_loop copyout addr k i p)
read_loop-Received copyout addr zero i p v =
    unfold read_loop receive in record { valid = v; count = refl; rest = refl; delivered = refl }
read_loop-Received copyout addr (suc k) i p v = elim (ℕ_discrete p.nread p.nwrite) [
  | yes e ↦
      rw (read_loop-stop copyout addr k i p e, contents_empty p e v.read_small)
        (unfold receive in
          record {
            valid = v;
            count = refl;
            rest = contents_empty p e v.read_small;
            delivered = refl;
          })
  | no ne ↦ elim (Bool-cases (copyout (addr + i))) [
    | inl e ↦
        (let r = read_loop-Received copyout addr k (i + 1) (advance p) (advance-IsValid p v ne) in
          rw
            (
              read_loop-give copyout addr k i p ne e,
              contents-advance p v ne,
              receive-give copyout addr k i p _ _ e,
            )
            (record {
              valid = r.valid;
              count = r.count;
              rest = r.rest;
              delivered = ap (λ l. p.buf (p.nread % pipe_size) ∷ l) r.delivered;
            }))
    | inr e ↦
        rw
          (
            read_loop-lose copyout addr k i p ne e,
            contents-advance p v ne,
            receive-lose copyout addr k i p _ _ e,
          )
          (record { valid = advance-IsValid p v ne; count = refl; rest = refl; delivered = refl })
  ]
]

take_nil : (n : ℕ) → take {A = ℕ} n [] ≡ []
take_nil zero = refl
take_nil (suc n) = refl

drop_nil : (n : ℕ) → drop {A = ℕ} n [] ≡ []
drop_nil zero = refl
drop_nil (suc n) = refl

receive_all :
    (copyout : ℕ → Bool) (addr k i : ℕ) (bytes : List ℕ)
    → ((a : ℕ) → copyout a ≡ true)
    → receive copyout addr k i bytes ≡ (i + min k (length bytes), drop k bytes, take k bytes)
unfolding receive
receive_all copyout addr zero i bytes h = ground arith
receive_all copyout addr (suc k) i [] h = ground arith
receive_all copyout addr (suc k) i (b ∷ bytes) h =
    ground (arith, h (addr + i), receive_all copyout addr k (i + 1) bytes h)

receive_fault :
    (copyout : ℕ → Bool) (addr k i : ℕ) (xs : List ℕ) (b : ℕ) (ys : List ℕ)
    → length xs < k
    → ((j : ℕ) → j < i + length xs → copyout (addr + j) ≡ true)
    → copyout (addr + (i + length xs)) ≡ false
    → receive copyout addr k i (xs ++ b ∷ ys) ≡ (i + length xs, ys, xs)
unfolding receive
receive_fault copyout addr zero i xs b ys h good bad = elim h [ ]
receive_fault copyout addr (suc k) i [] b ys h good bad =
    let e : i + 0 ≡ i = omega arith in rw (rw e at bad, e)
receive_fault copyout addr (suc k) i (x ∷ xs) b ys h good bad =
    let e : i + suc (length xs) ≡ i + 1 + length xs = omega arith in
    rw (
      good i (omega arith),
      receive_fault copyout addr k (i + 1) xs b ys (omega arith) (λ j p. good j (omega arith))
          (rw e at bad),
      e,
    )

receive_fault_first :
    (copyout : ℕ → Bool) (addr k : ℕ) (xs : List ℕ) (b : ℕ) (ys : List ℕ)
    → length xs < k
    → ((j : ℕ) → j < length xs → copyout (addr + j) ≡ true)
    → copyout (addr + length xs) ≡ false
    → receive copyout addr k 0 (xs ++ b ∷ ys) ≡ (length xs, ys, xs)
receive_fault_first copyout addr k xs b ys h good bad =
    let e : 0 + length xs ≡ length xs = omega arith in
    rw e at (receive_fault copyout addr k 0 xs b ys h (λ j p. good j (omega arith)) (rw e bad))

module _ (copyout : ℕ → Bool) (killed : Bool) (addr n : ℕ) (p : Pipe) where
  piperead-wait :
      (p.nread == p.nwrite && p.writeopen) ≡ true
      → piperead copyout killed addr n p ≡ ((if killed then fails else sleeps 0), p, [], [])
  unfolding piperead
  piperead-wait e =
      simp e
        (elim killed
          as (λ k.
            (if k then (fails, p, [], []) else (sleeps 0, p, [], []))
            ≡ ((if k then fails else sleeps 0), p, [], [])) [ true ↦ refl | false ↦ refl ])

  piperead-copy :
      (p.nread == p.nwrite && p.writeopen) ≡ false
      → let (i, q, out) = read_loop copyout addr n 0 p in
        piperead copyout killed addr n p ≡ (returns i, q, out, on_nwrite ∷ [])
  unfolding piperead
  piperead-copy e = simp e

-- What a run of `piperead` of `n` bytes does when the caller's memory takes every byte.
pub record Reads (p : Pipe) (killed : Bool) (n : ℕ) (run : Outcome × Pipe × List ℕ × List Channel)
    : Type 0 where
  pub valid : IsValid run.1
  pub delivered : run.2 ≡ take n (contents p)
  pub rest : contents run.1 ≡ drop n (contents p)
  pub outcome : run.0 ≡ (
      if level p == 0 && p.writeopen
      then (if killed then fails else sleeps 0)
      else returns (min n (level p)))

-- A run of `piperead` delivers the `n` oldest bytes, or all that there are, takes exactly these off the
-- pipe and returns their number. Only an empty pipe with an open write end makes it sleep, or
-- return -1 if the caller is killed.
pub piperead-Reads :
    (copyout : ℕ → Bool) (killed : Bool) (addr n : ℕ) (p : Pipe)
    → IsValid p
    → ((a : ℕ) → copyout a ≡ true)
    → Reads p killed n (piperead copyout killed addr n p)
piperead-Reads copyout killed addr n p v h =
    elim (Bool-cases (p.nread == p.nwrite && p.writeopen)) [
      | inl e ↦
          (let same : p.nread ≡ p.nwrite = ground arith in
            rw (piperead-wait copyout killed addr n p e) (record {
              valid = v;
              delivered = rw (contents_empty p same v.read_small, take_nil);
              rest = rw (contents_empty p same v.read_small, drop_nil);
              outcome = ground arith;
            }))
      | inr e ↦
          (let r = read_loop-Received copyout addr n 0 p v in
            let all = receive_all copyout addr n 0 (contents p) h in
            rw (piperead-copy copyout killed addr n p e) (record {
              valid = r.valid;
              delivered = r.delivered ∙ ap (λ (t : ℕ × List ℕ × List ℕ). t.2) all;
              rest = r.rest ∙ ap (λ (t : ℕ × List ℕ × List ℕ). t.1) all;
              outcome =
                  ground
                    (arith, r.count, ap (λ (t : ℕ × List ℕ × List ℕ). t.0) all, length-contents p);
            }))
    ]

-- If the caller's memory takes the first `length xs` bytes and not the next, `piperead` returns that
-- count, and the byte after them is gone from the pipe without having been delivered.
pub piperead_loses :
    (copyout : ℕ → Bool) (killed : Bool) (addr n : ℕ) (p : Pipe) (xs : List ℕ) (b : ℕ) (ys : List ℕ)
    → IsValid p
    → contents p ≡ xs ++ b ∷ ys
    → length xs < n
    → ((j : ℕ) → j < length xs → copyout (addr + j) ≡ true)
    → copyout (addr + length xs) ≡ false
    → let (o, q, out, woken) = piperead copyout killed addr n p in
      (o ≡ returns (length xs)) × (out ≡ xs) × (contents q ≡ ys)
piperead_loses copyout killed addr n p xs b ys v e room good bad =
    let some_bytes : 0 < level p =
      omega (arith, length-contents p, ap length e, length-append xs (b ∷ ys)) in
    let r = read_loop-Received copyout addr n 0 p v in
    let got : receive copyout addr n 0 (contents p) ≡ (length xs, ys, xs) =
      rw e (receive_fault_first copyout addr n xs b ys room good bad) in
    rw (piperead-copy copyout killed addr n p (ground arith)) (
      ap returns (r.count ∙ ap (λ (t : ℕ × List ℕ × List ℕ). t.0) got),
      r.delivered ∙ ap (λ (t : ℕ × List ℕ × List ℕ). t.2) got,
      r.rest ∙ ap (λ (t : ℕ × List ℕ × List ℕ). t.1) got,
    )
