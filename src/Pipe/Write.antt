-- ===== src/Pipe/Write.antt =====
-- What one run of `pipewrite` moves.
use project_priv.Prelude.{
  ℕ, zero, suc, ◌+◌, ◌-◌, ◌≤◌, ◌<◌, ◌≡◌, refl, ◌∙◌, ◌≢◌, List, [], ◌∷◌, ◌++◌, Option, none, some,
  ◌&&◌, ltb, leb, if◌then◌else◌, ℕ_discrete, Option-cases, inl, inr, eq→==, ne→==, arith, length,
  take, add32, true, false, append_assoc, append-nil,
}
use project_priv.Pipe.{Pipe, Channel, on_nread, Outcome, returns, sleeps, pipe_size, put, pipewrite}
use project_priv.Pipe.Contents.{IsValid, contents, level, put-IsValid, contents-put}

-- The caller's bytes up to the first that cannot be read.
abbrev pub supply : (copyin : ℕ → Option ℕ) (addr k i : ℕ) → List ℕ
supply copyin addr zero i = []
supply copyin addr (suc k) i = elim (copyin (addr + i)) [
  | none ↦ []
  | some ch ↦ ch ∷ supply copyin addr k (i + 1)
]

abbrev pub room : Pipe → ℕ
room p = pipe_size - level p

pub length-supply : (copyin : ℕ → Option ℕ) (addr k i : ℕ) → length (supply copyin addr k i) ≤ k
length-supply copyin addr zero i = omega arith
length-supply copyin addr (suc k) i = ground (arith, length-supply copyin addr k (i + 1))

not_full : (p : Pipe) → IsValid p → level p ≢ pipe_size → p.nwrite ≢ add32 p.nread pipe_size
not_full p v h e = omega arith

-- The three ways that a round of the loop goes.
module _ (copyin : ℕ → Option ℕ) (addr k i : ℕ) (p : Pipe) (v : IsValid p)
    (open_end : p.readopen ≡ true) where
  pipewrite-done : pipewrite copyin false addr zero i p ≡ (returns i, p, on_nread ∷ [])
  unfolding pipewrite
  pipewrite-done = refl

  pipewrite-full :
      level p ≡ pipe_size → pipewrite copyin false addr (suc k) i p ≡ (sleeps i, p, on_nread ∷ [])
  unfolding pipewrite
  pipewrite-full h = simp (open_end, eq→== p.nwrite (add32 p.nread pipe_size) (omega arith))

  pipewrite-fault :
      level p ≢ pipe_size
      → copyin (addr + i) ≡ none
      → pipewrite copyin false addr (suc k) i p ≡ (returns i, p, on_nread ∷ [])
  unfolding pipewrite
  pipewrite-fault h e =
      simp (open_end, ne→== p.nwrite (add32 p.nread pipe_size) (not_full p v h), e)

  pipewrite-byte :
      (ch : ℕ)
      → level p ≢ pipe_size
      → copyin (addr + i) ≡ some ch
      → pipewrite copyin false addr (suc k) i p ≡ pipewrite copyin false addr k (i + 1) (put p ch)
  unfolding pipewrite
  pipewrite-byte ch h e =
      simp (open_end, ne→== p.nwrite (add32 p.nread pipe_size) (not_full p v h), e)

-- What a run of `pipewrite` with `k` rounds left does, given the caller's readable bytes.
pub record Sent (p : Pipe) (k i : ℕ) (bytes : List ℕ) (run : Outcome × Pipe × List Channel)
    : Type 0 where
  pub valid : IsValid run.1
  pub open_end : run.1.readopen ≡ true
  pub appended : contents run.1 ≡ contents p ++ take (room p) bytes
  pub outcome : run.0 ≡ (
      if leb (room p) (length bytes) && ltb (room p) k
      then sleeps (i + room p)
      else returns (i + length bytes))
  pub woken : run.2 ≡ on_nread ∷ []

take_nil : (n : ℕ) → take {A = ℕ} n [] ≡ []
take_nil zero = refl
take_nil (suc n) = refl

supply-fault :
    (copyin : ℕ → Option ℕ) (addr k i : ℕ)
    → copyin (addr + i) ≡ none
    → supply copyin addr (suc k) i ≡ []
supply-fault copyin addr k i e = rw (e, supply)

supply-byte :
    (copyin : ℕ → Option ℕ) (addr k i ch : ℕ)
    → copyin (addr + i) ≡ some ch
    → supply copyin addr (suc k) i ≡ ch ∷ supply copyin addr k (i + 1)
supply-byte copyin addr k i ch e = rw (e, supply)

-- While the read end is open and the caller is not killed, a run of `pipewrite` appends the caller's
-- readable bytes as far as there is room, wakes the readers, and either returns the count of all
-- readable bytes or, when the pipe is full before the last byte, sleeps with the count so far.
pub pipewrite-Sent :
    (copyin : ℕ → Option ℕ) (addr k i : ℕ) (p : Pipe)
    → IsValid p
    → p.readopen ≡ true
    → Sent p k i (supply copyin addr k i) (pipewrite copyin false addr k i p)
pipewrite-Sent copyin addr zero i p v h = rw (pipewrite-done copyin addr 0 i p v h) (record {
  valid = v;
  open_end = h;
  appended = rw (take_nil, append-nil);
  outcome = ground arith;
  woken = refl;
})
pipewrite-Sent copyin addr (suc k) i p v h = elim (ℕ_discrete (level p) pipe_size) [
  | yes full ↦
      (let e : room p ≡ 0 = omega arith in
        rw (pipewrite-full copyin addr k i p v h full) (record {
          valid = v;
          open_end = h;
          appended = rw (e, append-nil);
          outcome = ground (arith, e);
          woken = refl;
        }))
  | no space ↦ elim (Option-cases (copyin (addr + i))) [
    | inl e ↦
        rw (pipewrite-fault copyin addr k i p v h space e, supply-fault copyin addr k i e)
          (record {
            valid = v;
            open_end = h;
            appended = rw (take_nil, append-nil);
            outcome = ground arith;
            woken = refl;
          })
    | inr (ch, e) ↦
        (let less : level p < pipe_size = omega arith in
          let sent =
            pipewrite-Sent copyin addr k (i + 1) (put p ch) (put-IsValid p ch v less)
              (unfold put in h) in
          let shift : room p ≡ suc (room (put p ch)) = unfold put in omega arith in
          rw (pipewrite-byte copyin addr k i p v h ch space e, supply-byte copyin addr k i ch e)
            (record {
              valid = sent.valid;
              open_end = sent.open_end;
              appended = rw shift (
                  sent.appended
                  ∙ rw (contents-put p ch v less) (append_assoc (contents p) (ch ∷ []) _));
              outcome = ground (arith, sent.outcome, shift);
              woken = sent.woken;
            }))
  ]
]
