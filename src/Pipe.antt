-- ===== src/Pipe.antt =====
-- kernel/pipe.c, the bytes and the ends of a pipe.
-- A function runs while it holds `pi->lock`: from its start, or from the end of a `sleep`, to the next
-- `sleep` or its return. It gives the channels that it wakes, in order. `killed` is the flag of the
-- caller. `copyin` and `copyout` of kernel/vm.c are the caller's memory: the byte at an address, if it
-- can be read, and whether an address can be written.
pub mod Contents
pub mod Write
pub mod Read
pub mod Fifo
mod Tests
use project_priv.Prelude.{
  ℕ, zero, suc, ◌+◌, ◌%◌, List, [], ◌∷◌, ◌++◌, Option, none, some, Bool, true, false, not, ◌&&◌,
  ◌||◌, ◌==◌, if◌then◌else◌, update, add32,
}

abbrev pub pipe_size : ℕ
pipe_size = 512

pub record Pipe : Type 0 where
  pub buf : ℕ → ℕ
  pub nread : ℕ
  pub nwrite : ℕ
  pub readopen : Bool
  pub writeopen : Bool

pub data Channel : Type 0 where
  on_nread on_nwrite : Channel

-- How a call leaves the lock: it returns a count, returns -1, or sleeps with a count so far.
pub data Outcome : Type 0 where
  returns : ℕ → Outcome
  fails : Outcome
  sleeps : ℕ → Outcome

-- The pipe that `pipealloc` makes in a fresh page, whose bytes are whatever they are.
pub fresh : (ℕ → ℕ) → Pipe
fresh junk = record { buf = junk; nread = 0; nwrite = 0; readopen = true; writeopen = true }

-- The pipe, the channel that is woken, and whether the page is freed.
pub pipeclose : Pipe → (writable : Bool) → Pipe × Channel × Bool
pipeclose p writable =
    let q = if writable then record p { writeopen = false } else record p { readopen = false } in
    (q, (if writable then on_nread else on_nwrite), not q.readopen && not q.writeopen)

-- `pi->data[pi->nwrite++ % PIPESIZE] = ch`
pub put : Pipe → ℕ → Pipe
put p ch = record p { buf = update p.buf (p.nwrite % pipe_size) ch; nwrite = add32 p.nwrite 1 }

-- The loop of `pipewrite`, with `k = n - i` rounds left.
pub pipewrite :
    (copyin : ℕ → Option ℕ) (killed : Bool) (addr k i : ℕ) → Pipe → Outcome × Pipe × List Channel
pipewrite copyin killed addr zero i p = (returns i, p, on_nread ∷ [])
pipewrite copyin killed addr (suc k) i p =
    if not p.readopen || killed
    then (fails, p, [])
    else if p.nwrite == add32 p.nread pipe_size
    then (sleeps i, p, on_nread ∷ [])
    else elim (copyin (addr + i)) [
      | none ↦ (returns i, p, on_nread ∷ [])
      | some ch ↦ pipewrite copyin killed addr k (i + 1) (put p ch)
    ]

-- The second loop of `piperead`, with `k = n - i` rounds left: the count, the pipe and the bytes that
-- reach the caller.
pub read_loop : (copyout : ℕ → Bool) (addr k i : ℕ) → Pipe → ℕ × Pipe × List ℕ
read_loop copyout addr zero i p = (i, p, [])
read_loop copyout addr (suc k) i p =
    let ch = p.buf (p.nread % pipe_size) in
    let q = record p { nread = add32 p.nread 1 } in
    let (j, r, out) = read_loop copyout addr k (i + 1) q in
    if p.nread == p.nwrite
    then (i, p, [])
    else if copyout (addr + i)
    then (j, r, ch ∷ out)
    else (i, q, [])

-- `piperead` from its start, or from the end of its `sleep`.
pub piperead :
    (copyout : ℕ → Bool) (killed : Bool) (addr n : ℕ)
    → Pipe
    → Outcome × Pipe × List ℕ × List Channel
piperead copyout killed addr n p =
    if p.nread == p.nwrite && p.writeopen
    then (if killed then (fails, p, [], []) else (sleeps 0, p, [], []))
    else let (i, q, out) = read_loop copyout addr n 0 p in (returns i, q, out, on_nwrite ∷ [])
