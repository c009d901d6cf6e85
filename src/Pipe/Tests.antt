-- ===== src/Pipe/Tests.antt =====
-- Runs of a pipe, and the theorems of its modules at concrete inputs.
use project_priv.Prelude.{◌+◌, ◌≡◌, refl, List, [], ◌∷◌, ◌++◌, some, true, false, arith, ltb}
use project_priv.Pipe.{Pipe, returns, pipewrite, put, piperead, fresh}
use project_priv.Pipe.Contents.{contents}
use project_priv.Pipe.Write.{Sent, pipewrite-Sent}
use project_priv.Pipe.Read.{Reads, piperead-Reads, piperead_loses}
use project_priv.Pipe.Fifo.{Op, write, read, close, run, run_fifo}

-- The counts are about to wrap: two bytes before the end of their range, one after it.
abbrev wrapping : Pipe
wrapping = record {
  buf = λ i. i;
  nread = 4294967294;
  nwrite = 1;
  readopen = true;
  writeopen = true;
}

wrapping_holds : contents wrapping ≡ 510 ∷ 511 ∷ 0 ∷ []
wrapping_holds = refl

write_runs : (pipewrite (λ a. some (a + 7)) false 100 2 0 wrapping).0 ≡ returns 2
unfolding pipewrite put
write_runs = refl

pipewrite-Sent_example :
    Sent wrapping 2 0 (107 ∷ 108 ∷ []) (pipewrite (λ a. some (a + 7)) false 100 2 0 wrapping)
pipewrite-Sent_example = pipewrite-Sent (λ a. some (a + 7)) 100 2 0 wrapping (omega arith) refl

piperead-Reads_example : Reads wrapping false 2 (piperead (λ a. true) false 100 2 wrapping)
piperead-Reads_example = piperead-Reads (λ a. true) false 100 2 wrapping (omega arith) (λ a. refl)

-- The second byte finds no place.
piperead_loses_example :
    let (o, q, out, woken) = piperead (λ a. ltb a 101) false 100 3 wrapping in
    (o ≡ returns 1) × (out ≡ 510 ∷ []) × (contents q ≡ 0 ∷ [])
piperead_loses_example =
    piperead_loses (λ a. ltb a 101) false 100 3 wrapping (510 ∷ []) 511 (0 ∷ []) (omega arith) refl
      (omega arith) (λ j p. ground arith) refl

abbrev calls : List Op
calls = write (λ a. some a) false 40 3 0 ∷ read false 0 2 ∷ close true ∷ read false 0 5 ∷ []

run_fifo_example : let (ins, outs, p) = run calls (fresh (λ i. 9)) in ins ≡ outs ++ contents p
run_fifo_example = run_fifo (λ i. 9) calls
