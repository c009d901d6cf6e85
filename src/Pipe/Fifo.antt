-- ===== src/Pipe/Fifo.antt =====
-- A pipe under any sequence of calls is a queue.
use project_priv.Prelude.{
  ℕ, zero, suc, ◌+◌, ◌-◌, ◌≤◌, ◌≡◌, refl, sym, ap, ◌∙◌, List, [], ◌∷◌, ◌++◌, Option, Bool, true,
  false, not, ◌&&◌, ◌||◌, ltb, leb, if◌then◌else◌, Bool-cases, inl, inr, arith, length, take,
  take-append-drop, take_all, append_assoc, append-nil,
}
use project_priv.Pipe.{Pipe, Outcome, returns, fails, sleeps, pipewrite, piperead, pipeclose, fresh}
use project_priv.Pipe.Contents.{IsValid, contents, contents_empty, fresh-IsValid}
use project_priv.Pipe.Write.{supply, length-supply, room, pipewrite-Sent}
use project_priv.Pipe.Read.{piperead-Reads}

-- A run of a call under the pipe's lock, by any process. Readers' memory takes every byte.
pub data Op : Type 0 where
  write : (copyin : ℕ → Option ℕ) (killed : Bool) (addr k i : ℕ) → Op
  read : (killed : Bool) (addr n : ℕ) → Op
  close : (writable : Bool) → Op

-- By how much the count that a run leaves exceeds the one it began with.
abbrev pub moved : Outcome → ℕ → ℕ
moved (returns j) i = j - i
moved fails i = 0
moved (sleeps j) i = j - i

-- The bytes that the run took in by its own count, those that it delivered, and the pipe.
unfoldable pub step : Op → Pipe → List ℕ × List ℕ × Pipe
step (write copyin killed addr k i) p =
    let (o, q, woken) = pipewrite copyin killed addr k i p in
    (take (moved o i) (supply copyin addr k i), [], q)
step (read killed addr n) p =
    let (o, q, out, woken) = piperead (λ a. true) killed addr n p in ([], out, q)
step (close writable) p = ([], [], (pipeclose p writable).0)

unfoldable pub run : List Op → Pipe → List ℕ × List ℕ × Pipe
run [] p = ([], [], p)
run (op ∷ ops) p =
    let (ins, outs, q) = step op p in
    let (ins', outs', r) = run ops q in (ins ++ ins', outs ++ outs', r)

record Conserves (p : Pipe) (s : List ℕ × List ℕ × Pipe) : Type 0 where
  valid : IsValid s.2
  queue : contents p ++ s.0 ≡ s.1 ++ contents s.2

take-moved :
    (bytes : List ℕ) (r k i : ℕ)
    → length bytes ≤ k
    → take
        (moved
          (if leb r (length bytes) && ltb r k then sleeps (i + r) else returns (i + length bytes))
          i)
        bytes
      ≡ take r bytes
take-moved bytes r k i h = elim (Bool-cases (leb r (length bytes) && ltb r k)) [
  | inl e ↦ (let e' : i + r - i ≡ r = omega arith in rw (e, e'))
  | inr e ↦
      (let e' : i + length bytes - i ≡ length bytes = omega arith in
        rw (e, e')
          (take_all (length bytes) bytes (omega arith) ∙ sym (take_all r bytes (ground arith))))
]

pipewrite_stopped :
    (copyin : ℕ → Option ℕ) (killed : Bool) (addr k i : ℕ) (p : Pipe)
    → (not p.readopen || killed) ≡ true
    → let (o, q, woken) = pipewrite copyin killed addr k i p in (moved o i ≡ 0) × (q ≡ p)
unfolding pipewrite
pipewrite_stopped copyin killed addr zero i p e = (omega arith, refl)
pipewrite_stopped copyin killed addr (suc k) i p e = simp e (refl, refl)

write-Conserves :
    (copyin : ℕ → Option ℕ) (killed : Bool) (addr k i : ℕ) (p : Pipe)
    → IsValid p
    → Conserves p (step (write copyin killed addr k i) p)
unfolding step
write-Conserves copyin killed addr k i p v = elim (Bool-cases (not p.readopen || killed)) [
  | inl e ↦
      (let (still, same) = pipewrite_stopped copyin killed addr k i p e in
        record { valid = rw same v; queue = rw (still, same, append-nil) })
  | inr e ↦
      (let off : killed ≡ false = ground arith in
        let sent = pipewrite-Sent copyin addr k i p v (ground arith) in
        rw off (record {
          valid = sent.valid;
          queue = sym (
              sent.appended
              ∙ ap (λ l. contents p ++ l)
                  (sym (
                    ap (λ o. take (moved o i) (supply copyin addr k i)) sent.outcome
                    ∙ take-moved (supply copyin addr k i) (room p) k i
                        (length-supply copyin addr k i))));
        }))
]

step-Conserves : (op : Op) (p : Pipe) → IsValid p → Conserves p (step op p)
unfolding step pipeclose
step-Conserves (write copyin killed addr k i) p v =
    unfold step in write-Conserves copyin killed addr k i p v
step-Conserves (read killed addr n) p v =
    let r = piperead-Reads (λ a. true) killed addr n p v (λ a. refl) in
    record {
      valid = r.valid;
      queue = rw (append-nil, r.delivered, r.rest) (sym (take-append-drop n (contents p)));
    }
step-Conserves (close true) p v = record {
  valid = record { read_small = v.read_small; write_small = v.write_small; bounded = v.bounded };
  queue = append-nil (contents p);
}
step-Conserves (close false) p v = record {
  valid = record { read_small = v.read_small; write_small = v.write_small; bounded = v.bounded };
  queue = append-nil (contents p);
}

run-Conserves : (ops : List Op) (p : Pipe) → IsValid p → Conserves p (run ops p)
unfolding run
run-Conserves [] p v = record { valid = v; queue = append-nil (contents p) }
run-Conserves (op ∷ ops) p v =
    let a = step-Conserves op p v in
    let b = run-Conserves ops (step op p).2 a.valid in
    record {
      valid = b.valid;
      queue =
          sym (append_assoc (contents p) (step op p).0 _)
          ∙ ap (λ l. l ++ (run ops (step op p).2).0) a.queue
          ∙ append_assoc (step op p).1 (contents (step op p).2) _
          ∙ ap (λ l. (step op p).1 ++ l) b.queue
          ∙ sym (append_assoc (step op p).1 _ _);
    }

-- Through any sequence of runs of `pipewrite`, `piperead` and `pipeclose` on a new pipe, whose counts
-- wrap, the bytes that the writers were told are in the pipe are, in order, those that the readers
-- were given and then those that it still holds.
pub run_fifo :
    (junk : ℕ → ℕ) (ops : List Op)
    → let (ins, outs, p) = run ops (fresh junk) in ins ≡ outs ++ contents p
run_fifo junk ops =
    let c = run-Conserves ops (fresh junk) (fresh-IsValid junk) in
    let e : contents (fresh junk) ≡ [] =
      unfold fresh in contents_empty (fresh junk) refl (omega arith) in
    ap (λ l. l ++ (run ops (fresh junk)).0) (sym e) ∙ c.queue
