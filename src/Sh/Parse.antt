-- ===== src/Sh/Parse.antt =====
-- The commands that the parser makes, its fuel, and where it stops.
use Prim.{tt}
use project_priv.Prelude.{
  ℕ, zero, suc, ◌+◌, ◌-◌, ◌*◌, ◌≤◌, ◌<◌, ◌≡◌, refl, List, [], ◌∷◌, true, false, arith, Bool-cases,
  inl, inr, ℕ_discrete, eq→==, ne→==,
}
use project_priv.Sh.{
  Cmd, exec_cmd, pipe_cmd, list_cmd, back_cmd, Outcome, parsed, panics, and_then, max_args,
  gettoken, peek, next_token, redirected, redirs_loop, parseredirs, add_arg, exec_loop, backs_loop,
  parseline, parsepipe, parseexec, parseblock,
}
use project_priv.Sh.Words.{At}
use project_priv.Sh.Lex.{gettoken-Got, peek-Peeked}
use project_priv.Sh.Commands.{
  Good, Stops, Stops-from, and_then-Stops, Fits-more, add_arg-Good, redirected-Good,
}

-- The parser on a line that ends at `es`.
module _ (text : ℕ → ℕ) (start es : ℕ) (z : text es ≡ 0) where
  abbrev pub Place : ℕ → Type 0
  Place = At text start es

  -- After `peek` has found a token, `gettoken` goes on behind it.
  next_moves :
      (p : ℕ) (toks : List ℕ)
      → Place p
      → (peek text es toks p).0 ≡ true
      → ((peek text es toks p).1 < next_token text es (peek text es toks p).1)
        × Place (next_token text es (peek text es toks p).1)
  next_moves p toks h e =
      let k = peek-Peeked text start es toks p h in
      let g = gettoken-Got text start es (peek text es toks p).1 z k.inside in
      (g.moves (k.found e), g.inside)

  redirs_loop-Stops :
      (k n : ℕ) (cmd : Cmd) (p : ℕ)
      → Place p
      → es < p + k
      → Good text start es n cmd
      → Stops (Good text start es n) p Place (redirs_loop k text es cmd p)
  unfolding redirs_loop
  redirs_loop-Stops zero n cmd p h fuel good = absurd (omega arith)
  redirs_loop-Stops (suc k) n cmd p h fuel good =
      let seen = peek text es (60 ∷ 62 ∷ []) p in
      let s = peek-Peeked text start es (60 ∷ 62 ∷ []) p h in
      elim (Bool-cases seen.0) [
        | inr e ↦ rw (redirs_loop, e) (s.later, s.inside, good)
        | inl e ↦
            let t = gettoken text es seen.1 in
            let g = gettoken-Got text start es seen.1 z s.inside in
            let file = gettoken text es t.ps in
            let gf = gettoken-Got text start es t.ps z g.inside in
            let moved : p < file.ps = omega (arith, s.later, g.moves (s.found e), gf.later) in
            elim (ℕ_discrete file.ret 97) [
              | no n97 ↦ rw (redirs_loop, e, ne→== file.ret 97 n97) tt
              | yes is97 ↦
                  rw (redirs_loop, e, eq→== file.ret 97 is97)
                    (Stops-from (Good text start es n) p file.ps Place _ (omega (arith, moved)) (
                      redirs_loop-Stops k n (redirected t.ret file cmd) file.ps gf.inside
                        (omega (arith, moved))
                        (redirected-Good text start es n t.ret file cmd (gf.word is97) good)))
            ]
      ]

  parseredirs-Stops :
      (n : ℕ) (cmd : Cmd) (p : ℕ)
      → Place p
      → Good text start es n cmd
      → Stops (Good text start es n) p Place (parseredirs text es cmd p)
  unfolding parseredirs
  parseredirs-Stops n cmd p h good = redirs_loop-Stops (es - p + 1) n cmd p h (omega arith) good

  exec_loop-Stops :
      (left n : ℕ) (ret : Cmd) (p : ℕ)
      → n + left ≡ max_args
      → Place p
      → Good text start es n ret
      → Stops (Good text start es 9) p Place (exec_loop left text es ret p)
  unfolding exec_loop
  exec_loop-Stops zero n ret p count h good = tt
  exec_loop-Stops (suc left) n ret p count h good =
      let seen = peek text es (124 ∷ 41 ∷ 38 ∷ 59 ∷ []) p in
      let s = peek-Peeked text start es (124 ∷ 41 ∷ 38 ∷ 59 ∷ []) p h in
      let t = gettoken text es seen.1 in
      let g = gettoken-Got text start es seen.1 z s.inside in
      let enough : Good text start es 9 ret =
        (good.0, Fits-more n 9 ret (omega (arith, count)) good.1) in
      elim (Bool-cases seen.0) [
        | inl e ↦ rw (exec_loop, e) (s.later, s.inside, enough)
        | inr e ↦ elim (ℕ_discrete t.ret 0) [
          | yes r ↦
              rw (exec_loop, e, eq→== t.ret 0 r) (omega (arith, s.later, g.later), g.inside, enough)
          | no r ↦ elim (ℕ_discrete t.ret 97) [
            | no r97 ↦ rw (exec_loop, e, ne→== t.ret 0 r, ne→== t.ret 97 r97) tt
            | yes r97 ↦ elim (ℕ_discrete left 0) [
              | yes l ↦ rw (exec_loop, e, ne→== t.ret 0 r, eq→== t.ret 97 r97, eq→== left 0 l) tt
              | no l ↦
                  rw (exec_loop, e, ne→== t.ret 0 r, eq→== t.ret 97 r97, ne→== left 0 l)
                    (Stops-from (Good text start es 9) p t.ps Place _
                      (omega (arith, s.later, g.later))
                      (and_then-Stops (Good text start es (n + 1)) (Good text start es 9) t.ps Place
                        _ (exec_loop left text es)
                        (parseredirs-Stops (n + 1) (add_arg t.q t.eq ret) t.ps g.inside
                          (add_arg-Good text start es t.q t.eq (g.word r97) n ret good))
                        (λ cmd p2 later inside good2.
                          Stops-from (Good text start es 9) t.ps p2 Place _ later (
                            exec_loop-Stops left (n + 1) cmd p2 (omega (arith, count)) inside
                              good2))))
            ]
          ]
        ]
      ]

  backs_loop-Stops :
      (k n : ℕ) (cmd : Cmd) (p : ℕ)
      → Place p
      → es < p + k
      → Good text start es n cmd
      → Stops (Good text start es n) p Place (backs_loop k text es cmd p)
  unfolding backs_loop
  backs_loop-Stops zero n cmd p h fuel good = absurd (omega arith)
  backs_loop-Stops (suc k) n cmd p h fuel good =
      let seen = peek text es (38 ∷ []) p in
      let s = peek-Peeked text start es (38 ∷ []) p h in
      elim (Bool-cases seen.0) [
        | inr e ↦ rw (backs_loop, e) (s.later, s.inside, good)
        | inl e ↦
            let (moved, inside) = next_moves p (38 ∷ []) h e in
            rw (backs_loop, e)
              (Stops-from (Good text start es n) p (next_token text es seen.1) Place _
                (omega (arith, moved, s.later))
                (backs_loop-Stops k n (back_cmd cmd) (next_token text es seen.1) inside
                  (omega (arith, moved, s.later)) good))
      ]

  -- A parser that `k` nested calls are enough for, when four for each byte that is left and `extra` more are.
  abbrev pub Parses : (extra k : ℕ) → (ℕ → Outcome Cmd) → Type 0
  Parses extra k f =
      (p : ℕ) → Place p → 4 * (es - p) + extra ≤ k → Stops (Good text start es 9) p Place (f p)

  parseblock-Parses :
      (k : ℕ) → Parses 4 k (parseline k text es) → Parses 1 (suc k) (parseblock (suc k) text es)
  unfolding parseblock
  parseblock-Parses k line p h fuel =
      let seen = peek text es (40 ∷ []) p in
      let s = peek-Peeked text start es (40 ∷ []) p h in
      elim (Bool-cases seen.0) [
        | inr e ↦ rw (parseblock, e) tt
        | inl e ↦
            let (moved, inside) = next_moves p (40 ∷ []) h e in
            let lo = next_token text es seen.1 in
            rw (parseblock, e)
              (Stops-from (Good text start es 9) p lo Place _ (omega (arith, moved, s.later)) (
                and_then-Stops (Good text start es 9) (Good text start es 9) lo Place _ _
                  (line lo inside (omega (arith, moved, s.later)))
                  (λ cmd p2 later inside2 good. closes cmd lo p2 later inside2 good)))
      ]
    where
      closes :
          (cmd : Cmd) (lo p2 : ℕ)
          → lo ≤ p2
          → Place p2
          → Good text start es 9 cmd
          → Stops (Good text start es 9) lo Place (elim (peek text es (41 ∷ []) p2).0 [
            | false ↦ panics
            | true ↦ parseredirs text es cmd (next_token text es (peek text es (41 ∷ []) p2).1)
          ])
      closes cmd lo p2 later inside2 good =
          let s = peek-Peeked text start es (41 ∷ []) p2 inside2 in
          elim (Bool-cases (peek text es (41 ∷ []) p2).0) [
            | inr e ↦ rw e tt
            | inl e ↦
                let (moved, inside) = next_moves p2 (41 ∷ []) inside2 e in
                rw e (
                  Stops-from (Good text start es 9) lo
                    (next_token text es (peek text es (41 ∷ []) p2).1) Place _
                    (omega (arith, moved, s.later)) (parseredirs-Stops 9 cmd _ inside good))
          ]

  parseexec-Parses :
      (k : ℕ) → Parses 1 k (parseblock k text es) → Parses 2 (suc k) (parseexec (suc k) text es)
  unfolding parseexec
  parseexec-Parses k block p h fuel =
      let seen = peek text es (40 ∷ []) p in
      let s = peek-Peeked text start es (40 ∷ []) p h in
      elim (Bool-cases seen.0) [
        | inl e ↦
            rw (parseexec, e)
              (Stops-from (Good text start es 9) p seen.1 Place _ s.later
                (block seen.1 s.inside (omega (arith, s.later))))
        | inr e ↦
            rw (parseexec, e)
              (Stops-from (Good text start es 9) p seen.1 Place _ s.later (
                and_then-Stops (Good text start es 0) (Good text start es 9) seen.1 Place _
                  (exec_loop max_args text es)
                  (parseredirs-Stops 0 (exec_cmd []) seen.1 s.inside (tt, omega arith))
                  (λ cmd p2 later inside good.
                    Stops-from (Good text start es 9) seen.1 p2 Place _ later
                      (exec_loop-Stops max_args 0 cmd p2 refl inside good))))
      ]

  -- A second command follows after `tok`.
  joined-Stops :
      (toks : List ℕ) (k lo : ℕ) (f : ℕ → Outcome Cmd) (join : Cmd → Cmd → Cmd) (cmd : Cmd) (p : ℕ)
      → ((a b : Cmd)
          → Good text start es 9 a
          → Good text start es 9 b
          → Good text start es 9 (join a b))
      → lo ≤ p
      → Place p
      → Good text start es 9 cmd
      → ((q : ℕ) → p < q → Place q → Stops (Good text start es 9) q Place (f q))
      → Stops (Good text start es 9) lo Place (elim (peek text es toks p).0 [
        | false ↦ parsed cmd (peek text es toks p).1
        | true ↦
            and_then
              (f (next_token text es (peek text es toks p).1))
              λ right p3. parsed (join cmd right) p3
      ])
  joined-Stops toks k lo f join cmd p joins later h good next =
      let s = peek-Peeked text start es toks p h in
      elim (Bool-cases (peek text es toks p).0) [
        | inr e ↦ rw e (omega (arith, s.later), s.inside, good)
        | inl e ↦
            let (moved, inside) = next_moves p toks h e in
            let q = next_token text es (peek text es toks p).1 in
            rw e (
              Stops-from (Good text start es 9) lo q Place _ (omega (arith, moved, s.later)) (
                and_then-Stops (Good text start es 9) (Good text start es 9) q Place _ _
                  (next q (omega (arith, moved, s.later)) inside)
                  (λ right p3 later3 inside3 good3. (later3, inside3, joins cmd right good good3))))
      ]

  parsepipe-Parses :
      (k : ℕ)
      → Parses 2 k (parseexec k text es)
      → Parses 3 k (parsepipe k text es)
      → Parses 3 (suc k) (parsepipe (suc k) text es)
  unfolding parsepipe
  parsepipe-Parses k exec pipe p h fuel =
      and_then-Stops (Good text start es 9) (Good text start es 9) p Place _ _
        (exec p h (omega arith))
        (λ cmd p2 later inside good.
          joined-Stops (124 ∷ []) k p (parsepipe k text es) pipe_cmd cmd p2
            (λ a b g1 g2. ((g1.0, g2.0), (g1.1, g2.1))) later inside good
            (λ q moved inside2. pipe q inside2 (omega arith)))

  parseline-Parses :
      (k : ℕ)
      → Parses 3 k (parsepipe k text es)
      → Parses 4 k (parseline k text es)
      → Parses 4 (suc k) (parseline (suc k) text es)
  unfolding parseline
  parseline-Parses k pipe line p h fuel =
      and_then-Stops (Good text start es 9) (Good text start es 9) p Place _ _
        (pipe p h (omega arith))
        (λ cmd p2 later inside good.
          and_then-Stops (Good text start es 9) (Good text start es 9) p Place _ _
            (Stops-from (Good text start es 9) p p2 Place _ later
              (backs_loop-Stops (es - p2 + 1) 9 cmd p2 inside (omega arith) good))
            (λ cmd3 p3 later3 inside3 good3.
              joined-Stops (59 ∷ []) k p (parseline k text es) list_cmd cmd3 p3
                (λ a b g1 g2. ((g1.0, g2.0), (g1.1, g2.1))) later3 inside3 good3
                (λ q moved inside4. line q inside4 (omega arith))))

  pub parsers :
      (k : ℕ)
      → Parses 4 k (parseline k text es)
        × Parses 3 k (parsepipe k text es)
        × Parses 2 k (parseexec k text es)
        × Parses 1 k (parseblock k text es)
  parsers zero = (
    (λ p h e. absurd (omega arith)),
    (λ p h e. absurd (omega arith)),
    (λ p h e. absurd (omega arith)),
    (λ p h e. absurd (omega arith)),
  )
  parsers (suc k) =
      let (line, pipe, exec, block) = parsers k in
      (
        parseline-Parses k pipe line,
        parsepipe-Parses k exec pipe,
        parseexec-Parses k block,
        parseblock-Parses k line,
      )
