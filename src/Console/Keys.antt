-- ===== src/Console/Keys.antt =====
-- `consoleintr`: which bytes a key gives to the readers.
use project_priv.Prelude.{
  ℕ, ◌+◌, ◌<◌, ◌≡◌, refl, sym, ap, ◌∙◌, List, [], ◌∷◌, ◌++◌, Bool, false, not, ◌&&◌, ◌||◌, ltb,
  ◌==◌, if◌then◌else◌, Bool-cases, inl, inr, arith, add32, sub32, append-nil, append_assoc,
}
use project_priv.Console.{
  Console, input_buf_size, ctrl, newline, erase, kill_line, accept, consoleintr,
}
use project_priv.Console.Lines.{
  IsValid, committed, edited, Erased, erase-Erased, kill_line-Erased, pending-append, typed,
}

-- The byte that is stored for a key.
abbrev pub cooked : ℕ → ℕ
cooked key = if key == 13 then newline else key

-- Whether a key ends the line: Enter, the newline or Control-D, or any other character that fills the ring; a
-- key that edits the line, or for which the ring has no room, does not.
pub ends_line : ℕ → Console → Bool
ends_line key c =
    let used = sub32 c.e c.r in
    not (key == 0 || key == 16 || key == 21 || key == 8 || key == 127)
    && ltb used 128
    && (key == 10 || key == 13 || key == 4 || used == 127)

-- What a key does to the readers' side: with `wake`, all that was edited and the key are theirs.
pub record Keyed (key : ℕ) (c d : Console) (wake : Bool) : Type 0 where
  pub valid : IsValid d
  pub r : d.r ≡ c.r
  pub wakes : wake ≡ ends_line key c
  pub lines : committed d ≡ committed c ++ (if wake then edited c ++ (cooked key ∷ []) else [])

same : (key : ℕ) (c d : Console) → Erased c d → false ≡ ends_line key c → Keyed key c d false
same key c d x w = record {
  wakes = w;
  valid = x.valid;
  r = x.r;
  lines = rw (x.buf, x.r, x.w) (sym (append-nil (committed c)));
}

accept-Keyed :
    (key : ℕ) (c : Console)
    → IsValid c
    → (key == ctrl b'P') ≡ false
    → (key == ctrl b'U') ≡ false
    → (key == ctrl b'H' || key == 0x7f) ≡ false
    → let (d, wake) = accept key c in Keyed key c d wake
unfolding accept ends_line
accept-Keyed key c v p u h =
    elim (Bool-cases (not (key == 0) && ltb (sub32 c.e c.r) input_buf_size)) [
      | inr e ↦
          rw e (
            same key c c (record { valid = v; buf = refl; r = refl; w = refl }) (ground (arith, e)))
      | inl e ↦
          let room : sub32 c.e c.r < input_buf_size = ground (arith, e) in
          let more : sub32 (add32 c.e 1) c.r ≡ sub32 c.e c.r + 1 = omega arith in
          let (all, old) = typed c (cooked key) v room in
          elim (Bool-cases (
            (cooked key == newline || cooked key == ctrl b'D')
            || sub32 (add32 c.e 1) c.r == input_buf_size)) [
              | inl f ↦
                  rw (e, f)
                    (record {
                      valid = record {
                        r_small = v.r_small;
                        w_small = omega arith;
                        e_small = omega arith;
                        order = omega arith;
                        bounded = omega arith;
                      };
                      r = refl;
                      wakes = ground (arith, p, u, h, e, f, more);
                      lines =
                          all
                          ∙ ap (λ (l : List ℕ). l ++ (cooked key ∷ [])) (pending-append c v)
                          ∙ append_assoc (committed c) (edited c) (cooked key ∷ []);
                    })
              | inr f ↦
                  rw (e, f)
                    (record {
                      valid = record {
                        r_small = v.r_small;
                        w_small = v.w_small;
                        e_small = omega arith;
                        order = omega (arith, v.order);
                        bounded = omega arith;
                      };
                      r = refl;
                      wakes = ground (arith, p, u, h, e, f, more);
                      lines = old ∙ sym (append-nil (committed c));
                    })
            ]
    ]

-- On a valid console a key keeps the console valid and the readers' bytes as they are, unless it
-- ends a line: then the readers are woken, the bytes being edited follow theirs, and then the byte
-- for the key, a carriage return being stored as a newline. Just these keys end a line when the
-- ring has room: Enter, the newline, Control-D, and any key that is stored as a byte and fills the
-- ring.
pub consoleintr_lem :
    (key : ℕ) (c : Console) → IsValid c → let (d, wake) = consoleintr key c in Keyed key c d wake
unfolding consoleintr ends_line
consoleintr_lem key c v =
    let stay : false ≡ ends_line key c → Keyed key c c false =
      same key c c (record { valid = v; buf = refl; r = refl; w = refl }) in
    elim (Bool-cases (key == ctrl b'P')) [
      | inl p ↦ rw p (stay (ground (arith, p)))
      | inr p ↦ elim (Bool-cases (key == ctrl b'U')) [
        | inl u ↦
            rw (p, u)
              (same key c (kill_line input_buf_size c) (kill_line-Erased input_buf_size c v)
                (ground (arith, u)))
        | inr u ↦ elim (Bool-cases (key == ctrl b'H' || key == 0x7f)) [
          | inr h ↦ rw (p, u, h) (accept-Keyed key c v p u h)
          | inl h ↦ elim (Bool-cases (c.e == c.w)) [
            | inl e ↦ rw (p, u, h, e) (stay (ground (arith, h)))
            | inr e ↦
                rw (p, u, h, e)
                  (same key c (erase c) (erase-Erased c v (λ q. ground (arith, e, q)))
                    (ground (arith, h)))
          ]
        ]
      ]
    ]
