-- ===== src/Files/Calls.antt =====
-- The calls that change descriptors keep every count right and never panic.
use mathlib.Core.Option.{some-injective}
use project_priv.Prelude.{
  ℕ, ◌<◌, ◌≤◌, ◌≡◌, ◌≢◌, ◌⊎◌, Bool, Bool-cases, ltb, refl, sym, ap, ◌∙◌, [], ◌++◌, Option, none,
  some, ◌==◌, if◌then◌else◌, update, arith, Option-cases, inl, inr,
}
use project_priv.Files.{
  nproc, nofile, Files, ending, argfd, set_fd, free_fd, fdalloc, sys_dup, sys_close,
}
use project_priv.Files.Refs.{refs}
use project_priv.Files.Held.{
  Counted, filedup-Runs, fileclose-Runs, stored-Counted, taken-Counted, alive, argfd-some,
  free_fd-some, filedup-set_fd, fileclose_ended,
}

-- A system call that does not panic.
pub record Returns (r : Option (Option ℕ × Files)) (P : Option ℕ → Files → Type 0) : Type 0 where
  pub value : Option ℕ
  pub after : Files
  pub result : r ≡ some (value, after)
  pub counted : Counted [] after
  pub holds : P value after

-- What `dup` promises: a new descriptor for the same file, or -1 and no change.
abbrev pub Dupped : (me fd : ℕ) (s : Files) → Option ℕ → Files → Type 0
Dupped me fd s none t = t ≡ s
Dupped me fd s (some new) t =
    (new < nofile)
    × (s.ofile me new ≡ none)
    × (t.ofile ≡ update s.ofile me (update (s.ofile me) new (s.ofile me fd)))

-- `dup` by a process whose descriptors are counted does not panic and keeps them counted; it gives the
-- process a free descriptor for the same file, or returns -1 and changes nothing.
pub sys_dup-Returns :
    (me fd : ℕ) (s : Files) → me < nproc → Counted [] s → Returns (sys_dup me fd s) (Dupped me fd s)
unfolding sys_dup fdalloc
sys_dup-Returns me fd s p c = elim (Option-cases (argfd me fd s)) [
  | inl e ↦ record { value = none; after = s; result = rw (sys_dup, e); counted = c; holds = refl }
  | inr (f, e) ↦ elim (Option-cases (free_fd nofile 0 (s.ofile me))) [
    | inl n ↦ record {
      value = none;
      after = s;
      result = rw (sys_dup, e, n);
      counted = c;
      holds = refl;
    }
    | inr (new, n) ↦
        let (a, b) = argfd-some me fd f s e in
        let (d, free) = free_fd-some nofile 0 new (s.ofile me) n in
        let up = filedup-Runs f [] s (alive me fd f [] s p a b c) c in
        record {
          value = some new;
          after = set_fd me new (some f) up.after;
          result = rw (sys_dup, e, n) (rw (filedup-set_fd f me new (some f) s, up.result));
          counted =
              stored-Counted me new f [] up.after p d
                (ap (λ (t : ℕ → ℕ → Option ℕ). t me new) up.ofile ∙ free) up.counted;
          holds = (d, free, rw (up.ofile, b));
        }
  ]
]

-- What `close` promises: the descriptor, which was in use, is free, and its file is ended if no other refers
-- to it; or -1 and no change, if it is out of range or was free.
abbrev pub Closed : (me fd : ℕ) (s : Files) → Option ℕ → Files → Type 0
Closed me fd s none t = (t ≡ s) × ((nofile ≤ fd) ⊎ (s.ofile me fd ≡ none))
Closed me fd s (some v) t =
    (v ≡ 0)
    × (fd < nofile)
    × (s.ofile me fd ≢ none)
    × (t.ofile ≡ update s.ofile me (update (s.ofile me) fd none))
    × ((f : ℕ)
        → s.ofile me fd ≡ some f
        → t.ended ≡ s.ended ++ (if refs s.ofile f == 1 then ending (s.ftable f) else []))

argfd-none : (me fd : ℕ) (s : Files) → argfd me fd s ≡ none → (nofile ≤ fd) ⊎ (s.ofile me fd ≡ none)
unfolding argfd
argfd-none me fd s e = elim (Bool-cases (ltb fd nofile)) [
  | inl h ↦ inr (ap (λ (b : Bool). if b then s.ofile me fd else none) (sym h) ∙ e)
  | inr h ↦ inl (ground (arith, h))
]

none≢some {ℓ} : {A : Type ℓ} {x : A} → none ≢ some x
none≢some e = cc

-- `close` by a process of the table, when the descriptors are counted, does not panic and keeps
-- them counted; of a descriptor in use it returns 0, frees it, and ends its file just when no other
-- descriptor of any process refers to it; of any other it returns -1 and changes nothing.
pub sys_close-Returns :
    (me fd : ℕ) (s : Files)
    → me < nproc
    → Counted [] s
    → Returns (sys_close me fd s) (Closed me fd s)
unfolding sys_close
sys_close-Returns me fd s p c = elim (Option-cases (argfd me fd s)) [
  | inl e ↦ record {
    value = none;
    after = s;
    result = rw (sys_close, e);
    counted = c;
    holds = (refl, argfd-none me fd s e);
  }
  | inr (f, e) ↦
      let (a, b) = argfd-some me fd f s e in
      let down = fileclose-Runs f [] (set_fd me fd none s) (taken-Counted me fd f [] s p a b c) in
      record {
        value = some 0;
        after = down.after;
        result = rw (sys_close, e) (rw down.result);
        counted = down.counted;
        holds = (
          refl,
          a,
          (λ z. none≢some (sym z ∙ b)),
          down.ofile,
          λ g h.
              let same : f ≡ g = some-injective f g (sym b ∙ h) in
              let count : (s.ftable g).ref ≡ refs s.ofile g = omega (arith, c g) in
              rw (sym count)
                (rw (sym same) (fileclose_ended f (set_fd me fd none s) down.after down.result)),
        );
      }
]
