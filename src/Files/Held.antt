-- ===== src/Files/Held.antt =====
-- References of files, by descriptors and by the kernel code that runs.
use mathlib.Core.Option
use mathlib.Core.Option.{some-injective}
use project_priv.Prelude.{
  ℕ, zero, suc, ◌+◌, ◌-◌, ◌<◌, ◌≡◌, refl, sym, ap, List, [], ◌∷◌, ◌++◌, append-nil, ◌∙◌, Option,
  none, some, true, false, ◌==◌, ltb, if◌then◌else◌, update, arith, ℕ_discrete, Bool-cases,
  Option-cases, inl, inr,
}
use project_priv.Files.{
  nproc, nofile, Files, fd_none, ending, filedup, fileclose, argfd, set_fd, free_fd,
}
use project_priv.Files.Refs.{points, refs, refs-set_fd, points-refs}

-- How many of the references that running code holds are to the file.
abbrev pub held_refs : ℕ → List ℕ → ℕ
held_refs f [] = 0
held_refs f (g ∷ gs) = points f (some g) + held_refs f gs

-- Each file's count is the number of its descriptors and of the held references to it.
abbrev pub Counted : List ℕ → Files → Type 0
Counted held s = (f : ℕ) → (s.ftable f).ref ≡ refs s.ofile f + held_refs f held

-- A function of the file table that leaves the descriptors alone and does not panic.
pub record Runs (r : Option Files) (s : Files) (held : List ℕ) : Type 0 where
  pub after : Files
  pub result : r ≡ some after
  pub ofile : after.ofile ≡ s.ofile
  pub counted : Counted held after

pub filedup-Runs :
    (f : ℕ) (held : List ℕ) (s : Files)
    → 0 < (s.ftable f).ref
    → Counted held s
    → Runs (filedup f s) s (f ∷ held)
unfolding filedup update
filedup-Runs f held s h c = record {
  after = record s {
    ftable = update s.ftable f (record (s.ftable f) { ref = (s.ftable f).ref + 1 });
  };
  result = ground arith;
  ofile = refl;
  counted = λ g. elim (ℕ_discrete g f) [
    | yes e ↦ rw e (ground (arith, c f))
    | no ne ↦ ground (arith, c g)
  ];
}

-- The two ways in which `fileclose` can leave the table.
abbrev lowered : ℕ → Files → Files
lowered f s = record s {
  ftable = update s.ftable f (record (s.ftable f) { ref = (s.ftable f).ref - 1 });
}

abbrev emptied : ℕ → Files → Files
emptied f s = record s {
  ftable = update s.ftable f (record (s.ftable f) { ref = 0; kind = fd_none });
  ended = s.ended ++ ending (s.ftable f);
}

pub fileclose-Runs :
    (f : ℕ) (held : List ℕ) (s : Files) → Counted (f ∷ held) s → Runs (fileclose f s) s held
unfolding fileclose update
fileclose-Runs f held s c = elim (Bool-cases (ltb 0 ((s.ftable f).ref - 1))) [
  | inl more ↦ record {
    after = lowered f s;
    result = ground (arith, c f);
    ofile = refl;
    counted = λ g. elim (ℕ_discrete g f) [
      | yes e ↦ rw e (ground (arith, c f))
      | no ne ↦ ground (arith, c g)
    ];
  }
  | inr last ↦ record {
    after = emptied f s;
    result = ground (arith, c f);
    ofile = refl;
    counted = λ g. elim (ℕ_discrete g f) [
      | yes e ↦ rw e (ground (arith, c f))
      | no ne ↦ ground (arith, c g)
    ];
  }
]

-- A reference that is held becomes a descriptor.
pub stored-Counted :
    (me fd f : ℕ) (held : List ℕ) (s : Files)
    → me < nproc
    → fd < nofile
    → s.ofile me fd ≡ none
    → Counted (f ∷ held) s
    → Counted held (set_fd me fd (some f) s)
stored-Counted me fd f held s p q e c g =
    let change = refs-set_fd s.ofile me fd (some f) g p q in
    let old : points g (s.ofile me fd) ≡ 0 = ap (points g) e in omega (arith, c g, change, old)

-- A descriptor becomes a reference that is held.
pub taken-Counted :
    (me fd f : ℕ) (held : List ℕ) (s : Files)
    → me < nproc
    → fd < nofile
    → s.ofile me fd ≡ some f
    → Counted held s
    → Counted (f ∷ held) (set_fd me fd none s)
taken-Counted me fd f held s p q e c g =
    let change = refs-set_fd s.ofile me fd none g p q in
    let old : points g (s.ofile me fd) ≡ points g (some f) = ap (points g) e in
    omega (arith, c g, change, old)

-- A descriptor keeps its file alive.
pub alive :
    (me fd f : ℕ) (held : List ℕ) (s : Files)
    → me < nproc
    → fd < nofile
    → s.ofile me fd ≡ some f
    → Counted held s
    → 0 < (s.ftable f).ref
alive me fd f held s p q e c = omega (arith, c f, points-refs s.ofile me fd f p q e)

pub argfd-some :
    (me fd f : ℕ) (s : Files) → argfd me fd s ≡ some f → (fd < nofile) × (s.ofile me fd ≡ some f)
unfolding argfd
argfd-some me fd f s e = (ground (arith, e), ground (arith, e))

pub free_fd-some :
    (k fd new : ℕ) (t : ℕ → Option ℕ) → free_fd k fd t ≡ some new → (new < fd + k) × (t new ≡ none)
unfolding free_fd
free_fd-some zero fd new t e = cc
free_fd-some (suc k) fd new t e = elim (Option-cases (t fd)) [
  | inl h ↦ let same : fd ≡ new = ground (arith, e, h) in (omega (arith, same), ap t (sym same) ∙ h)
  | inr (g, h) ↦
      let (a, b) = free_fd-some k (fd + 1) new t (ground (arith, e, h)) in (omega (arith, a), b)
]

-- Closing a file and clearing a descriptor can be done in either order.
pub fileclose-set_fd :
    (f me fd : ℕ) (s : Files)
    → fileclose f (set_fd me fd none s) ≡ Option.map (set_fd me fd none) (fileclose f s)
unfolding fileclose
fileclose-set_fd f me fd s = elim (Bool-cases (ltb (s.ftable f).ref 1)) [
  | inl e ↦ rw e
  | inr e ↦ elim (Bool-cases (ltb 0 ((s.ftable f).ref - 1))) [
    | inl d ↦ rw (e, d)
    | inr d ↦ rw (e, d)
  ]
]

pub filedup-set_fd :
    (f me fd : ℕ) (v : Option ℕ) (s : Files)
    → filedup f (set_fd me fd v s) ≡ Option.map (set_fd me fd v) (filedup f s)
unfolding filedup
filedup-set_fd f me fd v s = elim (Bool-cases (ltb (s.ftable f).ref 1)) [
  | inl e ↦ rw e
  | inr e ↦ rw e
]

ended_same : {r : Option Files} {t u : Files} → r ≡ some u → r ≡ some t → u.ended ≡ t.ended
ended_same {t} {u} h e = ap (λ (x : Files). x.ended) (some-injective u t (sym h ∙ e))

pub fileclose_ended :
    (f : ℕ) (s t : Files)
    → fileclose f s ≡ some t
    → t.ended ≡ s.ended ++ (if (s.ftable f).ref == 1 then ending (s.ftable f) else [])
unfolding fileclose
fileclose_ended f s t e = elim (Bool-cases (ltb (s.ftable f).ref 1)) [
  | inl h ↦ absurd (ground (arith, e, h))
  | inr h ↦ elim (Bool-cases (ltb 0 ((s.ftable f).ref - 1))) [
    | inl d ↦
        let k : ((s.ftable f).ref == 1) ≡ false = ground (arith, d) in
        rw k (sym (ended_same {u = lowered f s} (rw (h, d)) e) ∙ sym (append-nil s.ended))
    | inr d ↦
        let k : ((s.ftable f).ref == 1) ≡ true = ground (arith, d, h) in
        rw k (sym (ended_same {u = emptied f s} (rw (h, d)) e))
  ]
]
