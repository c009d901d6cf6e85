-- ===== src/Files/Loops.antt =====
-- What `fork` and `exit` of kernel/proc.c do with the descriptors.
use mathlib.Core.Option
use mathlib.Core.Option.{some-injective}
use project_priv.Prelude.{
  ℕ, zero, suc, ◌+◌, ◌<◌, ◌≤◌, ◌≡◌, ◌≢◌, refl, sym, ap, ◌∙◌, [], Option, none, some, update,
  update_self, update_ne, arith, ℕ_discrete, Option-cases, inl, inr,
}
use project_priv.Files.{nproc, nofile, Files, fileclose, set_fd, fork_files, exit_files}
use project_priv.Files.Held.{
  Counted, filedup-Runs, fileclose-Runs, stored-Counted, taken-Counted, alive, fileclose-set_fd,
}

module _ (me fd : ℕ) (v : Option ℕ) (s : Files) where
  set_fd_self : (set_fd me fd v s).ofile me fd ≡ v
  set_fd_self =
      ap (λ (t : ℕ → Option ℕ). t fd) (update_self s.ofile me (update (s.ofile me) fd v))
      ∙ update_self (s.ofile me) fd v

  set_fd_ne : (i : ℕ) → i ≢ fd → (set_fd me fd v s).ofile me i ≡ s.ofile me i
  set_fd_ne i h =
      ap (λ (t : ℕ → Option ℕ). t i) (update_self s.ofile me (update (s.ofile me) fd v))
      ∙ update_ne (s.ofile me) fd v i h

  set_fd_other : (p i : ℕ) → p ≢ me → (set_fd me fd v s).ofile p i ≡ s.ofile p i
  set_fd_other p i h =
      ap (λ (t : ℕ → Option ℕ). t i) (update_ne s.ofile me (update (s.ofile me) fd v) p h)

-- The child has the parent's descriptors from `fd` on, and no other descriptor changed.
pub record Copied (k fd me child : ℕ) (s : Files) : Type 0 where
  pub after : Files
  pub result : fork_files k fd me child s ≡ some after
  pub counted : Counted [] after
  pub copied : (i : ℕ) → fd ≤ i → i < fd + k → after.ofile child i ≡ s.ofile me i
  pub before : (i : ℕ) → i < fd → after.ofile child i ≡ s.ofile child i
  pub others : (p i : ℕ) → p ≢ child → after.ofile p i ≡ s.ofile p i

fork_files-Copied :
    (k fd me child : ℕ) (s : Files)
    → me < nproc
    → child < nproc
    → me ≢ child
    → fd + k ≤ nofile
    → ((i : ℕ) → fd ≤ i → s.ofile child i ≡ none)
    → Counted [] s
    → Copied k fd me child s
unfolding fork_files
fork_files-Copied zero fd me child s p q ne b free c = record {
  after = s;
  result = refl;
  counted = c;
  copied = λ i l h. absurd (omega arith);
  before = λ i l. refl;
  others = λ j i l. refl;
}
fork_files-Copied (suc k) fd me child s p q ne b free c = elim (Option-cases (s.ofile me fd)) [
  | inl e ↦
      let r =
        fork_files-Copied k (fd + 1) me child s p q ne (omega arith) (λ i l. free i (omega arith))
          c in
      record {
        after = r.after;
        result = rw (fork_files, e) r.result;
        counted = r.counted;
        copied = λ i l h. elim (ℕ_discrete i fd) [
          | yes same ↦ rw same (r.before fd (omega arith) ∙ free fd (omega arith) ∙ sym e)
          | no other ↦ r.copied i (omega arith) (omega arith)
        ];
        before = λ i l. r.before i (omega arith);
        others = r.others;
      }
  | inr (f, e) ↦
      let up = filedup-Runs f [] s (alive me fd f [] s p (omega arith) e c) c in
      let here : (j i : ℕ) → up.after.ofile j i ≡ s.ofile j i =
        λ j i. ap (λ (t : ℕ → ℕ → Option ℕ). t j i) up.ofile in
      let r =
        fork_files-Copied k (fd + 1) me child (set_fd child fd (some f) up.after) p q ne
          (omega arith)
          (λ i l.
            set_fd_ne child fd (some f) up.after i (omega arith)
            ∙ here child i
            ∙ free i (omega arith))
          (stored-Counted child fd f [] up.after q (omega arith)
            (here child fd ∙ free fd (omega arith)) up.counted) in
      record {
        after = r.after;
        result = rw (fork_files, e) (rw up.result r.result);
        counted = r.counted;
        copied = λ i l h. elim (ℕ_discrete i fd) [
          | yes same ↦
              rw same (r.before fd (omega arith) ∙ set_fd_self child fd (some f) up.after ∙ sym e)
          | no other ↦
              r.copied i (omega arith) (omega arith)
              ∙ set_fd_other child fd (some f) up.after me i ne
              ∙ here me i
        ];
        before = λ i l.
            r.before i (omega arith)
            ∙ set_fd_ne child fd (some f) up.after i (omega arith)
            ∙ here child i;
        others = λ j i l. r.others j i l ∙ set_fd_other child fd (some f) up.after j i l ∙ here j i;
      }
]

mapped {ℓ κ} :
    {A : Type ℓ} {B : Type κ} (f : A → B) (o : Option A) (b : B)
    → Option.map f o ≡ some b
    → (a : A) × (o ≡ some a) × (f a ≡ b)
mapped f none b e = cc
mapped f (some a) b e = (a, refl, some-injective (f a) b e)

-- The descriptors from `fd` on are free, and no other changed.
pub record Cleared (k fd me : ℕ) (s : Files) : Type 0 where
  pub after : Files
  pub result : exit_files k fd me s ≡ some after
  pub counted : Counted [] after
  pub free : (i : ℕ) → fd ≤ i → i < fd + k → after.ofile me i ≡ none
  pub before : (i : ℕ) → i < fd → after.ofile me i ≡ s.ofile me i
  pub others : (p i : ℕ) → p ≢ me → after.ofile p i ≡ s.ofile p i

exit_files-Cleared :
    (k fd me : ℕ) (s : Files) → me < nproc → fd + k ≤ nofile → Counted [] s → Cleared k fd me s
unfolding exit_files
exit_files-Cleared zero fd me s p b c = record {
  after = s;
  result = refl;
  counted = c;
  free = λ i l h. absurd (omega arith);
  before = λ i l. refl;
  others = λ j i l. refl;
}
exit_files-Cleared (suc k) fd me s p b c = elim (Option-cases (s.ofile me fd)) [
  | inl e ↦
      let r = exit_files-Cleared k (fd + 1) me s p (omega arith) c in
      record {
        after = r.after;
        result = rw (exit_files, e) r.result;
        counted = r.counted;
        free = λ i l h. elim (ℕ_discrete i fd) [
          | yes same ↦ rw same (r.before fd (omega arith) ∙ e)
          | no other ↦ r.free i (omega arith) (omega arith)
        ];
        before = λ i l. r.before i (omega arith);
        others = r.others;
      }
  | inr (f, e) ↦
      let cleared = set_fd me fd none s in
      let down = fileclose-Runs f [] cleared (taken-Counted me fd f [] s p (omega arith) e c) in
      let swap : Option.map (set_fd me fd none) (fileclose f s) ≡ some down.after =
        sym (fileclose-set_fd f me fd s) ∙ down.result in
      let (s1, n, same) = mapped (set_fd me fd none) (fileclose f s) down.after swap in
      let here : (j i : ℕ) → down.after.ofile j i ≡ cleared.ofile j i =
        λ j i. ap (λ (t : ℕ → ℕ → Option ℕ). t j i) down.ofile in
      let r = exit_files-Cleared k (fd + 1) me down.after p (omega arith) down.counted in
      record {
        after = r.after;
        result = rw (exit_files, e) (rw n (rw same r.result));
        counted = r.counted;
        free = λ i l h. elim (ℕ_discrete i fd) [
          | yes same ↦ rw same (r.before fd (omega arith) ∙ here me fd ∙ set_fd_self me fd none s)
          | no other ↦ r.free i (omega arith) (omega arith)
        ];
        before =
            λ i l. r.before i (omega arith) ∙ here me i ∙ set_fd_ne me fd none s i (omega arith);
        others = λ j i l. r.others j i l ∙ here j i ∙ set_fd_other me fd none s j i l;
      }
]

-- When all descriptors are counted, the copy that `fork` makes of a process's descriptors for another,
-- which has none, does not panic and keeps them counted; the child's are then the parent's, and no other
-- process's have changed.
pub fork_files_lem :
    (me child : ℕ) (s : Files)
    → me < nproc
    → child < nproc
    → me ≢ child
    → ((i : ℕ) → s.ofile child i ≡ none)
    → Counted [] s
    → Copied nofile 0 me child s
fork_files_lem me child s p q ne free c =
    fork_files-Copied nofile 0 me child s p q ne (omega arith) (λ i l. free i) c

-- When all descriptors are counted, the loop of `exit` does not panic and keeps them counted; the process
-- has then no descriptor, and no other process's have changed.
pub exit_files_lem : (me : ℕ) (s : Files) → me < nproc → Counted [] s → Cleared nofile 0 me s
exit_files_lem me s p c = exit_files-Cleared nofile 0 me s p (omega arith) c
