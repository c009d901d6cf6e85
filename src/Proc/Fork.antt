-- ===== src/Proc/Fork.antt =====
-- `fork`, `wait` and `freeproc` of kernel/proc.c keep the family ties.
use project_priv.Prelude.{
  ℕ, ◌<◌, ◌≡◌, refl, sym, ap, ◌∙◌, ◌≢◌, Option, none, some, Bool, true, false, not, ◌⊎◌, ◌&&◌, ◌==◌,
  Bool-cases, Option-cases, inl, inr, arith, update, ℕ_discrete,
}
use project_priv.Proc.{
  Proc, Table, Kernel, unused, running, is_unused, is_zombie, is_child, first, nproc, fork, wait,
  freeproc, allocproc, allocpid,
}
use project_priv.Proc.Table.{first-Found}
use project_priv.Proc.Invariant.{Inv, is_alive}

-- A step that changes entry `i`, which is not alive, and no other.
module _ (s u : Kernel) (i : ℕ) (v : Inv s) (dead : is_alive (s.table i).state ≡ false)
    (same_cpu : u.cpu ≡ s.cpu) (same_init : u.initproc ≡ s.initproc)
    (others : (p : ℕ) → p ≢ i → u.table p ≡ s.table p) where
  ne_init : s.initproc ≢ i
  ne_init e = ground (arith, v.init_alive)

  running_elsewhere : (c p : ℕ) → u.cpu c ≡ some p → (p < nproc) × ((u.table p).state ≡ running)
  running_elsewhere c p h =
      let old : s.cpu c ≡ some p = ap (λ f. f c) (sym same_cpu) ∙ h in
      let (small, on) = v.runs c p old in
      let ne : p ≢ i = λ e. ground arith in (small, ap (λ (q : Proc). q.state) (others p ne) ∙ on)

  alone_elsewhere : (c d p : ℕ) → u.cpu c ≡ some p → u.cpu d ≡ some p → c ≡ d
  alone_elsewhere c d p h h' =
      v.alone c d p (ap (λ f. f c) (sym same_cpu) ∙ h) (ap (λ f. f d) (sym same_cpu) ∙ h')

  parents_elsewhere :
      (p q : ℕ)
      → p < nproc
      → (s.table p).parent ≡ some q
      → (q < nproc) × (is_alive (u.table q).state ≡ true)
  parents_elsewhere p q h e =
      let (small, on) = v.parent_alive p q h e in
      let ne : q ≢ i = λ e'. ground arith in
      (small, ap (λ (r : Proc). is_alive r.state) (others q ne) ∙ on)

  init_alive' : (u.initproc < nproc) × (is_alive (u.table u.initproc).state ≡ true)
  init_alive' =
      rw same_init (
        v.init_small,
        ap (λ (r : Proc). is_alive r.state) (others s.initproc ne_init) ∙ v.init_alive,
      )

  has_parent_elsewhere :
      (p : ℕ)
      → p < nproc
      → p ≢ i
      → is_unused (u.table p).state ≡ false
      → p ≢ u.initproc
      → (u.table p).parent ≢ none
  has_parent_elsewhere p h ne e other =
      let same : u.table p ≡ s.table p = others p ne in
      rw same (
        v.has_parent p h (ap (λ (r : Proc). is_unused r.state) (sym same) ∙ e)
          (λ q. other (q ∙ sym same_init)))

  -- The entry is emptied.
  pub blank-Inv : (u.table i).state ≡ unused → (u.table i).parent ≡ none → Inv u
  blank-Inv empty orphan = record {
    init_small = init_alive'.0;
    init_alive = init_alive'.1;
    runs = running_elsewhere;
    alone = alone_elsewhere;
    has_parent = λ p h e other. elim (ℕ_discrete p i) [
      | yes same ↦ ground (arith, same, empty)
      | no ne ↦ has_parent_elsewhere p h ne e other
    ];
    parent_alive = λ p q h e. elim (ℕ_discrete p i) [
      | yes same ↦ absurd (ground (arith, same, orphan))
      | no ne ↦ parents_elsewhere p q h (ap (λ (r : Proc). r.parent) (sym (others p ne)) ∙ e)
    ];
  }

  -- The entry is a new child of `me`.
  pub spawn-Inv :
      (me : ℕ)
      → me < nproc
      → is_alive (s.table me).state ≡ true
      → (u.table i).parent ≡ some me
      → Inv u
  spawn-Inv me small on child = record {
    init_small = init_alive'.0;
    init_alive = init_alive'.1;
    runs = running_elsewhere;
    alone = alone_elsewhere;
    has_parent = λ p h e other. elim (ℕ_discrete p i) [
      | yes same ↦ λ q. ground (arith, same, child)
      | no ne ↦ has_parent_elsewhere p h ne e other
    ];
    parent_alive = λ p q h e. elim (ℕ_discrete p i) [
      | yes same ↦
          (let mine : q ≡ me = ground (arith, same, child) in
            let ne : me ≢ i = λ e'. ground arith in
            rw mine (small, ap (λ (r : Proc). is_alive r.state) (others me ne) ∙ on))
      | no ne ↦ parents_elsewhere p q h (ap (λ (r : Proc). r.parent) (sym (others p ne)) ∙ e)
    ];
  }

pub freeproc-Inv :
    (s : Kernel) (i : ℕ) → Inv s → is_alive (s.table i).state ≡ false → Inv (freeproc i s)
unfolding freeproc update
freeproc-Inv s i v dead =
    blank-Inv s (freeproc i s) i v dead refl refl (λ p ne. ground arith) (ground arith)
      (ground arith)

wait_cases :
    (s : Kernel) (me : ℕ) (store : Bool)
    → ((wait me store s).1 ≡ s)
      ⊎ ((i : ℕ) × (is_zombie (s.table i).state ≡ true) × ((wait me store s).1 ≡ freeproc i s))
unfolding wait
wait_cases s me store =
    elim (Option-cases (first nproc 0 (λ p. is_child me p && is_zombie p.state) s.table)) [
      | inl e ↦ inl (ground (arith, e))
      | inr (i, e) ↦ elim (Bool-cases store) [
        | inl on ↦ inr (
          i,
          ground (
            arith,
            (first-Found nproc 0 (λ p. is_child me p && is_zombie p.state) s.table i e).passes,
          ),
          ground (arith, e, on),
        )
        | inr off ↦ inl (ground (arith, e, off))
      ]
    ]

pub wait-Inv : (s : Kernel) (me : ℕ) (store : Bool) → Inv s → Inv (wait me store s).1
wait-Inv s me store v = elim (wait_cases s me store) [
  | inl e ↦ rw e v
  | inr (i, dead, e) ↦ rw e (freeproc-Inv s i v (ground arith))
]

-- Whether a `fork` that finds an entry succeeds.
abbrev pub fork_works : (page pagetable : ℕ) (copied : Bool) → Bool
fork_works page pagetable copied = not (page == 0) && (not (pagetable == 0) && copied)

abbrev pub free_entry : Table → Option ℕ
free_entry t = first nproc 0 (λ p. is_unused p.state) t

module _ (page pagetable : ℕ) (copied : Bool) (me : ℕ) (s : Kernel) where
  fork-full : free_entry s.table ≡ none → (fork page pagetable copied me s).1 ≡ s
  unfolding fork allocproc
  fork-full e = ground (arith, e)

  module _ (i : ℕ) (e : free_entry s.table ≡ some i) where
    fork_keeps :
        ((fork page pagetable copied me s).1.cpu ≡ s.cpu)
        × ((fork page pagetable copied me s).1.initproc ≡ s.initproc)
    unfolding fork allocproc allocpid freeproc
    fork_keeps = (ground (arith, e), ground (arith, e))

    fork_others : (p : ℕ) → p ≢ i → (fork page pagetable copied me s).1.table p ≡ s.table p
    unfolding fork allocproc allocpid freeproc update
    fork_others p ne = ground (arith, e)

    fork_child :
        fork_works page pagetable copied ≡ true
        → ((fork page pagetable copied me s).1.table i).parent ≡ some me
    unfolding fork allocproc allocpid freeproc update
    fork_child h = ground (arith, e)

    fork_undone :
        fork_works page pagetable copied ≡ false
        → (((fork page pagetable copied me s).1.table i).state ≡ unused)
          × (((fork page pagetable copied me s).1.table i).parent ≡ none)
    unfolding fork allocproc allocpid freeproc update
    fork_undone h = (ground (arith, e), ground (arith, e))

pub fork-Inv :
    (s : Kernel) (c me page pagetable : ℕ) (copied : Bool)
    → Inv s
    → s.cpu c ≡ some me
    → Inv (fork page pagetable copied me s).1
fork-Inv s c me page pagetable copied v on = elim (Option-cases (free_entry s.table)) [
  | inl e ↦ rw (fork-full page pagetable copied me s e) v
  | inr (i, e) ↦
      (let dead : is_alive (s.table i).state ≡ false =
          ground (arith, (first-Found nproc 0 (λ p. is_unused p.state) s.table i e).passes) in
        let (cpus, init) = fork_keeps page pagetable copied me s i e in
        let others = fork_others page pagetable copied me s i e in
        let u = (fork page pagetable copied me s).1 in
        elim (Bool-cases (fork_works page pagetable copied)) [
          | inl h ↦
              (let (small, runs) = v.runs c me on in
                spawn-Inv s u i v dead cpus init others me small (ap is_alive runs)
                  (fork_child page pagetable copied me s i e h))
          | inr h ↦
              (let (empty, orphan) = fork_undone page pagetable copied me s i e h in
                blank-Inv s u i v dead cpus init others empty orphan)
        ])
]
