-- ===== src/Log/Invariant.antt =====
-- What the system calls over kernel/log.c keep in every reachable state.
use project_priv.Prelude.{
  ℕ, suc, ◌+◌, ◌-◌, ◌*◌, ◌≤◌, ◌<◌, ◌≡◌, refl, sym, ap, ◌∙◌, List, ◌∷◌, ◌++◌, some, Bool, true,
  false, arith, length, length-append, update_self, ltb, ◌==◌, ℕ_discrete, Bool-cases, inl, inr,
  subst, none, ◌≢◌, update_ne, dec_lt,
}
use mathlib.Core.Option.{some-injective}
use project_priv.Log.{
  Block, Store, Log, begin_op, end_op_enter, end_op_commit, log_write, commit, commit_log,
  write_head, bwrite, log_size, max_op_blocks,
}
use project_priv.Log.Loops.{OutsideLog}
use project_priv.Log.Recovery.{head_block_count}
use project_priv.Log.Crash.{commit_installs, commit-cache, after_commit_other}
use project_priv.Log.Reserve.{
  System, sum, sum-append, IsSmall, sum-le, IsSmall-less, IsSmall-remove, modified, Step, begins,
  writes, ends, commits, Reach, here, next, Inv,
}
use project_priv.Log.Written.{Logged, log_write-some, log_write-full, log_write-size}

none≢some {ℓ} : {A : Type ℓ} {x : A} → none ≢ some x
none≢some e = cc

-- `log_write` by a call that has budget left, when the log has a block left.
pub write-Logged :
    (t : System) (xs ys : List ℕ) (m b : ℕ) (x : Block)
    → Inv t
    → t.budgets ≡ xs ++ suc m ∷ ys
    → OutsideLog t.log.start t.log.size b
    → t.log.n + 1 < t.log.size
    → (l : Log) × (s : Store) × (log_write t.log b (modified b x t.store) ≡ some (l, s))
      × Logged t.log b (modified b x t.store) l s
write-Logged t xs ys m b x v e out room =
    log_write-some t.log b (modified b x t.store) v.header out
      (omega (arith, v.reserved, ap sum e, sum-append xs (suc m ∷ ys))) room
      (omega (arith, v.running, ap length e, length-append xs (suc m ∷ ys)))

-- `commit` counts no block in the header that it leaves.
commit-clear : (l : Log) (s : Store) → s.disk l.start 0 ≡ 0 → (commit l s).1.disk l.start 0 ≡ 0
unfolding commit commit_log write_head bwrite
commit-clear l s h = elim (Bool-cases (ltb 0 l.n)) [
  | inl e ↦
      rw e (
        ap (λ (f : Block). f 0) (update_self _ l.start _) ∙ head_block_count (record l { n = 0 }) _)
  | inr e ↦ rw e h
]

commit-log : (l : Log) (s : Store) → (commit l s).0 ≡ record l { n = 0 }
unfolding commit commit_log
commit-log l s = ground arith

begin_op-some :
    (l : Log) {l' : Log}
    → begin_op l ≡ some l'
    → (l' ≡ record l { outstanding = l.outstanding + 1 })
      × (l.committing ≡ false)
      × (l.n + (l.outstanding + 1) * max_op_blocks ≤ log_size)
unfolding begin_op
begin_op-some l e = (ground arith, ground arith, ground arith)

end_op_enter-some :
    (l : Log) {l' : Log} {c : Bool}
    → end_op_enter l ≡ some (l', c)
    → l' ≡ record l { outstanding = l.outstanding - 1; committing = l.outstanding - 1 == 0 }
unfolding end_op_enter
end_op_enter-some l e = ground arith

module _ {t : System} (v : Inv t) where
  begins-Inv :
      (l : Log)
      → begin_op t.log ≡ some l
      → Inv (record t { log = l; budgets = max_op_blocks ∷ t.budgets })
  begins-Inv l e =
      let (same, off, room) = begin_op-some t.log e in
      subst (λ l. Inv (record t { log = l; budgets = max_op_blocks ∷ t.budgets })) (sym same)
        (record {
          reserved = omega (arith, v.running, room, sum-le t.budgets v.small);
          running = omega (arith, v.running);
          small = (omega arith, v.small);
          idle = λ h. ground arith;
          header = v.header;
          clear = v.clear;
          clean = v.clean;
        })

  writes-Inv :
      (xs ys : List ℕ) (m b : ℕ) (x : Block) (l : Log) (s : Store)
      → t.budgets ≡ xs ++ suc m ∷ ys
      → OutsideLog t.log.start t.log.size b
      → log_write t.log b (modified b x t.store) ≡ some (l, s)
      → Inv (record { log = l; store = s; budgets = xs ++ m ∷ ys })
  writes-Inv xs ys m b x l s eb out e =
      let room : t.log.n + 1 < t.log.size = elim (dec_lt (t.log.n + 1) t.log.size) [
        | yes h ↦ h
        | no h ↦
            absurd (
              none≢some
                (sym (log_write-full t.log b (modified b x t.store) (omega (arith, h))) ∙ e))
      ] in
      let (l', s', e', w) = write-Logged t xs ys m b x v eb out room in
      subst (λ (p : Log × Store). Inv (record { log = p.0; store = p.1; budgets = xs ++ m ∷ ys }))
        (some-injective _ _ (sym e' ∙ e))
        (record {
          reserved = omega (
            arith,
            v.reserved,
            w.count,
            ap sum eb,
            sum-append xs (suc m ∷ ys),
            sum-append xs (m ∷ ys),
          );
          running = omega (
            arith,
            v.running,
            w.outstanding,
            ap length eb,
            length-append xs (suc m ∷ ys),
            length-append xs (m ∷ ys),
          );
          small = IsSmall-less xs ys m (subst IsSmall eb v.small);
          idle = λ h. w.outstanding ∙ v.idle (sym w.committing ∙ h);
          header = rw (w.start, w.size) w.header;
          clear = rw (w.disk, w.start) v.clear;
          clean =
              rw (w.start, w.size)
                (λ c o. elim (ℕ_discrete c b) [
                  | yes q ↦ let (j, p, h) = w.logged in inr (j, p, h ∙ sym q)
                  | no q ↦ elim (v.clean c o) [
                    | inl same ↦ inl (
                        ap (λ (f : ℕ → Block). f c) w.cache
                        ∙ update_ne t.store.cache b x c q
                        ∙ same
                        ∙ sym (ap (λ (f : ℕ → Block). f c) w.disk))
                    | inr (i, h, a) ↦ let (j, p, k) = w.covers i h in inr (j, p, k ∙ a)
                  ]
                ]);
        })

  ends-Inv :
      (xs ys : List ℕ) (m : ℕ) (l : Log) (c : Bool)
      → t.budgets ≡ xs ++ m ∷ ys
      → end_op_enter t.log ≡ some (l, c)
      → Inv (record t { log = l; budgets = xs ++ ys })
  ends-Inv xs ys m l c eb e =
      subst (λ l. Inv (record t { log = l; budgets = xs ++ ys })) (sym (end_op_enter-some t.log e))
        (record {
          reserved = omega (arith, v.reserved, ap sum eb, sum-append xs (m ∷ ys), sum-append xs ys);
          running =
              omega
                (arith, v.running, ap length eb, length-append xs (m ∷ ys), length-append xs ys);
          small = IsSmall-remove xs ys m (subst IsSmall eb v.small);
          idle = λ h. ground arith;
          header = v.header;
          clear = v.clear;
          clean = v.clean;
        })

  commits-Inv :
      t.log.committing ≡ true
      → Inv (record {
        log = (end_op_commit t.log t.store).0;
        store = (end_op_commit t.log t.store).1;
        budgets = t.budgets;
      })
  unfolding end_op_commit
  commits-Inv c = rw (commit-log t.log t.store) (record {
    reserved = omega (arith, v.reserved);
    running = v.running;
    small = v.small;
    idle = λ h. cc;
    header = record {
      fits = omega arith;
      within = omega (arith, v.header.within);
      home = λ i h. elim h [ ];
      distinct = λ i j p q. elim q [ ];
    };
    clear = commit-clear t.log t.store v.clear;
    clean = λ c o. inl (
        commit-cache t.log t.store c v.header o
        ∙ sym (after_commit_other t.log t.store c (v.clean c o))
        ∙ sym (commit_installs t.log t.store c v.header o));
  })

Step-Inv : {t u : System} → Step t u → Inv t → Inv u
Step-Inv {t} {u} (begins l e e') v = rw e' (begins-Inv v l e)
Step-Inv {t} {u} (writes xs ys m b x l s eb out e e') v =
    rw e' (writes-Inv v xs ys m b x l s eb out e)
Step-Inv {t} {u} (ends xs ys m l c eb e e') v = rw e' (ends-Inv v xs ys m l c eb e)
Step-Inv {t} {u} (commits c e') v = rw e' (commits-Inv v c)

-- Every reachable state keeps the invariant.
pub Reach-Inv : {t u : System} → Reach t u → Inv t → Inv u
Reach-Inv here v = v
Reach-Inv (next r st) v = Step-Inv st (Reach-Inv r v)

Step-size : {t u : System} → Step t u → (u.log.start ≡ t.log.start) × (u.log.size ≡ t.log.size)
unfolding end_op_commit
Step-size {t} {u} (begins l e e') =
    let (same, _, _) = begin_op-some t.log e in rw (e', same) (refl, refl)
Step-size {t} {u} (writes xs ys m b x l s eb out e e') =
    rw e' (log_write-size t.log b (modified b x t.store) e)
Step-size {t} {u} (ends xs ys m l c eb e e') = rw (e', end_op_enter-some t.log e) (refl, refl)
Step-size {t} {u} (commits c e') = rw (e', commit-log t.log t.store) (refl, refl)

-- The log stays where it is.
pub Reach-size :
    {t u : System} → Reach t u → (u.log.start ≡ t.log.start) × (u.log.size ≡ t.log.size)
Reach-size here = (refl, refl)
Reach-size (next r st) =
    let (a, b) = Step-size st in let (a', b') = Reach-size r in (a ∙ a', b ∙ b')
