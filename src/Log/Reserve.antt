-- ===== src/Log/Reserve.antt =====
-- The space that `begin_op` of kernel/log.c reserves: transactions of several system calls at once.
-- A call writes at most `max_op_blocks` times between `begin_op` and `end_op`; `budgets` holds what
-- each running call has left. A sleeping `begin_op` is no step: it tries again later.
use project_priv.Prelude.{
  ℕ, suc, ◌+◌, ◌*◌, ◌≤◌, ◌<◌, ◌≡◌, List, [], ◌∷◌, ◌++◌, some, Bool, true, arith, length, update,
  ◌⊎◌,
}
use project_priv.Log.{
  Block, Store, Log, begin_op, end_op_enter, end_op_commit, log_write, log_size, max_op_blocks,
}
use project_priv.Log.Loops.{OutsideLog}
use project_priv.Log.Recovery.{IsHeader}

pub record System : Type 0 where
  pub log : Log
  pub store : Store
  pub budgets : List ℕ

abbrev pub sum : List ℕ → ℕ
sum [] = 0
sum (x ∷ xs) = x + sum xs

pub sum-append : (xs ys : List ℕ) → sum (xs ++ ys) ≡ sum xs + sum ys
sum-append [] ys = omega arith
sum-append (x ∷ xs) ys = omega (arith, sum-append xs ys)

-- No call has more left than it began with.
abbrev pub IsSmall : List ℕ → Type 0
IsSmall [] = Unit {0}
IsSmall (x ∷ xs) = (x ≤ max_op_blocks) × IsSmall xs

pub sum-le : (xs : List ℕ) → IsSmall xs → sum xs ≤ length xs * max_op_blocks
sum-le [] h = omega arith
sum-le (x ∷ xs) h = omega (arith, h.0, sum-le xs h.1)

pub IsSmall-less : (xs ys : List ℕ) (m : ℕ) → IsSmall (xs ++ suc m ∷ ys) → IsSmall (xs ++ m ∷ ys)
IsSmall-less [] ys m h = (omega arith, h.1)
IsSmall-less (x ∷ xs) ys m h = (h.0, IsSmall-less xs ys m h.1)

pub IsSmall-remove : (xs ys : List ℕ) (m : ℕ) → IsSmall (xs ++ m ∷ ys) → IsSmall (xs ++ ys)
IsSmall-remove [] ys m h = h.1
IsSmall-remove (x ∷ xs) ys m h = (h.0, IsSmall-remove xs ys m h.1)

-- A call changes the data of a buffer that it holds.
abbrev pub modified : ℕ → Block → Store → Store
modified b x s = record s { cache = update s.cache b x }

-- One step of some process, or of the process that commits. A write is the change of a buffer to `x` and the
-- `log_write` of it, which the buffer's lock makes one step for the other calls.
pub data Step (t u : System) : Type 0 where
  begins :
      (l : Log)
      → begin_op t.log ≡ some l
      → u ≡ record t { log = l; budgets = max_op_blocks ∷ t.budgets }
      → Step t u
  writes :
      (xs ys : List ℕ) (m b : ℕ) (x : Block) (l : Log) (s : Store)
      → t.budgets ≡ xs ++ suc m ∷ ys
      → OutsideLog t.log.start t.log.size b
      → log_write t.log b (modified b x t.store) ≡ some (l, s)
      → u ≡ record { log = l; store = s; budgets = xs ++ m ∷ ys }
      → Step t u
  ends :
      (xs ys : List ℕ) (m : ℕ) (l : Log) (c : Bool)
      → t.budgets ≡ xs ++ m ∷ ys
      → end_op_enter t.log ≡ some (l, c)
      → u ≡ record t { log = l; budgets = xs ++ ys }
      → Step t u
  commits :
      t.log.committing ≡ true
      → u ≡ record {
        log = (end_op_commit t.log t.store).0;
        store = (end_op_commit t.log t.store).1;
        budgets = t.budgets;
      }
      → Step t u

pub data Reach (t : System) : System → Type 0 where
  here : Reach t t
  next : {u v : System} → Reach t u → Step u v → Reach t v

pub record Inv (t : System) : Type 0 where
  pub reserved : t.log.n + sum t.budgets ≤ log_size
  pub running : t.log.outstanding ≡ length t.budgets
  pub small : IsSmall t.budgets
  pub idle : t.log.committing ≡ true → t.log.outstanding ≡ 0
  pub header : IsHeader t.log.start t.log.size t.log.n t.log.block
  pub clear : t.store.disk t.log.start 0 ≡ 0
  pub clean :
      (c : ℕ)
      → OutsideLog t.log.start t.log.size c
      → (t.store.cache c ≡ t.store.disk c) ⊎ ((i : ℕ) × (i < t.log.n) × (t.log.block i ≡ c))
