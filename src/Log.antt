-- ===== src/Log.antt =====
-- kernel/log.c, the write-ahead log of the file system.
-- A block is its array of 4-byte words, so `struct logheader` is word 0 (`n`) and the words after it
-- (`block`). The header counts are never negative, so `int` is ℕ here.
-- The store is what kernel/bio.c shows the log: the contents that `bread` returns for each block,
-- the disk, the references that `bpin` holds, and the disk writes made so far, oldest first.
pub mod Loops
pub mod Commit
pub mod Crash
pub mod Recovery
pub mod Absorb
pub mod Reserve
pub mod Written
pub mod Invariant
pub mod Safety
mod Tests
use project_priv.Prelude.{
  ℕ, zero, suc, ◌+◌, ◌-◌, ◌*◌, List, [], ◌∷◌, ◌++◌, Option, none, some, Bool, true, false, ◌||◌,
  ltb, leb, ◌==◌, if◌then◌else◌, update,
}

abbrev pub Block : Type 0
Block = ℕ → ℕ

-- param.h: LOGSIZE, MAXOPBLOCKS
abbrev pub max_op_blocks : ℕ
max_op_blocks = 10

abbrev pub log_size : ℕ
log_size = max_op_blocks * 3

abbrev pub Write : Type 0
Write = ℕ × Block

pub record Store : Type 0 where
  pub cache : ℕ → Block
  pub disk : ℕ → Block
  pub pins : ℕ → ℕ
  pub trace : List Write

-- `b->data` is replaced and `bwrite(b)` called, as log.c always does.
unfoldable pub bwrite : ℕ → Block → Store → Store
bwrite b d s = record s {
  cache = update s.cache b d;
  disk = update s.disk b d;
  trace = s.trace ++ ((b, d) ∷ []);
}

unfoldable pub bpin : ℕ → Store → Store
bpin b s = record s { pins = update s.pins b (s.pins b + 1) }

unfoldable pub bunpin : ℕ → Store → Store
bunpin b s = record s { pins = update s.pins b (s.pins b - 1) }

-- `struct log` with its `struct logheader`
pub record Log : Type 0 where
  pub start : ℕ
  pub size : ℕ
  pub outstanding : ℕ
  pub committing : Bool
  pub n : ℕ
  pub block : ℕ → ℕ

-- The loop of `install_trans` with `k` rounds left.
pub install_loop : Bool → Log → (k tail : ℕ) → Store → Store
install_loop recovering l zero tail s = s
install_loop recovering l (suc k) tail s =
    let s1 = bwrite (l.block tail) (s.cache (l.start + tail + 1)) s in
    let s2 = if recovering then s1 else bunpin (l.block tail) s1 in
    install_loop recovering l k (tail + 1) s2

pub install_trans : Bool → Log → Store → Store
install_trans recovering l s = install_loop recovering l l.n 0 s

-- `log.lh.block[i] = lh->block[i]`
pub read_loop : Block → (k i : ℕ) → (ℕ → ℕ) → ℕ → ℕ
read_loop lh zero i block = block
read_loop lh (suc k) i block = read_loop lh k (i + 1) (update block i (lh (i + 1)))

pub read_head : Log → Store → Log
read_head l s =
    let lh = s.cache l.start in record l { n = lh 0; block = read_loop lh (lh 0) 0 l.block }

-- `hb->block[i] = log.lh.block[i]`
pub head_loop : (ℕ → ℕ) → (k i : ℕ) → Block → Block
head_loop block zero i hb = hb
head_loop block (suc k) i hb = head_loop block k (i + 1) (update hb (i + 1) (block i))

-- The header block that `write_head` writes over the old one.
pub head_block : Log → Block → Block
head_block l buf = head_loop l.block l.n 0 (update buf 0 l.n)

pub write_head : Log → Store → Store
write_head l s = bwrite l.start (head_block l (s.cache l.start)) s

pub recover_from_log : Log → Store → Log × Store
recover_from_log l s =
    let l1 = read_head l s in
    let s1 = install_trans true l1 s in let l2 = record l1 { n = 0 } in (l2, write_head l2 s1)

-- `log` is static, so its other fields are zero. The check of the header's size is on constants.
pub initlog : (logstart nlog : ℕ) → Store → Log × Store
initlog logstart nlog s =
    recover_from_log
      (record {
        start = logstart;
        size = nlog;
        outstanding = 0;
        committing = false;
        n = 0;
        block = λ i. 0;
      })
      s

-- The loop of `write_log` with `k` rounds left.
pub write_loop : Log → (k tail : ℕ) → Store → Store
write_loop l zero tail s = s
write_loop l (suc k) tail s =
    write_loop l k (tail + 1) (bwrite (l.start + tail + 1) (s.cache (l.block tail)) s)

pub write_log : Log → Store → Store
write_log l s = write_loop l l.n 0 s

-- The body of `commit` under `log.lh.n > 0`.
pub commit_log : Log → Store → Log × Store
commit_log l s =
    let s1 = write_log l s in
    let s2 = write_head l s1 in
    let s3 = install_trans false l s2 in let l' = record l { n = 0 } in (l', write_head l' s3)

pub commit : Log → Store → Log × Store
commit l s = if ltb 0 l.n then commit_log l s else (l, s)

-- One round of the loop of `begin_op`: `none` is a `sleep`, after which the round runs again.
pub begin_op : Log → Option Log
begin_op l =
    if l.committing || ltb log_size (l.n + (l.outstanding + 1) * max_op_blocks)
    then none
    else some (record l { outstanding = l.outstanding + 1 })

-- `end_op` up to its first `release`: the log and whether to commit. `none` is a panic.
pub end_op_enter : Log → Option (Log × Bool)
end_op_enter l =
    let l1 = record l { outstanding = l.outstanding - 1 } in
    if l.committing
    then none
    else if l1.outstanding == 0
    then some (record l1 { committing = true }, true)
    else some (l1, false)

-- `end_op` from `commit()` on.
pub end_op_commit : Log → Store → Log × Store
end_op_commit l s = let (l1, s1) = commit l s in (record l1 { committing = false }, s1)

-- The index at which the scan of `log_write` stops, with `k` rounds left.
pub absorb : (ℕ → ℕ) → ℕ → (k i : ℕ) → ℕ
absorb block b zero i = i
absorb block b (suc k) i = let rest = absorb block b k (i + 1) in if block i == b then i else rest

-- `none` is a panic.
pub log_write : Log → ℕ → Store → Option (Log × Store)
log_write l b s =
    let i = absorb l.block b l.n 0 in
    let l1 = record l { block = update l.block i b } in
    if leb log_size l.n || leb (l.size - 1) l.n
    then none
    else if ltb l.outstanding 1
    then none
    else if i == l.n
    then some (record l1 { n = l1.n + 1 }, bpin b s)
    else some (l1, s)
