-- ===== src/Log/Commit.antt =====
-- The disk writes of `commit` of kernel/log.c.
use project_priv.Prelude.{
  ℕ, ◌+◌, ◌<◌, ◌≡◌, refl, sym, ap, ◌∙◌, List, [], ◌∷◌, ◌++◌, false, arith, update, update_ne,
}
use project_priv.Log.{
  Block, Store, Log, Write, commit_log, write_log, write_head, install_trans, bwrite, head_block,
}
use project_priv.Log.Loops.{
  Wrote, Wrote-append, bwrite-Wrote, replay, copies, replay-copies_hit, write_loop-Wrote,
  install_loop-Wrote, head_loop-in,
}
use project_priv.Log.Recovery.{IsHeader, recovery_writes, head_block_count, take-copies}

-- The first half of a commit: the logged blocks go to the log, then the header is written.
abbrev pub log_writes : Log → Store → List Write
log_writes l s = copies (λ i. s.cache (l.block i)) (λ i. l.start + i + 1) l.n 0

module _ (l : Log) (s : Store) (ok : IsHeader l.start l.size l.n l.block) where
  write_log-Wrote : Wrote s (log_writes l s) (write_log l s)
  unfolding write_log
  write_log-Wrote =
      write_loop-Wrote l (λ i. s.cache (l.block i)) l.n 0 s (λ i p q. refl)
        (λ i p q. ok.home i (omega arith)) (omega (arith, ok.within))

  -- The disk, or the cache, once the log is written.
  logged :
      (d : ℕ → Block) (i : ℕ)
      → i < l.n
      → replay d (log_writes l s) (l.start + i + 1) ≡ s.cache (l.block i)
  logged d i h =
      ap (λ ws. replay d ws (l.start + i + 1)) (sym (take-copies _ _ l.n))
      ∙ replay-copies_hit (λ i. s.cache (l.block i)) (λ i. l.start + i + 1) l.n l.n 0 d i
          (λ i j p q r. omega arith) (omega arith) (omega arith) (omega arith)

  -- The disk once the header is written too: the commit point.
  unfoldable pub committed : (ℕ → Block) → Block → ℕ → Block
  committed d head = update (replay d (log_writes l s)) l.start head

  pub committed-logged :
      (d : ℕ → Block) (head : Block) (i : ℕ)
      → i < l.n
      → committed d head (l.start + i + 1) ≡ s.cache (l.block i)
  unfolding committed
  committed-logged d head i h =
      update_ne (replay d (log_writes l s)) l.start head (l.start + i + 1) (omega arith)
      ∙ logged d i h

  -- All the writes of `commit`.
  pub commit_log-Wrote :
      (head cleared : Block) × (head 0 ≡ l.n)
      × ((i : ℕ) → i < l.n → head (i + 1) ≡ l.block i)
      × (cleared 0 ≡ 0)
      × Wrote s
          (log_writes l s
            ++ (l.start, head)
              ∷ recovery_writes l.start l.n l.block (committed s.disk head) cleared)
          (commit_log l s).1
  unfolding commit_log install_trans write_head head_block
  commit_log-Wrote = (
    head,
    cleared,
    head_block_count l _,
    λ i h. head_loop-in l.block l.n 0 _ i (omega arith) (omega arith),
    head_block_count (record l { n = 0 }) _,
    Wrote-append write_log-Wrote (
        Wrote-append (bwrite-Wrote l.start head s1)
          (Wrote-append installed (bwrite-Wrote l.start cleared s3))),
  )
    where
      s1 : Store
      s1 = write_log l s

      head : Block
      head = head_block l (s1.cache l.start)

      s2 : Store
      s2 = bwrite l.start head s1

      s3 : Store
      s3 = install_trans false l s2

      cleared : Block
      cleared = head_block (record l { n = 0 }) (s3.cache l.start)

      cache_logged : (i : ℕ) → i < l.n → s2.cache (l.start + i + 1) ≡ s.cache (l.block i)
      cache_logged i h =
          ap (λ f. f (l.start + i + 1)) (bwrite-Wrote l.start head s1).cache
          ∙ ap (λ f. replay f ((l.start, head) ∷ []) (l.start + i + 1)) write_log-Wrote.cache
          ∙ unfold replay committed in committed-logged s.cache head i h

      installed : Wrote s2 (copies (λ i. committed s.disk head (l.start + i + 1)) l.block l.n 0) s3
      installed =
          install_loop-Wrote false l (λ i. committed s.disk head (l.start + i + 1)) l.n 0 s2
            (λ i p q.
              cache_logged i (omega arith) ∙ sym (committed-logged s.disk head i (omega arith)))
            (λ i p q. ok.home i (omega arith)) (omega (arith, ok.within))
