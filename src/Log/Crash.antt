-- ===== src/Log/Crash.antt =====
-- `commit` of kernel/log.c: what it installs, and what a crash during it leaves.
use project_priv.Prelude.{
  ℕ, zero, suc, ◌+◌, ◌-◌, ◌≤◌, ◌<◌, ◌≡◌, refl, sym, ap, subst, ◌∙◌, ◌≢◌, inl, inr, List, [], ◌∷◌,
  Bool, true, false, ◌||◌, arith, length, take, drop, take-append, take_all, append-nil,
  drop-append, ◌++◌, update, update_self, update_ne, lt→ltb, leb, ◌==◌, dec_le, ℕ_discrete,
  if◌then◌else◌, Bool-cases, ◌⊎◌,
}
use project_priv.Log.{Block, Store, Log, Write, commit, commit_log}
use project_priv.Log.Loops.{
  OutsideLog, replay, replay-append, copies, length-copies, replay-copies_frame, replay-copies_hit,
}
use project_priv.Log.Recovery.{
  IsHeader, HoldsHeader, Installed, recovered, recovered_empty, recover_again, replay-Installed,
  recovered-Installed, find_block, take-copies,
}
use project_priv.Log.Commit.{log_writes, committed, committed-logged, commit_log-Wrote}

-- Whether `c` is one of the first `n` blocks.
abbrev pub is_logged : (ℕ → ℕ) → ℕ → ℕ → Bool
is_logged block c zero = false
is_logged block c (suc n) = block n == c || is_logged block c n

is_logged_hit : (block : ℕ → ℕ) (i n : ℕ) → i < n → is_logged block (block i) n ≡ true
is_logged_hit block i zero h = elim h [ ]
is_logged_hit block i (suc n) h = elim (ℕ_discrete i n) [
  | yes e ↦ rw e (ground arith)
  | no ne ↦ rw (is_logged_hit block i n (omega arith)) (ground arith)
]

is_logged_none :
    (block : ℕ → ℕ) (c n : ℕ) → ((i : ℕ) → i < n → block i ≢ c) → is_logged block c n ≡ false
is_logged_none block c zero h = refl
is_logged_none block c (suc n) h =
    ground (arith, h n (omega arith), is_logged_none block c n (λ i p. h i (omega arith)))

drop-length : (ws : List Write) → drop (length ws) ws ≡ []
drop-length [] = refl
drop-length (w ∷ ws) = drop-length ws

take_nil : (j : ℕ) → take {A = Write} j [] ≡ []
take_nil zero = refl
take_nil (suc j) = refl

-- The transaction as one step: each logged block holds what the cache holds, the others are kept.
abbrev pub after_commit : Log → Store → ℕ → Block
after_commit l s c = if is_logged l.block c l.n then s.cache c else s.disk c

-- The disk after the first `j` disk writes that `commit` makes.
abbrev pub crashed : Log → Store → ℕ → ℕ → Block
crashed l s j = replay s.disk (take j (drop (length s.trace) (commit l s).1.trace))

module _ (l : Log) (s : Store) (ok : IsHeader l.start l.size l.n l.block) where
  committed_start : (head : Block) → committed l s ok s.disk head l.start ≡ head
  unfolding committed
  committed_start head = update_self _ l.start head

  -- Writing the log, as far as it gets, changes no other block.
  logs_frame :
      (j : ℕ) (d : ℕ → Block) (c : ℕ)
      → ((i : ℕ) → 0 ≤ i → i < 0 + l.n → c ≢ l.start + i + 1)
      → replay d (take j (log_writes l s)) c ≡ d c
  logs_frame j d c h =
      replay-copies_frame (λ i. s.cache (l.block i)) (λ i. l.start + i + 1) j l.n 0 d c h

  committed_frame :
      (head : Block) (c : ℕ)
      → OutsideLog l.start l.size c
      → committed l s ok s.disk head c ≡ s.disk c
  unfolding committed
  committed_frame head c out =
      update_ne _ l.start head c (omega arith)
      ∙ ap (λ ws. replay s.disk ws c) (sym (take-copies _ _ l.n))
      ∙ logs_frame l.n s.disk c (λ i p q. omega (arith, ok.within))

  Installed-after :
      (head : Block) {d : ℕ → Block} (c : ℕ)
      → Installed l.start l.n l.block (committed l s ok s.disk head) d
      → OutsideLog l.start l.size c
      → d c ≡ after_commit l s c
  Installed-after head {d} c a out = elim (find_block l.block c l.n) [
    | inl (i, h, e) ↦
        subst (λ c. d c ≡ after_commit l s c) e
          (rw (is_logged_hit l.block i l.n h) (a.hit i h ∙ committed-logged l s ok s.disk head i h))
    | inr none_of ↦
        rw (is_logged_none l.block c l.n none_of)
          (a.frame c (omega arith) none_of ∙ committed_frame head c out)
  ]

  -- The disk after `j` of the writes.
  abbrev crashed_log : ℕ → ℕ → Block
  crashed_log j = replay s.disk (take j (drop (length s.trace) (commit_log l s).1.trace))

  crashed_log_early :
      (j c : ℕ)
      → j ≤ l.n
      → s.disk l.start 0 ≡ 0
      → OutsideLog l.start l.size c
      → recovered l.start l.size (crashed_log j) c ≡ s.disk c
  crashed_log_early j c h clear out =
      let (head, cleared, _, _, _, w) = commit_log-Wrote l s ok in
      rw (w.trace, drop-append s.trace, take-append j (log_writes l s), short, append-nil)
        (recovered_empty l.start l.size (replay s.disk (take j (log_writes l s))) c
            (omega (arith, ok.within))
            (ap (λ b. b 0) (logs_frame j s.disk l.start (λ i p q. omega arith)) ∙ clear)
            (omega arith)
          ∙ logs_frame j s.disk c (λ i p q. omega (arith, ok.within)))
    where
      short : j - length (log_writes l s) ≡ 0
      short = omega (arith, length-copies (λ i. s.cache (l.block i)) (λ i. l.start + i + 1) l.n 0)

  crashed_log_late :
      (j c : ℕ)
      → l.n < j
      → OutsideLog l.start l.size c
      → recovered l.start l.size (crashed_log j) c ≡ after_commit l s c
  crashed_log_late j c h out =
      let (head, cleared, counts, names, zeroed, w) = commit_log-Wrote l s ok in
      let D : (ℕ → Block) = committed l s ok s.disk head in
      let held : HoldsHeader D l.start l.n l.block = record {
        count = ap (λ b. b 0) (committed_start head) ∙ counts;
        names = λ i p. ap (λ b. b (i + 1)) (committed_start head) ∙ names i p;
      } in
      rw
        (
          w.trace,
          drop-append s.trace,
          take-append j (log_writes l s),
          rest,
          take_all j (log_writes l s) (omega (arith, long)),
          replay-append s.disk (log_writes l s),
        )
        (unfold replay committed in
          (recover_again l.start l.size l.n l.block D cleared (j - l.n - 1) c ok held zeroed out
            ∙ Installed-after head c (recovered-Installed l.start l.size l.n l.block D ok held)
                out))
    where
      long : length (log_writes l s) ≡ l.n
      long = length-copies (λ i. s.cache (l.block i)) (λ i. l.start + i + 1) l.n 0

      rest : j - length (log_writes l s) ≡ suc (j - l.n - 1)
      rest = omega (arith, long)

  commit_log_disk :
      (c : ℕ) → OutsideLog l.start l.size c → (commit_log l s).1.disk c ≡ after_commit l s c
  commit_log_disk c out =
      let (head, cleared, _, _, _, w) = commit_log-Wrote l s ok in
      let D : (ℕ → Block) = committed l s ok s.disk head in
      rw (w.disk, replay-append s.disk (log_writes l s))
        (unfold replay committed in
          Installed-after head c (replay-Installed l.start l.size l.n l.block D cleared ok) out)

  -- What the cache has for a block outside the log stays, whether the block is installed or not.
  commit_log_cache : (c : ℕ) → OutsideLog l.start l.size c → (commit_log l s).1.cache c ≡ s.cache c
  commit_log_cache c out =
      let (head, cleared, _, _, _, w) = commit_log-Wrote l s ok in
      let D : (ℕ → Block) = committed l s ok s.disk head in
      let X : (ℕ → Block) = update (replay s.cache (log_writes l s)) l.start head in
      let ws : List Write = copies (λ i. D (l.start + i + 1)) l.block l.n 0 in
      let all : take l.n ws ≡ ws = take-copies (λ i. D (l.start + i + 1)) l.block l.n in
      let last : replay X (ws ++ ((l.start, cleared) ∷ [])) c ≡ replay X ws c =
        ap (λ (f : ℕ → Block). f c) (replay-append X ws ((l.start, cleared) ∷ []))
        ∙ unfold replay in update_ne (replay X ws) l.start cleared c (omega arith) in
      let before : X c ≡ s.cache c =
        update_ne (replay s.cache (log_writes l s)) l.start head c (omega arith)
        ∙ ap (λ ws. replay s.cache ws c) (sym (take-copies _ _ l.n))
        ∙ logs_frame l.n s.cache c (λ i p q. omega (arith, ok.within)) in
      let copied : replay X ws c ≡ s.cache c =
        ap (λ (v : List Write). replay X v c) (sym all) ∙ elim (find_block l.block c l.n) [
          | inl (i, h, e) ↦
              subst (λ c. replay X (take l.n ws) c ≡ s.cache c) e
                (replay-copies_hit (λ i. D (l.start + i + 1)) l.block l.n l.n 0 X i
                    (λ i j p q r. ok.distinct i j q (omega arith)) (omega arith) (omega arith)
                    (omega arith)
                  ∙ committed-logged l s ok s.disk head i h)
          | inr none_of ↦
              replay-copies_frame (λ i. D (l.start + i + 1)) l.block l.n l.n 0 X c
                (λ i p q e. none_of i (omega arith) (sym e))
              ∙ before
        ] in
      rw (w.cache, replay-append s.cache (log_writes l s))
        (unfold replay committed in (last ∙ copied))

  commit_some : 0 < l.n → commit l s ≡ commit_log l s
  unfolding commit
  commit_some h = rw (lt→ltb 0 l.n h)

  commit_none : l.n ≡ 0 → commit l s ≡ (l, s)
  unfolding commit
  commit_none h = ground arith

  crashed_none : (j : ℕ) → l.n ≡ 0 → crashed l s j ≡ s.disk
  unfolding replay
  crashed_none j h = rw (commit_none h, drop-length s.trace, take_nil j)

  after_commit_none : (c : ℕ) → l.n ≡ 0 → after_commit l s c ≡ s.disk c
  after_commit_none c h =
      let e : is_logged l.block c l.n ≡ false =
        is_logged_none l.block c l.n (λ i p. absurd (omega arith)) in
      rw e

-- After a commit of at most `log_size` distinct blocks outside the log, fewer than the log's
-- blocks, each of them has on disk what the cache held for it, and every other block outside the
-- log what the disk held before. The log is the `size` blocks from `start` on.
pub commit_installs :
    (l : Log) (s : Store) (c : ℕ)
    → IsHeader l.start l.size l.n l.block
    → OutsideLog l.start l.size c
    → (commit l s).1.disk c ≡ after_commit l s c
commit_installs l s c ok out = elim (ℕ_discrete l.n 0) [
  | yes e ↦ rw (commit_none l s ok e) (sym (after_commit_none l s ok c e))
  | no ne ↦ rw (commit_some l s ok (omega arith)) (commit_log_disk l s ok c out)
]

-- A commit changes no block outside the log in the cache.
pub commit-cache :
    (l : Log) (s : Store) (c : ℕ)
    → IsHeader l.start l.size l.n l.block
    → OutsideLog l.start l.size c
    → (commit l s).1.cache c ≡ s.cache c
commit-cache l s c ok out = elim (ℕ_discrete l.n 0) [
  | yes e ↦ rw (commit_none l s ok e) refl
  | no ne ↦ rw (commit_some l s ok (omega arith)) (commit_log_cache l s ok c out)
]

-- `after_commit` of a block that is not logged.
pub after_commit_other :
    (l : Log) (s : Store) (c : ℕ)
    → s.cache c ≡ s.disk c ⊎ ((i : ℕ) × (i < l.n) × (l.block i ≡ c))
    → after_commit l s c ≡ s.cache c
after_commit_other l s c (inl same) = elim (Bool-cases (is_logged l.block c l.n)) [
  | inl e ↦ rw e refl
  | inr e ↦ rw e (sym same)
]
after_commit_other l s c (inr (i, h, e)) =
    subst (λ c. after_commit l s c ≡ s.cache c) e (rw (is_logged_hit l.block i l.n h) refl)

-- A crash after any number `j` of the disk writes of `commit`, and the recovery at the next boot,
-- leave each block outside the log as it was before the commit if at most `n` of the writes were
-- made, and as after the whole commit otherwise, when the header on disk counted no block before.
pub commit_crash :
    (l : Log) (s : Store) (j c : ℕ)
    → IsHeader l.start l.size l.n l.block
    → s.disk l.start 0 ≡ 0
    → OutsideLog l.start l.size c
    → recovered l.start l.size (crashed l s j) c
      ≡ (if leb j l.n then s.disk c else after_commit l s c)
commit_crash l s j c ok clear out = elim (ℕ_discrete l.n 0) [
  | yes e ↦ rw (crashed_none l s ok j e) (
      ground (
        arith,
        recovered_empty l.start l.size s.disk c (omega (arith, ok.within)) clear,
        after_commit_none l s ok c e,
      ))
  | no ne ↦ rw (commit_some l s ok (omega arith)) (elim (dec_le j l.n) [
    | yes h ↦ ground (arith, crashed_log_early l s ok j c h clear out)
    | no h ↦ ground (arith, crashed_log_late l s ok j c (omega arith) out)
  ])
]
