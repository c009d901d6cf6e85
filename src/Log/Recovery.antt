-- ===== src/Log/Recovery.antt =====
-- Recovery of kernel/log.c after a crash, and after a crash of the recovery itself.
use project_priv.Prelude.{
  ℕ, zero, suc, ◌+◌, ◌-◌, ◌≤◌, ◌<◌, ◌≡◌, refl, sym, ap, subst, ◌∙◌, ◌≢◌, ◌⊎◌, inl, inr, List, [],
  ◌∷◌, ◌++◌, true, false, arith, length, take, take-append, take_all, append-nil, length-append,
  update, update_self, update_ne, ℕ_discrete, dec_le,
}
use project_priv.Log.{
  Block, Store, Log, Write, read_loop, read_head, install_trans, write_head, recover_from_log,
  initlog, log_size, head_block,
}
use project_priv.Log.Loops.{
  OutsideLog, Wrote, Wrote-append, bwrite-Wrote, replay, replay-append, copies, length-copies,
  replay-copies_frame, replay-copies_hit, install_loop-Wrote, read_loop-in, head_loop_before,
}

-- The machine after a reboot: nothing is cached.
unfoldable pub boot : (ℕ → Block) → Store
boot d = record { cache = d; disk = d; pins = λ b. 0; trace = [] }

-- The disk after `initlog`.
unfoldable pub recovered : (logstart nlog : ℕ) → (ℕ → Block) → ℕ → Block
recovered logstart nlog d = (initlog logstart nlog (boot d)).1.disk

-- The `n` blocks of a transaction fit the header's array and the log's `size` blocks, are apart, and are none of the log's own.
pub record IsHeader (start size n : ℕ) (block : ℕ → ℕ) : Type 0 where
  pub fits : n ≤ log_size
  pub within : n < size
  pub home : (i : ℕ) → i < n → OutsideLog start size (block i)
  pub distinct : (i j : ℕ) → i < j → j < n → block i ≢ block j

-- The disk's log header names those blocks.
pub record HoldsHeader (d : ℕ → Block) (start n : ℕ) (block : ℕ → ℕ) : Type 0 where
  pub count : d start 0 ≡ n
  pub names : (i : ℕ) → i < n → d start (i + 1) ≡ block i

-- A block is one of the first `n`, or none of them.
pub find_block :
    (block : ℕ → ℕ) (c n : ℕ)
    → ((i : ℕ) × (i < n) × (block i ≡ c)) ⊎ ((i : ℕ) → i < n → block i ≢ c)
find_block block c zero = inr (λ i h. elim h [ ])
find_block block c (suc n) = elim (ℕ_discrete (block n) c) [
  | yes e ↦ inl (n, omega arith, e)
  | no ne ↦ elim (find_block block c n) [
    | inl (i, h, e) ↦ inl (i, omega arith, e)
    | inr none_of ↦
        inr (λ i h. elim (ℕ_discrete i n) [ yes e ↦ rw e ne | no i_ne ↦ none_of i (omega arith) ])
  ]
]

copies_congr :
    (src : ℕ → Block) (to to' : ℕ → ℕ) (k t : ℕ)
    → ((i : ℕ) → t ≤ i → i < t + k → to i ≡ to' i)
    → copies src to k t ≡ copies src to' k t
unfolding copies
copies_congr src to to' zero t h = refl
copies_congr src to to' (suc k) t h = rw (
  h t (omega arith) (omega arith),
  copies_congr src to to' k (t + 1) (λ i p q. h i (omega arith) (omega arith)),
)

pub head_block_count : (l : Log) (buf : Block) → head_block l buf 0 ≡ l.n
unfolding head_block
head_block_count l buf =
    head_loop_before l.block l.n 0 (update buf 0 l.n) 0 (omega arith) ∙ update_self buf 0 l.n

-- The writes of a recovery from the disk `d`, with the header that it leaves.
abbrev pub recovery_writes :
    (start n : ℕ) (block : ℕ → ℕ) (d : ℕ → Block) (cleared : Block) → List Write
recovery_writes start n block d cleared =
    copies (λ i. d (start + i + 1)) block n 0 ++ ((start, cleared) ∷ [])

-- What the code does to recover.
pub recover-Wrote :
    (start nlog n : ℕ) (block : ℕ → ℕ) (d : ℕ → Block)
    → IsHeader start nlog n block
    → HoldsHeader d start n block
    → (cleared : Block) × (cleared 0 ≡ 0)
      × Wrote (boot d) (recovery_writes start n block d cleared) (initlog start nlog (boot d)).1
unfolding initlog recover_from_log write_head install_trans read_head boot
recover-Wrote start nlog n block d ok held = (
  head_block (record l1 { n = 0 }) (s1.cache start),
  head_block_count (record l1 { n = 0 }) _,
  Wrote-append (subst (λ ws. Wrote (boot d) ws s1) same installed) (bwrite-Wrote start _ s1),
)
  where
    src : ℕ → Block
    src i = d (start + i + 1)

    l1 : Log
    l1 = record {
      start = start;
      size = nlog;
      outstanding = 0;
      committing = false;
      n = d start 0;
      block = read_loop (d start) (d start 0) 0 (λ i. 0);
    }

    s1 : Store
    s1 = install_trans true l1 (boot d)

    names : (i : ℕ) → i < n → l1.block i ≡ block i
    names i h =
        read_loop-in (d start) (d start 0) 0 (λ i. 0) i (omega arith) (omega (arith, held.count))
        ∙ held.names i h

    home : (i : ℕ) → 0 ≤ i → i < 0 + d start 0 → OutsideLog start nlog (l1.block i)
    home i p q = let h : i < n = omega (arith, held.count) in rw (names i h) (ok.home i h)

    installed : Wrote (boot d) (copies src l1.block (d start 0) 0) s1
    installed =
        install_loop-Wrote true l1 src (d start 0) 0 (boot d) (λ i p q. refl) home
          (omega (arith, held.count, ok.within))

    same : copies src l1.block (d start 0) 0 ≡ copies src block n 0
    same =
        ap (λ k. copies src l1.block k 0) held.count
        ∙ copies_congr src l1.block block n 0 (λ i p q. names i (omega arith))

-- The logged blocks hold the log's copies, the other blocks what they held.
pub record Installed (start n : ℕ) (block : ℕ → ℕ) (d d' : ℕ → Block) : Type 0 where
  pub hit : (i : ℕ) → i < n → d' (block i) ≡ d (start + i + 1)
  pub frame : (c : ℕ) → c ≢ start → ((i : ℕ) → i < n → block i ≢ c) → d' c ≡ d c

Installed-unique :
    {start n : ℕ} {block : ℕ → ℕ} {d d1 d2 : ℕ → Block}
    → Installed start n block d d1
    → Installed start n block d d2
    → (c : ℕ) → c ≢ start
    → d1 c ≡ d2 c
Installed-unique {start} {n} {block} {d} {d1} {d2} a b c ne = elim (find_block block c n) [
  | inl (i, h, e) ↦ subst (λ c. d1 c ≡ d2 c) e (a.hit i h ∙ sym (b.hit i h))
  | inr none_of ↦ a.frame c ne none_of ∙ sym (b.frame c ne none_of)
]

pub take-copies :
    (src : ℕ → Block) (to : ℕ → ℕ) (n : ℕ) → take n (copies src to n 0) ≡ copies src to n 0
take-copies src to n = take_all n (copies src to n 0) (omega (arith, length-copies src to n 0))

-- The writes of a recovery, all made, install the blocks.
pub replay-Installed :
    (start nlog n : ℕ) (block : ℕ → ℕ) (d : ℕ → Block) (cleared : Block)
    → IsHeader start nlog n block
    → Installed start n block d (replay d (recovery_writes start n block d cleared))
replay-Installed start nlog n block d cleared ok = record {
  hit = λ i h.
      last (block i) (omega (arith, ok.home i h))
      ∙ ap (λ ws. replay d ws (block i)) (sym (take-copies src block n))
      ∙ replay-copies_hit src block n n 0 d i (λ i j p q r. ok.distinct i j q (omega arith))
          (omega arith) (omega arith) (omega arith);
  frame = λ c ne none_of.
      last c ne
      ∙ ap (λ ws. replay d ws c) (sym (take-copies src block n))
      ∙ replay-copies_frame src block n n 0 d c (λ i p q e. none_of i (omega arith) (sym e));
}
  where
    src : ℕ → Block
    src i = d (start + i + 1)

    last :
        (c : ℕ)
        → c ≢ start
        → replay d (recovery_writes start n block d cleared) c ≡ replay d (copies src block n 0) c
    last c ne =
        ap (λ f. f c) (replay-append d (copies src block n 0) ((start, cleared) ∷ []))
        ∙ unfold replay in update_ne (replay d (copies src block n 0)) start cleared c ne

pub recovered-Installed :
    (start nlog n : ℕ) (block : ℕ → ℕ) (d : ℕ → Block)
    → IsHeader start nlog n block
    → HoldsHeader d start n block
    → Installed start n block d (recovered start nlog d)
unfolding recovered boot
recovered-Installed start nlog n block d ok held =
    let (cleared, zeroed, w) = recover-Wrote start nlog n block d ok held in
    subst (Installed start n block d) (sym w.disk)
      (replay-Installed start nlog n block d cleared ok)

-- A log whose header counts no block recovers to the disk as it stands.
pub recovered_empty :
    (start nlog : ℕ) (d : ℕ → Block) (c : ℕ)
    → 0 < nlog
    → d start 0 ≡ 0
    → c ≢ start
    → recovered start nlog d c ≡ d c
recovered_empty start nlog d c some_log e ne =
    (recovered-Installed start nlog 0 (λ i. 0) d
        (record {
          fits = omega arith;
          within = some_log;
          home = λ i h. elim h [ ];
          distinct = λ i j p q. elim q [ ];
        })
        (record { count = e; names = λ i h. elim h [ ] })).frame
      c ne (λ i h. elim h [ ])

take_recovery_early :
    (start n : ℕ) (block : ℕ → ℕ) (d : ℕ → Block) (cleared : Block) (m : ℕ)
    → m ≤ n
    → take m (recovery_writes start n block d cleared)
      ≡ take m (copies (λ i. d (start + i + 1)) block n 0)
take_recovery_early start n block d cleared m h =
    take-append m ws ((start, cleared) ∷ [])
    ∙ (let e : m - length ws ≡ 0 = omega (arith, length-copies src block n 0) in
        rw e (append-nil (take m ws)))
  where
    src : ℕ → Block
    src i = d (start + i + 1)

    ws : List Write
    ws = copies src block n 0

take_recovery_late :
    (start n : ℕ) (block : ℕ → ℕ) (d : ℕ → Block) (cleared : Block) (m : ℕ)
    → n < m
    → take m (recovery_writes start n block d cleared) ≡ recovery_writes start n block d cleared
take_recovery_late start n block d cleared m h =
    take_all m (recovery_writes start n block d cleared) (
      omega (
        arith,
        length-append (copies (λ i. d (start + i + 1)) block n 0) ((start, cleared) ∷ []),
        length-copies (λ i. d (start + i + 1)) block n 0,
      ))

-- However many of its writes a recovery has made, a recovery after that ends in the same disk.
pub recover_again :
    (start nlog n : ℕ) (block : ℕ → ℕ) (d : ℕ → Block) (cleared : Block) (m c : ℕ)
    → IsHeader start nlog n block
    → HoldsHeader d start n block
    → cleared 0 ≡ 0
    → OutsideLog start nlog c
    → recovered start nlog (replay d (take m (recovery_writes start n block d cleared))) c
      ≡ recovered start nlog d c
recover_again start nlog n block d cleared m c ok held zeroed out = elim (dec_le m n) [
  | yes early ↦ rw (take_recovery_early start n block d cleared m early) (recover_partial early)
  | no late ↦ rw (take_recovery_late start n block d cleared m (omega arith)) recover_full
]
  where
    src : ℕ → Block
    src i = d (start + i + 1)

    recover_partial :
        m ≤ n
        → recovered start nlog (replay d (take m (copies src block n 0))) c
          ≡ recovered start nlog d c
    recover_partial early =
        Installed-unique
          (record {
            hit = λ i h.
                again.hit i h ∙ keep (start + i + 1) (omega arith) (omega (arith, ok.within));
            frame = λ b ne none_of.
                again.frame b ne none_of
                ∙ replay-copies_frame src block m n 0 d b
                    (λ i p q e. none_of i (omega arith) (sym e));
          })
          (recovered-Installed start nlog n block d ok held) c (omega arith)
      where
        d' : ℕ → Block
        d' = replay d (take m (copies src block n 0))

        keep : (b : ℕ) → start ≤ b → b < start + nlog → d' b ≡ d b
        keep b p q =
            replay-copies_frame src block m n 0 d b
              (λ i p' q'. omega (arith, ok.home i (omega arith)))

        again : Installed start n block d' (recovered start nlog d')
        again = recovered-Installed start nlog n block d' ok (record {
          count = rw (keep start (omega arith) (omega arith)) held.count;
          names = λ i h. rw (keep start (omega arith) (omega arith)) (held.names i h);
        })

    recover_full :
        recovered start nlog (replay d (recovery_writes start n block d cleared)) c
        ≡ recovered start nlog d c
    recover_full =
        recovered_empty start nlog full c (omega (arith, ok.within)) (rw replay_header zeroed)
          (omega arith)
        ∙ Installed-unique (replay-Installed start nlog n block d cleared ok)
            (recovered-Installed start nlog n block d ok held) c (omega arith)
      where
        full : ℕ → Block
        full = replay d (recovery_writes start n block d cleared)

        replay_header : full start ≡ cleared
        replay_header =
            ap (λ f. f start) (replay-append d (copies src block n 0) ((start, cleared) ∷ []))
            ∙ unfold replay in update_self (replay d (copies src block n 0)) start cleared

-- Recovery from any disk whose header names distinct blocks outside the log, at most `log_size` and
-- fewer than the log's `nlog` blocks, cut short by a crash after any number `m` of its disk writes
-- and run again, leaves every block outside the log as one uninterrupted recovery does. The log is
-- the `nlog` blocks from `start` on, the header first.
pub recover_crash :
    (start nlog m c : ℕ) (d : ℕ → Block)
    → IsHeader start nlog (d start 0) (λ i. d start (i + 1))
    → OutsideLog start nlog c
    → recovered start nlog (replay d (take m (initlog start nlog (boot d)).1.trace)) c
      ≡ recovered start nlog d c
unfolding boot
recover_crash start nlog m c d ok out =
    let held : HoldsHeader d start (d start 0) (λ i. d start (i + 1)) = record {
      count = refl;
      names = λ i h. refl;
    } in
    let (cleared, zeroed, w) =
      recover-Wrote start nlog (d start 0) (λ i. d start (i + 1)) d ok held in
    rw w.trace
      (recover_again start nlog (d start 0) (λ i. d start (i + 1)) d cleared m c ok held zeroed out)
