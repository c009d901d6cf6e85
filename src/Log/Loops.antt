-- ===== src/Log/Loops.antt =====
-- The loops of kernel/log.c: the header's words, and the disk writes that the copies make.
use project_priv.Prelude.{
  ℕ, zero, suc, ◌+◌, ◌≤◌, ◌<◌, ◌≡◌, refl, sym, ap, ◌∙◌, ◌≢◌, ◌⊎◌, inl, inr, List, [], ◌∷◌, ◌++◌,
  append-nil, append_assoc, Bool, true, false, arith, length, take, update, update_self, update_ne,
  if◌then◌else◌, ◌==◌, Bool-cases, ℕ_discrete,
}
use project_priv.Log.{
  Block, Store, Write, Log, bwrite, bunpin, read_loop, head_loop, install_loop, write_loop,
}

-- The log has `size` blocks from `start` on, the header first.
abbrev pub OutsideLog : (start size b : ℕ) → Type 0
OutsideLog start size b = (b < start) ⊎ (start + size ≤ b)

read_loop_before :
    (lh : Block) (k i : ℕ) (block : ℕ → ℕ) (j : ℕ) → j < i → read_loop lh k i block j ≡ block j
unfolding read_loop update
read_loop_before lh zero i block j h = refl
read_loop_before lh (suc k) i block j h =
    ground (arith, read_loop_before lh k (i + 1) (update block i (lh (i + 1))) j)

-- What `read_head` reads into `block[j]`.
pub read_loop-in :
    (lh : Block) (k i : ℕ) (block : ℕ → ℕ) (j : ℕ)
    → i ≤ j
    → j < i + k
    → read_loop lh k i block j ≡ lh (j + 1)
unfolding read_loop update
read_loop-in lh zero i block j h h' = absurd (omega arith)
read_loop-in lh (suc k) i block j h h' = elim (Bool-cases (j == i)) [
  | inl e ↦ ground (arith, read_loop_before lh k (i + 1) (update block i (lh (i + 1))) j)
  | inr e ↦ ground (arith, read_loop-in lh k (i + 1) (update block i (lh (i + 1))) j)
]

-- Words before the loop's first are kept.
pub head_loop_before :
    (block : ℕ → ℕ) (k i : ℕ) (hb : Block) (w : ℕ) → w ≤ i → head_loop block k i hb w ≡ hb w
unfolding head_loop update
head_loop_before block zero i hb w h = refl
head_loop_before block (suc k) i hb w h =
    ground (arith, head_loop_before block k (i + 1) (update hb (i + 1) (block i)) w)

-- The word that `write_head` writes for `block[j]`.
pub head_loop-in :
    (block : ℕ → ℕ) (k i : ℕ) (hb : Block) (j : ℕ)
    → i ≤ j
    → j < i + k
    → head_loop block k i hb (j + 1) ≡ block j
unfolding head_loop update
head_loop-in block zero i hb j h h' = absurd (omega arith)
head_loop-in block (suc k) i hb j h h' = elim (Bool-cases (j == i)) [
  | inl e ↦ ground (arith, head_loop_before block k (i + 1) (update hb (i + 1) (block i)) (j + 1))
  | inr e ↦ ground (arith, head_loop-in block k (i + 1) (update hb (i + 1) (block i)) j)
]

-- The disk after some writes.
unfoldable pub replay : (ℕ → Block) → List Write → ℕ → Block
replay d [] = d
replay d ((b, x) ∷ ws) = replay (update d b x) ws

pub replay-append :
    (d : ℕ → Block) (xs ys : List Write) → replay d (xs ++ ys) ≡ replay (replay d xs) ys
unfolding replay
replay-append d [] ys = refl
replay-append d ((b, x) ∷ xs) ys = replay-append (update d b x) xs ys

-- The writes of a copy loop: block `src i` to `to i`, for `k` values of `i` from `t` on.
unfoldable pub copies : (ℕ → Block) → (ℕ → ℕ) → (k t : ℕ) → List Write
copies src to zero t = []
copies src to (suc k) t = (to t, src t) ∷ copies src to k (t + 1)

pub length-copies : (src : ℕ → Block) (to : ℕ → ℕ) (k t : ℕ) → length (copies src to k t) ≡ k
unfolding copies
length-copies src to zero t = refl
length-copies src to (suc k) t = ap suc (length-copies src to k (t + 1))

-- A block that the loop does not write is kept, also when the loop stops early.
pub replay-copies_frame :
    (src : ℕ → Block) (to : ℕ → ℕ) (j k t : ℕ) (d : ℕ → Block) (b : ℕ)
    → ((i : ℕ) → t ≤ i → i < t + k → b ≢ to i)
    → replay d (take j (copies src to k t)) b ≡ d b
unfolding replay copies
replay-copies_frame src to zero k t d b h = refl
replay-copies_frame src to (suc j) zero t d b h = refl
replay-copies_frame src to (suc j) (suc k) t d b h =
    replay-copies_frame src to j k (t + 1) (update d (to t) (src t)) b
      (λ i p q. h i (omega arith) (omega arith))
    ∙ update_ne d (to t) (src t) b (h t (omega arith) (omega arith))

-- A block that the loop writes holds its new contents once it is written.
pub replay-copies_hit :
    (src : ℕ → Block) (to : ℕ → ℕ) (j k t : ℕ) (d : ℕ → Block) (i : ℕ)
    → ((i j : ℕ) → t ≤ i → i < j → j < t + k → to i ≢ to j)
    → t ≤ i
    → i < t + k
    → i < t + j
    → replay d (take j (copies src to k t)) (to i) ≡ src i
unfolding replay copies
replay-copies_hit src to zero k t d i apart h h' hj = absurd (omega arith)
replay-copies_hit src to (suc j) zero t d i apart h h' hj = absurd (omega arith)
replay-copies_hit src to (suc j) (suc k) t d i apart h h' hj = elim (ℕ_discrete i t) [
  | yes e ↦ rw e (
      replay-copies_frame src to j k (t + 1) (update d (to t) (src t)) (to t)
        (λ i' p q. apart t i' (omega arith) (omega arith) (omega arith))
      ∙ update_self d (to t) (src t))
  | no ne ↦
      replay-copies_hit src to j k (t + 1) (update d (to t) (src t)) i
        (λ i' j' p q r. apart i' j' (omega arith) q (omega arith)) (omega arith) (omega arith)
        (omega arith)
]

-- From `s` the code made the writes `ws`, to the cache and to the disk, and came to `s'`.
pub record Wrote (s : Store) (ws : List Write) (s' : Store) : Type 0 where
  pub trace : s'.trace ≡ s.trace ++ ws
  pub disk : s'.disk ≡ replay s.disk ws
  pub cache : s'.cache ≡ replay s.cache ws

pub Wrote-nil : (s : Store) → Wrote s [] s
unfolding replay
Wrote-nil s = record { trace = sym (append-nil s.trace); disk = refl; cache = refl }

pub Wrote-append :
    {s t u : Store} {xs ys : List Write} → Wrote s xs t → Wrote t ys u → Wrote s (xs ++ ys) u
Wrote-append {s} {t} {u} {xs} {ys} a b = record {
  trace = b.trace ∙ ap (λ l. l ++ ys) a.trace ∙ append_assoc s.trace xs ys;
  disk = b.disk ∙ ap (λ d. replay d ys) a.disk ∙ sym (replay-append s.disk xs ys);
  cache = b.cache ∙ ap (λ d. replay d ys) a.cache ∙ sym (replay-append s.cache xs ys);
}

pub bwrite-Wrote : (b : ℕ) (d : Block) (s : Store) → Wrote s ((b, d) ∷ []) (bwrite b d s)
unfolding bwrite replay
bwrite-Wrote b d s = record { trace = refl; disk = refl; cache = refl }

bunpin-Wrote : {s t : Store} {ws : List Write} (b : ℕ) → Wrote s ws t → Wrote s ws (bunpin b t)
unfolding bunpin
bunpin-Wrote b w = record { trace = w.trace; disk = w.disk; cache = w.cache }

-- `write_log` copies the logged blocks, as the cache holds them, to the log.
pub write_loop-Wrote :
    (l : Log) (src : ℕ → Block) (k t : ℕ) (s : Store)
    → ((i : ℕ) → t ≤ i → i < t + k → s.cache (l.block i) ≡ src i)
    → ((i : ℕ) → t ≤ i → i < t + k → OutsideLog l.start l.size (l.block i))
    → t + k < l.size
    → Wrote s (copies src (λ i. l.start + i + 1) k t) (write_loop l k t s)
unfolding write_loop copies bwrite
write_loop-Wrote l src zero t s reads home fits = Wrote-nil s
write_loop-Wrote l src (suc k) t s reads home fits = rw (reads t (omega arith) (omega arith)) (
    Wrote-append (bwrite-Wrote (l.start + t + 1) (src t) s) (
      write_loop-Wrote l src k (t + 1) (bwrite (l.start + t + 1) (src t) s) reads'
        (λ i p q. home i (omega arith) (omega arith)) (omega arith)))
  where
    reads' :
        (i : ℕ)
        → t + 1 ≤ i
        → i < t + 1 + k
        → (bwrite (l.start + t + 1) (src t) s).cache (l.block i) ≡ src i
    reads' i p q =
        update_ne s.cache (l.start + t + 1) (src t) (l.block i)
          (omega (arith, home i (omega arith) (omega arith)))
        ∙ reads i (omega arith) (omega arith)

-- `install_trans` copies the log's blocks to their homes.
pub install_loop-Wrote :
    (r : Bool) (l : Log) (src : ℕ → Block) (k t : ℕ) (s : Store)
    → ((i : ℕ) → t ≤ i → i < t + k → s.cache (l.start + i + 1) ≡ src i)
    → ((i : ℕ) → t ≤ i → i < t + k → OutsideLog l.start l.size (l.block i))
    → t + k < l.size
    → Wrote s (copies src l.block k t) (install_loop r l k t s)
unfolding install_loop copies bwrite bunpin
install_loop-Wrote r l src zero t s reads home fits = Wrote-nil s
install_loop-Wrote r l src (suc k) t s reads home fits = rw (reads t (omega arith) (omega arith)) (
    Wrote-append written (
      install_loop-Wrote r l src k (t + 1) next reads' (λ i p q. home i (omega arith) (omega arith))
        (omega arith)))
  where
    s1 : Store
    s1 = bwrite (l.block t) (src t) s

    next : Store
    next = if r then s1 else bunpin (l.block t) s1

    written : Wrote s ((l.block t, src t) ∷ []) next
    written =
        elim r
          as (λ r. Wrote s ((l.block t, src t) ∷ []) (if r then s1 else bunpin (l.block t) s1)) [
            | true ↦ bwrite-Wrote (l.block t) (src t) s
            | false ↦ bunpin-Wrote (l.block t) (bwrite-Wrote (l.block t) (src t) s)
          ]

    cache_next : (b : ℕ) → next.cache b ≡ update s.cache (l.block t) (src t) b
    cache_next b =
        elim r
          as (λ r.
            (if r then s1 else bunpin (l.block t) s1).cache b
            ≡ update s.cache (l.block t) (src t) b) [ true ↦ refl | false ↦ refl ]

    reads' : (i : ℕ) → t + 1 ≤ i → i < t + 1 + k → next.cache (l.start + i + 1) ≡ src i
    reads' i p q =
        cache_next (l.start + i + 1)
        ∙ update_ne s.cache (l.block t) (src t) (l.start + i + 1)
            (omega (arith, home t (omega arith) (omega arith)))
        ∙ reads i (omega arith) (omega arith)
