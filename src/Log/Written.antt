-- ===== src/Log/Written.antt =====
-- What `log_write` of kernel/log.c leaves, and when it panics.
use project_priv.Prelude.{
  ℕ, ◌+◌, ◌≤◌, ◌<◌, ◌≡◌, refl, sym, ap, ◌∙◌, some, arith, update, update_self, ℕ_discrete, none,
  update_ne,
}
use project_priv.Log.{Store, Log, log_write, absorb, bpin, log_size}
use project_priv.Log.Loops.{OutsideLog}
use project_priv.Log.Recovery.{IsHeader}
use project_priv.Log.Absorb.{Scanned, absorb-Scanned, IsHeader-absorbed, IsHeader-added}

-- What `log_write` leaves when it does not panic.
pub record Logged (l : Log) (b : ℕ) (s : Store) (l' : Log) (s' : Store) : Type 0 where
  pub count : l'.n ≤ l.n + 1
  pub outstanding : l'.outstanding ≡ l.outstanding
  pub committing : l'.committing ≡ l.committing
  pub size : l'.size ≡ l.size
  pub start : l'.start ≡ l.start
  pub disk : s'.disk ≡ s.disk
  pub cache : s'.cache ≡ s.cache
  pub header : IsHeader l.start l.size l'.n l'.block
  pub logged : (j : ℕ) × (j < l'.n) × (l'.block j ≡ b)
  pub covers : (i : ℕ) → i < l.n → (j : ℕ) × (j < l'.n) × (l'.block j ≡ l.block i)

pub log_write-some :
    (l : Log) (b : ℕ) (s : Store)
    → IsHeader l.start l.size l.n l.block
    → OutsideLog l.start l.size b
    → l.n < log_size
    → l.n + 1 < l.size
    → 0 < l.outstanding
    → (l' : Log) × (s' : Store) × (log_write l b s ≡ some (l', s')) × Logged l b s l' s'
unfolding log_write bpin
log_write-some l b s ok out room size run = elim (ℕ_discrete r l.n) [
  | yes e ↦ (
    record l1 { n = l.n + 1 },
    bpin b s,
    ground (arith, e),
    record {
      count = omega arith;
      outstanding = refl;
      committing = refl;
      size = refl;
      start = refl;
      disk = refl;
      cache = refl;
      header = rw e (
          IsHeader-added l.start l.size l.n b l.block ok room size out
            (λ j p. scan.fresh j (omega arith)));
      logged = (r, omega (arith, e), update_self l.block r b);
      covers = λ i h. (i, omega arith, update_ne l.block r b i (λ q. omega (arith, q, h, e)));
    },
  )
  | no ne ↦ (
    l1,
    s,
    ground (arith, ne),
    record {
      count = omega arith;
      outstanding = refl;
      committing = refl;
      size = refl;
      start = refl;
      disk = refl;
      cache = refl;
      logged = (r, omega (arith, scan.bound, ne), update_self l.block r b);
      covers = λ i h. (
        i,
        h,
        elim (ℕ_discrete i r) [
          | yes q ↦
              ap (update l.block r b) q
              ∙ update_self l.block r b
              ∙ sym (scan.found (omega (arith, scan.bound, ne)))
              ∙ ap l.block (sym q)
          | no q ↦ update_ne l.block r b i q
        ],
      );
      header =
          IsHeader-absorbed l.start l.size l.n r b l.block ok (omega (arith, scan.bound))
            (scan.found (omega (arith, scan.bound)));
    },
  )
]
  where
    r : ℕ
    r = absorb l.block b l.n 0

    l1 : Log
    l1 = record l { block = update l.block r b }

    scan : Scanned l.block b (0 + l.n) r
    scan = absorb-Scanned l.block b l.n 0 (λ j p. elim p [ ])

-- `log_write` panics when the log is full.
pub log_write-full : (l : Log) (b : ℕ) (s : Store) → l.size ≤ l.n + 1 → log_write l b s ≡ none
unfolding log_write
log_write-full l b s h = ground arith

pub log_write-size :
    (l : Log) (b : ℕ) (s : Store) {l' : Log} {s' : Store}
    → log_write l b s ≡ some (l', s')
    → (l'.start ≡ l.start) × (l'.size ≡ l.size)
unfolding log_write
log_write-size l b s e = (ground arith, ground arith)
