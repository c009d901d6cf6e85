-- ===== src/Log/Absorb.antt =====
-- The header that `log_write` of kernel/log.c leaves: absorption keeps its entries distinct.
use project_priv.Prelude.{
  ℕ, zero, suc, ◌+◌, ◌≤◌, ◌<◌, ◌≡◌, sym, ◌≢◌, arith, update, update_self, update_ne, eq→==, ne→==,
  ℕ_discrete,
}
use project_priv.Log.{absorb, log_size}
use project_priv.Log.Loops.{OutsideLog}
use project_priv.Log.Recovery.{IsHeader}

-- Where the scan for an absorbed block stops.
pub record Scanned (block : ℕ → ℕ) (b stop r : ℕ) : Type 0 where
  pub bound : r ≤ stop
  pub found : r < stop → block r ≡ b
  pub fresh : (j : ℕ) → j < r → block j ≢ b

pub absorb-Scanned :
    (block : ℕ → ℕ) (b k i : ℕ)
    → ((j : ℕ) → j < i → block j ≢ b)
    → Scanned block b (i + k) (absorb block b k i)
unfolding absorb
absorb-Scanned block b zero i h = record {
  bound = omega arith;
  found = λ p. absurd (omega arith);
  fresh = h;
}
absorb-Scanned block b (suc k) i h = elim (ℕ_discrete (block i) b) [
  | yes e ↦ rw (eq→== (block i) b e) (record { bound = omega arith; found = λ p. e; fresh = h })
  | no ne ↦
      let e : i + suc k ≡ i + 1 + k = omega arith in
      rw (ne→== (block i) b ne, e)
        (absorb-Scanned block b k (i + 1)
          (λ j p. elim (ℕ_discrete j i) [ yes e ↦ rw e ne | no j_ne ↦ h j (omega arith) ]))
]

-- The header after `log_write` has chosen entry `r`.
pub IsHeader-absorbed :
    (start size n r b : ℕ) (block : ℕ → ℕ)
    → IsHeader start size n block
    → r < n
    → block r ≡ b
    → IsHeader start size n (update block r b)
IsHeader-absorbed start size n r b block ok h e = record {
  fits = ok.fits;
  within = ok.within;
  home = λ i p. rw (same i) (ok.home i p);
  distinct = λ i j p q. rw (same i, same j) (ok.distinct i j p q);
}
  where
    same : (i : ℕ) → update block r b i ≡ block i
    same i = elim (ℕ_discrete i r) [
      | yes e' ↦ rw (e', update_self) (sym e)
      | no ne ↦ update_ne block r b i ne
    ]

pub IsHeader-added :
    (start size n b : ℕ) (block : ℕ → ℕ)
    → IsHeader start size n block
    → n < log_size
    → n + 1 < size
    → OutsideLog start size b
    → ((j : ℕ) → j < n → block j ≢ b)
    → IsHeader start size (n + 1) (update block n b)
unfolding update
IsHeader-added start size n b block ok room space out fresh = record {
  fits = omega arith;
  within = space;
  home = λ i p. ground (arith, ok.home i);
  distinct = λ i j p q. ground (arith, ok.distinct i j p, fresh i);
}
