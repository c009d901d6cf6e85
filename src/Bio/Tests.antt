-- ===== src/Bio/Tests.antt =====
-- The theorems about kernel/bio.c at concrete inputs.
use project_priv.Prelude.{ℕ, ◌≡◌, ◌⊎◌, refl, inl, inr, [], ◌∷◌, true, none, some, false, arith}
use project_priv.Bio.{Cache, binit, bget, brelse, is_block, is_free, find, binit_loop}
use project_priv.Bio.Release.{Released, brelse_lem}
use project_priv.Bio.Unique.{In, Unique, Got, bget_lem}

binit-Unique : Unique binit
unfolding binit
binit-Unique b c i j e f n = absurd (n refl)

bget_lem_example :
    ((bget 1 33 binit ≡ none)
      × ((c : ℕ)
          → In c binit.order
          → (is_block 1 33 (binit.buf c) ≡ false) × (is_free (binit.buf c) ≡ false)))
    ⊎ ((b : ℕ) × (t : Cache) × (bget 1 33 binit ≡ some (b, t)) × Got 1 33 binit b t)
bget_lem_example = bget_lem 1 33 binit binit-Unique

-- The least recently used buffer of a new cache is buffer 0.
bget_first : elim (bget 1 33 binit) as (λ o. ℕ) [ none ↦ 99 | some (b, t) ↦ b ] ≡ 0
unfolding bget binit find binit_loop
bget_first = refl

-- Buffer 4 in use twice, among three.
abbrev shared : Cache
shared = record {
  buf = λ b. record { valid = true; dev = 1; blockno = b; refcnt = 2; contents = λ i. 0 };
  order = 7 ∷ 4 ∷ 9 ∷ [];
}

brelse_lem_example :
    (brelse false 4 shared ≡ none)
    × (t : Cache) × (brelse true 4 shared ≡ some t)
    × Released 4 shared t
brelse_lem_example =
    brelse_lem 4 shared (inr (inl refl)) (λ b c i j e f n. f) (omega arith) (omega arith)
