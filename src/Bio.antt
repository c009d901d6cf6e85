-- ===== src/Bio.antt =====
-- kernel/bio.c: the buffer cache.
-- A buffer is its index in `bcache.buf[]`. The ring through `prev` and `next` is the list of the buffers
-- from `head.next` on, most recently used first. Each function is one step under `bcache.lock`; the
-- sleep lock of a buffer, which `bget` takes last, is not modelled. `none` is a panic.
pub mod Unique
pub mod Release
mod Tests
use project_priv.Prelude.{
  ◌>>=◌, ℕ, zero, suc, ◌+◌, ◌-◌, List, [], ◌∷◌, ◌++◌, Option, none, some, Bool, true, false, ◌&&◌,
  ◌==◌, if◌then◌else◌, update, not, sub32,
}

-- param.h: NBUF
abbrev pub nbuf : ℕ
nbuf = 30

pub record Buf : Type 0 where
  pub valid : Bool
  pub dev : ℕ
  pub blockno : ℕ
  pub refcnt : ℕ
  pub contents : ℕ → ℕ

pub record Cache : Type 0 where
  pub buf : ℕ → Buf
  pub order : List ℕ

-- The first buffer of a list that passes the test.
pub find : (Buf → Bool) → (ℕ → Buf) → List ℕ → Option ℕ
find test buf [] = none
find test buf (b ∷ bs) = let rest = find test buf bs in if test (buf b) then some b else rest

abbrev pub reversed : List ℕ → List ℕ
reversed [] = []
reversed (b ∷ bs) = reversed bs ++ (b ∷ [])

abbrev pub is_block : (dev blockno : ℕ) → Buf → Bool
is_block dev blockno b = b.dev == dev && b.blockno == blockno

abbrev pub is_free : Buf → Bool
is_free b = b.refcnt == 0

-- `binit` puts each buffer at the front; `bcache` is static, so the fields are zero.
pub binit_loop : (k b : ℕ) → List ℕ → List ℕ
binit_loop zero b order = order
binit_loop (suc k) b order = binit_loop k (b + 1) (b ∷ order)

pub binit : Cache
binit = record {
  buf = λ b. record { valid = false; dev = 0; blockno = 0; refcnt = 0; contents = λ i. 0 };
  order = binit_loop nbuf 0 [];
}

abbrev pub set_buf : ℕ → Buf → Cache → Cache
set_buf b v s = record s { buf = update s.buf b v }

pub bget : (dev blockno : ℕ) → Cache → Option (ℕ × Cache)
bget dev blockno s = elim (find (is_block dev blockno) s.buf s.order) [
  | some b ↦ some (b, set_buf b (record (s.buf b) { refcnt = (s.buf b).refcnt + 1 }) s)
  | none ↦ elim (find is_free s.buf (reversed s.order)) [
    | some b ↦ some (
      b,
      set_buf b (record (s.buf b) { dev = dev; blockno = blockno; valid = false; refcnt = 1 }) s,
    )
    | none ↦ none
  ]
]

-- `disk` is what `virtio_disk_rw` reads.
pub bread : (disk : ℕ → ℕ → ℕ → ℕ) (dev blockno : ℕ) → Cache → Option (ℕ × Cache)
bread disk dev blockno s = do
  (b, s1) ← bget dev blockno s
  some (
    b,
    (if (s1.buf b).valid
        then s1
        else set_buf b (record (s1.buf b) { contents = disk dev blockno; valid = true }) s1),
  )

pub without : ℕ → List ℕ → List ℕ
without b [] = []
without b (x ∷ xs) = let rest = without b xs in if x == b then xs else x ∷ rest

-- `brelse`; `holds` is `holdingsleep` of the buffer's lock, and the count is 32 bits wide.
pub brelse : (holds : Bool) → ℕ → Cache → Option Cache
brelse holds b s =
    let s1 = set_buf b (record (s.buf b) { refcnt = sub32 (s.buf b).refcnt 1 }) s in
    if not holds
    then none
    else if (s1.buf b).refcnt == 0
    then some (record s1 { order = b ∷ without b s.order })
    else some s1

pub bpin : ℕ → Cache → Cache
bpin b s = set_buf b (record (s.buf b) { refcnt = (s.buf b).refcnt + 1 }) s

pub bunpin : ℕ → Cache → Cache
bunpin b s = set_buf b (record (s.buf b) { refcnt = (s.buf b).refcnt - 1 }) s
