-- ===== src/Fs/Content/Bytes.antt =====
-- The bytes of a file, through its block map.
use project_priv.Prelude.{
  ℕ, zero, suc, ◌+◌, ◌/◌, ◌%◌, ◌≤◌, ◌≡◌, refl, ap, ap₂, ◌∙◌, List, [], ◌∷◌, ◌++◌, arith,
}
use project_priv.Fs.{bsize, Disk}
use project_priv.Fs.Inode.{Inode}
use project_priv.Fs.Blocks.Mapping.{lookup}
use project_priv.Fs.Content.{bytes_from}

add_zero : (a : ℕ) → a + 0 ≡ a
add_zero a = omega arith

zero_add : (a : ℕ) → 0 + a ≡ a
zero_add a = omega arith

suc_add : (a b : ℕ) → suc a + b ≡ suc (a + b)
suc_add a b = omega arith

add_suc : (a b : ℕ) → a + suc b ≡ a + 1 + b
add_suc a b = omega arith

-- The byte at offset `x`.
abbrev pub byte_at : Inode → Disk → ℕ → ℕ
byte_at ip s x = s.block (lookup ip s (x / bsize)) (x % bsize)

unfoldable pub content : Inode → Disk → (off n : ℕ) → List ℕ
content ip s off zero = []
content ip s off (suc n) = byte_at ip s off ∷ content ip s (off + 1) n

pub content-add :
    (ip : Inode) (s : Disk) (off m n : ℕ)
    → content ip s off (m + n) ≡ content ip s off m ++ content ip s (off + m) n
unfolding content
content-add ip s off zero n = rw (add_zero off, zero_add n) refl
content-add ip s off (suc m) n =
    rw (suc_add m n, add_suc off m)
      (ap (λ l. byte_at ip s off ∷ l) (content-add ip s (off + 1) m n))

-- The bytes of one block.
pub bytes_from-content :
    (ip : Inode) (s : Disk) (off m bn : ℕ)
    → bn ≡ off / bsize
    → off % bsize + m ≤ bsize
    → bytes_from (s.block (lookup ip s bn)) (off % bsize) m ≡ content ip s off m
unfolding bytes_from content
bytes_from-content ip s off zero bn e h = refl
bytes_from-content ip s off (suc zero) bn e h =
    ap (λ (x : ℕ). s.block (lookup ip s x) (off % bsize) ∷ []) e
bytes_from-content ip s off (suc (suc m)) bn e h =
    let step : off % bsize + 1 ≡ (off + 1) % bsize = omega arith in
    ap₂ ◌∷◌ (ap (λ (x : ℕ). s.block (lookup ip s x) (off % bsize)) e) (
      ap (λ (o : ℕ). bytes_from (s.block (lookup ip s bn)) o (suc m)) step
      ∙ bytes_from-content ip s (off + 1) (suc m) bn (omega (arith, e)) (omega arith))
