-- ===== src/Fs/Content/Read.antt =====
-- `readi` delivers the bytes of the file.
use project_priv.Prelude.{
  ◌>>=◌, ℕ, zero, suc, ◌+◌, ◌-◌, ◌*◌, ◌/◌, ◌<◌, ◌≤◌, ◌≡◌, ◌≢◌, refl, sym, ap, ◌∙◌, ◌++◌, some, Bool,
  true, false, ltb, Bool-cases, inl, inr, arith, ne→==, min, u32, add32,
}
use project_priv.Fs.{bsize, maxfile, Superblock, Disk}
use project_priv.Fs.Inode.{Inode}
use project_priv.Fs.Blocks.Mapping.{lookup}
use project_priv.Fs.Blocks.Bmap.{bmap-there}
use project_priv.Fs.Content.{chunk, read_loop, readi}
use project_priv.Fs.Content.Bytes.{content, content-add, bytes_from-content}

-- Every block below the file's size is there.
pub record IsFull (ip : Inode) (s : Disk) : Type 0 where
  pub size : ip.size ≤ maxfile * bsize
  pub there : (bn : ℕ) → bn * bsize < ip.size → lookup ip s bn ≢ 0

abbrev pub takes_all : ℕ → ℕ → Bool
takes_all dst m = true

module _ (sb : Superblock) (ip : Inode) (s : Disk) (full : IsFull ip s) where
  read_loop-content :
      (k dst off n tot : ℕ)
      → n - tot ≤ k
      → tot ≤ n
      → off + (n - tot) ≤ ip.size
      → read_loop sb takes_all k dst off n tot ip s
        ≡ some (some n, ip, s, content ip s off (n - tot))
  unfolding read_loop content
  read_loop-content zero dst off n tot h l q =
      let e : tot ≡ n = omega arith in let z : n - tot ≡ 0 = omega arith in rw (z, e) refl
  read_loop-content (suc k) dst off n tot h l q = elim (Bool-cases (ltb tot n)) [
    | inr f ↦
        let e : tot ≡ n = ground (arith, f) in
        let z : n - tot ≡ 0 = omega (arith, e) in rw (read_loop, f, z, e) refl
    | inl t ↦
        let less : tot < n = ground (arith, t) in
        let m = chunk n tot off in
        let bn = off / bsize in
        let some_bytes : 0 < m = omega arith in
        let here : lookup ip s bn ≢ 0 = full.there bn (omega arith) in
        let found = bmap-there sb bn ip s (omega (arith, full.size)) here in
        let rest =
          read_loop-content k (dst + m) (off + m) n (tot + m) (omega arith) (omega arith)
            (omega arith) in
        let split : n - tot ≡ m + (n - (tot + m)) = omega arith in
        rw (read_loop, t, found, ◌>>=◌, ne→== (lookup ip s bn) 0 here, rest)
          (ap (λ l. some (some n, ip, s, l))
            (ap (λ l. l ++ content ip s (off + m) (n - (tot + m)))
                (bytes_from-content ip s off m bn refl (omega arith))
              ∙ sym (content-add ip s off m (n - (tot + m)))
              ∙ ap (content ip s off) (sym split)))
  ]

  read_whole :
      (dst off n : ℕ)
      → off + n ≤ ip.size
      → read_loop sb takes_all n dst off n 0 ip s ≡ some (some n, ip, s, content ip s off n)
  read_whole dst off n h =
      let z : n - 0 ≡ n = omega arith in
      read_loop-content n dst off n 0 (omega arith) (omega arith) (omega arith)
      ∙ ap (λ (m : ℕ). some (some n, ip, s, content ip s off m)) z

  -- When every block below the size of a file of at most the largest size is there and the reader's
  -- memory takes every byte, `readi` of `n` bytes at an offset, the two together below 2^32,
  -- changes nothing and returns the number of bytes from the offset to the file's end, or `n` if
  -- that is less, and delivers just these bytes of the file, and nothing from an offset past the
  -- end.
  pub readi_lem :
      (dst off n : ℕ)
      → off + n < u32
      → readi sb takes_all dst off n ip s
        ≡ some (some (min n (ip.size - off)), ip, s, content ip s off (min n (ip.size - off)))
  unfolding readi content
  readi_lem dst off n h =
      let small : (ltb (add32 off n) off) ≡ false = ground arith in
      elim (Bool-cases (ltb ip.size off)) [
        | inl past ↦
            let none_left : min n (ip.size - off) ≡ 0 = ground (arith, past) in
            rw (readi, past, none_left) refl
        | inr inside ↦ elim (Bool-cases (ltb ip.size (off + n))) [
          | inl more ↦
              let e : min n (ip.size - off) ≡ ip.size - off = ground (arith, more) in
              rw (readi, inside, small, more, e)
                (read_whole dst off (ip.size - off) (ground (arith, inside)))
          | inr fits ↦
              let e : min n (ip.size - off) ≡ n = ground (arith, fits, inside) in
              rw (readi, inside, small, fits, e) (read_whole dst off n (ground (arith, fits)))
        ]
      ]
