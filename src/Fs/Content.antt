-- ===== src/Fs/Content.antt =====
-- kernel/fs.c: `readi` and `writei`, a file's content as bytes.
-- The reader's or writer's memory is a parameter. `copyout` is whether a range of the reader's memory can be
-- written; `memory` has the writer's bytes, and `copyin` is how many of a range can be read, where fewer
-- than asked for is the result -1 of `either_copyin`, after these have been copied.
pub mod Bytes
pub mod Read
pub mod Store
pub mod Write
pub mod Writei
pub mod Saved
use project_priv.Prelude.{
  ◌>>=◌, ℕ, zero, suc, ◌+◌, ◌-◌, ◌*◌, ◌/◌, ◌%◌, List, [], ◌∷◌, ◌++◌, Option, none, some, Bool, true,
  false, ◌==◌, ◌&&◌, ◌||◌, if◌then◌else◌, ltb, leb, update, add32, min,
}
use project_priv.Fs.{Block, bsize, maxfile, Superblock, Disk, log_write}
use project_priv.Fs.Inode.{Inode, iupdate}
use project_priv.Fs.Blocks.{bmap}

-- `m` bytes of a block.
pub bytes_from : Block → (o m : ℕ) → List ℕ
bytes_from d o zero = []
bytes_from d o (suc m) = d o ∷ bytes_from d (o + 1) m

-- `m = min(n - tot, BSIZE - off % BSIZE)`
abbrev pub chunk : (n tot off : ℕ) → ℕ
chunk n tot off = min (n - tot) (bsize - off % bsize)

-- The loop of `readi`: each round reads a byte at least, so `n` rounds are enough. The result is `none`
-- for -1, with the inode, the disk, and the bytes that reach the reader; the outer `none` is a panic.
pub read_loop :
    Superblock
    → (copyout : ℕ → ℕ → Bool) (fuel dst off n tot : ℕ) → Inode
    → Disk
    → Option (Option ℕ × Inode × Disk × List ℕ)
read_loop sb copyout zero dst off n tot ip s = some (some tot, ip, s, [])
read_loop sb copyout (suc k) dst off n tot ip s = elim (ltb tot n) [
  | false ↦ some (some tot, ip, s, [])
  | true ↦ do
    (addr, ip1, s1) ← bmap sb (off / bsize) ip s
    let m = chunk n tot off
    elim (addr == 0) [
      | true ↦ some (some tot, ip1, s1, [])
      | false ↦ elim (copyout dst m) [
        | false ↦ some (none, ip1, s1, [])
        | true ↦ do
          (r, ip2, s2, out) ← read_loop sb copyout k (dst + m) (off + m) n (tot + m) ip1 s1
          some (r, ip2, s2, bytes_from (s1.block addr) (off % bsize) m ++ out)
      ]
    ]
]

pub readi :
    Superblock
    → (copyout : ℕ → ℕ → Bool) (dst off n : ℕ) → Inode
    → Disk
    → Option (Option ℕ × Inode × Disk × List ℕ)
readi sb copyout dst off n ip s =
    let n1 = if ltb ip.size (off + n) then ip.size - off else n in
    if ltb ip.size off || ltb (add32 off n) off
    then some (some 0, ip, s, [])
    else read_loop sb copyout n1 dst off n1 0 ip s

-- A block with `m` bytes from `src` on put at offset `o`.
pub put_bytes : (memory : ℕ → ℕ) → Block → (o src m : ℕ) → Block
put_bytes memory d o src m i = if leb o i && ltb i (o + m) then memory (src + (i - o)) else d i

-- The loop of `writei`, with its `off` at the end.
pub write_loop :
    Superblock
    → (memory : ℕ → ℕ) (copyin : ℕ → ℕ → ℕ) (fuel src off n tot : ℕ) → Inode
    → Disk
    → Option (ℕ × ℕ × Inode × Disk)
write_loop sb memory copyin zero src off n tot ip s = some (tot, off, ip, s)
write_loop sb memory copyin (suc k) src off n tot ip s = elim (ltb tot n) [
  | false ↦ some (tot, off, ip, s)
  | true ↦ do
    (addr, ip1, s1) ← bmap sb (off / bsize) ip s
    let m = chunk n tot off
    let got = copyin src m
    let d = put_bytes memory (s1.block addr) (off % bsize) src (min got m)
    elim (addr == 0) [
      | true ↦ some (tot, off, ip1, s1)
      | false ↦ elim (ltb got m) [
        | true ↦ some (tot, off, ip1, record s1 { block = update s1.block addr d })
        | false ↦
            write_loop sb memory copyin k (src + m) (off + m) n (tot + m) ip1 (log_write addr d s1)
      ]
    ]
]

pub writei :
    Superblock
    → (memory : ℕ → ℕ) (copyin : ℕ → ℕ → ℕ) (src off n : ℕ) → Inode
    → Disk
    → Option (Option ℕ × Inode × Disk)
writei sb memory copyin src off n ip s =
    if ltb ip.size off || ltb (add32 off n) off || ltb (maxfile * bsize) (off + n)
    then some (none, ip, s)
    else do
      (tot, end, ip1, s1) ← write_loop sb memory copyin n src off n 0 ip s
      let ip2 = if ltb ip1.size end then record ip1 { size = end } else ip1
      some (some tot, ip2, iupdate sb ip2 s1)
