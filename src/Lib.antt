-- ===== src/Lib.antt =====
-- The xv6 kernel for RISC-V (kernel/) with its user programs (user/), and the shell user/my_shell.c.
--
-- The parts and how they interact. System calls on files (kernel/sysfile.c, kernel/file.c) reach pipes
-- (kernel/pipe.c), devices such as the console (kernel/console.c), or inodes (kernel/fs.c). Inode
-- operations run between `begin_op` and `end_op` of the write-ahead log (kernel/log.c), which writes
-- blocks through the buffer cache (kernel/bio.c) and the disk driver. Processes (kernel/proc.c) are
-- created, scheduled, put to sleep and reaped under the locks of kernel/spinlock.c. All of them use the
-- byte functions of kernel/string.c.
--
-- Which file models what:
--   Prelude: shared names, Boolean tests on numbers, `uint` arithmetic modulo 2^32 (`add32`, `sub32`),
--     lists indexed by numbers, and `update` of a map at one place.
--   Log: kernel/log.c. `Store` is what the buffer cache shows the log: cached contents, disk, pins, and
--     the disk writes in order, so that a crash is a prefix of the writes. `Log` is `struct log`.
--     `begin_op`, `log_write`, `end_op` and `initlog` are functions of the same names; `end_op` is cut
--     where it releases the lock, since other processes run there. Log/Reserve interleaves system calls,
--     each of which changes cached blocks and calls `log_write`, with commits; Log/Invariant has what
--     all their states keep. The log is `size` blocks
--     from `start` on, the header first.
--   Pipe: kernel/pipe.c. `pipewrite` and `piperead` are cut where they sleep; the outcome of a run says
--     whether the call returned, failed or sleeps. The counts wrap modulo 2^32 as in the code.
--   Proc: kernel/proc.c. The process table is a map from 0..63; `allocproc`, `fork`, `exit`, `wait`,
--     `kill`, `sleep`, `wakeup`, `yield` and the scheduler's choice are functions, and a step relation
--     interleaves them. `fork` is one step, also where the source gives up the child's lock before it
--     sets the parent.
--   Files: the reference counts of kernel/file.c and the descriptors of kernel/sysfile.c, with the loops
--     over descriptors of `fork` and `exit`. `ofile` is by process and descriptor.
--   Bio: kernel/bio.c. The buffers, the ring of them in order of use as a list, and reference counts.
--     Whether the caller of `brelse` holds the buffer's sleep lock is an argument.
--   Vm: kernel/vm.c, and the page tables that kernel/proc.c makes. `Ram` has the bytes of memory and the
--     free pages in the order that kalloc gives them (Kalloc has how they are linked through memory).
--     Vm/Words has 64-bit words, Vm/User the operations on a process's table, Vm/Boot the kernel's table,
--     Vm/Copy `copyin`, `copyinstr` and `copyout`, Vm/Fetch what system calls make of them.
--     Vm/Table says which pages make up a table.
--   Kalloc: kernel/kalloc.c. The free list through the first bytes of its pages.
--   Console: kernel/console.c. The input ring with its three counts, the keyboard handler and a read.
--   Shell: user/my_shell.c. How a command line is cut at `|` and `;`, split into words, and stripped of
--     redirections.
--   Sh: the parser of user/sh.c. A position in the line is its address. `parseline`, `parsepipe`,
--     `parseexec` and `parseblock` are mutual and take fuel; Sh/Words and Sh/Lex are about words and tokens, Sh/Commands says what
--     a sound command is, Sh/Parse is about the parser's functions, Sh/Memory and
--     Sh/Ends about what `parsecmd` leaves in memory.
--   Fs: kernel/fs.c on one disk. A block is its bytes, and `Disk` has what `bread` returns for each and
--     the calls of `log_write`. Fs/Bytes has bits and little-endian numbers in a block, Fs/Bitmap
--     `balloc` and `bfree`, Fs/Inode the format of an inode (`iupdate`, `ilock`), Fs/Blocks `bmap` and
--     `itrunc`, Fs/Content `readi` and `writei`, Fs/Table the table of inodes in memory (`iget`, `iput`,
--     `ialloc`), where a pointer to an inode is its place.
--   Paths: kernel/fs.c, `skipelem`, and in Paths/Directory `dirlookup`, `dirlink` and `namex`, which use
--     Fs/Table, Fs/Content and the comparisons of Strings.
--     Paths/Calls has the calls of kernel/sysfile.c that make and remove names (`sys_link`, `sys_unlink`,
--     `create`, `sys_mkdir`, `sys_mknod`, `sys_chdir`) on the inode table, the disk, the process's
--     directory, the count of the open transactions, and for each inode how often the call holds its lock.
--   Locks: kernel/spinlock.c. CPUs acquire and release locks in steps; `acquire` is cut at its loop, and
--     `acquired` records, beside the program's own state, which CPUs have left it and not released since.
--   Grep: user/grep.c, `match` on strings as their characters. `matchstar` takes `matchhere` of the rest
--     of the pattern as an argument. Grep/Pattern says independently what a pattern means.
--   Strings: kernel/string.c over a memory of bytes.
--   Ulib: user/ulib.c over a memory of bytes; a loop to the end of a string takes fuel.
--   Uprintf: `printint` of user/printf.c, as the characters that it writes; Uprintf/Decimal is about `atoi`
--     of Ulib on them.
-- In each, the file beside a folder has the definitions, and the folder the proofs and, in Tests, the
-- theorems at concrete inputs.
--
-- Bounds and fuel. A loop over an array or with a counter recurses on the rounds that it has left,
-- which the code's own bound gives. The loop of Control-U in the console recurses on the size of the
-- ring, which bounds the number of bytes being edited. The loop of `balloc` over the blocks of the
-- bitmap recurses on their number, and a loop of `readi` or `writei` on the number of bytes, of
-- which each round takes one at least. The walk of `namex` has a round for each character of the path
-- and one more, with what it would give without a round left as an argument, and a loop over a directory one for each entry and one more. The loop of
-- `freerange` recurses on the number of pages below its end, and so do the loops of kernel/vm.c; those
-- that copy recurse on the number of bytes. The cut of a command line into commands recurses on the
-- length of the line, and each cut makes it shorter. The parser of user/sh.c may nest four calls for each
-- byte of the line and four more; its loops have a round for each byte left and one more. The loop
-- of `printint` divides its number by the base, and may take one round more than the number.
--
-- What a model takes as a parameter: user memory (`copyin`, `copyout`) outside Vm, whether a page can be
-- allocated, and which process runs next. A function that holds a lock is one step.
--
-- Not modelled: code that only drives hardware (kernel/uart.c, kernel/plic.c, kernel/virtio_disk.c,
-- kernel/start.c, kernel/trap.c, the assembly), memory ordering below the spin locks, the sleep locks of
-- kernel/sleeplock.c and so those of buffers and inodes (Paths/Calls has those of inodes that a call takes itself), `open`,
-- `read`, `write`, `exec` and `pipe` of kernel/sysfile.c, program loading (kernel/exec.c), `runcmd` and
-- `main` of user/sh.c, and the other user programs.
pub mod Prelude
pub mod Log
pub mod Pipe
pub mod Proc
pub mod Strings
pub mod Console
pub mod Files
pub mod Shell
pub mod Kalloc
pub mod Bio
pub mod Fs
pub mod Grep
pub mod Paths
pub mod Locks
pub mod Ulib
pub mod Uprintf
pub mod Vm
pub mod Sh
