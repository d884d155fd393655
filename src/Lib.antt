-- ===== src/Lib.antt =====
-- The programs of an operating systems course (directories lab-01 to lab-08) and the xv6 kernel that
-- its laboratories work on, modelled as functions on explicit states.
--
-- Base: shared names, Boolean tests on numbers, C integers, C arrays as lists, counting.
--
-- Sim models lab-07/sim.c, the simulator of page replacement. `Memory` holds its global variables.
-- `modify_process` is the composition of `touch` (the first loop), `resolve` (the flags pass and
-- between), `bring`, `fill_frame`, `evict` and `exchange` (its branches); `Sim.Main` has
-- `create_process`, the loop of `main` over the list of numbers read, and `write_all`. The branches
-- for the options f and l differ in the field that they compare: one function takes the policy. What
-- C leaves undefined (an index out of range, a counter past INT_MAX, `rem_memory` read before it is
-- written) is the result `fault`.
--
-- Pipe models xv6/pipe.c. A run of `pipewrite` or `piperead` between taking the lock and releasing it,
-- or sleeping, is one function; `Pipe.Fifo` has the step relation for any number of readers and
-- writers. The counters wrap at 2 ^ 32. `n` is not negative, as the system calls see to.
--
-- Log models xv6/log.c over a disk that may lose power between two block writes (`bwrite` of
-- xv6/bio.c): `Log.Install`, `Log.Crash` and `Log.Atomic` lead to the atomicity of `commit` with
-- `recover_from_log`, and `Log.Space` has the operations `begin_op`, `log_write`, `end_op` as steps of
-- processes with quotas of MAXOPBLOCKS blocks; mkfs makes a log of LOGSIZE blocks with its header.
--
-- Files models the table of open files of xv6/file.c: `Files.Count` has the steps by which processes open,
-- set up, dup and close, `Files.Alloc` is about `pipealloc` of xv6/pipe.c on the table. What `fileclose`
-- goes on to close is part of its result. `Files.Transfer` has `fileread` and `filewrite` over Fs, and
-- `Files.Transfer.Chunks` what the transactions of the latter come to; the
-- loop of `filewrite` has fuel for one more round than the bytes to write. A count of references stays below 2 ^ 31.
--
-- Fs models blocks and contents of files in xv6/fs.c: a locked inode with the disk. `Fs.Free` is about
-- `balloc`; `Fs.Slots` numbers the blocks of a file (its entries of `addrs`, the indirect block, the
-- entries of that) and says what a new block at one of them keeps, `Fs.Word` and `Fs.Fill` that the
-- allocations of `bmap` are such, `Fs.Bmap` what `bmap` does. `Fs.Store` and `Fs.Write` have the loop of
-- `writei`, `Fs.Read` that of `readi`, `Fs.Content` both calls on the bytes of the file, without the log;
-- `Fs.Logged` has `writei` with its calls of `log_write`, on the log of `Log`: `Fs.Logged.Room` is about room
-- in the log, `Fs.Logged.Whole` and `Fs.Logged.Refused` about the calls, and `Fs.Guards` about what they refuse
-- without the log. `bget` is taken to find a buffer. `filewrite` stands over `writei_data`, without the log:
-- its transactions write 1536 bytes at most, in four blocks. `Fs.Truncate` has `itrunc`. `Fs.Path` has `skipelem` on a path as
-- its text, `Fs.Dir` `dirlookup` up to the `iget` of what it finds, with `namecmp` over `strncmp`; its loop
-- has fuel for one round more than the directory has bytes. The loop of `balloc` has fuel for as many rounds as the disk has blocks and one more, the
-- loops of `readi` and `writei` for one more than the bytes to move, as each round moves one at least.
-- The drivers of devices are a parameter. Block numbers and sizes are `uint`.
--
-- Vm models the page tables of xv6/vm.c in pages named by their kernel addresses and read as words, with
-- the list of the allocator; `growproc` of xv6/proc.c and `sys_pgcnt` of xv6/sysproc.c stand there too.
-- `Vm.Own` is about pages that are apart, `Vm.Space` about the pages of a directory and its entries,
-- `Vm.Walk` and `Vm.Map` about one entry, `Vm.Shrink` about `deallocuvm`, `Vm.Grow` and `Vm.Alloc` about
-- `allocuvm`, `Vm.Count` about `sys_pgcnt`, `Vm.Resize` about `growproc`. The loop of `mappages` has fuel
-- for every page of the address space, those of `allocuvm` and `deallocuvm` for one round for each page
-- up to the larger size and two more.
--
-- Proc models the process table of xv6/proc.c. A function that calls `sched` is what it does before;
-- `Proc.Machine` has the scheduler and these functions as steps of any number of processors. `fork`
-- takes the results of `kalloc` and `copyuvm`; as it does not hold the lock throughout, its parts are
-- separate steps. `nextpid` is taken to stay below 2 ^ 31.
--
-- Buffer models lab-05/buf.c: each call of the producer's and the consumer's loops is a step, in any
-- interleaving; `Buffer.Main` adds `main`, which destroys the mutex and the semaphores meanwhile: a call on
-- one that is gone is `undefined`. Kalloc models xv6/kalloc.c, with the free list in the words of the free pages. The loop
-- of `freerange` has fuel for one round for each address of the range. Strings models `memmove`,
-- `strncpy`, `safestrcpy` and `strncmp` of xv6/string.c on a memory of bytes by address. Bio models which block
-- each buffer of xv6/bio.c holds, with the list of buffers in order of use as a list. Uthread models
-- the states of the user threads of xv6/uthreadlib.c, with the calls that xv6/uthread.c makes.
--
-- Shell models lab-02/sh.c: the parser on the text that is left of the line, and what `runcmd` asks of the
-- system. The fuel of the parser is the length of the line and one more, since each round of a loop
-- and each recursive call takes a token off. `Shell.Print` prints command lines, and
-- `Shell.Run` has the descriptors of a program, where `open` may fail and takes the lowest one closed.
--
-- Not modelled: spin locks, whose sections are atomic steps here; trap frames, contexts, files and names
-- of processes, which the scheduler does not read; `initlog` and `bread`; the inode cache of the
-- file system, its new directory entries and the walk along a path; the kernel part of the page tables,
-- their copies and their release; the drivers, the start of the machine, and the user programs, most of which only call the operating system.
pub mod Base
pub mod Sim
pub mod Pipe
pub mod Log
pub mod Proc
pub mod Buffer
pub mod Kalloc
pub mod Strings
pub mod Bio
pub mod Uthread
pub mod Shell
pub mod Files
pub mod Fs
pub mod Vm
