-- ===== src/Lib.antt =====
-- OpenOS is a small operating system for i386. This library models parts of it as functions on
-- records: a C structure is a record, a table of structures a function of the index, a pointer
-- into a table the index (or `none` for NULL), an unsigned integer a natural number with its
-- wrap-around written out, and the static variables of a file one record that its functions take
-- and return.
--
-- The parts, with the files of the repository that they model:
-- * Ipc models kernel/ipc.c and include/ipc.h. Its children Pipes, Fifo, Queues and Tables hold
--   what is proved of pipes, of a pipe as a FIFO, of message queues and of the tables.
-- * Pmm models memory/pmm.c: bitmap, initialisation, allocation, statistics. Bits and Count are
--   about the bitmap, Alloc about the operations, Init about pmm_init.
-- * Process.Table and Process.Lifecycle model process/process.c, Process.Ready and
--   Process.Schedule process/scheduler.c and the handler of drivers/timer.c. They share one
--   state, the record Kernel; process_create, process_kill and process_wait call the scheduler's
--   functions, and the timer handler calls scheduler_tick. Process.Chains has lists linked
--   through a table, the children of Process.Ready are about the ready queues, and those of
--   Process.Schedule about reaping, waking and the choice of the next process.
-- * Cpu.SingleCycle and Cpu.Pipeline model kernel/cpu/single_cycle.c and kernel/cpu/pipeline.c.
--   Run, Isa, Flow, Results and Execute are about runs of them.
-- * Cache models memory/cache.c; Lines, Blocks, Bytes and Counts are about what it holds, what
--   is read back and the statistics.
-- * Vfs models fs/vfs.c, and Text the functions of kernel/string.c but those that copy;
--   Text.Numbers is about itoa; Files and Directories are about file contents and directory
--   entries.
-- * Bus models memory/bus.c, and Traffic is about sequences of requests.
-- * Heap models memory/heap.c: Blocks describes the headers as a list of blocks that tile the
--   arena, Separate has the block lists that allocation and freeing leave, Alloc, Free,
--   RoundTrip and Stats are about the operations. Vmm models memory/vmm.c over Pmm, whose pages
--   hold the directories and page tables: Tables, Create and Entries are about lookups, new
--   tables and entries, Map, Fill and Region about mapping, Pages, Adjacent, Lifetime and Boot
--   about directories and vmm_init.
-- * Syscall models kernel/syscall.c over Process: Pid and Stack are about the pid and the kernel
--   stack of a child, Fork about sys_fork. Keyboard models drivers/keyboard.c, Layout is about
--   the characters of its keys, and Line about the line it edits. Network models
--   kernel/network.c; Sockets and Checksum are about these.
-- * Script models kernel/script.c; Variables and Lines are about the map from names to values
--   and about scripts as lines. Smp models kernel/smp.c and Slab memory/slab.c, which allocates
--   from Heap; Table and Objects hold the lemmas on these.
-- * Ring has the arithmetic of ring buffers, and Prelude the numbers, lists and loops that all
--   share.
-- Where scan codes come in is explicit: those given to keyboard_get_line come in before it
-- copies the line. An ssize_t of Vfs is given by its 32 bits.
-- Each Tests module runs the code on small inputs and applies the theorems to inputs that meet
-- their hypotheses.
--
-- Bounds and fuel: the loops of pipes take one round for each byte asked for, which is given as
-- fuel. A ready queue holds at most 64 slots, so the walks along it have 65 rounds.
-- pipeline_execute takes its fuel as an argument; 2 * mem_size + 6 rounds are enough after a
-- reset. The loop of vfs_resolve_path has as many rounds as the path has characters, one more
-- than it has tokens at most. The walks along the heap have as many rounds as the arena has
-- bytes, and a block takes 16 of them at least; the loop over a region has a round for each page
-- and one more. The scan for a pid has one round more than the largest pid in use; a sum of 32
-- bits is folded at most twice, and the loop has three rounds. All other loops are structural.
--
-- Not modelled: ratios in floating point, console output, port input and output, inline
-- assembly, the switch of stacks itself (schedule returns which processes it switches between),
-- what processes keep in memory that kmalloc hands out (the pointers are arguments there) and
-- the other components: kernel/commands.c, kernel/proc_commands.c, kernel/shell.c and
-- kernel/gui.c, which write on the console around calls of the other parts, and the rest of
-- kernel/, drivers/ and arch/, which is boot code, interrupt tables and device access.
pub mod Prelude
pub mod Ring
pub mod Ipc
pub mod Pmm
pub mod Process
pub mod Cpu
pub mod Cache
pub mod Text
pub mod Vfs
pub mod Bus
pub mod Heap
pub mod Vmm
pub mod Keyboard
pub mod Syscall
pub mod Network
pub mod Script
pub mod Smp
pub mod Slab
