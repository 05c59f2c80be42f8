-- ===== src/Lib.antt =====
-- Four exercises of an operating systems course, in C: Lab1 passes messages between two processes,
-- Lab2 is a small shell, Lab3 has threads, locks and proc modules, and Lab4 is osfs, a file system
-- in memory for the Linux kernel, in two versions. Modelled are both versions of osfs, the one with
-- a block for each file (Lab4/Lab4_Template_Done) and the one with extents of blocks
-- (Lab4/Lab4_Template_Optimize), the shell (Lab2), the sender and the receiver (Lab1), and the
-- threads and the proc modules (Lab3).
--
-- osfs: osfs_fill_super lays out one region of memory with the superblock, two bitmaps, the inode
-- table and the data blocks; the directory's operations take inode numbers and blocks from it, and
-- those of a file read and write one block.
--   Kernel        what osfs takes from the Linux headers: errno values, struct inode, the helpers
--   Osfs.Types    osfs.h: struct osfs_inode and struct osfs_sb_info
--   Osfs.Inode    inode.c: inode numbers, data blocks, osfs_iget; Inode.Alloc on the two allocators
--   Osfs.File     file.c: osfs_read and osfs_write; File.Refine against a list of bytes, File.Changes
--                 and File.Apart on what a write leaves alone, File.Valid, File.Errors
--   Osfs.Dir      dir.c: lookup, iterate, new_inode, add_dir_entry, create; Dir.Names and
--                 Dir.Entries on the directory as a list of names, Dir.Add, Dir.NewInode,
--                 Dir.Create, Dir.Find and Dir.Leak on the operations
--   Osfs.Super    super.c and the unmounting in osfs_init.c; Super.Mount
--   Osfs.Inv      the invariants of the region
-- osfs with extents: a file has five consecutive blocks, which osfs_create gives it, or else its
-- first write.
--   Extent.Types, Extent.Inode, Extent.File, Extent.Dir and Extent.Super model the files of these
--                 names; Inode.Alloc and Inode.Numbers are on the allocators, File.Changes and
--                 File.Within on what a write changes, Dir.Create and Super.Mount on creating
--                 and mounting
-- The shell reads a line, records it, splits it to commands and runs them.
--   Shell.Command command.c: read_line, split_line; Command.Jobs and Command.Parse on a printer of
--                 command lines, Command.Log on the ring of recorded lines
--   Shell.Pipeline  fork_cmd_node of shell.c over descriptor tables; Pipeline.Wiring on one child's
--                 table, Pipeline.Children on all of them
--   Shell.Single  redirection, spawn_proc and a single built-in command of shell.c; Single.Restore
--                 on the shell's descriptors behind it
--   Shell.Builtin builtin.c: the table of built-in commands, echo, record
--   Shell.Session the loop of shell() in shell.c, with the other functions of builtin.c;
--                 Session.Nodes, Session.Exit and Session.Fail on the commands that a line gives,
--                 Session.Records, Session.Branches and Session.Keep on a session of any length,
--                 Session.Typed on a pipeline from the line to its children
-- The sender puts the lines of a file into a mailbox, a message queue or shared memory, and the
-- receiver takes and prints them; two semaphores keep them apart.
--   Mailbox.Ipc, Mailbox.Text and Mailbox.Lines are what the programs take from the system and the
--                 C library; Mailbox.Program is Lab1/sender.c and Lab1/receiver.c as two programs
--                 that interleave; Mailbox.Invariant, Exits, Ending, Measure and Delivery are on
--                 their runs; Mailbox.Setup is what they do before their loops and behind them,
--                 with the errors; Setup.Each and Setup.Both on the semaphores
-- The threads of Lab3 count, or multiply matrices, and a kernel module keeps what they write.
--   Threads.Spin  Lab3/1/1_2/1_2.c: the lock in assembler, by instructions; Spin.Count, Spin.Finish
--   Threads.Counter  Lab3/1/1_1/1_1.c: the same count under a pthread spin lock; Counter.Actions,
--                 Counter.Finish
--   Threads.Lock  the pthread library's spin lock; Threads.Steps runs of a step relation
--   Threads.Matrix  the loops over a product with their loads and stores; Matrix.Sums, Matrix.Loop
--                 and Matrix.Inv on what they add; Matrix.Locked Lab3/2/2_2.c, two threads under a
--                 lock; Matrix.Rows Lab3/3/3_1/3_1.c and Lab3/3/3_2/3_2.c with two threads, which
--                 take none; Matrix.Single Lab3/2/2_1.c, one thread; Matrix.Reading the files of
--                 that program, on numbers: Reading.Rows and Reading.Matrices on the loops of
--                 data_processing, Reading.Files on the program
--   Threads.Greeting  the threads of Lab3/3/3_2/3_2.c together with its module: Greeting.Texts and
--                 Greeting.Actions on one action, Greeting.Inv on the texts, Greeting.Finish
--   Proc.Hello    Lab3/3/3_2/My_Kernel.c: the buffer behind the proc file; Proc.Print snprintf
--   Proc.Tasks    Lab3/3/3_1/My_Kernel.c: the list of threads; Tasks.Listing and Tasks.Read on it
-- Base holds what they share: tests, 32- and 64-bit arithmetic, lists, and bytes in memory; Fixture
-- has the concrete kernel of the runs and witnesses in the modules named Tests.
--
-- State. The region is the record SbInfo: each bitmap, the inode table and the data area is a
-- function of an index or offset, written with `update`. A pointer to an entry of the inode table
-- is its index; i_private holds that index, and 0 stands for NULL, since entry 0 is never handed
-- out. An operation takes the region and the VFS inodes it is given, and returns them as it leaves
-- them. A process of two threads or programs is a record of where each stands, with its local
-- variables, and of what they share; a step is one action of either, and a run is any sequence of
-- steps. A directory entry is 260 bytes of the data area: 255 of the name, one of padding, and the
-- inode number in little-endian order at offset 256.
--
-- Integers. uint32_t and size_t arithmetic wraps (add32, sub32, mul32, add64, sub64). A position is
-- not negative; a number of the kernel's time is only copied, so a time is a natural number.
-- An int of the matrices stands for its 32 bits, and sums and products of them wrap; C leaves their
-- overflow undefined, and compilers wrap. An element that malloc gave is any such int.
-- BLOCK_SIZE is the kernel's macro: a parameter, which the invariant bounds by 65536.
--
-- Loops. Those over the bitmaps and over the entries of a directory run on the number of rounds
-- that is left, which is what the C loop's bound gives. strlen of a name has the rest of the data
-- area for fuel, and by the invariant a terminator stands in each entry. The loop of split_line
-- runs on the list of tokens, and those of fork_cmd_node on the number of pipes and on the list of
-- nodes. The loops of programs that interleave are steps of a relation, and a measure shows that
-- they end: in Lab1 every step lowers it, in Lab3 the step of a thread that need not wait for a
-- lock; the texts of Lab1's file are cut with the file's length for fuel, since each call of fgets
-- takes a byte.
--
-- Arguments of the operations stand for what the kernel or the operating system answers: whether
-- memory is given, new_inode's inode, current_time, copy_from_user and copy_to_user with the bytes
-- they could not copy, the actor of a directory's iteration, the bytes on stdin, and what fork
-- returns. open, dup, dup2, close and pipe are functions on descriptor tables with their laws, and
-- so are chdir and getcwd, on directories, the calls on semaphores and queues of Lab1, on states of
-- both, and the pthread spin lock. In Lab1 nobody removes the objects while the programs run, and
-- both programs set them up before their loops, either one first as a whole; the calls of the
-- set-ups are functions on the objects there are. fscanf is a function on open files with its law,
-- the line of a thread in 3_2's Myread is a parameter, as are the stack and, in 3_1's, the
-- conversion %d.
--
-- Not modelled: 3_2.c of Lab3 with THREAD_NUMBER 1, which joins a thread that does not exist, and
-- the loop in which main of 3_1.c prints the proc file, which are work to come; the time that Lab1
-- measures; the log messages, and in Lab2 the heading of help and the texts of perror; the
-- registration of the file system and of the proc file; the kernel's own locks, so each operation
-- runs alone; and files that a build generates.

mod Base
pub mod Kernel
mod Fixture
pub mod Osfs
pub mod Extent
pub mod Mailbox
pub mod Shell
pub mod Threads
pub mod Proc
