-- ===== src/Lib.antt =====
-- gemOS, the teaching kernel of the course CS330, and the code that the assignments add to it, as functions with theorems.
--
-- The parts, how they interact, and the files that model them:
--
--   Base, Kernel, Machine. Base has the helpers that all share: tests on numbers, lists with what the
--   code does out of range, bytes at addresses. Kernel has what the handlers of Assignment_2 read of
--   a context and of a file object (gemOS/src/include/context.h, file.h, entry.h). Machine has the
--   registers, contexts and states of Assignment-3/src/include/context.h and schedule.h.
--
--   Pipe, with Ring and ProcTable. Assignment_2/190547/src/pipe.c: a ring of MAX_PIPE_SIZE bytes with
--   a table of the processes that have it open. alloc_pipe_info, do_pipe_fork, pipe_close, pipe_read,
--   pipe_write and is_valid_mem_range have their names; the state is PipeInfo, and a context, a file
--   object, user memory and an address come in as arguments. Ring is the copying of bytes into and
--   out of the ring and ProcTable the search for a pid, which Ppipe has too. Pipe/Refine has the pipe
--   as a queue of bytes.
--
--   Ppipe. Assignment_2/190547/src/ppipe.c: the persistent pipe, where each process has a position of
--   its own and do_flush_ppipe drops what every reader has read.
--
--   Debug. The breakpoint list of Assignment-3/Submission/src/debug.c: do_become_debugger,
--   do_set_breakpoint, do_remove_breakpoint, do_info_breakpoints, over DebugInfo and the memory of the
--   debugged process, whose code they change.
--
--   Trap. The rest of debug.c: int3_handler, which the process runs into and which puts the byte of a
--   breakpoint back in a second INT3, and the calls by which the debugger waits and looks at the
--   process, over a Session of the two. The breakpoints are those of Debug.
--
--   Scheduler. Assignment-3/src/schedule.c: pick_next_context, the accounting of sleep and alarms,
--   handle_timer_tick and schedule, over the contexts as a function of the pid.
--
--   Cricket. Assignment1/190547/Part3/utils.c: match, and the matches and the leader of a group in
--   conductGroupMatches, over the lists of scores that the team processes read.
--
--   Gthread. Assignment-4/gemOS/src/user/gthread.c: the thread library in user space, over its table
--   tinfo. Each function returns the system calls that it makes, in order.
--
--   Kthread. Assignment-4/gemOS/src/clone_threads.c and template/clone_threads_helper.c: the kernel side
--   of these threads. Walk and Pages have do_page_walk, Fault and Grant the page fault of a private
--   area, Switch the context switch, Table and Private the notes that mmap and munmap take, Life clone,
--   exit and wait. The page tables are the entries of each frame.
--
--   Files. Assignment_2/gemOS/src/file.c: file objects by address and the descriptors of a process, with
--   create_pipe and create_persistent_pipe of the pipes, and the calls on descriptors of
--   Assignment-3/src/entry.c. Its close, read, write and fork call those of Pipe and Ppipe; History has
--   the calls as steps of a process. Io, Open, Send and Create have the definitions that are not in Files.
--
--   Archive. Assignment1/190547/Part2/myTar.c: createTar, extract, extractSingle and list, over the bytes
--   of files.
--
--   Printf. vuprintf of Assignment-3/src/user/lib.c, the formatting of printf in user space.
--
-- How the code is read. A scalar is a natural number, and where the code wraps around at 32 or 64
-- bits the remainder is written out, also for a subtraction. A pointer into an array is an index, a
-- list that next pointers link is a list, and an error code or NULL is a constructor. What code
-- outside the repository returns (mmap, munmap, clone, getpid, wait_for_thread, whether os_alloc finds
-- memory, the pages and frames that an allocation gives) is an argument. Inodes, keyboard and console
-- are the parameter Devices of Files. invoke_sync_signal is a parameter, and the pointees of get_ctx_by_pid are part
-- of the state. A fault, a write behind an array or a loop that does not end is a result of its own.
--
-- Fuel and bounds. pick_loop has MAX_PROCESSES + 1 steps, one more than the turns there are.
-- walk_frames has the room that is left in the array backtrace (62 or 63 addresses). wait_loop runs
-- over the list of what its calls return. The loops of the archiver have fuel; a round each 512 bytes
-- and one for each file are enough. The digits of vuprintf have the room of its array chars. The other loops run over a list or a count.
--
-- Not modelled: the dispatch of system calls, do_fork and do_exit of entry.c,
-- whose callees are mostly outside the repository; the other programs of Assignment1 and the team
-- processes, which work through libc; the names and directories that the archiver makes; what a
-- debugger frees as it exits; the boot code and the stubs of user space, which are assembly;
-- the test programs.
pub mod Base
pub mod Ring
pub mod Kernel
pub mod ProcTable
pub mod Pipe
pub mod Ppipe
pub mod Files
pub mod Debug
pub mod Gthread
pub mod Kthread
pub mod Machine
pub mod Scheduler
pub mod Trap
pub mod Cricket
pub mod Archive
pub mod Printf
