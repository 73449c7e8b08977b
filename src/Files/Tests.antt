-- ===== src/Files/Tests.antt =====
-- The theorems on descriptors at concrete inputs, and runs of the calls.
use building_gem_os_cs.Base.{
  ℕ, ◌+◌, ◌-◌, ◌^◌, ◌≡◌, refl, true, false, Option, none, some, List, [], ◌∷◌, arith, replicate,
}
use building_gem_os_cs.Base.Memory.{Memory}
use building_gem_os_cs.Base.Partial.{put}
use building_gem_os_cs.Kernel.{ok, o_read, MmSegment, Context, FileType}
use building_gem_os_cs.Pipe.{PipeInfo, free_proc, is_valid_mem_range, find_segment}
use building_gem_os_cs.Files.{
  closes_pipe, reads_pipe, Object, Devices, System, Task, Call, alloc_file, fd_dup, dup_file,
  do_file_fork,
}
use building_gem_os_cs.Files.Io.{do_lseek_regular}
use building_gem_os_cs.Files.Open.{
  do_file_open, open_standard_io, open_standard, create_standard_io,
}
use building_gem_os_cs.Files.Create.{create_pipe}
use building_gem_os_cs.Files.Held.{Held, refs}
use building_gem_os_cs.Files.Ready.{are_ready}
use building_gem_os_cs.Files.Fork.{Counted, do_file_fork-Held}
use building_gem_os_cs.Files.History.{Reached, start, next, dup, opens, IsLive, Reached-Held}
use building_gem_os_cs.Files.Seek.{Sought, do_lseek_regular-Sought}
use building_gem_os_cs.Files.Room.{HasRoom}
use building_gem_os_cs.Files.Channel.{Transfers, create_pipe-Transfers}

-- Devices with one empty file, which nothing changes.
abbrev idle : Devices ℕ
idle = record {
  inode_read = λ i buff count offp s. (ok 0, s);
  inode_write = λ i buff count offp s. (ok 0, s);
  inode_open = λ i d. d;
  inode_mode = λ i d. 7;
  file_size = λ i d. 0;
  create_inode = λ name mode d. d;
  lookup_inode = λ name d. none;
  kbd_read = λ buff s. s;
  do_write = λ ctx buff count s. (ok count, s);
}

abbrev data_segment : MmSegment
data_segment = record { start = 0; end = 10000; next_free = 10000; access_flags = 0x3 }

abbrev process : ℕ → Context
process n = record { pid = n; ppid = 1; mms = data_segment ∷ []; vm_area = [] }

abbrev empty : System ℕ
empty = record {
  files = λ a. none;
  pipes = λ a. none;
  ppipes = λ a. none;
  devices = 0;
  memory = λ a. a;
}

abbrev closed_files : List (Option ℕ)
closed_files = replicate 16 none

abbrev fresh_task : Task
fresh_task = record { ctx = process 1; files = closed_files }

abbrev no_others : ℕ → ℕ
no_others a = 0

empty-Held : Held no_others empty fresh_task
empty-Held = record { size = refl; counted = λ a. refl }

-- "stdin" is opened in the page at 100, then `dup(0)` gives the descriptor 3.
abbrev stdin_name : List ℕ
stdin_name = 115 ∷ 116 ∷ 100 ∷ 105 ∷ 110 ∷ []

abbrev with_stdin : Call ℕ
with_stdin = record {
  reply = ok 0;
  system = record empty { files = put empty.files 100 (some (create_standard_io FileType.stdin)) };
  task = record { ctx = process 1; files = some 100 ∷ replicate 15 none };
}

open_run : do_file_open idle fresh_task stdin_name 1 0 100 empty ≡ some with_stdin
unfolding do_file_open open_standard_io open_standard
open_run = refl

abbrev counted_stdin : ℕ → Object
counted_stdin n = record (create_standard_io FileType.stdin) {
  file = record { type = FileType.stdin; mode = o_read; offp = 0; ref_count = n };
}

abbrev with_copy : Call ℕ
with_copy = record {
  reply = ok 3;
  system = record empty { files = put with_stdin.system.files 100 (some (counted_stdin 2)) };
  task = record { ctx = process 1; files = some 100 ∷ none ∷ none ∷ some 100 ∷ replicate 12 none };
}

dup_run : fd_dup with_stdin.task 0 with_stdin.system ≡ some with_copy
unfolding fd_dup dup_file create_standard_io alloc_file
dup_run = refl

abbrev history : Reached idle empty fresh_task with_copy.system with_copy.task
history =
    next (next start (opens stdin_name 1 0 100 with_stdin refl open_run)) (dup 0 with_copy dup_run)

Reached-Held_example :
    Held no_others with_copy.system with_copy.task × IsLive with_copy.system with_copy.task
Reached-Held_example =
    Reached-Held idle no_others empty with_copy.system fresh_task with_copy.task (λ a. omega arith)
      empty-Held history

with_stdin-Held : Held no_others with_stdin.system with_stdin.task
unfolding create_standard_io alloc_file
with_stdin-Held = record { size = refl; counted = λ a. ground arith }

abbrev child_task : Task
child_task = record { ctx = process 2; files = some 100 ∷ replicate 15 none }

child_files_ready : are_ready with_stdin.system child_task.files ≡ true
unfolding create_standard_io alloc_file
child_files_ready = refl

do_file_fork-Held_example :
    Counted
      (λ a. 0 + refs a with_stdin.task.files)
      child_task
      (do_file_fork child_task with_stdin.system)
do_file_fork-Held_example =
    do_file_fork-Held no_others with_stdin.task child_task with_stdin.system (λ a. omega arith)
      with_stdin-Held refl child_files_ready

-- An offset of -2, behind byte 10 of a file of 20 bytes.
do_lseek_regular-Sought_example :
    Sought 20 10 (2 ^ 64 - 2) 1 (do_lseek_regular 20 10 (2 ^ 64 - 2) 1)
do_lseek_regular-Sought_example =
    do_lseek_regular-Sought 20 10 (2 ^ 64 - 2) 1 (omega arith) (omega arith) (omega arith)

seek_run : do_lseek_regular 20 10 (2 ^ 64 - 2) 1 ≡ (ok 8, 8)
unfolding do_lseek_regular
seek_run = refl

-- SEEK_END counts from the offset, not from the end.
seek_end_run : do_lseek_regular 20 10 0 2 ≡ (ok 10, 10)
unfolding do_lseek_regular
seek_end_run = refl

abbrev fd_array : ℕ → ℕ
fd_array i = 0

abbrev page : Memory
page i = 0

has_room : HasRoom fresh_task
has_room = record {
  size = refl;
  lower = 0;
  upper = 1;
  apart = omega arith;
  inside = omega arith;
  lower_closed = refl;
  upper_closed = refl;
}

writable : is_valid_mem_range (process 1) 200 5 1 ≡ ok 1
unfolding is_valid_mem_range find_segment
writable = refl

readable : is_valid_mem_range (process 1) 300 5 2 ≡ ok 1
unfolding is_valid_mem_range find_segment
readable = refl

create_pipe-Transfers_example :
    Transfers idle empty.memory 200 300 5
      (create_pipe fresh_task fd_array 10 11 (some (12, page)) empty)
create_pipe-Transfers_example =
    create_pipe-Transfers idle fresh_task empty fd_array 10 11 12 page 200 300 5 has_room
      (λ e. ground (arith, e)) (λ e. ground (arith, e)) (omega arith) writable readable

-- Process 1 has closed the write end of its pipe and has two descriptors of the read end.
abbrev reader : Object
reader = record {
  file = record { type = FileType.pipe; mode = o_read; offp = 0; ref_count = 2 };
  inode = none;
  fops = record { read = some reads_pipe; write = none; lseek = none; close = some closes_pipe };
  pipe = some 12;
  ppipe = none;
}

abbrev half_open : PipeInfo
half_open = record {
  procs = record { pid = 1; read_open = true; write_open = false } ∷ replicate 15 free_proc;
  pipe_buff = page;
  buff_len = 0;
  read_pos = 0;
  write_pos = 0;
}

abbrev shared_end : System ℕ
shared_end = record empty {
  files = put empty.files 10 (some reader);
  pipes = put empty.pipes 12 (some half_open);
}

abbrev two_readers : Task
two_readers = record { ctx = process 1; files = some 10 ∷ some 10 ∷ replicate 14 none }
