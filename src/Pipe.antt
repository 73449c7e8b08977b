-- ===== src/Pipe.antt =====
-- Assignment_2/190547/src/pipe.c: the pipe of gemOS. A handler takes the running context, the file
-- object and the `pipe_info` that it points to, and returns what it changes beside its result.
-- `pipe_buff` is the memory of one page.
pub mod Range
pub mod Invariant
pub mod Write
pub mod Read
pub mod Errors
pub mod Fork
pub mod Close
pub mod Refine
pub mod Tests
use building_gem_os_cs.Base.{
  ℕ, ◌+◌, ◌-◌, ◌%◌, ◌^◌, bit_and, Bool, true, false, not, ◌&&◌, ◌||◌, Option, none, some, List, [],
  ◌∷◌, ◌==◌, leb, if◌then◌else◌, get_or, set, replicate,
}
use building_gem_os_cs.Base.Memory.{Memory}
use building_gem_os_cs.Kernel.{
  Errno, einval, eacces, ebadmem, eothers, Reply, ok, err, o_read, o_write, no_pid, MmSegment,
  VmArea, Context, File,
}
use building_gem_os_cs.ProcTable.{find_pid}
use building_gem_os_cs.Ring.{max_pipe_size, copy_in, copy_out}

abbrev pub max_pipe_proc : ℕ
max_pipe_proc = 16

-- `struct pipe_info_per_process`
pub record Proc : Type 0 where
  pub pid : ℕ
  pub read_open : Bool
  pub write_open : Bool

-- `struct pipe_info`, with its global part
pub record PipeInfo : Type 0 where
  pub procs : List Proc
  pub pipe_buff : Memory
  pub buff_len : ℕ
  pub read_pos : ℕ
  pub write_pos : ℕ

abbrev pub pid_of : Proc → ℕ
pid_of q = q.pid

abbrev pub free_proc : Proc
free_proc = record { pid = no_pid; read_open = false; write_open = false }

-- The fields that `alloc_pipe_info` sets, over the page that it is given for the buffer.
unfoldable pub alloc_pipe_info : Memory → PipeInfo
alloc_pipe_info buffer = record {
  procs = replicate max_pipe_proc free_proc;
  pipe_buff = buffer;
  buff_len = 0;
  read_pos = 0;
  write_pos = 0;
}

abbrev pub proc_at : PipeInfo → ℕ → Proc
proc_at p i = get_or p.procs i free_proc

unfoldable pub do_pipe_fork : Context → PipeInfo → Reply × PipeInfo
do_pipe_fork child p =
    let own = find_pid pid_of child.pid p.procs in
    let slot = if own == max_pipe_proc then find_pid pid_of no_pid p.procs else own in
    let parent = find_pid pid_of child.ppid p.procs in
    if slot == max_pipe_proc
    then (err eothers, p)
    else if parent == max_pipe_proc
    then (err eothers, p)
    else (
      ok 0,
      record p { procs = set p.procs slot (record (proc_at p parent) { pid = child.pid }) },
    )

-- What `pipe_close` leaves: `none` for an object that it has freed.
pub record Closed : Type 0 where
  pub reply : Reply
  pub pipe : Option PipeInfo
  pub file : Option File

-- `file_close`: the file object goes with its last reference. `ref_count` is a `u32`.
unfoldable pub file_close : File → Option File
file_close f =
    let count = (f.ref_count + 2 ^ 32 - 1) % 2 ^ 32 in
    if count == 0 then none else some (record f { ref_count = count })

-- The slot of the process after it closes the end that the file stands for.
abbrev pub close_end : ℕ → Proc → Proc
close_end mode q =
    let read = if mode == o_read then false else q.read_open in
    let write = if mode == o_write then false else q.write_open in
    record {
      pid = if not read && not write then no_pid else q.pid;
      read_open = read;
      write_open = write;
    }

-- `all_closed`: no slot has an owner.
abbrev pub all_closed : List Proc → Bool
all_closed [] = true
all_closed (q ∷ qs) = q.pid == no_pid && all_closed qs

unfoldable pub pipe_close : Context → File → PipeInfo → Closed
pipe_close ctx f p =
    let i = find_pid pid_of ctx.pid p.procs in
    let procs = set p.procs i (close_end f.mode (proc_at p i)) in
    if i == max_pipe_proc
    then record { reply = err eothers; pipe = some p; file = some f }
    else record {
      reply = ok 0;
      pipe = if all_closed procs then none else some (record p { procs = procs });
      file = file_close f;
    }

-- `(flags & access_bit) == access_bit`
abbrev pub permits : ℕ → ℕ → Bool
permits access_bit flags = bit_and flags access_bit == access_bit

abbrev pub mm_seg_stack : ℕ
mm_seg_stack = 3

-- The segment at index `i` and later: whether one holds `[buff, last]`, and if so what it permits.
unfoldable pub find_segment : (buff last access_bit i : ℕ) → List MmSegment → Option Bool
find_segment buff last bit i [] = none
find_segment buff last bit i (s ∷ ss) =
    if leb s.start buff && leb last (if i == mm_seg_stack then s.end else s.next_free)
    then some (permits bit s.access_flags)
    else find_segment buff last bit (i + 1) ss

unfoldable pub find_area : (buff last access_bit : ℕ) → List VmArea → Option Bool
find_area buff last bit [] = none
find_area buff last bit (a ∷ areas) =
    if leb a.vm_start buff && leb last a.vm_end
    then some (permits bit a.access_flags)
    else find_area buff last bit areas

abbrev pub verdict : Option Bool → Reply
verdict (some true) = ok 1
verdict _ = err ebadmem

-- `buff + count - 1`, an `unsigned long`
abbrev pub last_byte : ℕ → ℕ → ℕ
last_byte buff count = (buff + count + 2 ^ 64 - 1) % 2 ^ 64

unfoldable pub is_valid_mem_range : Context → (buff count access_bit : ℕ) → Reply
is_valid_mem_range ctx buff count bit =
    let last = last_byte buff count in
    elim (find_segment buff last bit 0 ctx.mms) [
      | some permitted ↦ verdict (some permitted)
      | none ↦ verdict (find_area buff last bit ctx.vm_area)
    ]

-- What `pipe_read` and `pipe_write` leave: their result, the pipe and user memory.
pub record Io : Type 0 where
  pub reply : Reply
  pub pipe : PipeInfo
  pub memory : Memory

abbrev pub fail : Errno → PipeInfo → Memory → Io
fail e p m = record { reply = err e; pipe = p; memory = m }

-- the part of `pipe_read` behind its checks
unfoldable pub read_bytes : PipeInfo → Memory → (buff count : ℕ) → Io
read_bytes p m buff count =
    let n = if leb count p.buff_len then count else p.buff_len in
    record {
      reply = ok n;
      pipe = record p { buff_len = p.buff_len - n; read_pos = (p.read_pos + n) % max_pipe_size };
      memory = copy_out n 0 p.pipe_buff p.read_pos buff m;
    }

unfoldable pub pipe_read : Context → File → PipeInfo → Memory → (buff count : ℕ) → Io
pipe_read ctx f p m buff count =
    let i = find_pid pid_of ctx.pid p.procs in
    if bit_and f.mode o_read == 0
    then fail eacces p m
    else if i == max_pipe_proc
    then fail eothers p m
    else if not (proc_at p i).read_open
    then fail einval p m
    else elim (is_valid_mem_range ctx buff count 2) [
      | err _ ↦ fail eothers p m
      | ok _ ↦ read_bytes p m buff count
    ]

-- the part of `pipe_write` behind its checks
unfoldable pub write_bytes : PipeInfo → Memory → (buff count : ℕ) → Io
write_bytes p m buff count =
    let space = max_pipe_size - p.buff_len in
    let n = if leb count space then count else space in
    record {
      reply = ok n;
      pipe = record p {
        pipe_buff = copy_in n 0 m buff p.write_pos p.pipe_buff;
        buff_len = p.buff_len + n;
        write_pos = (p.write_pos + n) % max_pipe_size;
      };
      memory = m;
    }

unfoldable pub pipe_write : Context → File → PipeInfo → Memory → (buff count : ℕ) → Io
pipe_write ctx f p m buff count =
    let i = find_pid pid_of ctx.pid p.procs in
    if bit_and f.mode o_write == 0
    then fail eacces p m
    else if i == max_pipe_proc
    then fail eothers p m
    else if not (proc_at p i).write_open
    then fail einval p m
    else elim (is_valid_mem_range ctx buff count 1) [
      | err _ ↦ fail eothers p m
      | ok _ ↦ write_bytes p m buff count
    ]
