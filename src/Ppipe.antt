-- ===== src/Ppipe.antt =====
-- Assignment_2/190547/src/ppipe.c: the persistent pipe of gemOS. Its bytes stay until a flush, and
-- every process reads at a position of its own. `bytes_read` counts what the process has read from
-- `buff_start` on. The handlers have the form of those of `Pipe`.
pub mod Invariant
pub mod Fork
pub mod Close
pub mod Flush
pub mod Read
pub mod Write
pub mod Tests
use building_gem_os_cs.Base.{
  ℕ, ◌+◌, ◌-◌, ◌%◌, ◌^◌, bit_and, Bool, true, false, not, ◌&&◌, Option, none, some, List, [], ◌∷◌,
  map, ◌==◌, leb, ltb, if◌then◌else◌, get_or, set, replicate,
}
use building_gem_os_cs.Base.Memory.{Memory}
use building_gem_os_cs.Kernel.{
  Errno, einval, eacces, eothers, Reply, ok, err, o_read, o_write, no_pid, Context, File,
}
use building_gem_os_cs.ProcTable.{find_pid}
use building_gem_os_cs.Ring.{max_pipe_size, copy_in, copy_out}
use building_gem_os_cs.Pipe.{file_close}

abbrev pub max_ppipe_proc : ℕ
max_ppipe_proc = 16

-- `struct ppipe_info_per_process`
pub record Proc : Type 0 where
  pub pid : ℕ
  pub read_open : Bool
  pub write_open : Bool
  pub read_pos : ℕ
  pub bytes_read : ℕ

-- `struct ppipe_info`, with its global part
pub record PpipeInfo : Type 0 where
  pub procs : List Proc
  pub ppipe_buff : Memory
  pub buff_len : ℕ
  pub buff_start : ℕ
  pub buff_end : ℕ

abbrev pub pid_of : Proc → ℕ
pid_of q = q.pid

abbrev pub free_proc : Proc
free_proc = record {
  pid = no_pid;
  read_open = false;
  write_open = false;
  read_pos = 0;
  bytes_read = 0;
}

-- The fields that `alloc_ppipe_info` sets, over the page that it is given for the buffer.
unfoldable pub alloc_ppipe_info : Memory → PpipeInfo
alloc_ppipe_info buffer = record {
  procs = replicate max_ppipe_proc free_proc;
  ppipe_buff = buffer;
  buff_len = 0;
  buff_start = 0;
  buff_end = 0;
}

abbrev pub proc_at : PpipeInfo → ℕ → Proc
proc_at p i = get_or p.procs i free_proc

unfoldable pub do_ppipe_fork : Context → PpipeInfo → Reply × PpipeInfo
do_ppipe_fork child p =
    let own = find_pid pid_of child.pid p.procs in
    let slot = if own == max_ppipe_proc then find_pid pid_of no_pid p.procs else own in
    let parent = find_pid pid_of child.ppid p.procs in
    if slot == max_ppipe_proc
    then (err eothers, p)
    else if parent == max_ppipe_proc
    then (err eothers, p)
    else (
      ok 0,
      record p { procs = set p.procs slot (record (proc_at p parent) { pid = child.pid }) },
    )

-- What `ppipe_close` leaves: `none` for an object that it has freed.
pub record Closed : Type 0 where
  pub reply : Reply
  pub ppipe : Option PpipeInfo
  pub file : Option File

-- The slot after an end is closed. The statement for a slot with both ends closed is
-- `pid == -1;`, a comparison, so the pid stays.
abbrev pub close_end : ℕ → Proc → Proc
close_end mode q = record q {
  read_open = if mode == o_read then false else q.read_open;
  write_open = if mode == o_write then false else q.write_open;
}

abbrev pub all_closed : List Proc → Bool
all_closed [] = true
all_closed (q ∷ qs) = q.pid == no_pid && all_closed qs

unfoldable pub ppipe_close : Context → File → PpipeInfo → Closed
ppipe_close ctx f p =
    let i = find_pid pid_of ctx.pid p.procs in
    let procs = set p.procs i (close_end f.mode (proc_at p i)) in
    if i == max_ppipe_proc
    then record { reply = err eothers; ppipe = some p; file = some f }
    else record {
      reply = ok 0;
      ppipe = if all_closed procs then none else some (record p { procs = procs });
      file = file_close f;
    }

-- The first loop of `do_flush_ppipe`: whether all read ends are closed, and the least `bytes_read`
-- of those that are open, each from the value so far.
unfoldable pub read_by_all : List Proc → Bool → ℕ → Bool × ℕ
read_by_all [] closed least = (closed, least)
read_by_all (q ∷ qs) closed least =
    read_by_all qs (if q.read_open then false else closed)
      (if q.read_open && ltb q.bytes_read least then q.bytes_read else least)

-- The second loop, at one slot.
abbrev pub rewind : ℕ → Proc → Proc
rewind n q = if q.read_open then record q { bytes_read = q.bytes_read - n } else q

-- `reclaimed_bytes`
unfoldable pub reclaimed : PpipeInfo → ℕ
reclaimed p =
    let (closed, least) = read_by_all p.procs true p.buff_len in if closed then 0 else least

unfoldable pub do_flush_ppipe : PpipeInfo → ℕ × PpipeInfo
do_flush_ppipe p =
    let n = reclaimed p in
    (
      n,
      record p {
        procs = map (rewind n) p.procs;
        buff_start = (p.buff_start + n) % max_pipe_size;
        buff_len = p.buff_len - n;
      },
    )

-- What `ppipe_read` and `ppipe_write` leave.
pub record Io : Type 0 where
  pub reply : Reply
  pub ppipe : PpipeInfo
  pub memory : Memory

abbrev pub fail : Errno → PpipeInfo → Memory → Io
fail e p m = record { reply = err e; ppipe = p; memory = m }

-- The part of `ppipe_read` behind its checks, for the process in slot `i`. `read_limit` is compared
-- with a `u32`, so it is a `u32` here.
unfoldable pub read_bytes : PpipeInfo → Memory → (i buff count : ℕ) → Io
read_bytes p m i buff count =
    let q = proc_at p i in
    let read_limit = (p.buff_len + 2 ^ 32 - q.bytes_read) % 2 ^ 32 in
    let n = if leb count read_limit then count else read_limit in
    record {
      reply = ok n;
      ppipe = record p {
        procs = set p.procs i (record q {
          read_pos = (q.read_pos + n) % max_pipe_size;
          bytes_read = q.bytes_read + n;
        });
      };
      memory = copy_out n 0 p.ppipe_buff q.read_pos buff m;
    }

unfoldable pub ppipe_read : Context → File → PpipeInfo → Memory → (buff count : ℕ) → Io
ppipe_read ctx f p m buff count =
    let i = find_pid pid_of ctx.pid p.procs in
    if bit_and f.mode o_read == 0
    then fail eacces p m
    else if i == max_ppipe_proc
    then fail eothers p m
    else if not (proc_at p i).read_open
    then fail einval p m
    else read_bytes p m i buff count

-- the part of `ppipe_write` behind its checks
unfoldable pub write_bytes : PpipeInfo → Memory → (buff count : ℕ) → Io
write_bytes p m buff count =
    let space = max_pipe_size - p.buff_len in
    let n = if leb count space then count else space in
    record {
      reply = ok n;
      ppipe = record p {
        ppipe_buff = copy_in n 0 m buff p.buff_end p.ppipe_buff;
        buff_len = p.buff_len + n;
        buff_end = (p.buff_end + n) % max_pipe_size;
      };
      memory = m;
    }

unfoldable pub ppipe_write : Context → File → PpipeInfo → Memory → (buff count : ℕ) → Io
ppipe_write ctx f p m buff count =
    let i = find_pid pid_of ctx.pid p.procs in
    if bit_and f.mode o_write == 0
    then fail eacces p m
    else if i == max_ppipe_proc
    then fail eothers p m
    else if not (proc_at p i).write_open
    then fail einval p m
    else write_bytes p m buff count
