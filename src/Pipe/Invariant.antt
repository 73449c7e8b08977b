-- ===== src/Pipe/Invariant.antt =====
-- The well-formedness of a pipe of pipe.c, and that every handler keeps it.
use building_gem_os_cs.Base.{
  ℕ, ◌+◌, ◌%◌, ◌≤◌, ◌<◌, ◌≡◌, ◌≢◌, ◌∙◌, not, ◌||◌, List, [], ◌==◌, set, arith, length, All, All-set,
  All-get_or, length-set,
}
use building_gem_os_cs.Base.Memory.{Memory}
use building_gem_os_cs.Kernel.{no_pid, Context, File}
use building_gem_os_cs.ProcTable.{find_pid, IsDistinct}
use building_gem_os_cs.ProcTable.Laws.{slot_of-find_pid, find_pid-slot_of}
use building_gem_os_cs.Ring.{max_pipe_size, window}
use building_gem_os_cs.Pipe.{
  max_pipe_proc, Proc, PipeInfo, pid_of, free_proc, proc_at, alloc_pipe_info, read_bytes,
  write_bytes, pipe_read, pipe_write,
}

-- A slot has an owner exactly while one of its ends is open.
abbrev pub IsSlot : Proc → Type 0
IsSlot q = (q.read_open || q.write_open) ≡ not (q.pid == no_pid)

pub record IsValid (p : PipeInfo) : Type 0 where
  pub slots : length p.procs ≡ max_pipe_proc
  pub each : All IsSlot p.procs
  pub distinct : IsDistinct pid_of p.procs
  pub len_in : p.buff_len ≤ max_pipe_size
  pub read_in : p.read_pos < max_pipe_size
  pub write_at : p.write_pos ≡ (p.read_pos + p.buff_len) % max_pipe_size

-- The bytes that the pipe holds, oldest first.
abbrev pub contents : PipeInfo → List ℕ
contents p = window p.pipe_buff p.read_pos p.buff_len

-- A new pipe is well formed and empty.
pub alloc_pipe_info-IsValid :
    (buffer : Memory) → IsValid (alloc_pipe_info buffer) × (contents (alloc_pipe_info buffer) ≡ [])
unfolding alloc_pipe_info
alloc_pipe_info-IsValid buffer = ground arith

pub read_bytes-IsValid :
    (p : PipeInfo) (m : Memory) (buff count : ℕ)
    → IsValid p
    → IsValid (read_bytes p m buff count).pipe
unfolding read_bytes
read_bytes-IsValid p m buff count v = ground arith

pub write_bytes-IsValid :
    (p : PipeInfo) (m : Memory) (buff count : ℕ)
    → IsValid p
    → IsValid (write_bytes p m buff count).pipe
unfolding write_bytes
write_bytes-IsValid p m buff count v = ground arith

pub pipe_read-IsValid :
    (ctx : Context) (f : File) (p : PipeInfo) (m : Memory) (buff count : ℕ)
    → IsValid p
    → IsValid (pipe_read ctx f p m buff count).pipe
unfolding pipe_read
pipe_read-IsValid ctx f p m buff count v = ground (arith, read_bytes-IsValid p m buff count v)

pub pipe_write-IsValid :
    (ctx : Context) (f : File) (p : PipeInfo) (m : Memory) (buff count : ℕ)
    → IsValid p
    → IsValid (pipe_write ctx f p m buff count).pipe
unfolding pipe_write
pipe_write-IsValid ctx f p m buff count v = ground (arith, write_bytes-IsValid p m buff count v)

-- The slot that a fork fills: the child's own, or the first free one.
module _ (child : Context) (p : PipeInfo) where
  abbrev pub own_slot : ℕ
  own_slot = find_pid pid_of child.pid p.procs

  abbrev pub free_slot : ℕ
  free_slot = find_pid pid_of no_pid p.procs

  abbrev pub parent_slot : ℕ
  parent_slot = find_pid pid_of child.ppid p.procs

  abbrev pub child_proc : Proc
  child_proc = record (proc_at p parent_slot) { pid = child.pid }

module _ (child : Context) (p : PipeInfo) (v : IsValid p) where
  pub child_proc-IsSlot :
      child.pid ≢ no_pid
      → child.ppid ≢ no_pid
      → parent_slot child p < length p.procs
      → IsSlot (child_proc child p)
  child_proc-IsSlot c d h = ground (
    arith,
    All-get_or IsSlot p.procs (parent_slot child p) free_proc v.each h,
    find_pid-slot_of pid_of child.ppid p.procs free_proc {q = proc_at p (parent_slot child p)}
        (slot_of-find_pid pid_of child.ppid p.procs free_proc h),
  )

  pub set-IsValid :
      (i : ℕ) (q : Proc)
      → IsSlot q
      → IsDistinct pid_of (set p.procs i q)
      → IsValid (record p { procs = set p.procs i q })
  set-IsValid i q s d = record {
    slots = length-set p.procs i q ∙ v.slots;
    each = All-set IsSlot p.procs i q v.each s;
    distinct = d;
    len_in = v.len_in;
    read_in = v.read_in;
    write_at = v.write_at;
  }
