-- ===== src/Ppipe/Invariant.antt =====
-- The well-formedness of a persistent pipe of ppipe.c, and what a process has left to read.
use building_gem_os_cs.Base.{
  ℕ, ◌+◌, ◌-◌, ◌%◌, ◌≤◌, ◌<◌, ◌≡◌, ◌∙◌, true, List, [], set, arith, length, All, All-set,
  length-set,
}
use building_gem_os_cs.Base.Memory.{Memory}
use building_gem_os_cs.ProcTable.{IsDistinct}
use building_gem_os_cs.Ring.{max_pipe_size, window}
use building_gem_os_cs.Ppipe.{max_ppipe_proc, Proc, PpipeInfo, pid_of, alloc_ppipe_info}

-- A process that may read stands within the bytes kept, `bytes_read` past their start.
abbrev pub IsReader : (start len : ℕ) → Proc → Type 0
IsReader start len q =
    q.read_open ≡ true
    → (q.bytes_read ≤ len) × (q.read_pos ≡ (start + q.bytes_read) % max_pipe_size)

pub record IsValid (p : PpipeInfo) : Type 0 where
  pub slots : length p.procs ≡ max_ppipe_proc
  pub each : All (IsReader p.buff_start p.buff_len) p.procs
  pub distinct : IsDistinct pid_of p.procs
  pub len_in : p.buff_len ≤ max_pipe_size
  pub start_in : p.buff_start < max_pipe_size
  pub end_at : p.buff_end ≡ (p.buff_start + p.buff_len) % max_pipe_size

-- The bytes that the pipe keeps, oldest first.
abbrev pub contents : PpipeInfo → List ℕ
contents p = window p.ppipe_buff p.buff_start p.buff_len

-- The bytes that a process has yet to read.
abbrev pub pending : PpipeInfo → Proc → List ℕ
pending p q = window p.ppipe_buff q.read_pos (p.buff_len - q.bytes_read)

-- A new persistent pipe is well formed and empty.
pub alloc_ppipe_info-IsValid :
    (buffer : Memory)
    → IsValid (alloc_ppipe_info buffer) × (contents (alloc_ppipe_info buffer) ≡ [])
unfolding alloc_ppipe_info
alloc_ppipe_info-IsValid buffer = ground arith

pub set-IsValid :
    (p : PpipeInfo) (i : ℕ) (q : Proc)
    → IsValid p
    → IsReader p.buff_start p.buff_len q
    → IsDistinct pid_of (set p.procs i q)
    → IsValid (record p { procs = set p.procs i q })
set-IsValid p i q v r d = record {
  slots = length-set p.procs i q ∙ v.slots;
  each = All-set (IsReader p.buff_start p.buff_len) p.procs i q v.each r;
  distinct = d;
  len_in = v.len_in;
  start_in = v.start_in;
  end_at = v.end_at;
}
