-- ===== src/Files/Dangling.antt =====
-- pipe_close frees a pipe by the table of its processes, but file objects count descriptors.
use building_gem_os_cs.Base.{ℕ, ◌-◌, ◌^◌, ◌<◌, ◌≤◌, ◌≡◌, ◌≢◌, none, some, set, bit_and}
use building_gem_os_cs.Base.Partial.{put}
use building_gem_os_cs.Kernel.{no_pid, ok, o_read}
use building_gem_os_cs.ProcTable.{slot_of}
use building_gem_os_cs.Pipe.{Proc, PipeInfo, pid_of}
use building_gem_os_cs.Pipe.Invariant.{IsValid}
use building_gem_os_cs.Pipe.Close.{kept_slot}
use building_gem_os_cs.Files.{
  closes_pipe, reads_pipe, Object, Devices, System, Task, Call, file_at, do_close,
}
use building_gem_os_cs.Files.Io.{do_file_read}

-- A descriptor that two entries name, of the last open end of a pipe that one process uses.
pub record LastEnd {D : Type 0} (t : Task) (s : System D) (fd other a p : ℕ) (o : Object)
    (i : PipeInfo) (q : Proc) : Type 0 where
  pub at_fd : file_at t fd ≡ some (some a)
  pub at_other : file_at t other ≡ some (some a)
  pub apart : fd ≢ other
  pub object : s.files a ≡ some o
  pub closes : o.fops.close ≡ some closes_pipe
  pub reads : o.fops.read ≡ some reads_pipe
  pub mode : bit_and o.file.mode o_read ≡ o_read
  pub shared : (2 ≤ o.file.ref_count) × (o.file.ref_count < 2 ^ 32)
  pub target : o.pipe ≡ some p
  pub info : s.pipes p ≡ some i
  pub valid : IsValid i
  pub owner : slot_of pid_of t.ctx.pid i.procs ≡ some q
  pub real : t.ctx.pid ≢ no_pid
  pub alone : (x : ℕ) → x ≢ no_pid → x ≢ t.ctx.pid → slot_of pid_of x i.procs ≡ none
  pub last : kept_slot o.file.mode q ≡ none

-- What closing one of the two descriptors leaves: the other names an object that is there, with a
-- pipe that has been freed, and a read from it reads the freed pipe.
pub record Dangles {D : Type 0} (dev : Devices D) (t : Task) (s : System D) (fd other a p : ℕ)
    : Type 0 where
  pub after : Call D
  pub call : do_close t fd s ≡ some after
  pub reply : after.reply ≡ ok 0
  pub freed : after.system.pipes p ≡ none
  pub object : Object
  pub kept : after.system.files a ≡ some object
  pub target : object.pipe ≡ some p
  pub still : file_at after.task other ≡ some (some a)
  pub faults : (buff count : ℕ) → do_file_read dev after.task other buff count after.system ≡ none

module _ {D : Type 0} (dev : Devices D) (t : Task) (s : System D) (fd other a p : ℕ) (o : Object)
    (i : PipeInfo) (q : Proc) (h : LastEnd t s fd other a p o i q) where
  abbrev object' : Object
  object' = record o { file = record (o.file) { ref_count = o.file.ref_count - 1 } }

  abbrev system' : System D
  system' = record s { files = put s.files a (some object'); pipes = put s.pipes p none }

  abbrev task' : Task
  task' = record t { files = set t.files fd none }

  abbrev closed' : Call D
  closed' = record { reply = ok 0; system = system'; task = task' }
