-- ===== src/Pipe/Errors.antt =====
-- The error paths of pipe_read and pipe_write of pipe.c.
use building_gem_os_cs.Base.{ℕ, ◌≡◌, ◌≢◌, bit_and, Bool, true, false, none, some, arith}
use building_gem_os_cs.Base.Memory.{Memory}
use building_gem_os_cs.Kernel.{Reply, err, einval, eacces, ebadmem, eothers, o_write, Context, File}
use building_gem_os_cs.ProcTable.{slot_of}
use building_gem_os_cs.ProcTable.Laws.{find_pid-slot_of, find_pid-none}
use building_gem_os_cs.Pipe.{Proc, PipeInfo, pid_of, free_proc, pipe_write, is_valid_mem_range}
use building_gem_os_cs.Pipe.Invariant.{IsValid}

-- The reasons to refuse an access, in the order in which they are looked for: the mode of the file,
-- the slot of the process, its end of the pipe, the buffer.
pub data Refused (mode_bit access_bit : ℕ) (end_open : Proc → Bool) (ctx : Context) (f : File)
    (p : PipeInfo) (buff count : ℕ) : Reply → Type 0 where
  bad_mode :
      bit_and f.mode mode_bit ≡ 0
      → Refused mode_bit access_bit end_open ctx f p buff count (err eacces)
  no_slot :
      bit_and f.mode mode_bit ≢ 0
      → slot_of pid_of ctx.pid p.procs ≡ none
      → Refused mode_bit access_bit end_open ctx f p buff count (err eothers)
  end_closed :
      (q : Proc)
      → bit_and f.mode mode_bit ≢ 0
      → slot_of pid_of ctx.pid p.procs ≡ some q
      → end_open q ≡ false
      → Refused mode_bit access_bit end_open ctx f p buff count (err einval)
  bad_buffer :
      (q : Proc)
      → bit_and f.mode mode_bit ≢ 0
      → slot_of pid_of ctx.pid p.procs ≡ some q
      → end_open q ≡ true
      → is_valid_mem_range ctx buff count access_bit ≡ err ebadmem
      → Refused mode_bit access_bit end_open ctx f p buff count (err eothers)

-- So does a write that is refused.
pub pipe_write-Refused :
    (ctx : Context) (f : File) (p : PipeInfo) (m : Memory) (buff count : ℕ) {e : Reply}
    → IsValid p
    → Refused o_write 1 (λ q. q.write_open) ctx f p buff count e
    → pipe_write ctx f p m buff count ≡ record { reply = e; pipe = p; memory = m }
unfolding pipe_write
pipe_write-Refused ctx f p m buff count v (bad_mode h) = ground arith
pipe_write-Refused ctx f p m buff count v (no_slot h k) =
    ground (arith, v.slots, find_pid-none pid_of ctx.pid p.procs k)
pipe_write-Refused ctx f p m buff count v (end_closed q h k c) =
    ground (arith, v.slots, find_pid-slot_of pid_of ctx.pid p.procs free_proc k)
pipe_write-Refused ctx f p m buff count v (bad_buffer q h k c b) =
    ground (arith, v.slots, find_pid-slot_of pid_of ctx.pid p.procs free_proc k)
