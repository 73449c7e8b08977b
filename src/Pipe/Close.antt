-- ===== src/Pipe/Close.antt =====
-- pipe_close of pipe.c.
use building_gem_os_cs.Base.{ℕ, ◌≡◌, ◌≢◌, ◌||◌, Option, none, some, ◌==◌, if◌then◌else◌, set, arith}
use building_gem_os_cs.Kernel.{ok, err, eothers, no_pid, Context, File}
use building_gem_os_cs.ProcTable.{find_pid, slot_of}
use building_gem_os_cs.ProcTable.Laws.{find_pid-none}
use building_gem_os_cs.Pipe.{
  Proc, PipeInfo, Closed, pid_of, proc_at, close_end, file_close, pipe_close,
}
use building_gem_os_cs.Pipe.Invariant.{IsValid}

-- The slot that a process which closes an end keeps: none, if it has no other end open.
abbrev pub kept_slot : ℕ → Proc → Option Proc
kept_slot mode q = let r = close_end mode q in if r.read_open || r.write_open then some r else none

-- What a close leaves in the table.
pub record EndClosed (ctx : Context) (f : File) (p : PipeInfo) (q : Proc) (p' : PipeInfo)
    : Type 0 where
  pub valid : IsValid p'
  pub slots :
      (x : ℕ)
      → x ≢ no_pid
      → slot_of pid_of x p'.procs
        ≡ (if x == ctx.pid then kept_slot f.mode q else slot_of pid_of x p.procs)
  pub ring : (p'.pipe_buff ≡ p.pipe_buff) × (p'.buff_len ≡ p.buff_len) × (p'.read_pos ≡ p.read_pos)

abbrev closed_at : Context → File → PipeInfo → PipeInfo
closed_at ctx f p =
    let i = find_pid pid_of ctx.pid p.procs in
    record p { procs = set p.procs i (close_end f.mode (proc_at p i)) }

module _ (ctx : Context) (f : File) (p : PipeInfo) (q : Proc) (v : IsValid p)
    (owned : slot_of pid_of ctx.pid p.procs ≡ some q) (real : ctx.pid ≢ no_pid) where
  abbrev index : ℕ
  index = find_pid pid_of ctx.pid p.procs

-- What `pipe_close` leaves: the end is closed; the pipe is freed if and only if no process has a
-- slot in it any more; the file object has lost one reference.
pub record CloseOutcome (ctx : Context) (f : File) (p : PipeInfo) (q : Proc) (r : Closed)
    : Type 0 where
  pub reply : r.reply ≡ ok 0
  pub file : r.file ≡ file_close f
  pub after : PipeInfo
  pub ended : EndClosed ctx f p q after
  pub freed : ((x : ℕ) → x ≢ no_pid → slot_of pid_of x after.procs ≡ none) → r.pipe ≡ none
  pub kept : (x : ℕ) → x ≢ no_pid → slot_of pid_of x after.procs ≢ none → r.pipe ≡ some after

-- A process with no slot cannot close an end: the call fails and changes nothing.
pub pipe_close-eothers :
    (ctx : Context) (f : File) (p : PipeInfo)
    → IsValid p
    → slot_of pid_of ctx.pid p.procs ≡ none
    → pipe_close ctx f p ≡ record { reply = err eothers; pipe = some p; file = some f }
unfolding pipe_close
pipe_close-eothers ctx f p v h = ground (arith, v.slots, find_pid-none pid_of ctx.pid p.procs)
