-- ===== src/Ppipe/Close.antt =====
-- ppipe_close of ppipe.c. It does not give a slot up, so the pipe is never freed.
use building_gem_os_cs.Base.{ℕ, ◌≡◌, some, ◌==◌, if◌then◌else◌}
use building_gem_os_cs.Kernel.{ok, Context, File}
use building_gem_os_cs.ProcTable.{slot_of}
use building_gem_os_cs.Pipe.{file_close}
use building_gem_os_cs.Ppipe.{Proc, PpipeInfo, Closed, pid_of, close_end}
use building_gem_os_cs.Ppipe.Invariant.{IsValid}

-- What a close leaves. The pipe is kept, and every process that had a slot still has one.
pub record CloseOutcome (ctx : Context) (f : File) (p : PpipeInfo) (q : Proc) (r : Closed)
    : Type 0 where
  pub reply : r.reply ≡ ok 0
  pub file : r.file ≡ file_close f
  pub after : PpipeInfo
  pub kept : r.ppipe ≡ some after
  pub valid : IsValid after
  pub slots :
      (x : ℕ)
      → slot_of pid_of x after.procs
        ≡ (if x == ctx.pid then some (close_end f.mode q) else slot_of pid_of x p.procs)
