-- ===== src/Ppipe/Tests.antt =====
-- The theorems on ppipe.c at concrete inputs, and runs of its handlers.
use building_gem_os_cs.Base.{
  ℕ, ◌≡◌, ◌≢◌, refl, true, false, [], ◌∷◌, arith, replicate, inr, if◌then◌else◌, ◌==◌,
}
use building_gem_os_cs.Base.Memory.{Memory, slice}
use building_gem_os_cs.Kernel.{ok, FileType, o_read, o_write, no_pid, Context, File}
use building_gem_os_cs.ProcTable.{slot_of}
use building_gem_os_cs.Ring.{copy_in, copy_out}
use building_gem_os_cs.Ppipe.{
  Proc, PpipeInfo, pid_of, free_proc, do_ppipe_fork, do_flush_ppipe, reclaimed, read_by_all,
  read_bytes, write_bytes, ppipe_read, ppipe_write,
}
use building_gem_os_cs.Ppipe.Invariant.{IsValid, contents, pending}
use building_gem_os_cs.Ppipe.Write.{Wrote, ppipe_write-Wrote}
use building_gem_os_cs.Ppipe.Read.{Delivered, ppipe_read-Delivered}
use building_gem_os_cs.Ppipe.Fork.{CanFork, do_ppipe_fork_twice}
use building_gem_os_cs.Ppipe.Flush.{Flushed, do_flush_ppipe-Flushed}

abbrev process : ℕ → Context
process n = record { pid = n; ppid = 1; mms = []; vm_area = [] }

abbrev end_file : ℕ → File
end_file mode = record { type = FileType.ppipe; mode = mode; offp = 0; ref_count = 1 }

-- Process 1 has read one of three bytes, process 2 two of them.
abbrev first : Proc
first = record { pid = 1; read_open = true; write_open = true; read_pos = 0; bytes_read = 1 }

abbrev second : Proc
second = record { pid = 2; read_open = true; write_open = false; read_pos = 1; bytes_read = 2 }

-- The bytes 7, 8 and 9 lie round the end of the page.
abbrev shared : PpipeInfo
shared = record {
  procs = first ∷ second ∷ replicate 14 free_proc;
  ppipe_buff = λ a. if a == 4095 then 7 else if a == 0 then 8 else 9;
  buff_len = 3;
  buff_start = 4095;
  buff_end = 2;
}

abbrev memory : Memory
memory = λ a. a

shared-IsValid : IsValid shared
shared-IsValid = ground arith

pending-shared : (pending shared first ≡ 8 ∷ 9 ∷ []) × (pending shared second ≡ 9 ∷ [])
pending-shared = (refl, refl)

flush_run : (do_flush_ppipe shared).0 ≡ 1
unfolding do_flush_ppipe reclaimed read_by_all
flush_run = refl

read_run :
    let r = ppipe_read (process 1) (end_file o_read) shared memory 100 5 in
    (r.reply ≡ ok 2) × (slice r.memory 100 2 ≡ 8 ∷ 9 ∷ [])
unfolding ppipe_read read_bytes copy_out
read_run = (refl, refl)

write_run :
    contents (ppipe_write (process 1) (end_file o_write) shared memory 100 2).ppipe
    ≡ 7 ∷ 8 ∷ 9 ∷ 100 ∷ 101 ∷ []
unfolding ppipe_write write_bytes copy_in
write_run = refl

do_flush_ppipe-Flushed_example : Flushed (reclaimed shared) shared (do_flush_ppipe shared)
do_flush_ppipe-Flushed_example = do_flush_ppipe-Flushed shared shared-IsValid

ppipe_write-Wrote_example :
    Wrote memory 100 2 shared (ppipe_write (process 1) (end_file o_write) shared memory 100 2)
ppipe_write-Wrote_example =
    ppipe_write-Wrote (process 1) (end_file o_write) shared memory 100 2 shared-IsValid
      (record { mode = λ e. cc; slot = first; owner = refl; open_end = refl })

ppipe_read-Delivered_example :
    Delivered
      (process 2)
      memory
      100
      1
      shared
      second
      (ppipe_read (process 2) (end_file o_read) shared memory 100 4)
ppipe_read-Delivered_example =
    ppipe_read-Delivered (process 2) (end_file o_read) shared second memory 100 4 shared-IsValid
      (record { mode = λ e. cc; owner = refl; open_end = refl })

can_fork : CanFork (process 3) shared first
can_fork = record {
  child_pid = λ e. absurd (omega arith);
  parent_pid = λ e. absurd (omega arith);
  parent = refl;
  room = inr (λ e. cc);
}

do_ppipe_fork_twice_example :
    let p' = (do_ppipe_fork (process 3) shared).1 in
    ((do_ppipe_fork (process 3) p').0 ≡ ok 0)
    × ((x : ℕ)
        → x ≢ no_pid
        → slot_of pid_of x (do_ppipe_fork (process 3) p').1.procs ≡ slot_of pid_of x p'.procs)
do_ppipe_fork_twice_example =
    do_ppipe_fork_twice (process 3) shared first shared-IsValid can_fork (λ e. absurd (omega arith))
