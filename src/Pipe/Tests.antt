-- ===== src/Pipe/Tests.antt =====
-- The theorems on pipe.c at concrete inputs, and runs of its handlers.
use building_gem_os_cs.Base.{
  ℕ, ◌≤◌, ◌≡◌, refl, true, List, [], ◌∷◌, ◌++◌, arith, length, replicate, inl, if◌then◌else◌, ◌==◌,
}
use building_gem_os_cs.Base.Memory.{Memory, slice}
use building_gem_os_cs.Kernel.{
  ok, err, eothers, FileType, o_read, o_write, MmSegment, Context, File,
}
use building_gem_os_cs.Ring.{max_pipe_size, copy_in, copy_out}
use building_gem_os_cs.Pipe.{
  Proc, PipeInfo, free_proc, do_pipe_fork, find_segment, is_valid_mem_range, read_bytes,
  write_bytes, pipe_read, pipe_write,
}
use building_gem_os_cs.Pipe.Invariant.{IsValid, contents, pipe_read-IsValid}
use building_gem_os_cs.Pipe.Write.{MayWrite, Wrote, pipe_write-Wrote}
use building_gem_os_cs.Pipe.Read.{MayRead, Delivered, pipe_read-Delivered}
use building_gem_os_cs.Pipe.Fork.{do_pipe_fork-eothers}
use building_gem_os_cs.Pipe.Refine.{Request, reads, writes, start, run, step, run_fifo}

abbrev data_segment : MmSegment
data_segment = record { start = 0; end = 10000; next_free = 10000; access_flags = 0x3 }

abbrev process : ℕ → Context
process n = record { pid = n; ppid = 1; mms = data_segment ∷ []; vm_area = [] }

abbrev end_file : ℕ → File
end_file mode = record { type = FileType.pipe; mode = mode; offp = 0; ref_count = 1 }

abbrev owner : Proc
owner = record { pid = 1; read_open = true; write_open = true }

-- Process 1 holds both ends; the bytes 7 and 8 wrap round the end of the page.
abbrev wrapped : PipeInfo
wrapped = record {
  procs = owner ∷ replicate 15 free_proc;
  pipe_buff = λ a. if a == 4095 then 7 else 8;
  buff_len = 2;
  read_pos = 4095;
  write_pos = 1;
}

abbrev memory : Memory
memory = λ a. a

wrapped-IsValid : IsValid wrapped
wrapped-IsValid = ground arith

contents-wrapped : contents wrapped ≡ 7 ∷ 8 ∷ []
contents-wrapped = refl

may_write : MayWrite (process 1) (end_file o_write) wrapped 100 3
unfolding is_valid_mem_range find_segment
may_write = record { mode = λ e. cc; slot = owner; owner = refl; open_end = refl; range = refl }

may_read : MayRead (process 1) (end_file o_read) wrapped 100 1
unfolding is_valid_mem_range find_segment
may_read = record { mode = λ e. cc; slot = owner; owner = refl; open_end = refl; range = refl }

write_run :
    contents (pipe_write (process 1) (end_file o_write) wrapped memory 100 3).pipe
    ≡ 7 ∷ 8 ∷ 100 ∷ 101 ∷ 102 ∷ []
unfolding pipe_write write_bytes is_valid_mem_range find_segment copy_in
write_run = refl

read_run :
    let r = pipe_read (process 1) (end_file o_read) wrapped memory 100 5 in
    (r.reply ≡ ok 2) × (slice r.memory 100 3 ≡ 7 ∷ 8 ∷ 102 ∷ [])
unfolding pipe_read read_bytes is_valid_mem_range find_segment copy_out
read_run = (refl, refl)

pipe_write-Wrote_example :
    Wrote memory 100 3 wrapped (pipe_write (process 1) (end_file o_write) wrapped memory 100 3)
pipe_write-Wrote_example =
    pipe_write-Wrote (process 1) (end_file o_write) wrapped memory 100 3 wrapped-IsValid may_write

pipe_read-Delivered_example :
    Delivered memory 100 1 wrapped (pipe_read (process 1) (end_file o_read) wrapped memory 100 1)
pipe_read-Delivered_example =
    pipe_read-Delivered (process 1) (end_file o_read) wrapped memory 100 1 wrapped-IsValid may_read

pipe_read-IsValid_example :
    IsValid (pipe_read (process 1) (end_file o_read) wrapped memory 100 1).pipe
pipe_read-IsValid_example =
    pipe_read-IsValid (process 1) (end_file o_read) wrapped memory 100 1 wrapped-IsValid

do_pipe_fork-eothers_example :
    do_pipe_fork (record (process 2) { ppid = 5 }) wrapped ≡ (err eothers, wrapped)
do_pipe_fork-eothers_example =
    do_pipe_fork-eothers (record (process 2) { ppid = 5 }) wrapped wrapped-IsValid (inl refl)

abbrev requests : List Request
requests =
    writes (process 1) (end_file o_write) 100 2
    ∷ reads (process 1) (end_file o_read) 200 3
    ∷ reads (process 2) (end_file o_read) 200 3
    ∷ []

run_fifo_example :
    let h = run (start wrapped memory) requests in
    (7 ∷ 8 ∷ h.accepted ≡ h.delivered ++ contents h.pipe)
    × (length (contents h.pipe) ≤ max_pipe_size)
run_fifo_example = run_fifo wrapped memory requests wrapped-IsValid

run_delivers : (run (start wrapped memory) requests).delivered ≡ 7 ∷ 8 ∷ 100 ∷ []
unfolding run step pipe_read pipe_write read_bytes write_bytes is_valid_mem_range find_segment
    copy_in copy_out
run_delivers = refl
