-- ===== src/Pipe/Write.antt =====
-- pipe_write of pipe.c: which bytes it takes.
use building_gem_os_cs.Base.{
  ℕ, ◌+◌, ◌-◌, ◌%◌, ◌≡◌, ◌≢◌, min, bit_and, true, some, ◌++◌, leb, if◌then◌else◌, arith, length,
}
use building_gem_os_cs.Base.Memory.{Memory, slice}
use building_gem_os_cs.Kernel.{ok, o_write, Context, File}
use building_gem_os_cs.ProcTable.{slot_of}
use building_gem_os_cs.ProcTable.Laws.{find_pid-slot_of}
use building_gem_os_cs.Ring.{max_pipe_size, copy_in}
use building_gem_os_cs.Ring.Window.{length-window}
use building_gem_os_cs.Ring.Copy.{window-copy_in}
use building_gem_os_cs.Pipe.{
  Proc, PipeInfo, Io, pid_of, free_proc, write_bytes, pipe_write, is_valid_mem_range,
}
use building_gem_os_cs.Pipe.Invariant.{IsValid, contents, write_bytes-IsValid}

-- What a write needs: a file open for writing, the caller's write end open, readable memory.
pub record MayWrite (ctx : Context) (f : File) (p : PipeInfo) (buff count : ℕ) : Type 0 where
  pub mode : bit_and f.mode o_write ≢ 0
  pub slot : Proc
  pub owner : slot_of pid_of ctx.pid p.procs ≡ some slot
  pub open_end : slot.write_open ≡ true
  pub range : is_valid_mem_range ctx buff count 1 ≡ ok 1

-- What a write of `n` bytes from `buff` leaves.
pub record Wrote (m : Memory) (buff n : ℕ) (p : PipeInfo) (r : Io) : Type 0 where
  pub reply : r.reply ≡ ok n
  pub valid : IsValid r.pipe
  pub bytes : contents r.pipe ≡ contents p ++ slice m buff n
  pub memory : r.memory ≡ m
  pub procs : r.pipe.procs ≡ p.procs

pub pipe_write-eq-write_bytes :
    (ctx : Context) (f : File) (p : PipeInfo) (m : Memory) (buff count : ℕ)
    → IsValid p
    → MayWrite ctx f p buff count
    → pipe_write ctx f p m buff count ≡ write_bytes p m buff count
unfolding pipe_write
pipe_write-eq-write_bytes ctx f p m buff count v w =
    ground (arith, v.slots, find_pid-slot_of pid_of ctx.pid p.procs free_proc w.owner)

abbrev pub written : PipeInfo → ℕ → ℕ
written p count = min count (max_pipe_size - p.buff_len)

write_bytes_lem :
    (p : PipeInfo) (m : Memory) (buff count : ℕ)
    → let n = written p count in
      write_bytes p m buff count ≡ record {
        reply = ok n;
        pipe = record p {
          pipe_buff = copy_in n 0 m buff p.write_pos p.pipe_buff;
          buff_len = p.buff_len + n;
          write_pos = (p.write_pos + n) % max_pipe_size;
        };
        memory = m;
      }
unfolding write_bytes
write_bytes_lem p m buff count =
    let e : (if leb count (max_pipe_size - p.buff_len) then count else max_pipe_size - p.buff_len)
        ≡ written p count =
      ground arith in
    rw e

pub write_bytes-Wrote :
    (p : PipeInfo) (m : Memory) (buff count : ℕ)
    → IsValid p
    → Wrote m buff (min count (max_pipe_size - length (contents p))) p (write_bytes p m buff count)
write_bytes-Wrote p m buff count v = rw (length-window p.pipe_buff p.read_pos p.buff_len) (record {
  reply = ground (arith, call);
  valid = write_bytes-IsValid p m buff count v;
  bytes = rw call (
      window-copy_in m buff p.read_pos p.buff_len p.write_pos n p.pipe_buff (omega arith)
        (omega arith));
  memory = ground (arith, call);
  procs = ground (arith, call);
})
  where
    n : ℕ
    n = written p count

    call : write_bytes p m buff count ≡ record {
      reply = ok n;
      pipe = record p {
        pipe_buff = copy_in n 0 m buff p.write_pos p.pipe_buff;
        buff_len = p.buff_len + n;
        write_pos = (p.write_pos + n) % max_pipe_size;
      };
      memory = m;
    }
    call = write_bytes_lem p m buff count

-- A permitted write takes as many bytes as were asked for and still fit, returns their number, puts
-- exactly the first bytes of the buffer behind those that the pipe held, keeps the pipe well formed
-- and changes neither user memory nor the table of processes.
pub pipe_write-Wrote :
    (ctx : Context) (f : File) (p : PipeInfo) (m : Memory) (buff count : ℕ)
    → IsValid p
    → MayWrite ctx f p buff count
    → Wrote m buff
        (min count (max_pipe_size - length (contents p)))
        p
        (pipe_write ctx f p m buff count)
pipe_write-Wrote ctx f p m buff count v w =
    rw (pipe_write-eq-write_bytes ctx f p m buff count v w) (write_bytes-Wrote p m buff count v)
