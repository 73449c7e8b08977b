-- ===== src/Pipe/Read.antt =====
-- pipe_read of pipe.c: which bytes it delivers.
use building_gem_os_cs.Base.{
  ℕ, ◌+◌, ◌-◌, ◌%◌, ◌≤◌, ◌<◌, ◌≡◌, ◌≢◌, sym, ◌∙◌, min, bit_and, true, some, leb, if◌then◌else◌,
  arith, length, take, drop, ◌⊎◌,
}
use building_gem_os_cs.Base.Memory.{Memory, slice}
use building_gem_os_cs.Kernel.{ok, o_read, Context, File}
use building_gem_os_cs.ProcTable.{slot_of}
use building_gem_os_cs.ProcTable.Laws.{find_pid-slot_of}
use building_gem_os_cs.Ring.{max_pipe_size, copy_out}
use building_gem_os_cs.Ring.Window.{length-window, take-window, drop-window, window_mod}
use building_gem_os_cs.Ring.Copy.{slice-copy_out, copy_out_other}
use building_gem_os_cs.Pipe.{
  Proc, PipeInfo, Io, pid_of, free_proc, read_bytes, pipe_read, is_valid_mem_range,
}
use building_gem_os_cs.Pipe.Invariant.{IsValid, contents, read_bytes-IsValid}

-- What a read needs: a file open for reading, the caller's read end open, writable memory.
pub record MayRead (ctx : Context) (f : File) (p : PipeInfo) (buff count : ℕ) : Type 0 where
  pub mode : bit_and f.mode o_read ≢ 0
  pub slot : Proc
  pub owner : slot_of pid_of ctx.pid p.procs ≡ some slot
  pub open_end : slot.read_open ≡ true
  pub range : is_valid_mem_range ctx buff count 2 ≡ ok 1

-- What a read of `n` bytes into `buff` leaves.
pub record Delivered (m : Memory) (buff n : ℕ) (p : PipeInfo) (r : Io) : Type 0 where
  pub reply : r.reply ≡ ok n
  pub valid : IsValid r.pipe
  pub bytes : slice r.memory buff n ≡ take n (contents p)
  pub rest : contents r.pipe ≡ drop n (contents p)
  pub outside : (a : ℕ) → (a < buff) ⊎ (buff + n ≤ a) → r.memory a ≡ m a
  pub procs : r.pipe.procs ≡ p.procs

pub pipe_read-eq-read_bytes :
    (ctx : Context) (f : File) (p : PipeInfo) (m : Memory) (buff count : ℕ)
    → IsValid p
    → MayRead ctx f p buff count
    → pipe_read ctx f p m buff count ≡ read_bytes p m buff count
unfolding pipe_read
pipe_read-eq-read_bytes ctx f p m buff count v w =
    ground (arith, v.slots, find_pid-slot_of pid_of ctx.pid p.procs free_proc w.owner)

read_bytes_lem :
    (p : PipeInfo) (m : Memory) (buff count : ℕ)
    → let n = min count p.buff_len in
      read_bytes p m buff count ≡ record {
        reply = ok n;
        pipe = record p { buff_len = p.buff_len - n; read_pos = (p.read_pos + n) % max_pipe_size };
        memory = copy_out n 0 p.pipe_buff p.read_pos buff m;
      }
unfolding read_bytes
read_bytes_lem p m buff count =
    let e : (if leb count p.buff_len then count else p.buff_len) ≡ min count p.buff_len =
      ground arith in
    rw e

pub read_bytes-Delivered :
    (p : PipeInfo) (m : Memory) (buff count : ℕ)
    → IsValid p
    → Delivered m buff (min count (length (contents p))) p (read_bytes p m buff count)
read_bytes-Delivered p m buff count v =
    rw (length-window p.pipe_buff p.read_pos p.buff_len) (record {
      reply = ground (arith, call);
      valid = read_bytes-IsValid p m buff count v;
      bytes = rw call (
          slice-copy_out n p.pipe_buff p.read_pos buff m
          ∙ sym (take-window p.pipe_buff p.read_pos n p.buff_len (omega arith)));
      rest = rw call (
          window_mod p.pipe_buff ((p.read_pos + n) % max_pipe_size) (p.read_pos + n)
            (p.buff_len - n) (omega arith)
          ∙ sym (drop-window p.pipe_buff p.read_pos n p.buff_len (omega arith)));
      outside = λ a h. rw call (copy_out_other n 0 p.pipe_buff p.read_pos buff m a (omega arith));
      procs = ground (arith, call);
    })
  where
    n : ℕ
    n = min count p.buff_len

    call : read_bytes p m buff count ≡ record {
      reply = ok n;
      pipe = record p { buff_len = p.buff_len - n; read_pos = (p.read_pos + n) % max_pipe_size };
      memory = copy_out n 0 p.pipe_buff p.read_pos buff m;
    }
    call = read_bytes_lem p m buff count

-- A permitted read delivers as many bytes as were asked for and are there, returns their number,
-- puts the oldest bytes in order into the buffer and takes exactly these from the pipe, keeps the
-- pipe well formed, and changes neither memory outside the buffer nor the table of processes.
pub pipe_read-Delivered :
    (ctx : Context) (f : File) (p : PipeInfo) (m : Memory) (buff count : ℕ)
    → IsValid p
    → MayRead ctx f p buff count
    → Delivered m buff (min count (length (contents p))) p (pipe_read ctx f p m buff count)
pipe_read-Delivered ctx f p m buff count v w =
    rw (pipe_read-eq-read_bytes ctx f p m buff count v w) (read_bytes-Delivered p m buff count v)
