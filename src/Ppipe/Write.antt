-- ===== src/Ppipe/Write.antt =====
-- ppipe_write of ppipe.c.
use building_gem_os_cs.Base.{
  ℕ, ◌+◌, ◌-◌, ◌%◌, ◌<◌, ◌≡◌, ◌≢◌, min, bit_and, true, some, ◌++◌, leb, if◌then◌else◌, arith,
  length, All-mono, All-get_or,
}
use building_gem_os_cs.Base.Memory.{Memory, slice}
use building_gem_os_cs.Kernel.{ok, o_write, Context, File}
use building_gem_os_cs.ProcTable.{slot_of}
use building_gem_os_cs.ProcTable.Laws.{find_pid-slot_of}
use building_gem_os_cs.Ring.{max_pipe_size, copy_in}
use building_gem_os_cs.Ring.Window.{length-window}
use building_gem_os_cs.Ring.Copy.{window-copy_in}
use building_gem_os_cs.Ppipe.{
  Proc, PpipeInfo, Io, pid_of, free_proc, proc_at, write_bytes, ppipe_write,
}
use building_gem_os_cs.Ppipe.Invariant.{IsValid, IsReader, contents, pending}

-- What a write needs. The buffer is not checked.
pub record MayWrite (ctx : Context) (f : File) (p : PpipeInfo) : Type 0 where
  pub mode : bit_and f.mode o_write ≢ 0
  pub slot : Proc
  pub owner : slot_of pid_of ctx.pid p.procs ≡ some slot
  pub open_end : slot.write_open ≡ true

-- What a write of `n` bytes from `buff` leaves.
pub record Wrote (m : Memory) (buff n : ℕ) (p : PpipeInfo) (r : Io) : Type 0 where
  pub reply : r.reply ≡ ok n
  pub valid : IsValid r.ppipe
  pub bytes : contents r.ppipe ≡ contents p ++ slice m buff n
  pub readers :
      (i : ℕ)
      → i < length p.procs
      → (proc_at p i).read_open ≡ true
      → pending r.ppipe (proc_at p i) ≡ pending p (proc_at p i) ++ slice m buff n
  pub memory : r.memory ≡ m
  pub procs : r.ppipe.procs ≡ p.procs

write_bytes-IsValid :
    (p : PpipeInfo) (m : Memory) (buff count : ℕ)
    → IsValid p
    → IsValid (write_bytes p m buff count).ppipe
unfolding write_bytes
write_bytes-IsValid p m buff count v = record {
  slots = v.slots;
  each = All-mono _ _ p.procs (λ q r h. (ground (arith, r h), (r h).1)) v.each;
  distinct = v.distinct;
  len_in = ground arith;
  start_in = v.start_in;
  end_at = ground arith;
}

ppipe_write-eq-write_bytes :
    (ctx : Context) (f : File) (p : PpipeInfo) (m : Memory) (buff count : ℕ)
    → IsValid p
    → MayWrite ctx f p
    → ppipe_write ctx f p m buff count ≡ write_bytes p m buff count
unfolding ppipe_write
ppipe_write-eq-write_bytes ctx f p m buff count v w =
    ground (arith, v.slots, find_pid-slot_of pid_of ctx.pid p.procs free_proc w.owner)

module _ (p : PpipeInfo) (m : Memory) (buff count : ℕ) (v : IsValid p) where
  abbrev taken : ℕ
  taken = min count (max_pipe_size - p.buff_len)

  write_bytes_lem : write_bytes p m buff count ≡ record {
    reply = ok taken;
    ppipe = record p {
      ppipe_buff = copy_in taken 0 m buff p.buff_end p.ppipe_buff;
      buff_len = p.buff_len + taken;
      buff_end = (p.buff_end + taken) % max_pipe_size;
    };
    memory = m;
  }
  unfolding write_bytes
  write_bytes_lem =
      let e : (if leb count (max_pipe_size - p.buff_len) then count else max_pipe_size - p.buff_len)
          ≡ taken =
        ground arith in
      rw e

  reader-append :
      (q : Proc)
      → IsReader p.buff_start p.buff_len q
      → q.read_open ≡ true
      → pending (write_bytes p m buff count).ppipe q ≡ pending p q ++ slice m buff taken
  reader-append q r h =
      let s = r h in
      let e : p.buff_len + taken - q.bytes_read ≡ p.buff_len - q.bytes_read + taken = omega arith in
      rw (write_bytes_lem, e)
        (window-copy_in m buff q.read_pos (p.buff_len - q.bytes_read) p.buff_end taken p.ppipe_buff
          (omega arith) (omega arith))

  write_bytes-Wrote : Wrote m buff taken p (write_bytes p m buff count)
  write_bytes-Wrote = record {
    reply = ground (arith, write_bytes_lem);
    valid = write_bytes-IsValid p m buff count v;
    bytes = rw write_bytes_lem (
        window-copy_in m buff p.buff_start p.buff_len p.buff_end taken p.ppipe_buff (omega arith)
          (omega arith));
    readers = λ i h o.
        reader-append (proc_at p i)
          (All-get_or (IsReader p.buff_start p.buff_len) p.procs i free_proc v.each h) o;
    memory = ground (arith, write_bytes_lem);
    procs = ground (arith, write_bytes_lem);
  }

-- A permitted write takes as many bytes as were asked for and still fit beside the bytes kept,
-- returns their number, and puts exactly the first bytes of the buffer behind what the pipe keeps
-- and behind what each process with an open read end has yet to read; it keeps the pipe well formed
-- and changes neither user memory nor the table of processes.
pub ppipe_write-Wrote :
    (ctx : Context) (f : File) (p : PpipeInfo) (m : Memory) (buff count : ℕ)
    → IsValid p
    → MayWrite ctx f p
    → Wrote m buff
        (min count (max_pipe_size - length (contents p)))
        p
        (ppipe_write ctx f p m buff count)
ppipe_write-Wrote ctx f p m buff count v w =
    rw
      (
        ppipe_write-eq-write_bytes ctx f p m buff count v w,
        length-window p.ppipe_buff p.buff_start p.buff_len,
      )
      (write_bytes-Wrote p m buff count v)
