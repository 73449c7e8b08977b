-- ===== src/Ppipe/Read.antt =====
-- ppipe_read of ppipe.c: every process reads at its own position, and the bytes stay.
use building_gem_os_cs.Base.{
  ℕ, ◌+◌, ◌-◌, ◌%◌, ◌^◌, ◌≤◌, ◌<◌, ◌≡◌, ◌≢◌, refl, sym, ◌∙◌, min, bit_and, true, some, ◌==◌, leb,
  if◌then◌else◌, arith, length, take, drop, ◌⊎◌, set, All-get_or,
}
use building_gem_os_cs.Base.Memory.{Memory, slice}
use building_gem_os_cs.Kernel.{ok, o_read, Context, File}
use building_gem_os_cs.ProcTable.{find_pid, slot_of}
use building_gem_os_cs.ProcTable.Laws.{find_pid-slot_of, slot_of-set, IsDistinct-set}
use building_gem_os_cs.Ring.{max_pipe_size, copy_out}
use building_gem_os_cs.Ring.Window.{length-window, take-window, drop-window, window_mod}
use building_gem_os_cs.Ring.Copy.{slice-copy_out, copy_out_other}
use building_gem_os_cs.Ppipe.{
  Proc, PpipeInfo, Io, pid_of, free_proc, proc_at, read_bytes, ppipe_read,
}
use building_gem_os_cs.Ppipe.Invariant.{IsValid, IsReader, contents, pending, set-IsValid}

-- What a read needs. The buffer is not checked.
pub record MayRead (ctx : Context) (f : File) (p : PpipeInfo) (q : Proc) : Type 0 where
  pub mode : bit_and f.mode o_read ≢ 0
  pub owner : slot_of pid_of ctx.pid p.procs ≡ some q
  pub open_end : q.read_open ≡ true

-- The slot of a process that has read `n` bytes more.
abbrev pub advanced : Proc → ℕ → Proc
advanced q n = record q {
  read_pos = (q.read_pos + n) % max_pipe_size;
  bytes_read = q.bytes_read + n;
}

-- What a read of `n` bytes into `buff` by the owner of slot `q` leaves.
pub record Delivered (ctx : Context) (m : Memory) (buff n : ℕ) (p : PpipeInfo) (q : Proc) (r : Io)
    : Type 0 where
  pub reply : r.reply ≡ ok n
  pub valid : IsValid r.ppipe
  pub bytes : slice r.memory buff n ≡ take n (pending p q)
  pub rest : pending r.ppipe (advanced q n) ≡ drop n (pending p q)
  pub kept : contents r.ppipe ≡ contents p
  pub slots :
      (x : ℕ)
      → slot_of pid_of x r.ppipe.procs
        ≡ (if x == ctx.pid then some (advanced q n) else slot_of pid_of x p.procs)
  pub outside : (a : ℕ) → (a < buff) ⊎ (buff + n ≤ a) → r.memory a ≡ m a

module _ (ctx : Context) (f : File) (p : PpipeInfo) (q : Proc) (m : Memory) (buff count : ℕ)
    (v : IsValid p) (w : MayRead ctx f p q) where
  index : ℕ
  index = find_pid pid_of ctx.pid p.procs

  taken : ℕ
  taken = min count (p.buff_len - q.bytes_read)

  at_index :
      (find_pid pid_of ctx.pid p.procs < length p.procs)
      × (proc_at p (find_pid pid_of ctx.pid p.procs) ≡ q)
      × (q.pid ≡ ctx.pid)
  at_index = find_pid-slot_of pid_of ctx.pid p.procs free_proc w.owner

  reader :
      (q.bytes_read ≤ p.buff_len) × (q.read_pos ≡ (p.buff_start + q.bytes_read) % max_pipe_size)
  reader =
      let r =
        All-get_or (IsReader p.buff_start p.buff_len) p.procs (find_pid pid_of ctx.pid p.procs)
          free_proc v.each at_index.0 in
      (rw at_index.1 at r) w.open_end

  abbrev after : Io
  after = record {
    reply = ok taken;
    ppipe = record p { procs = set p.procs index (advanced q taken) };
    memory = copy_out taken 0 p.ppipe_buff q.read_pos buff m;
  }

  limit_lem :
      (if leb count ((p.buff_len + 2 ^ 32 - q.bytes_read) % 2 ^ 32)
        then count
        else (p.buff_len + 2 ^ 32 - q.bytes_read) % 2 ^ 32)
      ≡ taken
  unfolding taken
  limit_lem = ground (arith, reader, v.len_in)

  read_bytes_lem : read_bytes p m index buff count ≡ after
  unfolding read_bytes index
  read_bytes_lem = rw (at_index.1, limit_lem)

  ppipe_read_lem : ppipe_read ctx f p m buff count ≡ after
  unfolding ppipe_read index
  ppipe_read_lem = ground (arith, v.slots, at_index, read_bytes_lem)

  -- With the process in slot `q`, a permitted read delivers as many bytes as were asked for and the
  -- process has yet to read, in order, and returns their number; the process stands behind them,
  -- every other process stands where it stood, and the pipe keeps its bytes. The pipe stays well
  -- formed and memory outside the buffer is not changed.
  pub ppipe_read-Delivered :
      Delivered ctx m buff (min count (length (pending p q))) p q (ppipe_read ctx f p m buff count)
  unfolding index taken
  ppipe_read-Delivered =
      rw (length-window p.ppipe_buff q.read_pos (p.buff_len - q.bytes_read), ppipe_read_lem)
        (record {
          reply = refl;
          valid =
              set-IsValid p index (advanced q taken) v (λ _. omega (arith, reader))
                (IsDistinct-set pid_of p.procs index (advanced q taken) free_proc at_index.0
                  (ground (arith, at_index)) v.distinct);
          bytes =
              slice-copy_out taken p.ppipe_buff q.read_pos buff m
              ∙ sym (
                  take-window p.ppipe_buff q.read_pos taken (p.buff_len - q.bytes_read)
                    (omega arith));
          rest =
              let e : p.buff_len - (q.bytes_read + taken) ≡ p.buff_len - q.bytes_read - taken =
                omega arith in
              rw e (
                window_mod p.ppipe_buff ((q.read_pos + taken) % max_pipe_size) (q.read_pos + taken)
                  (p.buff_len - q.bytes_read - taken) (omega arith)
                ∙ sym (
                    drop-window p.ppipe_buff q.read_pos taken (p.buff_len - q.bytes_read)
                      (omega arith)));
          kept = refl;
          slots = λ x.
              slot_of-set pid_of ctx.pid x p.procs (advanced q taken) at_index.0
                (ground (arith, at_index));
          outside = λ a h. copy_out_other taken 0 p.ppipe_buff q.read_pos buff m a (omega arith);
        })
