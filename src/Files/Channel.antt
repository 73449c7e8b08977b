-- ===== src/Files/Channel.antt =====
-- A pipe that create_pipe makes, used through its descriptors by do_file_write and do_file_read.
use building_gem_os_cs.Base.{
  ℕ, ◌-◌, ◌%◌, ◌^◌, ◌<◌, ◌≤◌, ◌≡◌, ◌≢◌, refl, ap, subst, ◌∙◌, true, min, some, List, [], ◌++◌,
  length, take, take_all, arith,
}
use building_gem_os_cs.Base.Memory.{Memory, slice, length-slice}
use building_gem_os_cs.Base.Partial.{put}
use building_gem_os_cs.Kernel.{no_pid, Reply, ok}
use building_gem_os_cs.ProcTable.{slot_of}
use building_gem_os_cs.Ring.{max_pipe_size}
use building_gem_os_cs.Pipe.{
  Proc, PipeInfo, Io, pid_of, alloc_pipe_info, is_valid_mem_range, pipe_write, pipe_read,
}
use building_gem_os_cs.Pipe.Invariant.{IsValid, contents}
use building_gem_os_cs.Pipe.Write.{MayWrite, Wrote, pipe_write-Wrote}
use building_gem_os_cs.Pipe.Read.{MayRead, Delivered, pipe_read-Delivered}
use building_gem_os_cs.Files.{Devices, System, Task, file_at}
use building_gem_os_cs.Files.Io.{read_file, write_file, do_file_read, do_file_write}
use building_gem_os_cs.Files.Create.{Created, create_pipe, pipe_reader, pipe_writer, new_pipe}
use building_gem_os_cs.Files.Room.{
  HasRoom, first_fd, second_fd, second_fd_lem, both, install_ends_lem, file_at-both,
}

-- The slot of the process that made a pipe.
abbrev pub owner : ℕ → Proc
owner pid = record { pid = pid; read_open = true; write_open = true }

new_pipe_lem :
    (pid : ℕ) (buffer : Memory)
    → pid ≢ no_pid
    → IsValid (new_pipe pid buffer)
      × (contents (new_pipe pid buffer) ≡ [])
      × (slot_of pid_of pid (new_pipe pid buffer).procs ≡ some (owner pid))
unfolding new_pipe alloc_pipe_info
new_pipe_lem pid buffer h = ground arith

module _ {D : Type 0} (dev : Devices D) (t : Task) (s : System D) (a p : ℕ) (q : PipeInfo) where
  write_file_lem :
      (buff count : ℕ)
      → s.files a ≡ some (pipe_writer p)
      → s.pipes p ≡ some q
      → count < 2 ^ 32
      → let r = pipe_write t.ctx (pipe_writer p).file q s.memory buff count in
        write_file dev t.ctx (some a) buff count s
        ≡ some (r.reply, record s { pipes = put s.pipes p (some r.pipe); memory = r.memory })
  unfolding write_file pipe_writer
  write_file_lem buff count e f l =
      let m : count % 2 ^ 32 ≡ count = omega arith in rw (e, m, f) refl

  read_file_lem :
      (buff count : ℕ)
      → s.files a ≡ some (pipe_reader p)
      → s.pipes p ≡ some q
      → count < 2 ^ 32
      → let r = pipe_read t.ctx (pipe_reader p).file q s.memory buff count in
        read_file dev t.ctx (some a) buff count s
        ≡ some (r.reply, record s { pipes = put s.pipes p (some r.pipe); memory = r.memory })
  unfolding read_file pipe_reader
  read_file_lem buff count e f l = let m : count % 2 ^ 32 ≡ count = omega arith in rw (e, m, f) refl

-- The bytes of `buff` go through a new pipe to `dst`.
pub record Transfers {D : Type 0} (dev : Devices D) (memory : Memory) (buff dst count : ℕ)
    (c : Created D) : Type 0 where
  pub created : c.reply ≡ ok 0
  pub written : System D
  pub writes : do_file_write dev c.task (c.fd 1) buff count c.system ≡ some (ok count, written)
  pub after : System D
  pub reads : do_file_read dev c.task (c.fd 0) dst count written ≡ some (ok count, after)
  pub bytes : slice after.memory dst count ≡ slice memory buff count

module _ {D : Type 0} (dev : Devices D) (t : Task) (s : System D) (fd : ℕ → ℕ) (a b p : ℕ)
    (buffer : Memory) (buff dst count : ℕ) (h : HasRoom t) (real : t.ctx.pid ≢ no_pid) (d : a ≢ b)
    (fits : count ≤ max_pipe_size) (from : is_valid_mem_range t.ctx buff count 1 ≡ ok 1)
    (to : is_valid_mem_range t.ctx dst count 2 ≡ ok 1) where
  abbrev q : PipeInfo
  q = new_pipe t.ctx.pid buffer

  -- the state that create_pipe leaves
  abbrev made : System D
  made = record s {
    files = put (put s.files a (some (pipe_reader p))) b (some (pipe_writer p));
    pipes = put s.pipes p (some q);
  }

  abbrev ends : Task
  ends = both t (first_fd t a h) (second_fd t a h) a b

  abbrev wrote : Io
  wrote = pipe_write t.ctx (pipe_writer p).file q s.memory buff count

  abbrev got : Io
  got = pipe_read t.ctx (pipe_reader p).file wrote.pipe wrote.memory dst count

  may_write : MayWrite t.ctx (pipe_writer p).file q buff count
  unfolding pipe_writer
  may_write = record {
    mode = λ e. ground (arith, e);
    slot = owner t.ctx.pid;
    owner = (new_pipe_lem t.ctx.pid buffer real).2;
    open_end = refl;
    range = from;
  }

  wrote_lem :
      (wrote.reply ≡ ok count)
      × IsValid wrote.pipe
      × (contents wrote.pipe ≡ slice s.memory buff count)
      × (wrote.memory ≡ s.memory)
      × (wrote.pipe.procs ≡ q.procs)
  wrote_lem =
      let (v, e, o) = new_pipe_lem t.ctx.pid buffer real in
      let n : min count (max_pipe_size - length (contents q)) ≡ count = rw e (omega arith) in
      let w =
        subst (λ (k : ℕ). Wrote s.memory buff k q wrote) n
          (pipe_write-Wrote t.ctx (pipe_writer p).file q s.memory buff count v may_write) in
      (
        w.reply,
        w.valid,
        w.bytes ∙ ap (λ (l : List ℕ). l ++ slice s.memory buff count) e,
        w.memory,
        w.procs,
      )

  may_read : MayRead t.ctx (pipe_reader p).file wrote.pipe dst count
  unfolding pipe_reader
  may_read = record {
    mode = λ e. ground (arith, e);
    slot = owner t.ctx.pid;
    owner = rw (wrote_lem.4) ((new_pipe_lem t.ctx.pid buffer real).2);
    open_end = refl;
    range = to;
  }

  got_lem : (got.reply ≡ ok count) × (slice got.memory dst count ≡ slice s.memory buff count)
  got_lem =
      let (r, v, e, m, o) = wrote_lem in
      let n : min count (length (contents wrote.pipe)) ≡ count =
        rw (e, length-slice s.memory buff count) (omega arith) in
      let g =
        subst (λ (k : ℕ). Delivered wrote.memory dst k wrote.pipe got) n
          (pipe_read-Delivered t.ctx (pipe_reader p).file wrote.pipe wrote.memory dst count v
            may_read) in
      (
        g.reply,
        g.bytes
            ∙ ap (take count) e
            ∙ take_all count (slice s.memory buff count) (length-slice s.memory buff count),
      )

  abbrev sent : System D
  sent = record made { pipes = put made.pipes p (some wrote.pipe); memory = wrote.memory }

  abbrev received : System D
  received = record sent { pipes = put sent.pipes p (some got.pipe); memory = got.memory }

  file_at-ends :
      (file_at ends (first_fd t a h) ≡ some (some a))
      × (file_at ends (second_fd t a h) ≡ some (some b))
  file_at-ends =
      let l = second_fd_lem t a h in
      file_at-both t (first_fd t a h) (second_fd t a h) a b h.size l.0 l.1

  writes_lem : do_file_write dev ends (second_fd t a h) buff count made ≡ some (ok count, sent)
  unfolding do_file_write
  writes_lem = rw file_at-ends.1 (
      write_file_lem dev ends made b p q buff count (ground arith) (ground arith)
        (omega (arith, fits))
      ∙ ap (λ (r : Reply). some (r, sent)) wrote_lem.0)

  reads_lem : do_file_read dev ends (first_fd t a h) dst count sent ≡ some (ok count, received)
  unfolding do_file_read
  reads_lem = rw file_at-ends.0 (
      read_file_lem dev ends sent a p wrote.pipe dst count (ground (arith, d)) (ground arith)
        (omega (arith, fits))
      ∙ ap (λ (r : Reply). some (r, received)) got_lem.0)

  transfers : Transfers dev s.memory buff dst count (create_pipe t fd a b (some (p, buffer)) s)
  unfolding create_pipe
  transfers = rw (install_ends_lem t fd a b made h) (record {
    created = refl;
    written = sent;
    writes = writes_lem;
    after = received;
    reads = reads_lem;
    bytes = got_lem.1;
  })

-- A process with a pid and two closed descriptors makes a pipe, with distinct addresses for the two
-- file objects and a page for the pipe, writes at most MAX_PIPE_SIZE bytes of its memory to the second
-- of the descriptors that it gets and reads as many from the first, from and to buffers that it may
-- read and write: all three calls succeed, none of them faults, and the bytes
-- that it reads are those that it wrote.
pub create_pipe-Transfers :
    {D : Type 0} (dev : Devices D) (t : Task) (s : System D) (fd : ℕ → ℕ) (a b p : ℕ)
    (buffer : Memory) (buff dst count : ℕ)
    → HasRoom t
    → t.ctx.pid ≢ no_pid
    → a ≢ b
    → count ≤ max_pipe_size
    → is_valid_mem_range t.ctx buff count 1 ≡ ok 1
    → is_valid_mem_range t.ctx dst count 2 ≡ ok 1
    → Transfers dev s.memory buff dst count (create_pipe t fd a b (some (p, buffer)) s)
create_pipe-Transfers dev t s fd a b p buffer buff dst count h real d fits from to =
    transfers dev t s fd a b p buffer buff dst count h real d fits from to
