-- ===== src/Files/Create.antt =====
-- create_pipe of pipe.c and create_persistent_pipe of ppipe.c (Assignment_2/190547/src). The pages of
-- the two file objects, at `a` and `b`, are arguments, and so is what alloc_pipe_info gets: `none` if
-- one of its pages is NULL, else the address of the pipe and what its buffer holds. alloc_file writes
-- to its page with no test for NULL, so the tests behind its calls never hold.
use building_gem_os_cs.Base.{ℕ, true, Option, none, some, ◌==◌, if◌then◌else◌, set}
use building_gem_os_cs.Base.Memory.{Memory, update}
use building_gem_os_cs.Base.Partial.{put}
use building_gem_os_cs.Kernel.{enomem, eothers, Reply, ok, err, o_read, o_write, pipe, ppipe}
use building_gem_os_cs.Pipe as Pipe
use building_gem_os_cs.Ppipe as Ppipe
use building_gem_os_cs.Files.{
  max_open_files, reads_pipe, reads_ppipe, writes_pipe, writes_ppipe, closes_pipe, closes_ppipe,
  Object, System, Task, alloc_file, install, find_fd,
}

-- What a call leaves: its result, the array `fd`, and the state.
pub record Created (D : Type 0) : Type 0 where
  pub reply : Reply
  pub fd : ℕ → ℕ
  pub system : System D
  pub task : Task

-- `pipe_0` and `pipe_1`, with the pipe at `p`
unfoldable pub pipe_reader : (p : ℕ) → Object
unfolding alloc_file
pipe_reader p = record alloc_file {
  file = record { type = pipe; mode = o_read; offp = 0; ref_count = 1 };
  fops = record { read = some reads_pipe; write = none; lseek = none; close = some closes_pipe };
  pipe = some p;
}

unfoldable pub pipe_writer : (p : ℕ) → Object
unfolding alloc_file
pipe_writer p = record alloc_file {
  file = record { type = pipe; mode = o_write; offp = 0; ref_count = 1 };
  fops = record { read = none; write = some writes_pipe; lseek = none; close = some closes_pipe };
  pipe = some p;
}

-- `ppipe_0` and `ppipe_1`
unfoldable pub ppipe_reader : (p : ℕ) → Object
unfolding alloc_file
ppipe_reader p = record alloc_file {
  file = record { type = ppipe; mode = o_read; offp = 0; ref_count = 1 };
  fops = record { read = some reads_ppipe; write = none; lseek = none; close = some closes_ppipe };
  ppipe = some p;
}

unfoldable pub ppipe_writer : (p : ℕ) → Object
unfolding alloc_file
ppipe_writer p = record alloc_file {
  file = record { type = ppipe; mode = o_write; offp = 0; ref_count = 1 };
  fops = record { read = none; write = some writes_ppipe; lseek = none; close = some closes_ppipe };
  ppipe = some p;
}

-- The new pipe: the process at `pid` has both ends open.
unfoldable pub new_pipe : (pid : ℕ) → Memory → Pipe.PipeInfo
unfolding Pipe.alloc_pipe_info
new_pipe pid buffer =
    let p = Pipe.alloc_pipe_info buffer in
    record p { procs = set p.procs 0 (record { pid = pid; read_open = true; write_open = true }) }

unfoldable pub new_ppipe : (pid : ℕ) → Memory → Ppipe.PpipeInfo
unfolding Ppipe.alloc_ppipe_info
new_ppipe pid buffer =
    let p = Ppipe.alloc_ppipe_info buffer in
    record p {
      procs =
          set p.procs 0
            (record (Ppipe.proc_at p 0) { pid = pid; read_open = true; write_open = true });
    }

module _ {D : Type 0} where
  -- the search for two descriptors and their installation, which both functions end with
  unfoldable pub install_ends : Task → (fd : ℕ → ℕ) → (a b : ℕ) → System D → Created D
  install_ends t fd a b s =
      let i = find_fd 0 t in
      let t' = install t i a in
      let j = find_fd i t' in
      if i == max_open_files
      then record { reply = err eothers; fd = fd; system = s; task = t }
      else if j == max_open_files
      then record { reply = err eothers; fd = update fd 0 i; system = s; task = t' }
      else record {
        reply = ok 0;
        fd = update (update fd 0 i) 1 j;
        system = s;
        task = install t' j b;
      }

  unfoldable pub create_pipe :
      Task → (fd : ℕ → ℕ) → (a b : ℕ) → Option (ℕ × Memory) → System D → Created D
  unfolding alloc_file
  create_pipe t fd a b none s = record {
    reply = err enomem;
    fd = fd;
    system = record s { files = put (put s.files a (some alloc_file)) b (some alloc_file) };
    task = t;
  }
  create_pipe t fd a b (some (p, buffer)) s = install_ends t fd a b (record s {
    files = put (put s.files a (some (pipe_reader p))) b (some (pipe_writer p));
    pipes = put s.pipes p (some (new_pipe t.ctx.pid buffer));
  })

  unfoldable pub create_persistent_pipe :
      Task → (fd : ℕ → ℕ) → (a b : ℕ) → Option (ℕ × Memory) → System D → Created D
  unfolding alloc_file
  create_persistent_pipe t fd a b none s = record {
    reply = err enomem;
    fd = fd;
    system = record s { files = put (put s.files a (some alloc_file)) b (some alloc_file) };
    task = t;
  }
  create_persistent_pipe t fd a b (some (p, buffer)) s = install_ends t fd a b (record s {
    files = put (put s.files a (some (ppipe_reader p))) b (some (ppipe_writer p));
    ppipes = put s.ppipes p (some (new_ppipe t.ctx.pid buffer));
  })
