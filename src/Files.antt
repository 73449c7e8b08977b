-- ===== src/Files.antt =====
-- Assignment_2/gemOS/src/file.c: file objects and the descriptors of a process, with create_pipe of
-- pipe.c and create_persistent_pipe of ppipe.c (Assignment_2/190547/src), which make descriptors, and
-- the system calls on descriptors of Assignment-3/src/entry.c, where the same interface is called.
-- Objects lie in tables by address; `none` in a table is memory that is not an object, and a
-- function returns `none` where the code reads such memory, behind the array of descriptors or
-- through NULL.
pub mod Io
pub mod Open
pub mod Send
pub mod Create
pub mod Held
pub mod Steps
pub mod Grow
pub mod Ends
pub mod Moves
pub mod Ready
pub mod Fork
pub mod History
pub mod Seek
pub mod Room
pub mod Channel
pub mod Dangling
pub mod Tests
use building_gem_os_cs.Base.{
  ℕ, zero, suc, ◌+◌, ◌-◌, ◌*◌, ◌%◌, ◌^◌, bit_and, Bool, true, false, not, ◌&&◌, ◌||◌, Option, none,
  some, List, [], ◌∷◌, map, ◌==◌, leb, ltb, if◌then◌else◌, get_or, set, find_index,
}
use building_gem_os_cs.Base.Memory.{Memory}
use building_gem_os_cs.Base.Partial.{◌>>=◌, put}
use building_gem_os_cs.Kernel.{
  Errno, einval, eacces, enomem, eothers, Reply, ok, err, o_read, o_write, Context, FileType, stdin,
  stdout, stderr, regular, pipe, ppipe, File,
}
use building_gem_os_cs.Pipe.{
  Proc, PipeInfo, alloc_pipe_info, do_pipe_fork, pipe_close, file_close, pipe_read, pipe_write,
}
use building_gem_os_cs.Ppipe.{
  PpipeInfo, alloc_ppipe_info, do_ppipe_fork, ppipe_close, ppipe_read, ppipe_write,
}

abbrev pub max_open_files : ℕ
max_open_files = 16

abbrev pub o_creat : ℕ
o_creat = 0x8

-- the functions that `struct fileops` points to
pub data ReadOp : Type 0 where
  do_read_kbd do_read_regular reads_pipe reads_ppipe : ReadOp

pub data WriteOp : Type 0 where
  do_write_console do_write_regular writes_pipe writes_ppipe : WriteOp

pub data LseekOp : Type 0 where
  seeks_regular : LseekOp

pub data CloseOp : Type 0 where
  std_close closes_pipe closes_ppipe : CloseOp

-- `struct fileops`: a pointer is `none` if it is NULL.
pub record FileOps : Type 0 where
  pub read : Option ReadOp
  pub write : Option WriteOp
  pub lseek : Option LseekOp
  pub close : Option CloseOp

-- `struct file`: its numbers are `file`, its pointers `none` where nothing has set them.
pub record Object : Type 0 where
  pub file : File
  pub inode : Option ℕ
  pub fops : FileOps
  pub pipe : Option ℕ
  pub ppipe : Option ℕ

-- What the handlers call that is not in the repository: the operations of an inode, which get a
-- buffer, a count and an offset, the table of inodes, the keyboard and the console.
pub record Devices (D : Type 0) : Type 0 where
  pub inode_read : ℕ → (buff count offp : ℕ) → D × Memory → Reply × (D × Memory)
  pub inode_write : ℕ → (buff count offp : ℕ) → D × Memory → Reply × (D × Memory)
  pub inode_open : ℕ → D → D
  pub inode_mode : ℕ → D → ℕ
  pub file_size : ℕ → D → ℕ
  pub create_inode : List ℕ → (mode : ℕ) → D → D
  pub lookup_inode : List ℕ → D → Option ℕ
  pub kbd_read : (buff : ℕ) → D × Memory → D × Memory
  pub do_write : Context → (buff count : ℕ) → D × Memory → Reply × (D × Memory)

-- The state that the handlers share: the objects, user memory, and the state of the devices.
pub record System (D : Type 0) : Type 0 where
  pub files : ℕ → Option Object
  pub pipes : ℕ → Option PipeInfo
  pub ppipes : ℕ → Option PpipeInfo
  pub devices : D
  pub memory : Memory

-- The part of an execution context that this file changes: `files`, by address.
pub record Task : Type 0 where
  pub ctx : Context
  pub files : List (Option ℕ)

-- `ctx->files[fd]`
abbrev pub file_at : Task → ℕ → Option (Option ℕ)
file_at t fd = if ltb fd max_open_files then some (get_or t.files fd none) else none

abbrev pub install : Task → ℕ → ℕ → Task
install t fd a = record t { files = set t.files fd (some a) }

abbrev pub is_closed : Option ℕ → Bool
is_closed none = true
is_closed (some a) = false

-- `for (i = n; i < MAX_OPEN_FILES; i++) if (files[i] == NULL) break;`
abbrev pub fd_from : ℕ → List (Option ℕ) → ℕ
fd_from zero xs = find_index is_closed xs
fd_from (suc n) [] = 0
fd_from (suc n) (x ∷ xs) = suc (fd_from n xs)

abbrev pub find_fd : ℕ → Task → ℕ
find_fd n t = fd_from n t.files

-- `alloc_file`. It leaves the type and the mode, which every caller sets.
unfoldable pub alloc_file : Object
alloc_file = record {
  file = record { type = stdin; mode = 0; offp = 0; ref_count = 1 };
  inode = none;
  fops = record { read = none; write = none; lseek = none; close = none };
  pipe = none;
  ppipe = none;
}

-- The object with its numbers as a handler left them.
abbrev pub with_file : Object → Option File → Option Object
with_file o none = none
with_file o (some f) = some (record o { file = f })

-- what a call on descriptors leaves
pub record Call (D : Type 0) : Type 0 where
  pub reply : Reply
  pub system : System D
  pub task : Task

module _ {D : Type 0} where
  -- the close handlers, for the object `o` at `a`; `std_close` is `file_close`
  abbrev pub run_close : CloseOp → Context → ℕ → Object → System D → Option (Reply × System D)
  run_close std_close ctx a o s =
      some (ok 0, record s { files = put s.files a (with_file o (file_close o.file)) })
  run_close closes_pipe ctx a o s = do
    b ← o.pipe
    p ← s.pipes b
    let r = pipe_close ctx o.file p
    some (
      r.reply,
      record s { files = put s.files a (with_file o r.file); pipes = put s.pipes b r.pipe },
    )
  run_close closes_ppipe ctx a o s = do
    b ← o.ppipe
    p ← s.ppipes b
    let r = ppipe_close ctx o.file p
    some (
      r.reply,
      record s { files = put s.files a (with_file o r.file); ppipes = put s.ppipes b r.ppipe },
    )

  -- `file->fops->close(file)`, by the process of `ctx`
  unfoldable pub close_file : Context → ℕ → System D → Option (Reply × System D)
  close_file ctx a s = do o ← s.files a; op ← o.fops.close; run_close op ctx a o s

  -- `file->ref_count++`
  abbrev pub add_ref : ℕ → Object → System D → System D
  add_ref a o s = record s {
    files = put s.files a (
        some (record o { file = record (o.file) { ref_count = (o.file.ref_count + 1) % 2 ^ 32 } }));
  }

  -- The handler of a fork for the type of an object; `ret_value` stays where there is none.
  abbrev pub fork_handler :
      FileType → Context → Object → Reply → System D → Option (Reply × System D)
  fork_handler pipe child o ret s = do
    b ← o.pipe
    p ← s.pipes b
    let (r, p') = do_pipe_fork child p
    some (r, record s { pipes = put s.pipes b (some p') })
  fork_handler ppipe child o ret s = do
    b ← o.ppipe
    p ← s.ppipes b
    let (r, p') = do_ppipe_fork child p
    some (r, record s { ppipes = put s.ppipes b (some p') })
  fork_handler _ child o ret s = some (ret, s)

  -- one round of `do_file_fork`
  unfoldable pub fork_file : Context → Option ℕ → Reply → System D → Option (Reply × System D)
  fork_file child none ret s = some (ret, s)
  fork_file child (some a) ret s = do
    o ← s.files a
    fork_handler o.file.type child o ret (add_ref a o s)

  unfoldable pub fork_files :
      Context → List (Option ℕ) → Reply → System D → Option (Reply × System D)
  fork_files child [] ret s = some (ret, s)
  fork_files child (x ∷ xs) ret s = do (r, s') ← fork_file child x ret s; fork_files child xs r s'

  unfoldable pub do_file_fork : Task → System D → Option (Reply × System D)
  do_file_fork child s = fork_files child.ctx child.files (ok 0) s

  unfoldable pub exit_files : Context → List (Option ℕ) → System D → Option (System D)
  exit_files ctx [] s = some s
  exit_files ctx (none ∷ xs) s = exit_files ctx xs s
  exit_files ctx (some a ∷ xs) s = do (_, s') ← close_file ctx a s; exit_files ctx xs s'

  unfoldable pub do_file_exit : Task → System D → Option (System D × Task)
  do_file_exit t s = do
    s' ← exit_files t.ctx t.files s
    some (s', record t { files = map (λ _. none) t.files })

  abbrev pub refuse : Errno → Task → System D → Call D
  refuse e t s = record { reply = err e; system = s; task = t }

  -- `files[fd] = filep; filep->ref_count++;`
  abbrev pub share : Task → (fd a : ℕ) → System D → Option (Call D)
  share t fd a s = do
    o ← s.files a
    some (record { reply = ok fd; system = add_ref a o s; task = install t fd a })

  unfoldable pub dup_file : Task → Option ℕ → System D → Option (Call D)
  dup_file t none s = some (refuse einval t s)
  dup_file t (some a) s =
      if find_fd 3 t == max_open_files then some (refuse einval t s) else share t (find_fd 3 t) a s

  unfoldable pub fd_dup : Task → (oldfd : ℕ) → System D → Option (Call D)
  fd_dup t oldfd s = do filep ← file_at t oldfd; dup_file t filep s

  -- The system after `if(filep) filep->fops->close(filep);`, with what the handler returned.
  unfoldable pub close_old : Context → Option ℕ → System D → Option (Reply × System D)
  close_old ctx none s = some (ok 0, s)
  close_old ctx (some a) s = close_file ctx a s

  unfoldable pub dup2_file :
      Task → (oldfd newfd : ℕ) → (old filep : Option ℕ) → System D → Option (Call D)
  dup2_file t oldfd newfd none filep s = some (refuse einval t s)
  dup2_file t oldfd newfd (some a) filep s =
      if oldfd == newfd
      then some (record { reply = ok newfd; system = s; task = t })
      else do (_, s') ← close_old t.ctx filep s; share t newfd a s'

  unfoldable pub fd_dup2 : Task → (oldfd newfd : ℕ) → System D → Option (Call D)
  fd_dup2 t oldfd newfd s = do
    filep ← file_at t newfd
    old ← file_at t oldfd
    dup2_file t oldfd newfd old filep s

  -- `do_close` has no `return` behind the call of the handler: `reply` is what the handler returned.
  unfoldable pub close_open :
      Task → (fd a : ℕ) → Option CloseOp → Object → System D → Option (Call D)
  close_open t fd a none o s = some (refuse einval t s)
  close_open t fd a (some op) o s = do
    (r, s') ← run_close op t.ctx a o s
    some (record { reply = r; system = s'; task = record t { files = set t.files fd none } })

  unfoldable pub close_fd : Task → (fd : ℕ) → Option ℕ → System D → Option (Call D)
  close_fd t fd none s = some (refuse einval t s)
  close_fd t fd (some a) s = do o ← s.files a; close_open t fd a o.fops.close o s

  unfoldable pub do_close : Task → (fd : ℕ) → System D → Option (Call D)
  do_close t fd s = do filep ← file_at t fd; close_fd t fd filep s
