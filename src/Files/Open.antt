-- ===== src/Files/Open.antt =====
-- The calls that make file objects: open_standard_IO and do_regular_file_open of file.c
-- (Assignment_2/gemOS/src), do_file_open of Assignment-3/src/entry.c, and create_pipe and
-- create_persistent_pipe of pipe.c and ppipe.c (Assignment_2/190547/src). The addresses of the pages
-- that os_page_alloc returns are arguments. alloc_file writes to its page with no test for NULL, so
-- the tests behind its calls never hold; that of alloc_pipe_info can.
use building_gem_os_cs.Base.{
  ℕ, ◌-◌, ◌%◌, ◌^◌, bit_and, Bool, true, false, ◌&&◌, Option, none, some, List, [], ◌∷◌, ◌==◌,
  if◌then◌else◌,
}
use building_gem_os_cs.Base.Partial.{◌>>=◌, put}
use building_gem_os_cs.Kernel.{
  Errno, einval, eacces, enomem, ok, o_read, o_write, FileType, stdin, stdout, stderr, regular,
}
use building_gem_os_cs.Files.{
  max_open_files, o_creat, do_read_kbd, do_read_regular, do_write_console, do_write_regular,
  seeks_regular, std_close, Object, Devices, System, Task, Call, alloc_file, file_at, install,
  find_fd, share, refuse,
}

-- the value of STDIN, STDOUT or STDERR, which is the descriptor too
abbrev pub std_fd : FileType → ℕ
std_fd stdin = 0
std_fd stdout = 1
std_fd _ = 2

unfoldable pub create_standard_io : FileType → Object
unfolding alloc_file
create_standard_io stdin =
    let o = alloc_file in
    record o {
      file = record (o.file) { type = stdin; mode = o_read };
      fops = record (o.fops) { read = some do_read_kbd; close = some std_close };
    }
create_standard_io type =
    let o = alloc_file in
    record o {
      file = record (o.file) { type = type; mode = o_write };
      fops = record (o.fops) { write = some do_write_console; close = some std_close };
    }

-- The flags with O_CREAT taken away.
abbrev pub access_flags : ℕ → ℕ
access_flags flags = if bit_and flags o_creat == 0 then flags else flags - o_creat

-- `!strcmp(a, b)`
abbrev pub same_name : List ℕ → List ℕ → Bool
same_name [] [] = true
same_name (a ∷ as') (b ∷ bs) = a == b && same_name as' bs
same_name _ _ = false

-- the names "stdin", "stdout" and "stderr"
abbrev pub name_of : FileType → List ℕ
name_of stdin = 115 ∷ 116 ∷ 100 ∷ 105 ∷ 110 ∷ []
name_of stdout = 115 ∷ 116 ∷ 100 ∷ 111 ∷ 117 ∷ 116 ∷ []
name_of _ = 115 ∷ 116 ∷ 100 ∷ 101 ∷ 114 ∷ 114 ∷ []

-- the file object of an opened inode, and the state with it installed at `fd`
unfoldable pub regular_file : (inode flags mode : ℕ) → Object
unfolding alloc_file
regular_file i flags mode = record alloc_file {
  file = record {
    type = regular;
    mode = (if flags == o_creat then mode else flags) % 2 ^ 32;
    offp = 0;
    ref_count = 1;
  };
  inode = some i;
  fops = record {
    read = some do_read_regular;
    write = some do_write_regular;
    lseek = some seeks_regular;
    close = some std_close;
  };
}

module _ {D : Type 0} where
  -- `open_standard_IO` from the test of `filep` on. The object goes to the page at `page`; the search
  -- for a descriptor has no bound.
  unfoldable pub open_standard :
      Task → FileType → (page : ℕ) → Option ℕ → System D → Option (Call D)
  open_standard t type page none s = some (record {
    reply = ok (std_fd type);
    system = record s { files = put s.files page (some (create_standard_io type)) };
    task = install t (std_fd type) page;
  })
  open_standard t type page (some a) s =
      if find_fd 3 t == max_open_files then none else share t (find_fd 3 t) a s

  unfoldable pub open_standard_io : Task → FileType → (page : ℕ) → System D → Option (Call D)
  open_standard_io t type page s = do
    filep ← file_at t (std_fd type)
    open_standard t type page filep s

  abbrev pub opened : Devices D → Task → (fd inode flags mode page : ℕ) → System D → Call D
  opened dev t fd i flags mode page s = record {
    reply = ok fd;
    system = record s {
      files = put s.files page (some (regular_file i flags mode));
      devices = dev.inode_open i s.devices;
    };
    task = install t fd page;
  }

  -- the part of `do_regular_file_open` from `file_alloc` on
  unfoldable pub open_inode : Devices D → Task → (inode flags mode page : ℕ) → System D → Call D
  open_inode dev t i flags mode page s =
      let flags = access_flags flags in
      if bit_and (dev.inode_mode i s.devices) flags == flags
      then if find_fd 3 t == max_open_files
        then refuse enomem t s
        else opened dev t (find_fd 3 t) i flags mode page s
      else refuse eacces t s

  -- The part from the test of `inode` on: an error if it is NULL.
  abbrev pub open_found :
      Devices D → Task → Option ℕ → Errno → (flags mode page : ℕ) → System D → Call D
  open_found dev t none e flags mode page s = refuse e t s
  open_found dev t (some i) e flags mode page s = open_inode dev t i flags mode page s

  unfoldable pub do_regular_file_open :
      Devices D → Task → (filename : List ℕ) → (flags mode page : ℕ) → System D → Call D
  do_regular_file_open dev t filename flags mode page s =
      let s' = record s { devices = dev.create_inode filename mode s.devices } in
      if bit_and flags o_creat == o_creat
      then open_found dev t (dev.lookup_inode filename s'.devices) enomem flags mode page s'
      else open_found dev t (dev.lookup_inode filename s.devices) einval flags mode page s

  unfoldable pub do_file_open :
      Devices D → Task → (filename : List ℕ) → (flags mode page : ℕ) → System D → Option (Call D)
  do_file_open dev t filename flags mode page s =
      if same_name filename (name_of stdin)
      then open_standard_io t stdin page s
      else if same_name filename (name_of stdout)
      then open_standard_io t stdout page s
      else if same_name filename (name_of stderr)
      then open_standard_io t stderr page s
      else some (do_regular_file_open dev t filename flags mode page s)
