-- ===== src/Kthread.antt =====
-- The kernel side of the threads: Assignment-4/gemOS/src/clone_threads.c and
-- Assignment-4/template/clone_threads_helper.c, with the types of template/include/clone_threads.h.
-- The system has one user process, so there is one `struct ctx_thread_info`.
pub mod Walk
pub mod Pages
pub mod Fault
pub mod Grant
pub mod Table
pub mod Life
pub mod Switch
pub mod Private
pub mod Tests
use building_gem_os_cs.Base.{ℕ, ◌+◌, ◌*◌, Bool, true, false, Option, none, some, List}

abbrev pub max_threads : ℕ
max_threads = 4

abbrev pub max_private_areas : ℕ
max_private_areas = 4

abbrev pub th_unused : ℕ
th_unused = 0

abbrev pub th_used : ℕ
th_used = 1

abbrev pub tp_siblings_noaccess : ℕ
tp_siblings_noaccess = 0x10

abbrev pub tp_siblings_rdonly : ℕ
tp_siblings_rdonly = 0x20

-- `struct thread_private_map`: the owner is the index of a thread, `none` if it is NULL.
pub record PrivateMap : Type 0 where
  pub owner : Option ℕ
  pub start_addr : ℕ
  pub length : ℕ
  pub flags : ℕ

-- `struct thread`
pub record Thread : Type 0 where
  pub pid : ℕ
  pub status : ℕ
  pub private_mappings : List PrivateMap

-- What `osmap` gives access to: the 64-bit entries of each page frame.
abbrev pub Frames : Type 0
Frames = ℕ → ℕ → ℕ
