-- ===== src/Gthread.antt =====
-- Assignment-4/gemOS/src/user/gthread.c: the user-level thread library. What a system call returns
-- is an argument, and the calls that are made are returned in order, so that the theorems can say
-- which are made.
pub mod Invariant
pub mod Create
pub mod Alloc
pub mod Free
pub mod Roundtrip
pub mod Wait
pub mod Join
pub mod Exit
pub mod History
pub mod Tests
use building_gem_os_cs.Base.{
  ℕ, zero, suc, ◌+◌, ◌-◌, ◌%◌, ◌^◌, Bool, true, false, not, ◌&&◌, Option, none, some, List, [], ◌∷◌,
  ◌++◌, map, ◌==◌, if◌then◌else◌, get_or, set, replicate, find_index,
}

abbrev pub max_threads : ℕ
max_threads = 4

abbrev pub max_galloc_areas : ℕ
max_galloc_areas = 4

abbrev pub th_stack_size : ℕ
th_stack_size = 2 ^ 14

abbrev pub th_status_alive : ℕ
th_status_alive = 0x1

abbrev pub th_status_used : ℕ
th_status_used = 0x4

-- `struct galloc_area`. `owner` points to an element of `tinfo.threads` and is its index.
pub record Area : Type 0 where
  pub owner : Option ℕ
  pub start : ℕ
  pub length : ℕ
  pub flags : ℕ

-- `struct thread_info`
pub record Thread : Type 0 where
  pub tid : ℕ
  pub pid : ℕ
  pub status : ℕ
  pub ret_addr : ℕ
  pub stack_addr : ℕ
  pub priv_areas : List Area

-- `struct process_thread_info`. `num_threads` is an `int`; it is kept modulo 2^32.
pub record Tinfo : Type 0 where
  pub threads : List Thread
  pub num_threads : ℕ

abbrev pub no_area : Area
no_area = record { owner = none; start = 0; length = 0; flags = 0 }

abbrev pub no_thread : Thread
no_thread = record {
  tid = 0;
  pid = 0;
  status = 0;
  ret_addr = 0;
  stack_addr = 0;
  priv_areas = replicate max_galloc_areas no_area;
}

-- `tinfo` as the program starts
abbrev pub initial : Tinfo
initial = record { threads = replicate max_threads no_thread; num_threads = 0 }

abbrev pub thread_at : Tinfo → ℕ → Thread
thread_at t i = get_or t.threads i no_thread

abbrev pub area_at : Thread → ℕ → Area
area_at h j = get_or h.priv_areas j no_area

abbrev pub is_alive : Thread → Bool
is_alive h = h.status == th_status_alive

-- The system calls of the library and its one write to another thread's memory.
pub data Call : Type 0 where
  mmap : (length prot flags : ℕ) → Call
  munmap : (addr length : ℕ) → Call
  clone : (fc stack arg : ℕ) → Call
  make_thread_ready : (pid : ℕ) → Call
  store_call_exit : (addr : ℕ) → Call
  wait_for_thread : (pid : ℕ) → Call
  exit : Call

-- What a function leaves: its result (`none` for -1 or NULL), the table, the calls.
pub record Outcome : Type 0 where
  pub result : Option ℕ
  pub tinfo : Tinfo
  pub calls : List Call

abbrev pub outcome : Option ℕ → Tinfo → List Call → Outcome
outcome r t cs = record { result = r; tinfo = t; calls = cs }

-- PROT_READ|PROT_WRITE, and the flags of gthread.h
abbrev pub prot_rw : ℕ
prot_rw = 0x3

abbrev pub map_th_private : ℕ
map_th_private = 0x4

-- The slot of a new thread: `ret_addr` and the areas stay.
abbrev pub started : Thread → (i pid stackp : ℕ) → Thread
started h i pid stackp = record h {
  status = th_status_alive;
  tid = i % 2 ^ 8;
  pid = pid % 2 ^ 8;
  stack_addr = stackp;
}

-- `stackp` is what mmap returns, `pid` what clone returns, `none` for a negative number.
unfoldable pub gthread_create : Tinfo → (fc arg : ℕ) → (stackp : ℕ) → (pid : Option ℕ) → Outcome
gthread_create t fc arg stackp pid =
    let i = find_index (λ h. not (is_alive h)) t.threads in
    let mapped = mmap th_stack_size prot_rw 0 in
    let cloned = clone fc (stackp + th_stack_size - 8) arg in
    if i == max_threads
    then outcome none t []
    else if stackp == 0
    then outcome none t (mapped ∷ [])
    else elim pid [
      | none ↦ outcome none t (mapped ∷ cloned ∷ [])
      | some n ↦
          outcome (some i)
            (record {
              threads = set t.threads i (started (thread_at t i) i n stackp);
              num_threads = (t.num_threads + 1) % 2 ^ 32;
            })
            (mapped
              ∷ cloned
              ∷ make_thread_ready n
              ∷ store_call_exit (stackp + th_stack_size - 8)
              ∷ [])
    ]

-- The thread that runs, of which there may be a live entry.
abbrev pub runs_as : ℕ → Thread → Bool
runs_as pid h = h.pid == pid && is_alive h

-- `pid` is what getpid returns. The function ends in `exit(0)`.
unfoldable pub gthread_exit : Tinfo → (pid : ℕ) → (retval : ℕ) → Tinfo
gthread_exit t pid retval = record t {
  threads = map (λ h. if runs_as pid h then record h { ret_addr = retval } else h) t.threads;
}

-- `while (1) if (wait_for_thread(pid)) break;` over what the calls return: the number of calls, or
-- `none` if the list ends before one returns a number other than 0.
unfoldable pub wait_loop : List ℕ → Option ℕ
wait_loop [] = none
wait_loop (ret ∷ rets) =
    let rest = wait_loop rets in
    if ret == 0 then elim rest [ none ↦ none | some n ↦ some (suc n) ] else some 1

-- The areas of the thread that ends, with those of `tinfo.threads[tid]`, which give the lengths.
abbrev pub unmap_areas : (areas lengths : List Area) → List Call
unmap_areas [] bs = []
unmap_areas (a ∷ areas) [] = []
unmap_areas (a ∷ areas) (b ∷ bs) = elim a.owner [
  | none ↦ unmap_areas areas bs
  | some k ↦ munmap a.start b.length ∷ unmap_areas areas bs
]

abbrev pub clear : Area → Area
clear a = elim a.owner [ none ↦ a | some k ↦ no_area ]

-- `none` if the thread is never reported to have ended. The result `none` is NULL for an unknown
-- `tid`. The table is the one at the end of the wait, during which other threads may change it; the id
-- and the pid of the entry, which are read before, stay as they are.
unfoldable pub gthread_join : Tinfo → (tid : ℕ) → (rets : List ℕ) → Option Outcome
gthread_join t tid rets =
    let id = find_index (λ h. h.tid == tid) t.threads in
    let h = thread_at t id in
    if id == max_threads then some (outcome none t []) else elim (wait_loop rets) [
      | none ↦ none
      | some n ↦ some (
          outcome (some h.ret_addr)
            (record {
              threads = set t.threads id (record h {
                status = th_status_used;
                ret_addr = 0;
                stack_addr = 0;
                priv_areas = map clear h.priv_areas;
              });
              num_threads = (t.num_threads + 2 ^ 32 - 1) % 2 ^ 32;
            })
            (replicate n (wait_for_thread h.pid)
              ++ munmap h.stack_addr th_stack_size
                ∷ unmap_areas h.priv_areas (thread_at t tid).priv_areas))
    ]

-- the flag of gmalloc as a flag of mmap
abbrev pub sibling_flag : ℕ → Option ℕ
sibling_flag alloc_flag =
    if alloc_flag == 0x0
    then some 0x10
    else if alloc_flag == 0x1
    then some 0x20
    else if alloc_flag == 0x2
    then some 0x40
    else none

abbrev pub is_free : Area → Bool
is_free a = elim a.owner [ none ↦ true | some k ↦ false ]

abbrev pub with_area : Tinfo → (i j : ℕ) → Area → Tinfo
with_area t i j a =
    let h = thread_at t i in
    record t { threads = set t.threads i (record h { priv_areas = set h.priv_areas j a }) }

abbrev pub free_index : Tinfo → ℕ → ℕ
free_index t i = find_index is_free (thread_at t i).priv_areas

-- `start` is what mmap returns.
unfoldable pub gmalloc : Tinfo → (pid : ℕ) → (size alloc_flag : ℕ) → (start : ℕ) → Outcome
gmalloc t pid size alloc_flag start =
    let i = find_index (runs_as pid) t.threads in
    let j = free_index t i in
    elim (sibling_flag alloc_flag) [
      | none ↦ outcome none t []
      | some flag ↦
          if i == max_threads
          then outcome none t []
          else if j == max_galloc_areas
          then outcome none t []
          else if start == 0
          then outcome none t (mmap size (prot_rw + flag) map_th_private ∷ [])
          else outcome (some start)
              (with_area t i j
                (record { owner = some i; start = start; length = size; flags = alloc_flag }))
              (mmap size (prot_rw + flag) map_th_private ∷ [])
    ]

abbrev pub starts_at : ℕ → Area → Bool
starts_at ptr a = a.start == ptr

abbrev pub area_index : ℕ → Thread → ℕ
area_index ptr h = find_index (starts_at ptr) h.priv_areas

abbrev pub has_area : ℕ → Thread → Bool
has_area ptr h = not (area_index ptr h == max_galloc_areas)

-- `unmapped`: munmap does not return a negative number. `none` is a fault: an area with no owner is
-- asked for the pid of its owner.
unfoldable pub gfree : Tinfo → (pid : ℕ) → (ptr : ℕ) → (unmapped : Bool) → Option Outcome
gfree t pid ptr unmapped =
    let i = find_index (has_area ptr) t.threads in
    let h = thread_at t i in
    let j = area_index ptr h in
    let a = area_at h j in
    if i == max_threads then some (outcome none t []) else elim a.owner [
      | none ↦ none
      | some k ↦
          if not ((thread_at t k).pid == pid)
          then some (outcome none t [])
          else if not unmapped
          then some (outcome none t (munmap ptr a.length ∷ []))
          else some (
              outcome (some 0)
                (with_area t i j (record { owner = none; start = 0; length = 0; flags = 0 }))
                (munmap ptr a.length ∷ []))
    ]
