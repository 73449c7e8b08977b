-- ===== src/Kthread/Table.antt =====
-- The table of threads: Assignment-4/template/clone_threads_helper.c and do_clone of
-- Assignment-4/gemOS/src/clone_threads.c. What vm_area_unmap, the scheduler, the allocation of a
-- context and setup_child_context do is not in the repository; the first is a list of calls, the last
-- three happen outside the state of these functions.
use building_gem_os_cs.Base.{
  ℕ, ◌+◌, Bool, true, false, not, ◌&&◌, ◌||◌, Option, none, some, List, [], ◌∷◌, ◌==◌,
  if◌then◌else◌, get_or, set, find_index,
}
use building_gem_os_cs.Base.Partial.{put}
use building_gem_os_cs.Kthread.{
  max_threads, max_private_areas, th_unused, th_used, PrivateMap, Thread,
}
use building_gem_os_cs.Kthread.Fault.{is_owned, free_map, free_thread}

-- the states of a context (schedule.h) that the code names, and the rest
pub data CtxState : Type 0 where
  unused ready waiting exiting other : CtxState

pub data CtxType : Type 0 where
  exec_ctx_os exec_ctx_user exec_ctx_user_th : CtxType

-- The part of an execution context that these functions use.
pub record ExecContext : Type 0 where
  pub pid : ℕ
  pub ppid : ℕ
  pub type : CtxType
  pub state : CtxState
  pub entry_rsp : ℕ
  pub entry_rip : ℕ
  pub rdi : ℕ
  pub rax : ℕ
  pub pgd : ℕ

-- The contexts by pid, the pid of the running one, and the threads, `none` where there is no table.
pub record Kernel : Type 0 where
  pub ctx_by_pid : ℕ → ExecContext
  pub current : ℕ
  pub threads : Option (List Thread)

abbrev pub is_user : CtxType → Bool
is_user exec_ctx_user = true
is_user _ = false

abbrev pub is_thread : CtxType → Bool
is_thread exec_ctx_user_th = true
is_thread _ = false

abbrev pub is_gone : CtxState → Bool
is_gone unused = true
is_gone exiting = true
is_gone _ = false

abbrev pub is_exiting : CtxState → Bool
is_exiting exiting = true
is_exiting _ = false

abbrev pub current_ctx : Kernel → ExecContext
current_ctx k = k.ctx_by_pid k.current

abbrev pub with_ctx : Kernel → ℕ → ExecContext → Kernel
with_ctx k pid c = record k { ctx_by_pid = put k.ctx_by_pid pid c }

abbrev pub thread_at : List Thread → ℕ → Thread
thread_at ts i = get_or ts i free_thread

-- An index that a loop over the threads leaves, as a pointer.
abbrev pub pointer : (bound : ℕ) → ℕ → Option ℕ
pointer bound i = if i == bound then none else some i

unfoldable pub find_thread_from_pid : CtxType → Option (List Thread) → (thread_pid : ℕ) → Option ℕ
find_thread_from_pid type none thread_pid = none
find_thread_from_pid type (some ts) thread_pid =
    if is_user type then pointer max_threads (find_index (λ t. t.pid == thread_pid) ts) else none

unfoldable pub find_unused_thread : CtxType → Option (List Thread) → Option ℕ
find_unused_thread type none = none
find_unused_thread type (some ts) =
    if is_user type then pointer max_threads (find_index (λ t. t.status == th_unused) ts) else none

unfoldable pub find_unused_map : Thread → Option ℕ
find_unused_map th =
    pointer max_private_areas (find_index (λ m. not (is_owned m.owner)) th.private_mappings)

-- The test of `find_thmap`; a length of 0 fits any.
abbrev pub is_map_at : (address length : ℕ) → PrivateMap → Bool
is_map_at address length m =
    is_owned m.owner && (m.start_addr == address && (length == 0 || m.length == length))

unfoldable pub find_thmap : Thread → (address length : ℕ) → Option ℕ
find_thmap th address length =
    pointer max_private_areas (find_index (is_map_at address length) th.private_mappings)

-- The first used thread with a map at the address, from number `i` on, and the map.
unfoldable pub find_from : (addr length i : ℕ) → List Thread → Option (ℕ × ℕ)
find_from addr length i [] = none
find_from addr length i (t ∷ ts) =
    let rest = find_from addr length (i + 1) ts in
    let found : Option (ℕ × ℕ) = elim (find_thmap t addr length) [
      | none ↦ rest
      | some j ↦ some (i, j)
    ] in
    if t.status == th_used then found else rest

unfoldable pub find_thread_from_address :
    CtxType → Option (List Thread) → (addr length : ℕ) → Option (ℕ × ℕ)
find_thread_from_address type none addr length = none
find_thread_from_address type (some ts) addr length =
    if is_user type then find_from addr length 0 ts else none

-- The table with map `j` of thread `i` written.
abbrev pub with_map : List Thread → (i j : ℕ) → PrivateMap → List Thread
with_map ts i j m =
    let t = thread_at ts i in set ts i (record t { private_mappings = set t.private_mappings j m })

-- `handle_thread_private_mmap`: whether it returns 0, and the state.
unfoldable pub note_map : List Thread → (i : ℕ) → (j : Option ℕ) → PrivateMap → Bool × List Thread
note_map ts i none m = (false, ts)
note_map ts i (some j) m = (true, with_map ts i j m)

unfoldable pub map_private : List Thread → Option ℕ → (addr length prot : ℕ) → Bool × List Thread
map_private ts none addr length prot = (false, ts)
map_private ts (some i) addr length prot =
    note_map ts i (find_unused_map (thread_at ts i))
      (record { owner = some i; start_addr = addr; length = length; flags = prot })

unfoldable pub handle_thread_private_mmap : Kernel → (addr length prot : ℕ) → Bool × Kernel
handle_thread_private_mmap k addr length prot =
    let c = current_ctx k in
    let th = find_thread_from_pid (k.ctx_by_pid c.ppid).type k.threads c.pid in
    let ts : List Thread = elim k.threads [ none ↦ [] | some ts ↦ ts ] in
    let (r, ts') = map_private ts th addr length prot in
    if is_thread c.type && r then (true, record k { threads = some ts' }) else (false, k)

-- What an unmap does: it returns, with the threads as they then are, or calls segfault_exit, which
-- does not return.
pub data Unmap : Type 0 where
  unmapped : List Thread → Unmap
  segfault : Unmap

-- `thmap->owner == th`
abbrev pub owns : ℕ → Option ℕ → Bool
owns i none = false
owns i (some o) = o == i

unfoldable pub clear_map : List Thread → (i : ℕ) → (j : Option ℕ) → Unmap
clear_map ts i none = segfault
clear_map ts i (some j) =
    let m = get_or (thread_at ts i).private_mappings j free_map in
    if owns i m.owner then unmapped (with_map ts i j (record m { owner = none })) else segfault

-- the two ways to `thmap`, for the process and for a thread
unfoldable pub unmap_by_process : List Thread → Option (ℕ × ℕ) → Unmap
unmap_by_process ts none = unmapped ts
unmap_by_process ts (some (i, j)) = clear_map ts i (some j)

unfoldable pub unmap_by_thread : List Thread → Option ℕ → (addr length : ℕ) → Unmap
unmap_by_thread ts none addr length = segfault
unmap_by_thread ts (some i) addr length = clear_map ts i (find_thmap (thread_at ts i) addr length)

unfoldable pub handle_thread_private_unmmap : Kernel → List Thread → (addr length : ℕ) → Unmap
handle_thread_private_unmmap k ts addr length =
    let c = current_ctx k in
    if is_user c.type
    then unmap_by_process ts (find_thread_from_address c.type (some ts) addr length)
    else unmap_by_thread ts (find_thread_from_pid (k.ctx_by_pid c.ppid).type (some ts) c.pid) addr
        length
