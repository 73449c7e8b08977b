-- ===== src/Kthread/Fault.antt =====
-- handle_thread_private_fault of clone_threads.c (Assignment-4/gemOS/src).
use building_gem_os_cs.Base.{
  ℕ, ◌+◌, ◌%◌, ◌^◌, bit_and, Bool, true, false, not, ◌&&◌, ◌||◌, Option, none, some, List, [], ◌∷◌,
  ◌==◌, leb, ltb, if◌then◌else◌, get_or, find_index,
}
use building_gem_os_cs.Kthread.{
  max_threads, max_private_areas, th_unused, tp_siblings_noaccess, tp_siblings_rdonly, Frames,
  PrivateMap, Thread,
}
use building_gem_os_cs.Kthread.Walk.{
  offset_l1, offset_l2, offset_l3, offset_l4, is_present, pfn_of, entry_of, write_entry,
}

-- The fields of an execution context that the handler reads.
pub record Context : Type 0 where
  pub pid : ℕ
  pub ppid : ℕ
  pub pgd : ℕ

abbrev pub is_owned : Option ℕ → Bool
is_owned none = false
is_owned (some i) = true

-- `m->owner && addr >= m->start_addr && addr < m->start_addr + m->length`
abbrev pub holds : ℕ → PrivateMap → Bool
holds addr m =
    is_owned m.owner && (leb m.start_addr addr && ltb addr ((m.start_addr + m.length) % 2 ^ 64))

-- The two loops: `i` and `j` behind them, `j` being `none` if it has not been set. The outer one ends
-- at the first thread that is not used.
unfoldable pub search : (addr i : ℕ) → (j : Option ℕ) → List Thread → ℕ × Option ℕ
search addr i j [] = (i, j)
search addr i j (t ∷ ts) =
    let k = find_index (holds addr) t.private_mappings in
    let rest = search addr (i + 1) (some k) ts in
    if t.status == th_unused then (i, j) else if k == max_private_areas then rest else (i, some k)

abbrev pub free_map : PrivateMap
free_map = record { owner = none; start_addr = 0; length = 0; flags = 0 }

abbrev pub free_thread : Thread
free_thread = record { pid = 0; status = 0; private_mappings = [] }

-- The access checks, for an area of the thread with the context `th`. The test of the error code is
-- `error_code & (PF_ERROR_WR == PF_ERROR_WR)`, which reads its bit 0.
unfoldable pub is_allowed : (current th : Context) → (flags error_code : ℕ) → Bool
is_allowed current th flags error_code =
    let access = bit_and flags 0x70 in
    if th.pid == current.pid || th.ppid == current.pid
    then true
    else not (access == tp_siblings_noaccess)
      && not (access == tp_siblings_rdonly && error_code % 2 == 1)

-- The step at one level: the frame that the entry leads to, and the tables, with a new frame entered
-- if there was none.
unfoldable pub enter_level : Frames → (pfn offset new : ℕ) → ℕ × Frames
enter_level m pfn offset new =
    if is_present (m pfn offset)
    then (pfn_of (m pfn offset), m)
    else (new, write_entry m pfn offset (entry_of new 0x7))

-- The frames that `os_pfn_alloc` returns, should it be called at a level.
pub record NewFrames : Type 0 where
  pub new2 : ℕ
  pub new3 : ℕ
  pub new4 : ℕ
  pub user : ℕ

unfoldable pub map_page : Frames → (pgd addr : ℕ) → NewFrames → Frames
map_page m pgd addr new =
    let (pfn2, m1) = enter_level m pgd (offset_l1 addr) new.new2 in
    let (pfn3, m2) = enter_level m1 pfn2 (offset_l2 addr) new.new3 in
    let (pfn4, m3) = enter_level m2 pfn3 (offset_l3 addr) new.new4 in
    (enter_level m3 pfn4 (offset_l4 addr) new.user).1

-- What the handler does: it returns -1, calls segfault_exit and returns -1, or returns 1 with the page
-- mapped.
pub data Fault : Type 0 where
  ignored : Fault
  segfault : Fault
  fixed : Frames → Fault

-- the part behind the search, for area `j` of thread `i`
unfoldable pub fix :
    (current : Context)
    → (ctx_by_pid : ℕ → Context) → List Thread
    → (addr error_code : ℕ) → NewFrames
    → Frames
    → (i j : ℕ) → Fault
fix current ctx_by_pid threads addr error_code new m i j =
    let th = get_or threads i free_thread in
    let map = get_or th.private_mappings j free_map in
    if is_allowed current (ctx_by_pid th.pid) map.flags error_code
    then fixed (map_page m current.pgd addr new)
    else segfault

-- The part behind the loops, which have left `i` and `j`: `none` where it reads `j` though nothing has
-- set it.
unfoldable pub respond :
    (current : Context)
    → (ctx_by_pid : ℕ → Context) → List Thread
    → (addr error_code : ℕ) → NewFrames
    → Frames
    → ℕ × Option ℕ
    → Option Fault
respond current ctx_by_pid threads addr error_code new m (i, none) =
    if i == max_threads then some ignored else none
respond current ctx_by_pid threads addr error_code new m (i, some j) =
    if i == max_threads || j == max_private_areas
    then some ignored
    else some (fix current ctx_by_pid threads addr error_code new m i j)

unfoldable pub handle_thread_private_fault :
    (current : Context)
    → (ctx_by_pid : ℕ → Context) → List Thread
    → (addr error_code : ℕ) → NewFrames
    → Frames
    → Option Fault
handle_thread_private_fault current ctx_by_pid threads addr error_code new m =
    respond current ctx_by_pid threads addr error_code new m (search addr 0 none threads)
