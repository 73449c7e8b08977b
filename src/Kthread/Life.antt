-- ===== src/Kthread/Life.antt =====
-- The life of a kernel thread: do_clone of clone_threads.c (Assignment-4/gemOS/src), and
-- handle_thread_exit, cleanup_all_threads, do_make_thread_ready and do_wait_for_thread of
-- Assignment-4/template/clone_threads_helper.c.
use building_gem_os_cs.Base.{
  ℕ, zero, suc, ◌+◌, ◌≡◌, ◌≢◌, Bool, true, false, not, ◌||◌, Option, none, some, List, [], ◌∷◌,
  ◌++◌, ◌==◌, if◌then◌else◌, set, find_index, replicate, arith,
}
use building_gem_os_cs.Base.Partial.{put}
use building_gem_os_cs.Kernel.{einval, Reply, ok, err}
use building_gem_os_cs.Kthread.{
  max_threads, max_private_areas, th_unused, th_used, PrivateMap, Thread,
}
use building_gem_os_cs.Kthread.Fault.{free_map}
use building_gem_os_cs.Kthread.Table.{
  unused, ready, waiting, exiting, exec_ctx_user_th, Kernel, is_user, is_thread, is_gone,
  is_exiting, current_ctx, with_ctx, thread_at, find_thread_from_pid, owns,
}

-- a table that `os_alloc` gives and `bzero` clears
abbrev pub blank_table : List Thread
blank_table = replicate max_threads (record {
  pid = 0;
  status = th_unused;
  private_mappings = replicate max_private_areas free_map;
})

abbrev pub table_of : Option (List Thread) → List Thread
table_of none = blank_table
table_of (some ts) = ts

-- `do_clone`, with the pid of the context that get_new_ctx returns: `none` stands for -1.
unfoldable pub do_clone : Kernel → (pid th_func user_stack user_arg : ℕ) → Option ℕ × Kernel
do_clone k pid th_func user_stack user_arg =
    let ts = table_of k.threads in
    let i = find_index (λ t. t.status == th_unused) ts in
    let c = current_ctx k in
    if i == max_threads then (none, record k { threads = some ts }) else (
      some pid,
      record k {
        threads = some (set ts i (record (thread_at ts i) { status = th_used; pid = pid }));
        ctx_by_pid = put k.ctx_by_pid pid (record c {
          pid = pid;
          ppid = c.pid;
          entry_rsp = user_stack;
          entry_rip = th_func;
          rdi = user_arg;
          type = exec_ctx_user_th;
          state = ready;
        });
      },
    )

-- the calls of vm_area_unmap, for the maps that thread `i` owns
abbrev pub owned_areas : ℕ → List PrivateMap → List (ℕ × ℕ)
owned_areas i [] = []
owned_areas i (m ∷ ms) =
    if owns i m.owner then (m.start_addr, m.length) ∷ owned_areas i ms else owned_areas i ms

-- The part of `handle_thread_exit` behind the search; `normal` says that user space asked for it.
unfoldable pub exit_thread :
    Kernel → List Thread → (pid : ℕ) → Option ℕ → (normal : Bool) → List (ℕ × ℕ) × Kernel
exit_thread k ts pid none normal = ([], k)
exit_thread k ts pid (some i) normal =
    let c = k.ctx_by_pid pid in
    let th = thread_at ts i in
    let k1 = with_ctx k pid (record c { state = if normal then unused else exiting }) in
    (
      owned_areas i th.private_mappings,
      record (with_ctx k1 c.ppid (record (k1.ctx_by_pid c.ppid) { state = ready })) {
        threads = some (set ts i (record th { status = th_unused }));
      },
    )

unfoldable pub handle_thread_exit :
    Kernel → List Thread → (pid : ℕ) → (normal : Bool) → List (ℕ × ℕ) × Kernel
handle_thread_exit k ts pid normal =
    let c = k.ctx_by_pid pid in
    exit_thread k ts pid (find_thread_from_pid (k.ctx_by_pid c.ppid).type (some ts) c.pid) normal

-- The loop of `cleanup_all_threads` from index `i` on, with the number of threads left.
unfoldable pub exit_all : Kernel → (i left : ℕ) → List (ℕ × ℕ) × Kernel
exit_all k i zero = ([], k)
exit_all k i (suc left) =
    let ts = table_of k.threads in
    let th = thread_at ts i in
    let (calls, k') =
      if th.status == th_used then handle_thread_exit k ts th.pid true else ([], k) in
    let (rest, k'') = exit_all k' (i + 1) left in (calls ++ rest, k'')

unfoldable pub cleanup_all_threads : Kernel → (pid : ℕ) → List (ℕ × ℕ) × Kernel
cleanup_all_threads k pid =
    let (calls, k') = exit_all k 0 max_threads in
    let done = with_ctx k' pid (record (k'.ctx_by_pid pid) { state = unused }) in
    if is_user (k.ctx_by_pid pid).type
    then elim k.threads [ none ↦ ([], k) | some ts ↦ (calls, done) ]
    else ([], k)

unfoldable pub do_make_thread_ready : Kernel → (pid : ℕ) → Reply × Kernel
do_make_thread_ready k pid =
    let c = k.ctx_by_pid pid in
    if not (is_thread c.type) || is_gone c.state
    then (err einval, k)
    else (ok 0, with_ctx k pid (record c { state = ready }))

-- `do_wait_for_thread` up to the call of `schedule`, from which the caller returns with 0.
unfoldable pub do_wait_for_thread : Kernel → (pid : ℕ) → Reply × Kernel
do_wait_for_thread k pid =
    let th = k.ctx_by_pid pid in
    let c = current_ctx k in
    if not (is_thread th.type) || (is_gone th.state || not (th.ppid == c.pid))
    then (
      err einval,
      if is_exiting th.state then with_ctx k pid (record th { state = unused }) else k,
    )
    else (ok 0, with_ctx k k.current (record c { rax = 0; state = waiting }))

-- A thread of the process that has an entry exits, whether user space asked for it or not: the process
-- is READY again, the entry is free, and the next wait of the process for the thread returns -EINVAL,
-- which ends the loop of gthread_join, and leaves the context of the thread UNUSED.
pub do_wait_for_thread-handle_thread_exit :
    (k : Kernel) (ts : List Thread) (pid i : ℕ) (normal : Bool)
    → find_thread_from_pid
        (k.ctx_by_pid (k.ctx_by_pid pid).ppid).type
        (some ts)
        (k.ctx_by_pid pid).pid
      ≡ some i
    → pid ≢ (k.ctx_by_pid pid).ppid
    → let parent = (k.ctx_by_pid pid).ppid in
      let k' = (handle_thread_exit k ts pid normal).1 in
      let w = do_wait_for_thread (record k' { current = parent }) pid in
      ((k'.ctx_by_pid parent).state ≡ ready)
      × (k'.threads ≡ some (set ts i (record (thread_at ts i) { status = th_unused })))
      × (w.0 ≡ err einval)
      × ((w.1.ctx_by_pid pid).state ≡ unused)
unfolding handle_thread_exit exit_thread do_wait_for_thread
do_wait_for_thread-handle_thread_exit k ts pid i true e n = rw e (ground (arith, n))
do_wait_for_thread-handle_thread_exit k ts pid i false e n = rw e (ground (arith, n))
