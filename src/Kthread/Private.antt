-- ===== src/Kthread/Private.antt =====
-- A private area that a thread maps and unmaps: handle_thread_private_mmap and
-- handle_thread_private_unmmap of Assignment-4/template/clone_threads_helper.c.
use building_gem_os_cs.Base.{ℕ, ◌<◌, ◌≡◌, some, List, length}
use building_gem_os_cs.Kthread.{max_private_areas, PrivateMap, Thread}
use building_gem_os_cs.Kthread.Table.{
  exec_ctx_user, exec_ctx_user_th, Kernel, current_ctx, thread_at, find_thread_from_pid,
  find_unused_map,
}

-- The area that a thread notes down.
abbrev pub noted : (i addr length prot : ℕ) → PrivateMap
noted i addr length prot = record {
  owner = some i;
  start_addr = addr;
  length = length;
  flags = prot;
}

-- The running context is a thread of the process of its parent, number `i` in the table, with its
-- MAX_PRIVATE_AREAS maps, of which `j` is the first without an owner.
pub record CanMap (k : Kernel) (ts : List Thread) (i j : ℕ) : Type 0 where
  pub thread : (current_ctx k).type ≡ exec_ctx_user_th
  pub process : (k.ctx_by_pid (current_ctx k).ppid).type ≡ exec_ctx_user
  pub table : k.threads ≡ some ts
  pub self : find_thread_from_pid exec_ctx_user (some ts) (current_ctx k).pid ≡ some i
  pub inside : i < length ts
  pub maps : length (thread_at ts i).private_mappings ≡ max_private_areas
  pub room : find_unused_map (thread_at ts i) ≡ some j
