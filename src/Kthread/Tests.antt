-- ===== src/Kthread/Tests.antt =====
-- The theorems on kernel threads at concrete inputs.
use building_gem_os_cs.Base.{
  ℕ, ◌≡◌, refl, Bool, true, some, List, ◌∷◌, ◌==◌, ltb, if◌then◌else◌, arith, replicate,
}
use building_gem_os_cs.Kthread.{Frames, PrivateMap, Thread}
use building_gem_os_cs.Kthread.Fault.{
  Context, free_map, NewFrames, enter_level, is_allowed, handle_thread_private_fault,
}
use building_gem_os_cs.Kthread.Grant.{
  InArea, here, IsTree, Decided, handle_thread_private_fault-Decided,
}
use building_gem_os_cs.Kthread.Table.{
  ready, exec_ctx_user, exec_ctx_user_th, ExecContext, Kernel, find_thread_from_pid, with_map,
}
use building_gem_os_cs.Kthread.Private.{noted}

-- The root is frame 1, and an area of two pages at 0 has the tables 2, 3 and 4: its first page is
-- frame 9, and its second is absent.
abbrev tables : Frames
tables f o =
    if o == 0
    then (if f == 1
        then 8199
        else if f == 2
        then 12295
        else if f == 3
        then 16391
        else if f == 4
        then 36871
        else 0)
    else 0

abbrev owner_map : PrivateMap
owner_map = record { owner = some 0; start_addr = 0; length = 8192; flags = 0x23 }

abbrev upper : ℕ → Bool
upper f = ltb f 4

abbrev last_table : ℕ → ℕ
last_table i = 4

-- Thread 5 owns the area, and its sibling 6 writes to the second page, which is absent: bit 1 of the
-- error code is set, and bit 0 is not.
abbrev thread_five : Thread
thread_five = record { pid = 5; status = 1; private_mappings = owner_map ∷ replicate 3 free_map }

abbrev no_thread : Thread
no_thread = record { pid = 0; status = 0; private_mappings = replicate 4 free_map }

abbrev threads : List Thread
threads = thread_five ∷ replicate 3 no_thread

abbrev sibling : Context
sibling = record { pid = 6; ppid = 1; pgd = 1 }

abbrev contexts : ℕ → Context
contexts n = record { pid = n; ppid = 1; pgd = 1 }

abbrev new_frames : NewFrames
new_frames = record { new2 = 10; new3 = 11; new4 = 12; user = 13 }

in_area : InArea 4096 threads 0 0
in_area = here (λ e. ground (arith, e)) refl (λ e. ground (arith, e))

is_tree : IsTree tables 1 4096 new_frames
unfolding enter_level
is_tree = record {
  small2 = omega arith;
  small3 = omega arith;
  small4 = omega arith;
  small = omega arith;
  apart1 = (λ e. ground (arith, e), λ e. ground (arith, e), λ e. ground (arith, e));
  apart2 = (λ e. ground (arith, e), λ e. ground (arith, e));
  apart3 = λ e. ground (arith, e);
}

handle_thread_private_fault-Decided_example :
    Decided sibling
      (contexts 5)
      0x23
      4096
      6
      new_frames
      tables
      (handle_thread_private_fault sibling contexts threads 4096 6 new_frames tables)
handle_thread_private_fault-Decided_example =
    handle_thread_private_fault-Decided sibling contexts threads 4096 6 new_frames tables 0 0 refl
      in_area is_tree

-- It is let through.
granted_run : is_allowed sibling (contexts 5) 0x23 6 ≡ true
unfolding is_allowed
granted_run = refl

abbrev context : ℕ → ExecContext
context n = record {
  pid = n;
  ppid = 1;
  type = if n == 1 then exec_ctx_user else exec_ctx_user_th;
  state = ready;
  entry_rsp = 0;
  entry_rip = 0;
  rdi = 0;
  rax = 0;
  pgd = 1;
}

abbrev kernel : Kernel
kernel = record { ctx_by_pid = context; current = 5; threads = some threads }

abbrev mapped_threads : List Thread
mapped_threads = with_map threads 0 1 (noted 0 40960 4096 0x13)

self_found : find_thread_from_pid exec_ctx_user (some threads) 5 ≡ some 0
unfolding find_thread_from_pid
self_found = refl
