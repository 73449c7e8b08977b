-- ===== src/Debug/Tests.antt =====
-- The theorems on the breakpoints of debug.c at concrete inputs, and runs of its handlers.
use building_gem_os_cs.Base.{ℕ, ◌≤◌, ◌≡◌, refl, true, some, [], ◌∷◌, arith, replicate}
use building_gem_os_cs.Base.Memory.{Memory, update}
use building_gem_os_cs.Debug.{
  Breakpoint, DebugInfo, failure, Outcome, UserArray, max_backtrace, int3_opcode,
  do_become_debugger, do_set_breakpoint, change_flag, do_remove_breakpoint,
}
use building_gem_os_cs.Debug.Invariant.{IsValid}
use building_gem_os_cs.Debug.Set.{Sets, do_set_breakpoint-IsValid, do_set_breakpoint-Sets}
use building_gem_os_cs.Debug.Remove.{Removes, do_remove_breakpoint-Removes}
use building_gem_os_cs.Debug.History.{Reached, started, sets, Reached-IsValid}

abbrev breakpoint : ℕ → ℕ → ℕ → Breakpoint
breakpoint n a e = record { num = n; addr = a; end_breakpoint_enable = e }

-- Two breakpoints; the function at 20 is on the stack.
abbrev running : DebugInfo
running = record {
  breakpoint_count = 2;
  head = breakpoint 1 10 0 ∷ breakpoint 3 20 1 ∷ [];
  end_handler = 0;
  last_num = 3;
  backtrace = replicate max_backtrace 0;
  stack = record { start_addr = 20; return_addr = 11 } ∷ [];
}

abbrev memory : Memory
memory = λ a. 0x55

running-IsValid : IsValid running
running-IsValid = ground arith

set_run :
    (do_set_breakpoint running memory 30 1 true).dbg.head
    ≡ breakpoint 1 10 0 ∷ breakpoint 3 20 1 ∷ breakpoint 4 30 1 ∷ []
unfolding do_set_breakpoint change_flag
set_run = refl

set_refused : (do_set_breakpoint running memory 20 0 true).status ≡ failure
unfolding do_set_breakpoint change_flag
set_refused = refl

do_set_breakpoint-IsValid_example : IsValid (do_set_breakpoint running memory 30 1 true).dbg
do_set_breakpoint-IsValid_example =
    do_set_breakpoint-IsValid running memory 30 1 true running-IsValid (omega arith)

do_set_breakpoint-Sets_example :
    Sets running memory 20 0 true (do_set_breakpoint running memory 20 0 true)
do_set_breakpoint-Sets_example = do_set_breakpoint-Sets running memory 20 0 true running-IsValid

-- The same with the end breakpoint of 20 not set.
abbrev plain : DebugInfo
plain = record running { head = breakpoint 1 10 0 ∷ breakpoint 3 20 0 ∷ [] }

do_remove_breakpoint-Removes_example :
    (r : Outcome) × (do_remove_breakpoint running memory 10 ≡ some r) × Removes running memory 10 r
do_remove_breakpoint-Removes_example =
    do_remove_breakpoint-Removes running memory 10 running-IsValid (λ e. cc)

abbrev array : UserArray
array = λ i. breakpoint 0 0 0

abbrev fresh : DebugInfo
fresh = record {
  breakpoint_count = 0;
  head = [];
  end_handler = 99;
  last_num = 0;
  backtrace = replicate max_backtrace 0;
  stack = [];
}

fresh-Reached : Reached 0 fresh (update memory 99 int3_opcode)
unfolding do_become_debugger
fresh-Reached = started memory 99 refl

Reached-IsValid_example :
    let d = (do_set_breakpoint fresh (update memory 99 int3_opcode) 10 1 true).dbg in
    IsValid d × (d.last_num ≤ 1)
Reached-IsValid_example = Reached-IsValid (sets 10 1 true fresh-Reached) (omega arith)
