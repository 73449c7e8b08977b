-- ===== src/Trap/Tests.antt =====
-- The theorems on the traps of debug.c at concrete inputs.
use building_gem_os_cs.Base.{ℕ, zero, suc, ◌<◌, ◌≡◌, ◌≢◌, refl, List, [], ◌∷◌, arith, get_or}
use building_gem_os_cs.Base.Memory.{Memory, update}
use building_gem_os_cs.Machine.{UserRegs, ready, running, waiting}
use building_gem_os_cs.Debug.{Breakpoint, StackElement, DebugInfo, int3_opcode}
use building_gem_os_cs.Trap.{
  Session, filled, entered, element_of, fill_debugee_regs, do_wait_and_continue, debugger_on_fork,
  debugee_on_exit, do_info_registers,
}

abbrev frame : (rip rsp : ℕ) → UserRegs
frame rip rsp = record {
  r15 = 0;
  r14 = 0;
  r13 = 0;
  r12 = 0;
  r11 = 0;
  r10 = 0;
  r9 = 0;
  r8 = 0;
  rbp = 100;
  rdi = 0;
  rsi = 0;
  rdx = 0;
  rcx = 0;
  rbx = 0;
  rax = 0;
  entry_rip = rip;
  entry_cs = 0;
  entry_rflags = 0;
  entry_rsp = rsp;
  entry_ss = 0;
}

-- The function at 500, with a breakpoint, was called from `main` at 77; the frame at 100 is the last.
abbrev memory : Memory
memory = update (update (update (update (λ a. 0) 108 0x3B) 112 1) 500 int3_opcode) 200 77

abbrev breakpoint : Breakpoint
breakpoint = record { num = 1; addr = 500; end_breakpoint_enable = 0 }

abbrev debugged : (stack : List StackElement) → DebugInfo
debugged stack = record {
  breakpoint_count = 1;
  head = breakpoint ∷ [];
  end_handler = 900;
  last_num = 1;
  backtrace = filled (500 ∷ 77 ∷ []);
  stack = stack;
}

abbrev session : (rip : ℕ) → (stack : List StackElement) → Session
session rip stack = record {
  debugger_state = waiting;
  debugger_rax = 0;
  dbg = debugged stack;
  nxt_instr = 0;
  debugee_regs = frame 0 0;
  rdx_change = 8;
  debugee = 3;
  debugee_state = running;
  regs = frame rip 200;
  memory = memory;
}

abbrev before : Session
before = session 501 []

abbrev held : Session
held = entered before breakpoint [] (element_of before ∷ [])

abbrev addrs : List ℕ
addrs = 500 ∷ 77 ∷ []

abbrev behind : Session
behind = record held { regs = frame 502 192 }

nonzero : (k : ℕ) → k < 2 → get_or addrs k 0 ≢ 0
nonzero zero l = omega arith
nonzero (suc zero) l = omega arith
nonzero (suc (suc k)) l = absurd (omega arith)

-- The function has returned to the end handler, at 900.
abbrev element : StackElement
element = record { start_addr = 500; return_addr = 77 }

abbrev returned : Session
returned = session 901 (element ∷ [])

registers_run : (do_info_registers held (frame 1 1)).entry_rip ≡ 500
unfolding do_info_registers fill_debugee_regs
registers_run = refl

calls_run :
    ((do_wait_and_continue held).debugee_state ≡ ready)
    × ((debugger_on_fork held 4).debugee ≡ 4)
    × ((debugee_on_exit held).debugger_state ≡ ready)
unfolding do_wait_and_continue debugger_on_fork debugee_on_exit
calls_run = (refl, refl, refl)
