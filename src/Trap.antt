-- ===== src/Trap.antt =====
-- The rest of Assignment-3/Submission/src/debug.c: the handler of INT3 in the debugged process, the
-- handlers of fork and exit, and the calls by which the debugger waits and looks at the process.
pub mod Step
pub mod Calls
pub mod Tests
use building_gem_os_cs.Base.{
  ℕ, zero, suc, ◌+◌, ◌-◌, ◌*◌, ◌/◌, ◌%◌, ◌^◌, Bool, true, false, ◌||◌, Option, none, some, List, [],
  ◌∷◌, ◌++◌, map, ◌==◌, if◌then◌else◌, length, take, replicate,
}
use building_gem_os_cs.Base.Memory.{Memory, update}
use building_gem_os_cs.Machine.{UserRegs, State, ready, waiting}
use building_gem_os_cs.Debug.{
  Breakpoint, StackElement, DebugInfo, max_backtrace, int3_opcode, pushrbp_opcode,
}

abbrev pub end_addr : ℕ
end_addr = 0x10000003B

-- `a - b` and `a + b` of a `u64`, for `b` at most 2^64
abbrev pub minus : ℕ → ℕ → ℕ
minus a b = (a + 2 ^ 64 - b) % 2 ^ 64

abbrev pub plus : ℕ → ℕ → ℕ
plus a b = (a + b) % 2 ^ 64

-- The number in the `n` bytes from `a` on, the least byte first; 8 of them are a `u64`.
unfoldable pub load : (n : ℕ) → Memory → ℕ → ℕ
load zero m a = 0
load (suc n) m a = m a + 256 * load n m (plus a 1)

unfoldable pub store : (n : ℕ) → Memory → ℕ → ℕ → Memory
store zero m a v = m
store (suc n) m a v = store n (update m a (v % 256)) (plus a 1) (v / 256)

-- The debugger, of which `get_ctx_by_pid(ctx->ppid)` is the context, and the process that it debugs.
-- `dbg`, `nxt_instr`, `debugee_regs`, `rdx_change` and `debugee` are the debugger's `debug_info`;
-- `rdx_change`, an `int`, is kept as the `u64` that is added to a register.
pub record Session : Type 0 where
  pub debugger_state : State
  pub debugger_rax : ℕ
  pub dbg : DebugInfo
  pub nxt_instr : ℕ
  pub debugee_regs : UserRegs
  pub rdx_change : ℕ
  pub debugee : ℕ
  pub debugee_state : State
  pub regs : UserRegs
  pub memory : Memory

-- What `int3_handler` comes to: the call of `schedule` for the debugger or for the process; `fault`
-- if it has written behind the end of an array; `lost` if it has left a `stack_count` of -1, with
-- which the next breakpoint would write in front of the array. Neither is followed further.
pub data Trapped : Type 0 where
  no_debugger : Trapped
  to_debugger : Session → Trapped
  to_debugee : Session → Trapped
  fault : Trapped
  lost : Trapped

unfoldable pub fill_debugee_regs : UserRegs → (user_regs : UserRegs) → (rdx_change : ℕ) → UserRegs
fill_debugee_regs regs user_regs rdx_change = record regs {
  entry_rip = user_regs.entry_rip;
  entry_rsp = user_regs.entry_rsp;
  rbp = user_regs.rbp;
  rax = user_regs.rax;
  rdi = user_regs.rdi;
  rsi = user_regs.rsi;
  rdx = plus user_regs.rdx rdx_change;
  rcx = user_regs.rcx;
  r8 = user_regs.r8;
  r9 = user_regs.r9;
}

-- The first breakpoint at the address or at the one before it.
unfoldable pub find_breakpoint : ℕ → List Breakpoint → Option Breakpoint
find_breakpoint addr [] = none
find_breakpoint addr (b ∷ bs) =
    if b.addr == addr || b.addr == minus addr 1 then some b else find_breakpoint addr bs

-- The loop along the frames from `rbp` on: what it stores, or `none` if that is more than `room`.
unfoldable pub walk_frames : (room : ℕ) → Memory → (end_handler rbp : ℕ) → Option (List ℕ)
walk_frames zero m end_handler rbp = if load 8 m (plus rbp 8) == end_addr then some [] else none
walk_frames (suc room) m end_handler rbp =
    let ret = load 8 m (plus rbp 8) in
    let caller = if ret == end_handler then load 8 m (plus rbp 16) else ret in
    let rest = walk_frames room m end_handler (load 8 m rbp) in
    if ret == end_addr
    then some []
    else elim rest [ none ↦ none | some callers ↦ some (caller ∷ callers) ]

-- The array `backtrace`, cleared and then filled from its start on.
abbrev pub filled : List ℕ → List ℕ
filled addrs = addrs ++ replicate (max_backtrace - length addrs) 0

-- `for (i = stack_count - 1; i >= 0; i--) if (stack[i].return_addr == ret) break;` and then
-- `stack_count = i`; `none` for -1. The second argument is the stack from its top on.
unfoldable pub unwind : ℕ → List StackElement → Option ℕ
unwind ret [] = none
unwind ret (e ∷ es) = if e.return_addr == ret then some (length es) else unwind ret es

-- `PUSH RBP` has been run: the breakpoint and the byte behind it are put back.
abbrev pub stepped : Session → Session
stepped s = record s {
  memory =
      update (update s.memory (minus s.regs.entry_rip 2) int3_opcode) (minus s.regs.entry_rip 1)
        s.nxt_instr;
  regs = record s.regs { entry_rip = minus s.regs.entry_rip 1 };
  debugger_state = waiting;
  debugee_state = ready;
}

-- What both ways to the debugger share: INT3 is put behind the byte at which the process stopped,
-- which becomes `PUSH RBP` and is what the process runs next.
abbrev pub stopped : Session → List ℕ → List StackElement → Session
stopped s addrs stack =
    let rip = minus s.regs.entry_rip 1 in
    let regs = record s.regs { entry_rip = rip } in
    record s {
      dbg = record s.dbg { backtrace = filled addrs; stack = stack };
      nxt_instr = s.memory s.regs.entry_rip;
      memory = update (update s.memory s.regs.entry_rip int3_opcode) rip pushrbp_opcode;
      regs = regs;
      debugger_rax = rip;
      debugee_regs = fill_debugee_regs s.debugee_regs regs s.rdx_change;
      debugee_state = waiting;
      debugger_state = ready;
    }

abbrev pub with_end : Session → Session
with_end s = record s {
  regs = record s.regs { entry_rsp = minus s.regs.entry_rsp 8 };
  rdx_change = plus s.rdx_change 8;
  memory = store 8 s.memory (minus s.regs.entry_rsp 8) s.dbg.end_handler;
}

abbrev pub reversed : List StackElement → List StackElement
reversed [] = []
reversed (e ∷ es) = reversed es ++ e ∷ []

abbrev pub element_of : Session → StackElement
element_of s = record {
  start_addr = minus s.regs.entry_rip 1;
  return_addr = load 8 s.memory s.regs.entry_rsp;
}

-- The stop at the breakpoint, for the further addresses of the backtrace and the new stack.
abbrev pub entered : Session → Breakpoint → List ℕ → List StackElement → Session
entered s b addrs stack =
    let e = element_of s in
    let t = stopped s (e.start_addr ∷ e.return_addr ∷ addrs) stack in
    if b.end_breakpoint_enable == 1 then with_end t else t

-- The handler at a breakpoint, by what the walk along the frames stores: with nothing stored the
-- function was called from `main`.
abbrev pub enter : Session → Breakpoint → Option (List ℕ) → Trapped
enter s b none = fault
enter s b (some []) = to_debugger (entered s b [] (element_of s ∷ []))
enter s b (some (a ∷ addrs)) =
    if length s.dbg.stack == max_backtrace
    then fault
    else to_debugger (entered s b (a ∷ addrs) (s.dbg.stack ++ element_of s ∷ []))

unfoldable pub at_breakpoint : Session → Breakpoint → Trapped
at_breakpoint s b =
    enter s b (walk_frames (max_backtrace - 2) s.memory s.dbg.end_handler s.regs.rbp)

-- The handler in the end handler, by the addresses that the walk stores and the new stack count.
abbrev pub leave : Session → Option (List ℕ) → Option ℕ → Trapped
leave s none count = fault
leave s (some addrs) none = lost
leave s (some addrs) (some count) =
    to_debugger
      (record (stopped s (load 8 s.memory s.regs.entry_rsp ∷ addrs) (take count s.dbg.stack)) {
        rdx_change = minus s.rdx_change 8;
      })

unfoldable pub at_end_handler : Session → Trapped
at_end_handler s =
    leave s (walk_frames (max_backtrace - 1) s.memory s.dbg.end_handler s.regs.rbp)
      (unwind (load 8 s.memory s.regs.entry_rsp) (reversed s.dbg.stack))

-- The handler, by the breakpoint that is found.
abbrev pub handle : Session → Option Breakpoint → Trapped
handle s found =
    if s.memory (minus s.regs.entry_rip 2) == pushrbp_opcode
    then to_debugee (stepped s)
    else elim found [ none ↦ at_end_handler s | some b ↦ at_breakpoint s b ]

unfoldable pub int3_handler : Option Session → Trapped
int3_handler none = no_debugger
int3_handler (some s) = handle s (find_breakpoint (minus s.regs.entry_rip 1) s.dbg.head)

-- `do_wait_and_continue`, up to its call of `schedule` for the process.
unfoldable pub do_wait_and_continue : Session → Session
do_wait_and_continue s = record s { debugger_state = waiting; debugee_state = ready }

-- The child of a debugger, whose pid is `pid`: it has no `dbg` of its own, and it waits.
unfoldable pub debugger_on_fork : Session → (pid : ℕ) → Session
debugger_on_fork s pid = record s { debugee = pid; debugee_state = waiting }

abbrev pub child_exit : ℕ
child_exit = 0

unfoldable pub debugee_on_exit : Session → Session
debugee_on_exit s = record s { debugger_state = ready; debugger_rax = child_exit }

-- The registers that the debugger passes get the ten that are kept.
unfoldable pub do_info_registers : Session → UserRegs → UserRegs
do_info_registers s regs = record regs {
  entry_rip = s.debugee_regs.entry_rip;
  entry_rsp = s.debugee_regs.entry_rsp;
  rbp = s.debugee_regs.rbp;
  rax = s.debugee_regs.rax;
  rdi = s.debugee_regs.rdi;
  rsi = s.debugee_regs.rsi;
  rdx = s.debugee_regs.rdx;
  rcx = s.debugee_regs.rcx;
  r8 = s.debugee_regs.r8;
  r9 = s.debugee_regs.r9;
}

-- The loop of `do_backtrace` from index `i` on, over the rest of `backtrace`; `none` if it reads on
-- behind the end of the array.
unfoldable pub copy_backtrace : List ℕ → (i : ℕ) → (bt : ℕ → ℕ) → Option (ℕ × (ℕ → ℕ))
copy_backtrace [] i bt = none
copy_backtrace (a ∷ addrs) i bt =
    let rest = copy_backtrace addrs (i + 1) (update bt i a) in if a == 0 then some (i, bt) else rest

unfoldable pub do_backtrace : Session → (bt : ℕ → ℕ) → Option (ℕ × (ℕ → ℕ))
do_backtrace s bt = copy_backtrace s.dbg.backtrace 0 bt
