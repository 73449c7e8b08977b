-- ===== src/Scheduler/Tests.antt =====
-- The theorems on schedule.c at concrete inputs, and runs of its functions.
use building_gem_os_cs.Base.{
  ℕ, ◌-◌, ◌*◌, ◌^◌, ◌<◌, ◌≡◌, refl, some, List, [], ◌∷◌, ◌==◌, if◌then◌else◌, arith, get_or,
}
use building_gem_os_cs.Machine.{
  UserRegs, State, ready, waiting, ExecContext, Contexts, max_processes,
}
use building_gem_os_cs.Scheduler.{Kernel, pick_loop, pick_next_context, schedule}
use building_gem_os_cs.Scheduler.Pick.{first_ready, round_robin, pick_next_context_lem}
use building_gem_os_cs.Scheduler.Fair.{Turns, stop, turn, pick_next_context_fair}
use building_gem_os_cs.Scheduler.Tick.{sleeping}

abbrev frame : ℕ → UserRegs
frame n = record {
  r15 = 0;
  r14 = 0;
  r13 = 0;
  r12 = 0;
  r11 = 0;
  r10 = 0;
  r9 = 0;
  r8 = 0;
  rbp = 0;
  rdi = 0;
  rsi = 0;
  rdx = 0;
  rcx = 0;
  rbx = 0;
  rax = n;
  entry_rip = 0;
  entry_cs = 0;
  entry_rflags = 0;
  entry_rsp = 0;
  entry_ss = 0;
}

abbrev context : State → ℕ → ExecContext
context s n = record {
  state = s;
  pgd = n;
  regs = frame n;
  ticks_to_sleep = 0;
  alarm_config_time = 0;
  ticks_to_alarm = 0;
}

-- Processes 2 and 5 are READY.
abbrev two_ready : Contexts
two_ready i = context (if i == 2 then ready else if i == 5 then ready else waiting) i

pick_runs : (pick_next_context two_ready 2 ≡ some 5) × (pick_next_context two_ready 6 ≡ some 2)
unfolding pick_next_context pick_loop
pick_runs = (refl, refl)

pick_next_context_lem_example :
    pick_next_context two_ready 2 ≡ some (first_ready two_ready (round_robin 2))
pick_next_context_lem_example = pick_next_context_lem two_ready 2 (omega arith)

first_run : pick_next_context two_ready 0 ≡ some 2
unfolding pick_next_context pick_loop
first_run = refl

second_run : pick_next_context two_ready 5 ≡ some 2
unfolding pick_next_context pick_loop
second_run = refl

abbrev picks : List ℕ
picks = 2 ∷ 5 ∷ 2 ∷ 5 ∷ 2 ∷ 5 ∷ []

alternating : {js : List ℕ} → Turns 2 5 js → Turns 2 5 (2 ∷ 5 ∷ js)
alternating ts = turn two_ready refl second_run (turn two_ready refl (pick_runs.0) ts)

turns : Turns 2 0 picks
turns =
    turn two_ready refl first_run
      (turn two_ready refl (pick_runs.0) (alternating (alternating stop)))

pick_next_context_fair_example : (k : ℕ) × (k < max_processes - 1) × (get_or picks k 0 ≡ 2)
pick_next_context_fair_example =
    pick_next_context_fair 2 0 picks (omega arith) (omega arith) (omega arith) refl turns

abbrev asleep : Contexts
asleep i = sleeping (context waiting 3) 2

abbrev kernel : Kernel
kernel = record {
  ctxs = two_ready;
  regs = frame 9;
  current = 2;
  tss = 2;
  cr3 = 2 * 2 ^ 12;
  ticks = 0;
  context_switches = 0;
}

abbrev no_signal : Kernel → Kernel
no_signal k = k

schedule_run : ((schedule kernel 5).current ≡ 5) × ((schedule kernel 5).cr3 ≡ 20480)
unfolding schedule
schedule_run = (refl, refl)
