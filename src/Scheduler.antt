-- ===== src/Scheduler.antt =====
-- Assignment-3/src/schedule.c: the choice of the next process and the timer interrupt.
pub mod Pick
pub mod Fair
pub mod Tick
pub mod Tests
use building_gem_os_cs.Base.{
  ℕ, zero, suc, ◌+◌, ◌-◌, ◌*◌, ◌%◌, ◌^◌, Bool, true, false, not, ◌&&◌, Option, none, some, ◌==◌,
  ltb, if◌then◌else◌,
}
use building_gem_os_cs.Machine.{
  UserRegs, State, ready, running, waiting, ExecContext, Contexts, max_processes,
}

abbrev pub is_ready : ExecContext → Bool
is_ready c = elim c.state [ ready ↦ true | _ ↦ false ]

abbrev pub is_waiting : ExecContext → Bool
is_waiting c = elim c.state [ waiting ↦ true | _ ↦ false ]

-- The loop of `pick_next_context` for the process `own`, on fuel: the pid that it returns.
unfoldable pub pick_loop : (fuel : ℕ) → Contexts → (own pid : ℕ) → Option ℕ
pick_loop zero ctxs own pid = none
pick_loop (suc fuel) ctxs own pid =
    let next = if pid + 1 == own + 1 then 0 else pid + 1 in
    let rest = pick_loop fuel ctxs own (if next == max_processes then 1 else next) in
    if pid == 0
    then some 0
    else if is_ready (ctxs pid)
    then some pid
    else if next == max_processes && own == 0
    then some 0
    else rest

unfoldable pub pick_next_context : Contexts → (own : ℕ) → Option ℕ
pick_next_context ctxs own =
    pick_loop (max_processes + 1) ctxs own (if own + 1 == max_processes then 1 else own + 1)

abbrev pub update_ctx : Contexts → ℕ → ExecContext → Contexts
update_ctx ctxs i c pid = if pid == i then c else ctxs pid

-- One step of the loop of `do_sleep_and_alarm_account`.
abbrev pub sleep_tick : ExecContext → ExecContext
sleep_tick c =
    if is_waiting c && ltb 0 c.ticks_to_sleep
    then record c {
      ticks_to_sleep = c.ticks_to_sleep - 1;
      state = if c.ticks_to_sleep - 1 == 0 then ready else c.state;
    }
    else c

-- The loop from `ctr` on, `n` steps.
unfoldable pub sleep_account : (n ctr : ℕ) → Contexts → Contexts
sleep_account zero ctr ctxs = ctxs
sleep_account (suc n) ctr ctxs =
    sleep_account n (ctr + 1) (update_ctx ctxs ctr (sleep_tick (ctxs ctr)))

-- What the interrupt reads and changes: the contexts, the frame of registers on the interrupt's
-- stack, the pid of the current context, that of the context whose stack is in the TSS, CR3, and the
-- two counters of `stats`.
pub record Kernel : Type 0 where
  pub ctxs : Contexts
  pub regs : UserRegs
  pub current : ℕ
  pub tss : ℕ
  pub cr3 : ℕ
  pub ticks : ℕ
  pub context_switches : ℕ

abbrev pub with_state : Contexts → ℕ → State → Contexts
with_state ctxs i s = update_ctx ctxs i (record (ctxs i) { state = s })

-- the change to another process
abbrev pub switched : Kernel → (old new : ℕ) → Kernel
switched k old new =
    let saved = update_ctx k.ctxs old (record (k.ctxs old) { regs = k.regs }) in
    record k {
      ctxs = with_state saved new running;
      regs = (saved new).regs;
      current = new;
      tss = new;
      cr3 = if (saved old).pgd == (saved new).pgd then k.cr3 else (saved new).pgd * 2 ^ 12;
      context_switches = (k.context_switches + 1) % 2 ^ 64;
    }

-- `schedule`. The frame of registers is then the one that return_from_os restores.
unfoldable pub schedule : Kernel → (new : ℕ) → Kernel
schedule k new = record k {
  ctxs = with_state k.ctxs new running;
  regs = (k.ctxs new).regs;
  current = new;
  tss = new;
  cr3 = (k.ctxs new).pgd * 2 ^ 12;
}

-- `invoke_sync_signal(SIGALRM, …)`, which is not in the repository, is a parameter.
module _ (invoke_sync_signal : Kernel → Kernel) where
  unfoldable pub do_sleep_and_alarm_account : Kernel → Kernel
  do_sleep_and_alarm_account k =
      let ctxs = sleep_account max_processes 0 k.ctxs in
      let c = ctxs k.current in
      let counted = record k {
        ctxs = update_ctx ctxs k.current (record c { ticks_to_alarm = c.ticks_to_alarm - 1 });
      } in
      let raised = invoke_sync_signal counted in
      if c.ticks_to_alarm == 0
      then record k { ctxs = ctxs }
      else if c.ticks_to_alarm - 1 == 0
      then record raised {
        ctxs = update_ctx raised.ctxs k.current (record (raised.ctxs k.current) {
          ticks_to_alarm = (raised.ctxs k.current).alarm_config_time;
        });
      }
      else counted

  unfoldable pub handle_timer_tick : Kernel → Option Kernel
  handle_timer_tick k =
      let a = do_sleep_and_alarm_account k in
      let t = record a {
        ticks = (a.ticks + 1) % 2 ^ 64;
        ctxs = with_state a.ctxs k.current ready;
      } in
      elim (pick_next_context t.ctxs k.current) [
        | none ↦ none
        | some new ↦ some (if new == k.current then t else switched t k.current new)
      ]
