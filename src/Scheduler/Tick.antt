-- ===== src/Scheduler/Tick.antt =====
-- The timer interrupt of schedule.c: the accounting of sleep, and the change of process.
use building_gem_os_cs.Base.{
  ℕ, zero, suc, ◌+◌, ◌-◌, ◌*◌, ◌%◌, ◌^◌, ◌≤◌, ◌<◌, ◌≡◌, ◌≢◌, refl, sym, ap, ◌∙◌, arith, ℕ_discrete,
}
use building_gem_os_cs.Machine.{Contexts, ExecContext, ready, running, waiting, max_processes}
use building_gem_os_cs.Scheduler.{
  sleep_tick, sleep_account, update_ctx, Kernel, do_sleep_and_alarm_account, with_state,
}

update_ctx_self : (ctxs : Contexts) (i : ℕ) (c : ExecContext) → update_ctx ctxs i c i ≡ c
update_ctx_self ctxs i c = ground arith

update_ctx_ne :
    (ctxs : Contexts) (i k : ℕ) (c : ExecContext) → k ≢ i → update_ctx ctxs i c k ≡ ctxs k
update_ctx_ne ctxs i k c ne = ground arith

sleep_account_below :
    (n ctr : ℕ) (ctxs : Contexts) (i : ℕ) → i < ctr → sleep_account n ctr ctxs i ≡ ctxs i
unfolding sleep_account
sleep_account_below zero ctr ctxs i l = refl
sleep_account_below (suc n) ctr ctxs i l =
    sleep_account_below n (ctr + 1) (update_ctx ctxs ctr (sleep_tick (ctxs ctr))) i (omega arith)
    ∙ update_ctx_ne ctxs ctr i (sleep_tick (ctxs ctr)) (omega arith)

-- The loop gives its tick to each context that it passes.
sleep_account_lem :
    (n ctr : ℕ) (ctxs : Contexts) (i : ℕ)
    → ctr ≤ i
    → i < ctr + n
    → sleep_account n ctr ctxs i ≡ sleep_tick (ctxs i)
unfolding sleep_account
sleep_account_lem zero ctr ctxs i l u = absurd (omega arith)
sleep_account_lem (suc n) ctr ctxs i l u =
    let c = sleep_tick (ctxs ctr) in
    let rest = λ (ne : ctr ≢ i).
      sleep_account_lem n (ctr + 1) (update_ctx ctxs ctr c) i (omega arith) (omega arith) in
    elim (ℕ_discrete ctr i) [
      | yes e ↦
          sleep_account_below n (ctr + 1) (update_ctx ctxs ctr c) i (omega arith)
          ∙ rw e (update_ctx_self ctxs i (sleep_tick (ctxs i)))
      | no ne ↦ rest ne ∙ ap sleep_tick (update_ctx_ne ctxs ctr i c (λ e. ne (sym e)))
    ]

-- A process that sleeps for `n + 1` ticks.
abbrev pub sleeping : ExecContext → ℕ → ExecContext
sleeping c n = record c { state = waiting; ticks_to_sleep = n + 1 }

-- `n` ticks of the clock
abbrev pub ticks : ℕ → Contexts → Contexts
ticks zero ctxs = ctxs
ticks (suc n) ctxs = ticks n (sleep_account max_processes 0 ctxs)

module _ (c : ExecContext) where
  sleep_tick_more : (n : ℕ) → sleep_tick (sleeping c (suc n)) ≡ sleeping c n
  sleep_tick_more n = let e : suc n + 1 - 1 ≡ n + 1 = omega arith in ground arith

  sleep_tick_last : sleep_tick (sleeping c 0) ≡ record c { state = ready; ticks_to_sleep = 0 }
  sleep_tick_last = refl

  account_at :
      (ctxs : Contexts) (i : ℕ) (d : ExecContext)
      → i < max_processes
      → ctxs i ≡ d
      → sleep_account max_processes 0 ctxs i ≡ sleep_tick d
  account_at ctxs i d l e =
      sleep_account_lem max_processes 0 ctxs i (omega arith) (omega arith) ∙ ap sleep_tick e

  sleeps :
      (n k : ℕ) (ctxs : Contexts) (i : ℕ)
      → i < max_processes
      → ctxs i ≡ sleeping c n
      → k ≤ n
      → ticks k ctxs i ≡ sleeping c (n - k)
  sleeps n zero ctxs i l e m = e ∙ ap (sleeping c) (omega arith)
  sleeps zero (suc k) ctxs i l e m = absurd (omega arith)
  sleeps (suc n) (suc k) ctxs i l e m =
      sleeps n k (sleep_account max_processes 0 ctxs) i l
        (account_at ctxs i (sleeping c (suc n)) l e ∙ sleep_tick_more n) (omega arith)
      ∙ ap (sleeping c) (omega arith)

  wakes :
      (n : ℕ) (ctxs : Contexts) (i : ℕ)
      → i < max_processes
      → ctxs i ≡ sleeping c n
      → ticks (suc n) ctxs i ≡ record c { state = ready; ticks_to_sleep = 0 }
  wakes zero ctxs i l e = account_at ctxs i (sleeping c 0) l e ∙ sleep_tick_last
  wakes (suc n) ctxs i l e =
      wakes n (sleep_account max_processes 0 ctxs) i l
        (account_at ctxs i (sleeping c (suc n)) l e ∙ sleep_tick_more n)

-- A process that sleeps for some number of ticks stays WAITING, its count going down by one at each,
-- up to the last of them, at which it is READY with the count 0.
pub sleep_account_wakes :
    (ctxs : Contexts) (c : ExecContext) (i n : ℕ)
    → i < max_processes
    → ctxs i ≡ sleeping c n
    → ((k : ℕ) → k ≤ n → ticks k ctxs i ≡ sleeping c (n - k))
      × (ticks (suc n) ctxs i ≡ record c { state = ready; ticks_to_sleep = 0 })
sleep_account_wakes ctxs c i n l e = ((λ k m. sleeps c n k ctxs i l e m), wakes c n ctxs i l e)

-- What the interrupt comes to behind the accounting, for the process `own` that was interrupted, of
-- the kernel state `a` that the accounting leaves: `own` goes on, or the process `new` does.
pub data Ticks (a : Kernel) (own : ℕ) : (new : ℕ) → Kernel → Type 0 where
  stays :
      {r : Kernel} {new : ℕ}
      → new ≡ own
      → r ≡ record a { ticks = (a.ticks + 1) % 2 ^ 64; ctxs = with_state a.ctxs own ready }
      → Ticks a own new r
  switches :
      {r : Kernel} {new : ℕ}
      → new ≢ own
      → r.ctxs own ≡ record (a.ctxs own) { state = ready; regs = a.regs }
      → r.ctxs new ≡ record (a.ctxs new) { state = running }
      → ((i : ℕ) → i ≢ own → i ≢ new → r.ctxs i ≡ a.ctxs i)
      → r.regs ≡ (a.ctxs new).regs
      → (r.current ≡ new) × (r.tss ≡ new)
      → r.cr3 ≡ (a.ctxs new).pgd * 2 ^ 12
      → (r.ticks ≡ (a.ticks + 1) % 2 ^ 64)
        × (r.context_switches ≡ (a.context_switches + 1) % 2 ^ 64)
      → Ticks a own new r

module _ (a : Kernel) (own new : ℕ) (ne : new ≢ own) where
  abbrev ticked : Kernel
  ticked = record a { ticks = (a.ticks + 1) % 2 ^ 64; ctxs = with_state a.ctxs own ready }

  abbrev preempted : ExecContext
  preempted = record (a.ctxs own) { state = ready; regs = a.regs }

  abbrev saved : Contexts
  saved = update_ctx ticked.ctxs own (record (ticked.ctxs own) { regs = a.regs })

  abbrev next : ExecContext
  next = record (saved new) { state = running }

module _ (invoke_sync_signal : Kernel → Kernel) where
  abbrev accounted : Kernel → Kernel
  accounted k = do_sleep_and_alarm_account invoke_sync_signal k
