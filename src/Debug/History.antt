-- ===== src/Debug/History.antt =====
-- Any history of calls on the breakpoints of debug.c, from `do_become_debugger` on.
use building_gem_os_cs.Base.{ℕ, suc, ◌+◌, ◌^◌, ◌≤◌, ◌<◌, ◌≡◌, Bool, true, some, List, arith}
use building_gem_os_cs.Base.Memory.{Memory}
use building_gem_os_cs.Debug.{
  DebugInfo, Outcome, StackElement, do_become_debugger, do_set_breakpoint, do_remove_breakpoint,
}
use building_gem_os_cs.Debug.Invariant.{IsValid}
use building_gem_os_cs.Debug.Set.{do_set_breakpoint-IsValid, last_num-do_set_breakpoint}
use building_gem_os_cs.Debug.Remove.{do_remove_breakpoint-IsValid}

-- A debugger is started, and then sets and removes breakpoints; `n` counts the attempts to set one.
-- The functions on the stack of the debugged program, of which the breakpoint handler keeps the list,
-- may be any at each call.
pub data Reached : ℕ → DebugInfo → Memory → Type 0 where
  started :
      (m : Memory) (addr : ℕ) {d : DebugInfo} {m' : Memory}
      → do_become_debugger m addr true ≡ some (d, m')
      → Reached 0 d m'
  sets :
      {n : ℕ} {d : DebugInfo} {m : Memory} (addr flag : ℕ) (allocated : Bool)
      → Reached n d m
      → Reached
          (suc n)
          (do_set_breakpoint d m addr flag allocated).dbg
          (do_set_breakpoint d m addr flag allocated).memory
  removes :
      {n : ℕ} {d : DebugInfo} {m : Memory} (addr : ℕ) {r : Outcome}
      → Reached n d m
      → do_remove_breakpoint d m addr ≡ some r
      → Reached n r.dbg r.memory
  runs :
      {n : ℕ} {d : DebugInfo} {m : Memory} (stack : List StackElement)
      → Reached n d m
      → Reached n (record d { stack = stack }) m

step_bound :
    (d : DebugInfo) {n : ℕ}
    → IsValid d × (d.last_num ≤ n)
    → suc n < 2 ^ 32
    → d.last_num + 1 < 2 ^ 32
step_bound d h s = omega (arith, h.1)

-- After any calls, fewer than 2^32 of which try to set a breakpoint, the list is well formed: at most
-- MAX_BREAKPOINTS breakpoints, counted rightly, with rising numbers and distinct addresses; and no
-- more numbers are used than breakpoints were asked for.
pub Reached-IsValid :
    {n : ℕ} {d : DebugInfo} {m : Memory} → Reached n d m → n < 2 ^ 32 → IsValid d × (d.last_num ≤ n)
unfolding do_become_debugger
Reached-IsValid (started m addr e) s = ground arith
Reached-IsValid (sets {d = d} {m = m} addr flag allocated r) s =
    let h = Reached-IsValid r (omega arith) in
    (
      do_set_breakpoint-IsValid d m addr flag allocated h.0 (step_bound d h s),
      omega (arith, last_num-do_set_breakpoint d m addr flag allocated h.0, h.1),
    )
Reached-IsValid (removes {d = d} {m = m} addr r e) s =
    let h = Reached-IsValid r s in
    let v = do_remove_breakpoint-IsValid d m addr h.0 e in (v.0, omega (arith, v.1, h.1))
Reached-IsValid (runs stack r) s =
    let h = Reached-IsValid r s in
    (
      record { count = h.0.count; few = h.0.few; numbers = h.0.numbers; distinct = h.0.distinct },
      h.1,
    )
