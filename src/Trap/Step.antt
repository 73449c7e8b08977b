-- ===== src/Trap/Step.antt =====
-- The two INT3 that a breakpoint of debug.c takes: the one in the first byte of the function, and the
-- one behind it that puts the first back.
use building_gem_os_cs.Base.{
  ℕ, ◌+◌, ◌-◌, ◌≡◌, ◌≢◌, refl, subst, inl, inr, Option, none, some, List, [], ◌∷◌, ◌++◌, ◌==◌,
  length, Bool-cases,
}
use building_gem_os_cs.Base.Memory.{Memory}
use building_gem_os_cs.Machine.{ready, waiting}
use building_gem_os_cs.Debug.{Breakpoint, StackElement, max_backtrace, pushrbp_opcode}
use building_gem_os_cs.Trap.{
  minus, load, Session, Trapped, no_debugger, to_debugger, to_debugee, fault, lost, find_breakpoint,
  walk_frames, unwind, reversed, at_breakpoint, at_end_handler, int3_handler, element_of, entered,
  enter, leave, handle, fill_debugee_regs,
}

-- What holds each time the handler hands over to the debugger.
pub record Stopped (s t : Session) : Type 0 where
  pub nxt_instr : t.nxt_instr ≡ s.memory s.regs.entry_rip
  pub rip : t.regs.entry_rip ≡ minus s.regs.entry_rip 1
  pub rax : t.debugger_rax ≡ minus s.regs.entry_rip 1
  pub shown : t.debugee_regs.entry_rip ≡ minus s.regs.entry_rip 1
  pub states : (t.debugger_state ≡ ready) × (t.debugee_state ≡ waiting)

abbrev Stops : Session → Trapped → Type 0
Stops s (to_debugger t) = Stopped s t
Stops s no_debugger = Unit
Stops s (to_debugee t) = Unit
Stops s fault = Unit
Stops s lost = Unit

entered-Stopped :
    (s : Session) (b : Breakpoint) (addrs : List ℕ) (stack : List StackElement)
    → Stopped s (entered s b addrs stack)
unfolding fill_debugee_regs
entered-Stopped s b addrs stack = elim (Bool-cases (b.end_breakpoint_enable == 1)) [
  | inl e ↦
      rw e
        (record { nxt_instr = refl; rip = refl; rax = refl; shown = refl; states = (refl, refl) })
  | inr e ↦
      rw e
        (record { nxt_instr = refl; rip = refl; rax = refl; shown = refl; states = (refl, refl) })
]

enter-Stops : (s : Session) (b : Breakpoint) (o : Option (List ℕ)) → Stops s (enter s b o)
enter-Stops s b none = tt
enter-Stops s b (some []) = entered-Stopped s b [] (element_of s ∷ [])
enter-Stops s b (some (a ∷ addrs)) = elim (Bool-cases (length s.dbg.stack == max_backtrace)) [
  | inl e ↦ rw e tt
  | inr e ↦ rw e (entered-Stopped s b (a ∷ addrs) (s.dbg.stack ++ element_of s ∷ []))
]

leave-Stops : (s : Session) (o : Option (List ℕ)) (count : Option ℕ) → Stops s (leave s o count)
unfolding fill_debugee_regs
leave-Stops s none count = tt
leave-Stops s (some addrs) none = tt
leave-Stops s (some addrs) (some n) = record {
  nxt_instr = refl;
  rip = refl;
  rax = refl;
  shown = refl;
  states = (refl, refl);
}

handle-Stops : (s : Session) (o : Option Breakpoint) → Stops s (handle s o)
unfolding at_breakpoint at_end_handler
handle-Stops s o = elim (Bool-cases (s.memory (minus s.regs.entry_rip 2) == pushrbp_opcode)) [
  | inl e ↦ rw e tt
  | inr e ↦ rw e (by_breakpoint o)
]
  where
    by_breakpoint :
        (o : Option Breakpoint)
        → Stops s (elim o [ none ↦ at_end_handler s | some b ↦ at_breakpoint s b ])
    by_breakpoint none =
        leave-Stops s (walk_frames (max_backtrace - 1) s.memory s.dbg.end_handler s.regs.rbp)
          (unwind (load 8 s.memory s.regs.entry_rsp) (reversed s.dbg.stack))
    by_breakpoint (some b) =
        enter-Stops s b (walk_frames (max_backtrace - 2) s.memory s.dbg.end_handler s.regs.rbp)

pub int3_handler-Stopped : (s t : Session) → int3_handler (some s) ≡ to_debugger t → Stopped s t
unfolding int3_handler
int3_handler-Stopped s t e =
    subst (Stops s) e (handle-Stops s (find_breakpoint (minus s.regs.entry_rip 1) s.dbg.head))

-- The memory once the two bytes are put back: the two at `a` and `a + 1` are as given.
pub record Restored (a first second : ℕ) (m m' : Memory) : Type 0 where
  pub first_byte : m' a ≡ first
  pub second_byte : m' (a + 1) ≡ second
  pub rest : (b : ℕ) → b ≢ a → b ≢ a + 1 → m' b ≡ m b
