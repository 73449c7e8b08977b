-- ===== src/Debug.antt =====
-- Assignment-3/Submission/src/debug.c: the breakpoints of the gemOS debugger. The linked list of
-- `breakpoint_info` nodes is a list; `memory` is the memory of the debugged program, of which the
-- code writes single bytes. Whether `os_alloc` finds memory is an argument.
pub mod Invariant
pub mod Flags
pub mod Set
pub mod Erase
pub mod Remove
pub mod Info
pub mod History
pub mod Tests
use building_gem_os_cs.Base.{
  ℕ, suc, ◌+◌, ◌-◌, ◌%◌, ◌^◌, Bool, true, false, ◌&&◌, ◌||◌, Option, none, some, List, [], ◌∷◌,
  ◌++◌, ◌==◌, if◌then◌else◌, length, take, replicate,
}
use building_gem_os_cs.Base.Memory.{Memory, update}

abbrev pub max_backtrace : ℕ
max_backtrace = 64

abbrev pub max_breakpoints : ℕ
max_breakpoints = 8

abbrev pub int3_opcode : ℕ
int3_opcode = 0xCC

abbrev pub pushrbp_opcode : ℕ
pushrbp_opcode = 0x55

-- `struct breakpoint_info`
pub record Breakpoint : Type 0 where
  pub num : ℕ
  pub addr : ℕ
  pub end_breakpoint_enable : ℕ

pub record StackElement : Type 0 where
  pub start_addr : ℕ
  pub return_addr : ℕ

-- `struct debug_info`, less `pid`, `nxt_instr`, `debugee_regs` and `rdx_change`, which the operations
-- on breakpoints do not touch. `stack` holds the first `stack_count` elements.
pub record DebugInfo : Type 0 where
  pub breakpoint_count : ℕ
  pub head : List Breakpoint
  pub end_handler : ℕ
  pub last_num : ℕ
  pub backtrace : List ℕ
  pub stack : List StackElement

-- An `int` result of the handlers: 0, or -1.
pub data Status : Type 0 where
  success failure : Status

pub record Outcome : Type 0 where
  pub status : Status
  pub dbg : DebugInfo
  pub memory : Memory

abbrev pub outcome : Status → DebugInfo → Memory → Outcome
outcome s d m = record { status = s; dbg = d; memory = m }

-- `do_become_debugger` with `addr` as its end handler; `none` if `os_alloc` fails. A NULL handler
-- is not written to.
unfoldable pub do_become_debugger :
    Memory → (addr : ℕ) → (allocated : Bool) → Option (DebugInfo × Memory)
do_become_debugger m addr allocated =
    let dbg : DebugInfo = record {
      breakpoint_count = 0;
      head = [];
      end_handler = addr;
      last_num = 0;
      backtrace = replicate max_backtrace 0;
      stack = [];
    } in
    if allocated then some (dbg, if addr == 0 then m else update m addr int3_opcode) else none

-- `for (i = 0; i < stack_count; i++) if (stack[i].start_addr == addr) on_stack = 1;`
abbrev pub on_stack : ℕ → List StackElement → Bool
on_stack addr [] = false
on_stack addr (e ∷ es) = e.start_addr == addr || on_stack addr es

-- What the walk of `do_set_breakpoint` along the list comes to: no node has the address, or the
-- change of its flag is refused, or the list with the changed flag, and whether the first byte of
-- the function is put back.
pub data Walk : Type 0 where
  not_found : Walk
  refused : Walk
  changed : (restore : Bool) → List Breakpoint → Walk

abbrev pub behind : Breakpoint → Walk → Walk
behind b not_found = not_found
behind b refused = refused
behind b (changed r bs) = changed r (b ∷ bs)

unfoldable pub change_flag : (addr : ℕ) → (stacked : Bool) → (flag : ℕ) → List Breakpoint → Walk
change_flag addr stacked flag [] = not_found
change_flag addr stacked flag (b ∷ bs) =
    if b.addr == addr
    then if stacked && (b.end_breakpoint_enable == 1 && flag == 0)
      then refused
      else if stacked && (b.end_breakpoint_enable == 0 && flag == 1)
      then changed true (record b { end_breakpoint_enable = flag } ∷ bs)
      else changed false (record b { end_breakpoint_enable = flag } ∷ bs)
    else behind b (change_flag addr stacked flag bs)

-- The node that `do_set_breakpoint` makes. `last_num` is a `u32`.
abbrev pub next_num : DebugInfo → ℕ
next_num d = (d.last_num + 1) % 2 ^ 32

abbrev pub with_new : DebugInfo → (addr flag : ℕ) → DebugInfo
with_new d addr flag = record d {
  head = d.head ++ record { num = next_num d; addr = addr; end_breakpoint_enable = flag } ∷ [];
  last_num = next_num d;
  breakpoint_count = (d.breakpoint_count + 1) % 2 ^ 32;
}

unfoldable pub do_set_breakpoint :
    DebugInfo → Memory → (addr flag : ℕ) → (allocated : Bool) → Outcome
do_set_breakpoint d m addr flag allocated =
    let armed = update m addr int3_opcode in
    elim d.head [
      | [] ↦
          if allocated
          then outcome success (with_new d addr flag) armed
          else outcome failure d armed
      | b ∷ bs ↦ elim (change_flag addr (on_stack addr d.stack) flag d.head) [
        | refused ↦ outcome failure d armed
        | changed restore list ↦
            outcome success (record d { head = list })
              (if restore then update armed addr pushrbp_opcode else armed)
        | not_found ↦
            if d.breakpoint_count == max_breakpoints
            then outcome failure d armed
            else if allocated
            then outcome success (with_new d addr flag) armed
            else outcome failure d armed
      ]
    ]

-- What the walk of `do_remove_breakpoint` behind a node comes to.
pub data Cut : Type 0 where
  absent : Cut
  kept : Cut
  cut : List Breakpoint → Cut

abbrev pub behind_cut : Breakpoint → Cut → Cut
behind_cut b absent = absent
behind_cut b kept = kept
behind_cut b (cut bs) = cut (b ∷ bs)

-- The nodes behind `bp`. The flag that is looked at is that of `bp`, not that of the node to go.
unfoldable pub cut_behind :
    (addr : ℕ) → (stacked : Bool) → (bp : Breakpoint) → List Breakpoint → Cut
cut_behind addr stacked bp [] = absent
cut_behind addr stacked bp (b ∷ bs) =
    if b.addr == addr
    then if bp.end_breakpoint_enable == 1 && stacked then kept else cut (bp ∷ bs)
    else behind_cut bp (cut_behind addr stacked b bs)

abbrev pub removed : DebugInfo → Memory → (addr : ℕ) → List Breakpoint → Outcome
removed d m addr list =
    outcome success
      (record d { head = list; breakpoint_count = (d.breakpoint_count + 2 ^ 32 - 1) % 2 ^ 32 })
      (update m addr pushrbp_opcode)

-- `none` is a fault: with no breakpoint set the code reads through NULL.
unfoldable pub do_remove_breakpoint : DebugInfo → Memory → (addr : ℕ) → Option Outcome
do_remove_breakpoint d m addr =
    let stacked = on_stack addr d.stack in
    elim d.head [
      | [] ↦ none
      | b ∷ bs ↦
          if b.addr == addr
          then some (
              if b.end_breakpoint_enable == 1 && stacked
              then outcome failure d m
              else removed d m addr bs)
          else elim (cut_behind addr stacked b bs) [
            | absent ↦ some (outcome failure d m)
            | kept ↦ some (outcome failure d m)
            | cut list ↦ some (removed d m addr list)
          ]
    ]

-- The array of `struct breakpoint` that user space passes.
abbrev pub UserArray : Type 0
UserArray = ℕ → Breakpoint

abbrev pub put : UserArray → ℕ → Breakpoint → UserArray
put ubp i b j = if j == i then b else ubp j

unfoldable pub copy_breakpoints : List Breakpoint → (i : ℕ) → UserArray → ℕ × UserArray
copy_breakpoints [] i ubp = (i, ubp)
copy_breakpoints (b ∷ bs) i ubp = copy_breakpoints bs (i + 1) (put ubp i b)

unfoldable pub do_info_breakpoints : DebugInfo → UserArray → ℕ × UserArray
do_info_breakpoints d ubp = copy_breakpoints d.head 0 ubp
