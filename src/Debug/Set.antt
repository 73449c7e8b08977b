-- ===== src/Debug/Set.antt =====
-- do_set_breakpoint of debug.c.
use building_gem_os_cs.Base.{
  ℕ, ◌+◌, ◌^◌, ◌≤◌, ◌<◌, ◌≡◌, refl, sym, ap, ◌∙◌, inl, inr, Bool, true, false, not, ◌&&◌, Option,
  none, some, List, [], ◌∷◌, ◌==◌, if◌then◌else◌, arith, length-append, Bool-cases,
}
use building_gem_os_cs.Base.Memory.{Memory, update}
use building_gem_os_cs.Debug.{
  Breakpoint, DebugInfo, success, failure, Outcome, outcome, on_stack, Walk, not_found, refused,
  changed, next_num, with_new, do_set_breakpoint, int3_opcode, pushrbp_opcode, max_breakpoints,
}
use building_gem_os_cs.Debug.Invariant.{IsValid, Rises-append, IsDistinct-append}
use building_gem_os_cs.Debug.Flags.{
  flag_at, retag, flag_at-Lacks, flag_at-append, flag_at-retag, length-retag, Rises-retag,
  IsDistinct-retag, walk_at, change_flag_lem,
}

-- The call, described by the flag that the list has at the address.
pub set_at : DebugInfo → Memory → (addr flag : ℕ) → (allocated : Bool) → Option ℕ → Outcome
set_at d m addr flag allocated none =
    if not (d.breakpoint_count == max_breakpoints) && allocated
    then outcome success (with_new d addr flag) (update m addr int3_opcode)
    else outcome failure d (update m addr int3_opcode)
set_at d m addr flag allocated (some e) =
    if on_stack addr d.stack && (e == 1 && flag == 0)
    then outcome failure d (update m addr int3_opcode)
    else outcome success (record d { head = retag addr flag d.head })
        (if on_stack addr d.stack && (e == 0 && flag == 1)
          then update (update m addr int3_opcode) addr pushrbp_opcode
          else update m addr int3_opcode)

module _ (d : DebugInfo) (m : Memory) (addr flag : ℕ) (allocated : Bool) where
  -- What the call does behind the walk.
  resume : Walk → Outcome
  resume w = elim w [
    | refused ↦ outcome failure d (update m addr int3_opcode)
    | changed restore list ↦
        outcome success (record d { head = list })
          (if restore
            then update (update m addr int3_opcode) addr pushrbp_opcode
            else update m addr int3_opcode)
    | not_found ↦
        if d.breakpoint_count == max_breakpoints
        then outcome failure d (update m addr int3_opcode)
        else if allocated
        then outcome success (with_new d addr flag) (update m addr int3_opcode)
        else outcome failure d (update m addr int3_opcode)
  ]

  resume-walk_at :
      (o : Option ℕ)
      → resume (walk_at addr (on_stack addr d.stack) flag d.head o)
        ≡ set_at d m addr flag allocated o
  unfolding resume walk_at set_at
  resume-walk_at none = ground arith
  resume-walk_at (some e) = elim (Bool-cases (on_stack addr d.stack && (e == 1 && flag == 0))) [
    | inl t ↦ rw t
    | inr f ↦ rw f
  ]

module _ (d : DebugInfo) (m : Memory) (addr flag : ℕ) (allocated : Bool) where
  set_list :
      (bs : List Breakpoint)
      → IsValid (record d { head = bs })
      → do_set_breakpoint (record d { head = bs }) m addr flag allocated
        ≡ set_at (record d { head = bs }) m addr flag allocated (flag_at addr bs)
  unfolding do_set_breakpoint set_at resume
  set_list [] v = ground arith
  set_list (b ∷ bs) v =
      ap (resume (record d { head = b ∷ bs }) m addr flag allocated)
        (change_flag_lem addr (on_stack addr d.stack) flag (b ∷ bs))
      ∙ resume-walk_at (record d { head = b ∷ bs }) m addr flag allocated (flag_at addr (b ∷ bs))

  pub do_set_breakpoint_lem :
      IsValid d
      → do_set_breakpoint d m addr flag allocated
        ≡ set_at d m addr flag allocated (flag_at addr d.head)
  do_set_breakpoint_lem v = set_list d.head v

-- The list after a call, described by the flag that it had at the address.
set_at-IsValid :
    (d : DebugInfo) (m : Memory) (addr flag : ℕ) (allocated : Bool) (o : Option ℕ)
    → IsValid d
    → d.last_num + 1 < 2 ^ 32
    → flag_at addr d.head ≡ o
    → IsValid (set_at d m addr flag allocated o).dbg
unfolding set_at
set_at-IsValid d m addr flag allocated none v small e =
    let b : Breakpoint = record { num = next_num d; addr = addr; end_breakpoint_enable = flag } in
    let full = d.breakpoint_count == max_breakpoints in
    elim (Bool-cases (not full && allocated)) [
      | inl t ↦ rw t (record {
        count = omega (arith, length-append d.head (b ∷ []), v.count, v.few);
        few = ground (arith, v.few);
        numbers = Rises-append 0 d.last_num d.head b v.numbers (omega arith);
        distinct = IsDistinct-append d.head b v.distinct (flag_at-Lacks addr d.head e);
      })
      | inr f ↦ rw f v
    ]
set_at-IsValid d m addr flag allocated (some e) v small h =
    elim (Bool-cases (on_stack addr d.stack && (e == 1 && flag == 0))) [
      | inl t ↦ rw t v
      | inr f ↦ rw f (record {
        count = v.count ∙ sym (length-retag addr flag d.head);
        few = v.few;
        numbers = Rises-retag addr flag 0 d.last_num d.head v.numbers;
        distinct = IsDistinct-retag addr flag d.head v.distinct;
      })
    ]

-- Until the last number is used up, a call keeps the list well formed: at most MAX_BREAKPOINTS
-- nodes, counted rightly, with rising numbers and distinct addresses.
pub do_set_breakpoint-IsValid :
    (d : DebugInfo) (m : Memory) (addr flag : ℕ) (allocated : Bool)
    → IsValid d
    → d.last_num + 1 < 2 ^ 32
    → IsValid (do_set_breakpoint d m addr flag allocated).dbg
do_set_breakpoint-IsValid d m addr flag allocated v small =
    rw (do_set_breakpoint_lem d m addr flag allocated v)
      (set_at-IsValid d m addr flag allocated (flag_at addr d.head) v small refl)

-- Why a call fails: the function is on the stack with its end breakpoint set, and the call would
-- take that away; or a node is wanted, and the list is full or no memory is found.
pub data Fails (d : DebugInfo) (addr flag : ℕ) (allocated : Bool) : Type 0 where
  on_the_stack :
      flag_at addr d.head ≡ some 1
      → on_stack addr d.stack ≡ true
      → flag ≡ 0
      → Fails d addr flag allocated
  full :
      flag_at addr d.head ≡ none
      → d.breakpoint_count ≡ max_breakpoints
      → Fails d addr flag allocated
  no_memory : flag_at addr d.head ≡ none → allocated ≡ false → Fails d addr flag allocated

-- What a call does to the breakpoints, as a map from addresses to flags.
pub data Sets (d : DebugInfo) (m : Memory) (addr flag : ℕ) (allocated : Bool) (r : Outcome)
    : Type 0 where
  done :
      r.status ≡ success
      → ((x : ℕ) → flag_at x r.dbg.head ≡ (if x == addr then some flag else flag_at x d.head))
      → Sets d m addr flag allocated r
  failed :
      r ≡ outcome failure d (update m addr int3_opcode)
      → Fails d addr flag allocated
      → Sets d m addr flag allocated r

set_at-Sets :
    (d : DebugInfo) (m : Memory) (addr flag : ℕ) (allocated : Bool) (o : Option ℕ)
    → flag_at addr d.head ≡ o
    → Sets d m addr flag allocated (set_at d m addr flag allocated o)
unfolding set_at
set_at-Sets d m addr flag allocated none e =
    let b : Breakpoint = record { num = next_num d; addr = addr; end_breakpoint_enable = flag } in
    elim (Bool-cases (d.breakpoint_count == max_breakpoints)) [
      | inl t ↦ rw t (failed refl (full e (ground arith)))
      | inr f ↦ elim (Bool-cases allocated) [
        | inl a ↦ rw (f, a) (done refl (λ x. flag_at-append x d.head b e))
        | inr n ↦ rw (f, n) (failed refl (no_memory e refl))
      ]
    ]
set_at-Sets d m addr flag allocated (some e) h =
    elim (Bool-cases (on_stack addr d.stack && (e == 1 && flag == 0))) [
      | inl t ↦ rw t (failed refl (on_the_stack (ground arith) (ground arith) (ground arith)))
      | inr f ↦ rw f (done refl (λ x. flag_at-retag x addr flag e d.head h))
    ]

-- A call that succeeds makes the flag the one at the address and leaves those at every other
-- address; a call that fails leaves the list, for one of three reasons, but has put INT3 into the
-- first byte of the function.
pub do_set_breakpoint-Sets :
    (d : DebugInfo) (m : Memory) (addr flag : ℕ) (allocated : Bool)
    → IsValid d
    → Sets d m addr flag allocated (do_set_breakpoint d m addr flag allocated)
do_set_breakpoint-Sets d m addr flag allocated v =
    rw (do_set_breakpoint_lem d m addr flag allocated v)
      (set_at-Sets d m addr flag allocated (flag_at addr d.head) refl)

pub last_num-do_set_breakpoint :
    (d : DebugInfo) (m : Memory) (addr flag : ℕ) (allocated : Bool)
    → IsValid d
    → (do_set_breakpoint d m addr flag allocated).dbg.last_num ≤ d.last_num + 1
unfolding set_at
last_num-do_set_breakpoint d m addr flag allocated v =
    rw (do_set_breakpoint_lem d m addr flag allocated v) (bound (flag_at addr d.head))
  where
    bound : (o : Option ℕ) → (set_at d m addr flag allocated o).dbg.last_num ≤ d.last_num + 1
    bound none = ground arith
    bound (some e) = ground arith
