-- ===== src/Machine.antt =====
-- The registers and contexts of Assignment-3/src/include/context.h, and the states of schedule.h.
use building_gem_os_cs.Base.{ℕ}

pub record UserRegs : Type 0 where
  pub r15 : ℕ
  pub r14 : ℕ
  pub r13 : ℕ
  pub r12 : ℕ
  pub r11 : ℕ
  pub r10 : ℕ
  pub r9 : ℕ
  pub r8 : ℕ
  pub rbp : ℕ
  pub rdi : ℕ
  pub rsi : ℕ
  pub rdx : ℕ
  pub rcx : ℕ
  pub rbx : ℕ
  pub rax : ℕ
  pub entry_rip : ℕ
  pub entry_cs : ℕ
  pub entry_rflags : ℕ
  pub entry_rsp : ℕ
  pub entry_ss : ℕ

pub data State : Type 0 where
  unused new ready running waiting exiting : State

-- `struct exec_context`, less what the scheduler does not touch.
pub record ExecContext : Type 0 where
  pub state : State
  pub pgd : ℕ
  pub regs : UserRegs
  pub ticks_to_sleep : ℕ
  pub alarm_config_time : ℕ
  pub ticks_to_alarm : ℕ

abbrev pub max_processes : ℕ
max_processes = 7

-- The contexts, by pid: what `get_ctx_by_pid` points to.
abbrev pub Contexts : Type 0
Contexts = ℕ → ExecContext
