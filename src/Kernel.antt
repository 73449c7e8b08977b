-- ===== src/Kernel.antt =====
-- What the handlers of Assignment_2 share: error codes (gemOS/src/include/entry.h), file modes and
-- file objects (file.h), and the parts of an execution context (context.h) that they read.
use building_gem_os_cs.Base.{ℕ, ◌-◌, ◌^◌, List}

-- the errors that a handler returns negated
pub data Errno : Type 0 where
  einval eagain ebusy eacces enomem ebadmem eothers : Errno

-- an `int` result: a count or a status, or a negated error code
pub data Reply : Type 0 where
  ok : ℕ → Reply
  err : Errno → Reply

abbrev pub o_read : ℕ
o_read = 0x1

abbrev pub o_write : ℕ
o_write = 0x2

-- `-1` in a `u32`
abbrev pub no_pid : ℕ
no_pid = 2 ^ 32 - 1

pub record MmSegment : Type 0 where
  pub start : ℕ
  pub end : ℕ
  pub next_free : ℕ
  pub access_flags : ℕ

-- The list of areas that `vm_next` links is a list.
pub record VmArea : Type 0 where
  pub vm_start : ℕ
  pub vm_end : ℕ
  pub access_flags : ℕ

pub record Context : Type 0 where
  pub pid : ℕ
  pub ppid : ℕ
  pub mms : List MmSegment
  pub vm_area : List VmArea

pub data FileType : Type 0 where
  stdin stdout stderr regular pipe ppipe : FileType

pub record File : Type 0 where
  pub type : FileType
  pub mode : ℕ
  pub offp : ℕ
  pub ref_count : ℕ
