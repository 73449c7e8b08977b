-- ===== src/Files/History.antt =====
-- Histories of calls of one process on its descriptors.
use building_gem_os_cs.Base.{ℕ, ◌+◌, ◌^◌, ◌<◌, ◌≡◌, ◌≢◌, Option, none, some, List, get_or, arith}
use building_gem_os_cs.Base.Memory.{Memory}
use building_gem_os_cs.Kernel.{Reply, ok}
use building_gem_os_cs.Files.{Devices, System, Task, Call, max_open_files}
use building_gem_os_cs.Files.Open.{do_file_open}
use building_gem_os_cs.Files.Create.{create_pipe, create_persistent_pipe}
use building_gem_os_cs.Files.Held.{Held}
use building_gem_os_cs.Files.{fd_dup, fd_dup2, do_close, close_old}
use building_gem_os_cs.Files.Io.{do_file_read, do_file_write, do_lseek}
use building_gem_os_cs.Files.Held.{refs-get_or}
use building_gem_os_cs.Files.Steps.{fd_dup-Held, fd_dup2-Held, do_close-Held}
use building_gem_os_cs.Files.Grow.{do_file_open-Held}
use building_gem_os_cs.Files.Ends.{create_pipe-Held, create_persistent_pipe-Held}
use building_gem_os_cs.Files.Moves.{do_file_read-Held, do_file_write-Held, do_lseek-Held}

-- A call that returns, with the pages that it is given free; a close has to succeed, also that of
-- dup2, and so does the making of a pipe.
pub data Step {D : Type 0} (dev : Devices D) : System D → Task → System D → Task → Type 0 where
  dup :
      {s : System D} {t : Task} (oldfd : ℕ) (c : Call D)
      → fd_dup t oldfd s ≡ some c
      → Step dev s t c.system c.task
  dup2 :
      {s : System D} {t : Task} (oldfd newfd : ℕ) (c : Call D)
      → ((r : Reply) (s' : System D)
          → close_old t.ctx (get_or t.files newfd none) s ≡ some (r, s')
          → r ≡ ok 0)
      → fd_dup2 t oldfd newfd s ≡ some c
      → Step dev s t c.system c.task
  close :
      {s : System D} {t : Task} (fd n : ℕ) (c : Call D)
      → do_close t fd s ≡ some c
      → c.reply ≡ ok n
      → Step dev s t c.system c.task
  opens :
      {s : System D} {t : Task} (name : List ℕ) (flags mode page : ℕ) (c : Call D)
      → s.files page ≡ none
      → do_file_open dev t name flags mode page s ≡ some c
      → Step dev s t c.system c.task
  makes_pipe :
      {s : System D} {t : Task} (fd : ℕ → ℕ) (a b : ℕ) (pages : Option (ℕ × Memory)) (n : ℕ)
      → s.files a ≡ none
      → s.files b ≡ none
      → a ≢ b
      → (create_pipe t fd a b pages s).reply ≡ ok n
      → Step dev s t (create_pipe t fd a b pages s).system (create_pipe t fd a b pages s).task
  makes_persistent_pipe :
      {s : System D} {t : Task} (fd : ℕ → ℕ) (a b : ℕ) (pages : Option (ℕ × Memory)) (n : ℕ)
      → s.files a ≡ none
      → s.files b ≡ none
      → a ≢ b
      → (create_persistent_pipe t fd a b pages s).reply ≡ ok n
      → Step dev s t
          (create_persistent_pipe t fd a b pages s).system
          (create_persistent_pipe t fd a b pages s).task
  reads :
      {s : System D} {t : Task} (fd buff count : ℕ) (r : Reply) (s' : System D)
      → do_file_read dev t fd buff count s ≡ some (r, s')
      → Step dev s t s' t
  writes :
      {s : System D} {t : Task} (fd buff count : ℕ) (r : Reply) (s' : System D)
      → do_file_write dev t fd buff count s ≡ some (r, s')
      → Step dev s t s' t
  seeks :
      {s : System D} {t : Task} (fd offset whence : ℕ) (r : Reply) (s' : System D)
      → do_lseek dev t fd offset whence s ≡ some (r, s')
      → Step dev s t s' t

pub data Reached {D : Type 0} (dev : Devices D) (s0 : System D) (t0 : Task)
    : System D → Task → Type 0 where
  start : Reached dev s0 t0 s0 t0
  next :
      {s s' : System D} {t t' : Task}
      → Reached dev s0 t0 s t
      → Step dev s t s' t'
      → Reached dev s0 t0 s' t'

module _ {D : Type 0} (dev : Devices D) (others : ℕ → ℕ)
    (few : (a : ℕ) → others a + max_open_files + 1 < 2 ^ 32) where
  Step-Held :
      {s : System D} {t : Task} {s' : System D} {t' : Task}
      → Step dev s t s' t'
      → Held others s t
      → Held others s' t'
  Step-Held (dup {s = s} {t = t} oldfd c e) h = fd_dup-Held others few s t oldfd c h e
  Step-Held (dup2 {s = s} {t = t} oldfd newfd c k e) h =
      fd_dup2-Held others few s t oldfd newfd c h k e
  Step-Held (close {s = s} {t = t} fd n c e k) h = do_close-Held others few s t fd c n h e k
  Step-Held (opens {s = s} {t = t} name flags mode page c f e) h =
      do_file_open-Held others few dev t name flags mode page s c h f e
  Step-Held (makes_pipe {s = s} {t = t} fd a b pages n ea eb d r) h =
      create_pipe-Held others t fd a b pages s n h ea eb d r
  Step-Held (makes_persistent_pipe {s = s} {t = t} fd a b pages n ea eb d r) h =
      create_persistent_pipe-Held others t fd a b pages s n h ea eb d r
  Step-Held (reads {s = s} {t = t} fd buff count r s' e) h =
      do_file_read-Held dev others t fd buff count s r s' h e
  Step-Held (writes {s = s} {t = t} fd buff count r s' e) h =
      do_file_write-Held dev others t fd buff count s r s' h e
  Step-Held (seeks {s = s} {t = t} fd offset whence r s' e) h =
      do_lseek-Held dev others t fd offset whence s r s' h e

  Reached-Held_lem :
      {s0 : System D} {t0 : Task} {s : System D} {t : Task}
      → Reached dev s0 t0 s t
      → Held others s0 t0
      → Held others s t
  Reached-Held_lem start h = h
  Reached-Held_lem (next r step) h = Step-Held step (Reached-Held_lem r h)

-- Every open descriptor names an object that is there.
abbrev pub IsLive : {D : Type 0} → System D → Task → Type 0
IsLive s t = (fd a : ℕ) → get_or t.files fd none ≡ some a → s.files a ≢ none

Held-IsLive : {D : Type 0} (others : ℕ → ℕ) (s : System D) (t : Task) → Held others s t → IsLive s t
Held-IsLive others s t h fd a g e =
    let c = h.counted a in let r = rw g at (refs-get_or a fd t.files) in ground (arith, e)

-- After any history of calls on descriptors that return, the closes and the makings of pipes among
-- them successful and the pages given free, by a process that starts with the counts right, and with
-- fewer than 2^32 - 17 references of other processes to each object: each count is still the number
-- of descriptors that name the object and of those references, and no descriptor names a freed object.
pub Reached-Held :
    {D : Type 0} (dev : Devices D) (others : ℕ → ℕ) (s0 s : System D) (t0 t : Task)
    → ((a : ℕ) → others a + max_open_files + 1 < 2 ^ 32)
    → Held others s0 t0
    → Reached dev s0 t0 s t
    → Held others s t × IsLive s t
Reached-Held dev others s0 s t0 t few h r =
    let h' = Reached-Held_lem dev others few r h in (h', Held-IsLive others s t h')
