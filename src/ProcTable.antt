-- ===== src/ProcTable.antt =====
-- The table of processes that a pipe keeps: an array of slots, each with the pid of its owner, or
-- `no_pid` if it is free. pipe.c and ppipe.c (Assignment_2/190547/src) search it by the same loops,
-- so the search and its laws stand here over any type of slot.
pub mod Laws
use building_gem_os_cs.Base.{
  ℕ, ◌≡◌, ◌≢◌, Option, none, some, List, [], ◌∷◌, All, find_index, ◌==◌, if◌then◌else◌,
}
use building_gem_os_cs.Kernel.{no_pid}

module _ {A : Type 0} (pid_of : A → ℕ) where
  -- `for (i = 0; i < MAX; i++) if (procs[i].pid == pid) break;`
  abbrev pub find_pid : ℕ → List A → ℕ
  find_pid pid = find_index (λ q. pid_of q == pid)

  -- the slot that this loop stops at
  abbrev pub slot_of : ℕ → List A → Option A
  slot_of pid [] = none
  slot_of pid (q ∷ qs) = if pid_of q == pid then some q else slot_of pid qs

  -- No process owns two slots.
  abbrev pub IsDistinct : List A → Type 0
  IsDistinct [] = Unit
  IsDistinct (q ∷ qs) = All (λ r. pid_of q ≡ pid_of r → pid_of q ≡ no_pid) qs × IsDistinct qs
