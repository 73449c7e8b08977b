-- ===== src/Ppipe/Fork.antt =====
-- do_ppipe_fork of ppipe.c.
use building_gem_os_cs.Base.{
  ℕ, ◌<◌, ◌≡◌, ◌≢◌, refl, sym, ◌∙◌, none, some, ◌==◌, if◌then◌else◌, set, arith, length, All-get_or,
  inl, inr, ◌⊎◌, Option-cases,
}
use building_gem_os_cs.Kernel.{Reply, ok, err, eothers, no_pid, Context}
use building_gem_os_cs.ProcTable.{find_pid, slot_of}
use building_gem_os_cs.ProcTable.Laws.{
  IsDistinct-set, IsDistinct-set_new, slot_of-find_pid, find_pid-slot_of, find_pid-none,
  slot_of-set, slot_of-set_free,
}
use building_gem_os_cs.Ppipe.{Proc, PpipeInfo, pid_of, free_proc, proc_at, do_ppipe_fork}
use building_gem_os_cs.Ppipe.Invariant.{IsValid, IsReader, set-IsValid}

-- The slot that a fork fills: the child's own, or the first free one.
module _ (child : Context) (p : PpipeInfo) where
  abbrev own_slot : ℕ
  own_slot = find_pid pid_of child.pid p.procs

  abbrev free_slot : ℕ
  free_slot = find_pid pid_of no_pid p.procs

  abbrev parent_slot : ℕ
  parent_slot = find_pid pid_of child.ppid p.procs

  abbrev child_proc : Proc
  child_proc = record (proc_at p parent_slot) { pid = child.pid }

  child_proc-IsReader :
      IsValid p → parent_slot < length p.procs → IsReader p.buff_start p.buff_len child_proc
  child_proc-IsReader v h =
      All-get_or (IsReader p.buff_start p.buff_len) p.procs parent_slot free_proc v.each h

-- What a fork needs: both pids are real, the parent has a slot, and the child has one or can get one.
pub record CanFork (child : Context) (p : PpipeInfo) (q : Proc) : Type 0 where
  pub child_pid : child.pid ≢ no_pid
  pub parent_pid : child.ppid ≢ no_pid
  pub parent : slot_of pid_of child.ppid p.procs ≡ some q
  pub room : (slot_of pid_of child.pid p.procs ≢ none) ⊎ (slot_of pid_of no_pid p.procs ≢ none)

-- What a fork leaves: the child holds the ends of the parent, stands where the parent stands, and
-- nothing else has changed.
pub record Forked (child : Context) (p : PpipeInfo) (q : Proc) (r : Reply × PpipeInfo)
    : Type 0 where
  pub reply : r.0 ≡ ok 0
  pub valid : IsValid r.1
  pub slots :
      (x : ℕ)
      → x ≢ no_pid
      → slot_of pid_of x r.1.procs
        ≡ (if x == child.pid then some (record q { pid = child.pid }) else slot_of pid_of x p.procs)
  pub ring :
      (r.1.ppipe_buff ≡ p.ppipe_buff)
      × (r.1.buff_len ≡ p.buff_len)
      × (r.1.buff_start ≡ p.buff_start)
      × (r.1.buff_end ≡ p.buff_end)

-- The table after a fork into slot `i`.
abbrev forked_at : Context → PpipeInfo → ℕ → PpipeInfo
forked_at child p i = record p { procs = set p.procs i (child_proc child p) }

module _ (child : Context) (p : PpipeInfo) (v : IsValid p) where
  found :
      (pid : ℕ) → slot_of pid_of pid p.procs ≢ none → find_pid pid_of pid p.procs < length p.procs
  found pid h = elim (Option-cases (slot_of pid_of pid p.procs)) [
    | inl e ↦ absurd (h e)
    | inr (q, e) ↦ (find_pid-slot_of pid_of pid p.procs free_proc e).0
  ]

  own_fork :
      own_slot child p < length p.procs
      → parent_slot child p < length p.procs
      → do_ppipe_fork child p ≡ (ok 0, forked_at child p (own_slot child p))
  unfolding do_ppipe_fork
  own_fork h k = ground (arith, v.slots)

  free_fork :
      own_slot child p ≡ length p.procs
      → free_slot child p < length p.procs
      → parent_slot child p < length p.procs
      → do_ppipe_fork child p ≡ (ok 0, forked_at child p (free_slot child p))
  unfolding do_ppipe_fork
  free_fork e h k = ground (arith, v.slots)

  -- Without a slot for the parent, or for the child, the call fails and changes nothing.
  pub do_ppipe_fork-eothers :
      (slot_of pid_of child.ppid p.procs ≡ none)
        ⊎ ((slot_of pid_of child.pid p.procs ≡ none) × (slot_of pid_of no_pid p.procs ≡ none))
      → do_ppipe_fork child p ≡ (err eothers, p)
  unfolding do_ppipe_fork
  do_ppipe_fork-eothers h = ground (
    arith,
    v.slots,
    find_pid-none pid_of child.ppid p.procs,
    find_pid-none pid_of child.pid p.procs,
    find_pid-none pid_of no_pid p.procs,
  )

module _ (child : Context) (p : PpipeInfo) (v : IsValid p) (q : Proc) (c : CanFork child p q) where
  at_parent : (parent_slot child p < length p.procs) × (proc_at p (parent_slot child p) ≡ q)
  at_parent = let f = find_pid-slot_of pid_of child.ppid p.procs free_proc c.parent in (f.0, f.1)

  own_Forked :
      own_slot child p < length p.procs
      → Forked child p q (ok 0, forked_at child p (own_slot child p))
  own_Forked h = record {
    reply = refl;
    valid =
        set-IsValid p (own_slot child p) (child_proc child p) v
          (child_proc-IsReader child p v at_parent.0)
          (IsDistinct-set pid_of p.procs (own_slot child p) (child_proc child p) free_proc h
            (sym
              (find_pid-slot_of pid_of child.pid p.procs free_proc
                (slot_of-find_pid pid_of child.pid p.procs free_proc h)).2)
            v.distinct);
    slots = λ x n.
        rw (slot_of-set pid_of child.pid x p.procs (child_proc child p) h refl, at_parent.1) refl;
    ring = (refl, refl, refl, refl);
  }

  free_Forked :
      own_slot child p ≡ length p.procs
      → free_slot child p < length p.procs
      → Forked child p q (ok 0, forked_at child p (free_slot child p))
  free_Forked e h = record {
    reply = refl;
    valid =
        set-IsValid p (free_slot child p) (child_proc child p) v
          (child_proc-IsReader child p v at_parent.0)
          (IsDistinct-set_new pid_of child.pid p.procs (free_slot child p) (child_proc child p) e
            refl v.distinct);
    slots = λ x n.
        rw
          (slot_of-set_free pid_of child.pid x p.procs (child_proc child p) h e refl n, at_parent.1)
          refl;
    ring = (refl, refl, refl, refl);
  }

-- If both pids are real, the parent has a slot and the child has one or a slot is free, the fork
-- handler returns 0, keeps the pipe well formed, gives the child the ends and the reading position
-- of the parent, and changes no other process's slot and nothing of the ring.
pub do_ppipe_fork-Forked :
    (child : Context) (p : PpipeInfo) (q : Proc)
    → IsValid p
    → CanFork child p q
    → Forked child p q (do_ppipe_fork child p)
do_ppipe_fork-Forked child p q v c = elim (Option-cases (slot_of pid_of child.pid p.procs)) [
  | inl e ↦
      let own = find_pid-none pid_of child.pid p.procs e in
      let free : slot_of pid_of no_pid p.procs ≢ none = elim c.room [
        | inl n ↦ absurd (n e)
        | inr n ↦ n
      ] in
      let h = found child p v no_pid free in
      rw (free_fork child p v own h (at_parent child p v q c).0) (free_Forked child p v q c own h)
  | inr (r, e) ↦
      let h = (find_pid-slot_of pid_of child.pid p.procs free_proc e).0 in
      rw (own_fork child p v h (at_parent child p v q c).0) (own_Forked child p v q c h)
]

-- The handler runs once for each of the two file objects of a persistent pipe. The second run succeeds where
-- the first did, and leaves every process the slot that the first gave it.
pub do_ppipe_fork_twice :
    (child : Context) (p : PpipeInfo) (q : Proc)
    → IsValid p
    → CanFork child p q
    → child.pid ≢ child.ppid
    → let p' = (do_ppipe_fork child p).1 in
      ((do_ppipe_fork child p').0 ≡ ok 0)
      × ((x : ℕ)
          → x ≢ no_pid
          → slot_of pid_of x (do_ppipe_fork child p').1.procs ≡ slot_of pid_of x p'.procs)
do_ppipe_fork_twice child p q v c ne =
    let f = do_ppipe_fork-Forked child p q v c in
    let p' = (do_ppipe_fork child p).1 in
    let own : slot_of pid_of child.pid p'.procs ≡ some (record q { pid = child.pid }) =
      f.slots child.pid c.child_pid ∙ ground arith in
    let g = do_ppipe_fork-Forked child p' q f.valid (record {
      child_pid = c.child_pid;
      parent_pid = c.parent_pid;
      parent = f.slots child.ppid c.parent_pid ∙ ground (arith, c.parent);
      room = inl (λ e. cc);
    }) in
    (g.reply, λ x n. ground (arith, g.slots x n, f.slots x n))
