-- ===== src/Gthread/History.antt =====
-- The histories of the thread table of gthread.c, from the start of the program on.
use building_gem_os_cs.Base.{ℕ, Bool, Option, none, some, List, ◌≡◌, sym, subst}
use building_gem_os_cs.Gthread.{
  Tinfo, initial, Outcome, gthread_create, gthread_exit, gthread_join, gmalloc, gfree,
}
use building_gem_os_cs.Gthread.Invariant.{IsValid, initial-IsValid}
use building_gem_os_cs.Gthread.Create.{
  Creates, no_slot, no_stack, no_clone, created, gthread_create-Creates,
}
use building_gem_os_cs.Gthread.Alloc.{Allocates, refused, no_memory, allocated, gmalloc-Allocates}
use building_gem_os_cs.Gthread.Free.{Frees, denied, kept, freed, gfree-Frees}
use building_gem_os_cs.Gthread.Join.{Joins, joined, gthread_join-Joins}
use building_gem_os_cs.Gthread.Exit.{gthread_exit-Exits}

-- The tables that calls of the library lead to, whatever the system calls return. A call that does
-- not return or faults leads to none.
pub data Table : Tinfo → Type 0 where
  start : Table initial
  creates :
      {t : Tinfo} (fc arg stackp : ℕ) (pid : Option ℕ)
      → Table t
      → Table (gthread_create t fc arg stackp pid).tinfo
  exits : {t : Tinfo} (pid retval : ℕ) → Table t → Table (gthread_exit t pid retval)
  joins :
      {t : Tinfo} {r : Outcome} (tid : ℕ) (rets : List ℕ)
      → Table t
      → gthread_join t tid rets ≡ some r
      → Table r.tinfo
  allocates :
      {t : Tinfo} (pid size alloc_flag addr : ℕ)
      → Table t
      → Table (gmalloc t pid size alloc_flag addr).tinfo
  frees :
      {t : Tinfo} {r : Outcome} (pid ptr : ℕ) (unmapped : Bool)
      → Table t
      → gfree t pid ptr unmapped ≡ some r
      → Table r.tinfo

create_keeps :
    {t : Tinfo} {fc arg stackp : ℕ} {pid : Option ℕ} {r : Outcome}
    → IsValid t
    → Creates t fc arg stackp pid r
    → IsValid r.tinfo
create_keeps v (no_slot _) = v
create_keeps v (no_stack _) = v
create_keeps v (no_clone _) = v
create_keeps v (created _ _ _ _ _ _ w _ _ _) = w

alloc_keeps :
    {t : Tinfo} {pid size alloc_flag addr : ℕ} {r : Outcome}
    → IsValid t
    → Allocates t pid size alloc_flag addr r
    → IsValid r.tinfo
alloc_keeps v (refused _ e) = subst (λ (r : Outcome). IsValid r.tinfo) (sym e) v
alloc_keeps v (no_memory _ _ _ e) = subst (λ (r : Outcome). IsValid r.tinfo) (sym e) v
alloc_keeps v (allocated _ _ _ _ _ _ _ w) = w

-- What a call that returns keeps.
abbrev Keeps : Option Outcome → Type 0
Keeps none = Unit
Keeps (some r) = IsValid r.tinfo

join-Keeps :
    {t : Tinfo} {tid : ℕ} {rets : List ℕ} (o : Option Outcome)
    → IsValid t
    → Joins t tid rets o
    → Keeps o
join-Keeps none v q = tt
join-Keeps (some _) v (Joins.unknown _) = v
join-Keeps (some _) v (joined _ _ _ _ w _ _ _) = w

free-Keeps :
    {t : Tinfo} {pid ptr : ℕ} {u : Bool} (o : Option Outcome)
    → IsValid t
    → Frees t pid ptr u o
    → Keeps o
free-Keeps none v q = tt
free-Keeps (some _) v (Frees.unknown _) = v
free-Keeps (some _) v (denied _ _ _ _ _ _) = v
free-Keeps (some _) v (kept _ _ _ _ _ _) = v
free-Keeps (some _) v (freed _ _ _ _ _ _ w) = w

-- After any history of calls the table is well formed: it has MAX_THREADS entries of
-- MAX_GALLOC_AREAS areas each, a live entry holds its own index, and an area is either cleared or
-- starts at an address other than NULL and belongs to the entry in which it stands.
pub Table-IsValid : {t : Tinfo} → Table t → IsValid t
Table-IsValid start = initial-IsValid
Table-IsValid (creates {t} fc arg stackp pid r) =
    let v = Table-IsValid r in create_keeps v (gthread_create-Creates t fc arg stackp pid v)
Table-IsValid (exits {t} pid retval r) = (gthread_exit-Exits t pid retval (Table-IsValid r)).valid
Table-IsValid (joins {t} tid rets r e) =
    let v = Table-IsValid r in
    subst Keeps e (join-Keeps (gthread_join t tid rets) v (gthread_join-Joins t tid rets v))
Table-IsValid (allocates {t} pid size alloc_flag addr r) =
    let v = Table-IsValid r in alloc_keeps v (gmalloc-Allocates t pid size alloc_flag addr v)
Table-IsValid (frees {t} pid ptr u r e) =
    let v = Table-IsValid r in
    subst Keeps e (free-Keeps (gfree t pid ptr u) v (gfree-Frees t pid ptr u v))
