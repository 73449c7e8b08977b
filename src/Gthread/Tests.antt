-- ===== src/Gthread/Tests.antt =====
-- The theorems on the threads of gthread.c at concrete inputs, and runs of the functions.
use building_gem_os_cs.Base.{
  ℕ, zero, suc, get_or-replicate, ◌<◌, ◌≡◌, refl, true, none, some, [], ◌∷◌, arith, get_or,
}
use building_gem_os_cs.Gthread.{
  Tinfo, initial, no_area, no_thread, thread_at, max_threads, max_galloc_areas, th_stack_size,
  Outcome, outcome, mmap, munmap, clone, make_thread_ready, store_call_exit, prot_rw, runs_as,
  gthread_create, gthread_exit, gthread_join, gmalloc, gfree,
}
use building_gem_os_cs.Gthread.Invariant.{IsValid}
use building_gem_os_cs.Gthread.Alloc.{Takes}
use building_gem_os_cs.Gthread.Free.{Frees, IsFresh, gfree-Frees}
use building_gem_os_cs.Gthread.Roundtrip.{gfree-gmalloc}
use building_gem_os_cs.Gthread.Join.{Joins, gthread_join-Joins}
use building_gem_os_cs.Gthread.Exit.{gthread_join-gthread_exit}
use building_gem_os_cs.Gthread.History.{Table, start, creates, allocates, Table-IsValid}

-- One thread, with pid 7 and its stack at 4096.
abbrev one : Tinfo
one = (gthread_create initial 100 5 4096 (some 7)).tinfo

create_run :
    (gthread_create initial 100 5 4096 (some 7)).calls
    ≡ mmap th_stack_size prot_rw 0
      ∷ clone 100 20472 5
      ∷ make_thread_ready 7
      ∷ store_call_exit 20472
      ∷ []
unfolding gthread_create
create_run = refl

abbrev with_one : Table one
with_one = creates 100 5 4096 (some 7) start

one-IsValid : IsValid one
one-IsValid = Table-IsValid with_one

Table-IsValid_example : IsValid (gmalloc one 7 64 1 8192).tinfo
Table-IsValid_example = Table-IsValid (allocates 7 64 1 8192 with_one)

gfree-Frees_example : Frees one 7 0 true (gfree one 7 0 true)
gfree-Frees_example = gfree-Frees one 7 0 true one-IsValid

gthread_join-Joins_example : Joins one 0 (0 ∷ 1 ∷ []) (gthread_join one 0 (0 ∷ 1 ∷ []))
gthread_join-Joins_example = gthread_join-Joins one 0 (0 ∷ 1 ∷ []) one-IsValid

takes : Takes one 7 0 0
unfolding gthread_create
takes = record {
  entry = omega arith;
  runs = refl;
  first_entry = λ k l. absurd (omega arith);
  area = omega arith;
  free = refl;
  first_area = λ k l. absurd (omega arith);
}

empty_areas : (i : ℕ) → i < max_threads → (thread_at one i).priv_areas ≡ no_thread.priv_areas
unfolding gthread_create
empty_areas zero l = refl
empty_areas (suc zero) l = refl
empty_areas (suc (suc zero)) l = refl
empty_areas (suc (suc (suc zero))) l = refl
empty_areas (suc (suc (suc (suc i)))) l = absurd (omega arith)

fresh : IsFresh one 8192
fresh i j l m e =
    let q : (get_or (thread_at one i).priv_areas j no_area).start ≡ 0 =
      rw (empty_areas i l, get_or-replicate max_galloc_areas j no_area) refl in
    omega (arith, q, e)

runs : runs_as 7 (thread_at one 0) ≡ true
unfolding gthread_create
runs = refl

gfree-gmalloc_example :
    gfree (gmalloc one 7 64 1 8192).tinfo 7 8192 true
    ≡ some (outcome (some 0) one (munmap 8192 64 ∷ []))
gfree-gmalloc_example =
    gfree-gmalloc one 7 64 1 8192 0x20 0 0 one-IsValid refl takes (omega arith) fresh

gthread_join-gthread_exit_example :
    (r : Outcome) × (gthread_join (gthread_exit one 7 42) 0 (0 ∷ 1 ∷ []) ≡ some r)
    × (r.result ≡ some 42)
gthread_join-gthread_exit_example =
    gthread_join-gthread_exit one 7 42 0 (0 ∷ 1 ∷ []) 1 one-IsValid (omega arith) runs (omega arith)
      (omega arith)

-- gfree of NULL asks a cleared area for its owner.
free_null_run : gfree initial 7 0 true ≡ none
unfolding gfree
free_null_run = refl
