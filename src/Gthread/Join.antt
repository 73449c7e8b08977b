-- ===== src/Gthread/Join.antt =====
-- gthread_join of gthread.c.
use building_gem_os_cs.Base.{
  ℕ, suc, ◌+◌, ◌-◌, ◌%◌, ◌^◌, ◌<◌, ◌≡◌, ◌≢◌, refl, sym, ap, ◌∙◌, inl, inr, Option, none, some, List,
  [], ◌∷◌, ◌++◌, map, replicate, ◌==◌, get_or, set, arith, length, subst, get_or-replicate,
  get_or-set_self, get_or-set_ne, find_index, find_index-le, find_index-holds, find_index-first,
  Option-cases, ℕ_discrete,
}
use building_gem_os_cs.Gthread.{
  Area, Thread, Tinfo, max_threads, max_galloc_areas, th_status_used, th_stack_size, thread_at,
  no_thread, no_area, Outcome, outcome, Call, munmap, wait_for_thread, wait_loop, unmap_areas,
  clear, gthread_join,
}
use building_gem_os_cs.Gthread.Invariant.{IsArea, IsThread, IsValid, set-IsValid}
use building_gem_os_cs.Gthread.Wait.{Waits, wait_loop-Waits}

-- The areas that have an owner are unmapped with their own lengths.
abbrev pub owned : List Area → List Area
owned [] = []
owned (a ∷ areas) = elim a.owner [ none ↦ owned areas | some k ↦ a ∷ owned areas ]

abbrev pub unmaps : List Area → List Call
unmaps areas = map (λ (a : Area). munmap a.start a.length) (owned areas)

unmap_areas_self : (areas : List Area) → unmap_areas areas areas ≡ unmaps areas
unmap_areas_self [] = refl
unmap_areas_self (a ∷ areas) = elim (Option-cases a.owner) [
  | inl e ↦ rw (unmap_areas, owned, e) (unmap_areas_self areas)
  | inr (k, e) ↦
      rw (unmap_areas, owned, e) (ap (◌∷◌ (munmap a.start a.length)) (unmap_areas_self areas))
]

clear-IsArea : (i : ℕ) (a : Area) → IsArea i a → clear a ≡ no_area
clear-IsArea i a (inl e) = rw e refl
clear-IsArea i a (inr (o, p)) = rw o refl

id_lem :
    (t : Tinfo) (tid : ℕ)
    → IsValid t
    → find_index (λ (h : Thread). h.tid == tid) t.threads < max_threads
    → find_index (λ (h : Thread). h.tid == tid) t.threads ≡ tid
id_lem t tid v l =
    let i = find_index (λ (h : Thread). h.tid == tid) t.threads in
    let h =
      find_index-holds (λ (h : Thread). h.tid == tid) t.threads no_thread (omega (arith, v.four)) in
    let w = (v.each 0 (omega arith)).index in
    let f =
      λ (p : 0 < i). find_index-first (λ (h : Thread). h.tid == tid) t.threads no_thread 0 p in
    elim (v.each i l).index [
      | inl e ↦ ground arith
      | inr z ↦ elim (ℕ_discrete i 0) [
        | yes y ↦ ground arith
        | no n ↦
            let g = f (omega arith) in
            elim w [ inl z0 ↦ absurd (ground arith) | inr z0 ↦ absurd (ground arith) ]
      ]
    ]

-- The entry of a thread that was joined: its pid and its id stay.
abbrev pub joined_thread : Thread → Thread
joined_thread h = record h {
  status = th_status_used;
  ret_addr = 0;
  stack_addr = 0;
  priv_areas = replicate max_galloc_areas no_area;
}

-- What gthread_join does, by cause.
pub data Joins (t : Tinfo) (tid : ℕ) (rets : List ℕ) : Option Outcome → Type 0 where
  unknown :
      ((i : ℕ) → i < max_threads → (thread_at t i).tid ≢ tid)
      → Joins t tid rets (some (outcome none t []))
  waiting : tid < max_threads → Waits rets none → Joins t tid rets none
  joined :
      {r : Outcome} (n : ℕ)
      → tid < max_threads
      → Waits rets (some n)
      → r.result ≡ some (thread_at t tid).ret_addr
      → IsValid r.tinfo
      → thread_at r.tinfo tid ≡ joined_thread (thread_at t tid)
      → ((k : ℕ) → k ≢ tid → thread_at r.tinfo k ≡ thread_at t k)
      → r.calls
        ≡ replicate n (wait_for_thread (thread_at t tid).pid)
          ++ munmap (thread_at t tid).stack_addr th_stack_size ∷ unmaps (thread_at t tid).priv_areas
      → Joins t tid rets (some r)

map-clear :
    (i : ℕ) (areas : List Area)
    → ((j : ℕ) → j < length areas → IsArea i (get_or areas j no_area))
    → map clear areas ≡ replicate (length areas) no_area
map-clear i [] f = refl
map-clear i (a ∷ areas) f =
    rw (clear-IsArea i a (f 0 (omega arith)))
      (ap (◌∷◌ no_area) (map-clear i areas (λ j l. f (suc j) (omega arith))))

pub found_lem :
    (t : Tinfo) (tid id n : ℕ) (rets : List ℕ)
    → id < max_threads
    → find_index (λ (h : Thread). h.tid == tid) t.threads ≡ id
    → wait_loop rets ≡ some n
    → gthread_join t tid rets
      ≡ some (
          outcome
            (some (thread_at t id).ret_addr)
            (record {
              threads = set t.threads id (record (thread_at t id) {
                status = th_status_used;
                ret_addr = 0;
                stack_addr = 0;
                priv_areas = map clear (thread_at t id).priv_areas;
              });
              num_threads = (t.num_threads + 2 ^ 32 - 1) % 2 ^ 32;
            })
            (replicate n (wait_for_thread (thread_at t id).pid)
              ++ munmap (thread_at t id).stack_addr th_stack_size
                ∷ unmap_areas (thread_at t id).priv_areas (thread_at t tid).priv_areas))
unfolding gthread_join
found_lem t tid id n rets l e w = rw (gthread_join, e, w) (ground arith)

module _ (t : Tinfo) (tid : ℕ) (rets : List ℕ) (v : IsValid t) where
  abbrev index : ℕ
  index = find_index (λ (h : Thread). h.tid == tid) t.threads

  joined_thread-IsThread : tid < max_threads → IsThread tid (joined_thread (thread_at t tid))
  joined_thread-IsThread l = record {
    index = (v.each tid l).index;
    alive = λ e. absurd (omega arith);
    four = refl;
    areas = λ j m. inl (get_or-replicate max_galloc_areas j no_area);
  }

  joined_lem :
      (n : ℕ)
      → index < max_threads
      → wait_loop rets ≡ some n
      → Joins t tid rets (gthread_join t tid rets)
  joined_lem n l w =
      let h = thread_at t tid in
      let e = id_lem t tid v l in
      let l' : tid < max_threads = omega (arith, e) in
      let c : map clear h.priv_areas ≡ replicate max_galloc_areas no_area =
        rw
          (
            map-clear tid h.priv_areas
                (λ j m. (v.each tid l').areas j (omega (arith, (v.each tid l').four))),
            (v.each tid l').four,
          )
          refl in
      let r : gthread_join t tid rets
          ≡ some (
              outcome (some h.ret_addr)
                (record {
                  threads = set t.threads tid (joined_thread h);
                  num_threads = (t.num_threads + 2 ^ 32 - 1) % 2 ^ 32;
                })
                (replicate n (wait_for_thread h.pid)
                  ++ munmap h.stack_addr th_stack_size ∷ unmaps h.priv_areas)) =
        found_lem t tid tid n rets l' e w ∙ rw (c, unmap_areas_self h.priv_areas) refl in
      rw r (
        joined n l' (subst (Waits rets) w (wait_loop-Waits rets)) refl
          (set-IsValid t tid ((t.num_threads + 2 ^ 32 - 1) % 2 ^ 32) (joined_thread h) v l'
            (joined_thread-IsThread l'))
          (get_or-set_self t.threads tid (joined_thread h) no_thread (omega (arith, v.four)))
          (λ k ne. get_or-set_ne t.threads tid k (joined_thread h) no_thread (λ f. ne (sym f)))
          refl)

  none_lem :
      index < max_threads → wait_loop rets ≡ none → Joins t tid rets (gthread_join t tid rets)
  unfolding gthread_join
  none_lem l w =
      let r : gthread_join t tid rets ≡ none = rw (gthread_join, w) (ground arith) in
      rw r (waiting (omega (arith, id_lem t tid v l)) (subst (Waits rets) w (wait_loop-Waits rets)))

  unknown_lem : index ≡ max_threads → Joins t tid rets (gthread_join t tid rets)
  unfolding gthread_join
  unknown_lem e =
      let r : gthread_join t tid rets ≡ some (outcome none t []) = ground arith in
      rw r (
        unknown (λ i l.
          let q =
            find_index-first (λ (h : Thread). h.tid == tid) t.threads no_thread i
              (omega (arith, e)) in
          ground arith))

-- gthread_join does one of three things. For an id that no entry has it returns NULL and changes
-- nothing. It does not return while wait_for_thread returns 0. Else it calls wait_for_thread up to
-- the first number other than 0, returns the value that the entry holds, unmaps the stack and each
-- area of the thread with its own length, and marks the entry as used with no area; no other entry
-- changes and the table stays well formed.
pub gthread_join-Joins :
    (t : Tinfo) (tid : ℕ) (rets : List ℕ) → IsValid t → Joins t tid rets (gthread_join t tid rets)
gthread_join-Joins t tid rets v = elim (ℕ_discrete (index t tid rets v) max_threads) [
  | yes e ↦ unknown_lem t tid rets v e
  | no ne ↦
      let l : index t tid rets v < max_threads =
        ground (arith, v.four, find_index-le (λ (h : Thread). h.tid == tid) t.threads) in
      elim (Option-cases (wait_loop rets)) [
        | inl e ↦ none_lem t tid rets v l e
        | inr (n, e) ↦ joined_lem t tid rets v n l e
      ]
]
