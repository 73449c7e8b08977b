-- ===== src/Gthread/Create.antt =====
-- gthread_create and gthread_exit of gthread.c.
use building_gem_os_cs.Base.{
  ℕ, ◌+◌, ◌-◌, ◌%◌, ◌^◌, ◌<◌, ◌≡◌, ◌≢◌, refl, sym, ◌∙◌, inl, true, false, not, Option, none, some,
  [], ◌∷◌, set, arith, get_or-set_self, get_or-set_ne, find_index, find_index-le, find_index-holds,
  find_index-first, ℕ_discrete,
}
use building_gem_os_cs.Gthread.{
  Tinfo, max_threads, th_stack_size, th_status_alive, thread_at, no_thread, is_alive, started,
  gthread_create, Outcome, outcome, mmap, clone, make_thread_ready, store_call_exit, prot_rw,
}
use building_gem_os_cs.Gthread.Invariant.{IsThread, IsValid, set-IsValid}

-- What gthread_create does, by cause.
pub data Creates (t : Tinfo) (fc arg stackp : ℕ) : Option ℕ → Outcome → Type 0 where
  no_slot :
      {pid : Option ℕ}
      → ((i : ℕ) → i < max_threads → is_alive (thread_at t i) ≡ true)
      → Creates t fc arg stackp pid (outcome none t [])
  no_stack :
      {pid : Option ℕ}
      → stackp ≡ 0
      → Creates t fc arg stackp pid (outcome none t (mmap th_stack_size prot_rw 0 ∷ []))
  no_clone :
      stackp ≢ 0
      → Creates t fc arg stackp none (
          outcome none t
            (mmap th_stack_size prot_rw 0 ∷ clone fc (stackp + th_stack_size - 8) arg ∷ []))
  created :
      {n : ℕ} {r : Outcome} (i : ℕ)
      → stackp ≢ 0
      → i < max_threads
      → is_alive (thread_at t i) ≡ false
      → ((k : ℕ) → k < i → is_alive (thread_at t k) ≡ true)
      → r.result ≡ some i
      → IsValid r.tinfo
      → thread_at r.tinfo i ≡ record (thread_at t i) {
        status = th_status_alive;
        tid = i;
        pid = n % 2 ^ 8;
        stack_addr = stackp;
      }
      → ((k : ℕ) → k ≢ i → thread_at r.tinfo k ≡ thread_at t k)
      → r.calls
        ≡ mmap th_stack_size prot_rw 0
          ∷ clone fc (stackp + th_stack_size - 8) arg
          ∷ make_thread_ready n
          ∷ store_call_exit (stackp + th_stack_size - 8)
          ∷ []
      → Creates t fc arg stackp (some n) r

module _ (t : Tinfo) (fc arg stackp : ℕ) (v : IsValid t) where
  abbrev slot : ℕ
  slot = find_index (λ h. not (is_alive h)) t.threads

  started-IsThread : (i n : ℕ) → i < max_threads → IsThread i (started (thread_at t i) i n stackp)
  started-IsThread i n l =
      let w = v.each i l in
      record { index = inl (omega arith); alive = λ _. omega arith; four = w.four; areas = w.areas }

  created_lem :
      (n : ℕ)
      → stackp ≢ 0
      → slot < max_threads
      → Creates t fc arg stackp (some n) (gthread_create t fc arg stackp (some n))
  unfolding gthread_create
  created_lem n s l =
      let h = started (thread_at t slot) slot n stackp in
      let e : slot % 2 ^ 8 ≡ slot = omega arith in
      let r : gthread_create t fc arg stackp (some n)
          ≡ outcome (some slot)
              (record {
                threads = set t.threads slot h;
                num_threads = (t.num_threads + 1) % 2 ^ 32;
              })
              (mmap th_stack_size prot_rw 0
                ∷ clone fc (stackp + th_stack_size - 8) arg
                ∷ make_thread_ready n
                ∷ store_call_exit (stackp + th_stack_size - 8)
                ∷ []) =
        ground arith in
      rw r (
        created slot s l
          (let q =
              find_index-holds (λ h. not (is_alive h)) t.threads no_thread
                (omega (arith, v.four)) in
            ground arith)
          (λ k m.
            let q = find_index-first (λ h. not (is_alive h)) t.threads no_thread k m in
            ground arith)
          refl (set-IsValid t slot ((t.num_threads + 1) % 2 ^ 32) h v l (started-IsThread slot n l))
          (get_or-set_self t.threads slot h no_thread (omega (arith, v.four)) ∙ ground arith)
          (λ k ne. get_or-set_ne t.threads slot k h no_thread (λ f. ne (sym f))) refl)

  full_lem :
      (pid : Option ℕ)
      → slot ≡ max_threads
      → Creates t fc arg stackp pid (gthread_create t fc arg stackp pid)
  unfolding gthread_create
  full_lem pid e =
      let r : gthread_create t fc arg stackp pid ≡ outcome none t [] = ground arith in
      rw r (
        no_slot (λ k m.
          let q =
            find_index-first (λ h. not (is_alive h)) t.threads no_thread k (omega (arith, e)) in
          ground arith))

pub gthread_create-Creates :
    (t : Tinfo) (fc arg stackp : ℕ) (pid : Option ℕ)
    → IsValid t
    → Creates t fc arg stackp pid (gthread_create t fc arg stackp pid)
unfolding gthread_create
gthread_create-Creates t fc arg stackp pid v =
    elim (ℕ_discrete (slot t fc arg stackp v) max_threads) [
      | yes e ↦ full_lem t fc arg stackp v pid e
      | no ne ↦ elim (ℕ_discrete stackp 0) [
        | yes z ↦
            by_stack z (ground (arith, v.four, find_index-le (λ h. not (is_alive h)) t.threads))
        | no s ↦
            by_pid pid s (ground (arith, v.four, find_index-le (λ h. not (is_alive h)) t.threads))
      ]
    ]
  where
    by_stack :
        stackp ≡ 0
        → slot t fc arg stackp v < max_threads
        → Creates t fc arg stackp pid (gthread_create t fc arg stackp pid)
    by_stack z l =
        let r : gthread_create t fc arg stackp pid
            ≡ outcome none t (mmap th_stack_size prot_rw 0 ∷ []) =
          ground arith in
        rw r (no_stack z)

    by_pid :
        (pid : Option ℕ)
        → stackp ≢ 0
        → slot t fc arg stackp v < max_threads
        → Creates t fc arg stackp pid (gthread_create t fc arg stackp pid)
    by_pid none s l =
        let r : gthread_create t fc arg stackp none
            ≡ outcome none t
                (mmap th_stack_size prot_rw 0 ∷ clone fc (stackp + th_stack_size - 8) arg ∷ []) =
          ground arith in
        rw r (no_clone s)
    by_pid (some n) s l = created_lem t fc arg stackp v n s l
