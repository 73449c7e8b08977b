-- ===== src/Gthread/Exit.antt =====
-- gthread_exit of gthread.c, and what it hands over to gthread_join.
use building_gem_os_cs.Base.{
  ℕ, ◌<◌, ◌≡◌, ◌≢◌, refl, ap, ◌∙◌, inl, inr, true, false, none, some, List, ◌==◌, if◌then◌else◌,
  get_or, arith, length, subst, length-map, get_or-map, find_index, find_index-eq, Bool-cases,
  Option-cases,
}
use building_gem_os_cs.Gthread.{
  Thread, Tinfo, max_threads, thread_at, no_thread, runs_as, Outcome, gthread_exit, wait_loop,
  gthread_join,
}
use building_gem_os_cs.Gthread.Invariant.{IsThread, IsValid}
use building_gem_os_cs.Gthread.Wait.{Waits, wait_loop-Waits, forever}
use building_gem_os_cs.Gthread.Join.{found_lem}

-- The slot of a thread that has ended with `retval`.
abbrev pub ended : Thread → ℕ → Thread
ended h retval = record h { ret_addr = retval }

-- What gthread_exit leaves: the entry of the thread holds the value, the others are as before.
pub record Exits (t : Tinfo) (pid retval : ℕ) (t' : Tinfo) : Type 0 where
  pub valid : IsValid t'
  pub own :
      (i : ℕ)
      → i < max_threads
      → runs_as pid (thread_at t i) ≡ true
      → thread_at t' i ≡ ended (thread_at t i) retval
  pub other :
      (i : ℕ)
      → i < max_threads
      → runs_as pid (thread_at t i) ≡ false
      → thread_at t' i ≡ thread_at t i

module _ (t : Tinfo) (pid retval : ℕ) (v : IsValid t) where
  abbrev exit_one : Thread → Thread
  exit_one h = if runs_as pid h then ended h retval else h

  exit_at :
      (i : ℕ) → i < max_threads → thread_at (gthread_exit t pid retval) i ≡ exit_one (thread_at t i)
  unfolding gthread_exit
  exit_at i l = get_or-map exit_one t.threads i no_thread (omega (arith, v.four))

  exit_one-IsThread : (i : ℕ) (h : Thread) → IsThread i h → IsThread i (exit_one h)
  exit_one-IsThread i h w = elim (Bool-cases (runs_as pid h)) [
    | inl e ↦ rw e (record { index = w.index; alive = w.alive; four = w.four; areas = w.areas })
    | inr e ↦ rw e w
  ]

  exit-IsValid : IsValid (gthread_exit t pid retval)
  unfolding gthread_exit
  exit-IsValid = record {
    four = length-map exit_one t.threads ∙ v.four;
    each = λ i l. rw (exit_at i l) (exit_one-IsThread i (thread_at t i) (v.each i l));
  }

-- gthread_exit writes the value into the live entry of the thread, and changes no other.
pub gthread_exit-Exits :
    (t : Tinfo) (pid retval : ℕ) → IsValid t → Exits t pid retval (gthread_exit t pid retval)
gthread_exit-Exits t pid retval v = record {
  valid = exit-IsValid t pid retval v;
  own = λ i l r. exit_at t pid retval v i l ∙ rw r refl;
  other = λ i l r. exit_at t pid retval v i l ∙ rw r refl;
}

id-alive :
    (t : Tinfo) (i : ℕ)
    → IsValid t
    → i < max_threads
    → (thread_at t i).tid ≡ i
    → find_index (λ (h : Thread). h.tid == i) t.threads ≡ i
id-alive t i v l e =
    find_index-eq (λ (h : Thread). h.tid == i) t.threads i no_thread (omega (arith, v.four))
      (ground arith)
      (λ k m. elim (v.each k (omega arith)).index [ inl q ↦ ground arith | inr q ↦ ground arith ])

never_forever : (rets : List ℕ) (m : ℕ) → m < length rets → get_or rets m 0 ≢ 0 → ¬ Waits rets none
never_forever rets m l e (forever f) = e (f m l)

ended-Waits :
    (rets : List ℕ) (m : ℕ)
    → m < length rets
    → get_or rets m 0 ≢ 0
    → (n : ℕ) × (wait_loop rets ≡ some n)
ended-Waits rets m l e = elim (Option-cases (wait_loop rets)) [
  | inl w ↦ absurd (never_forever rets m l e (subst (Waits rets) w (wait_loop-Waits rets)))
  | inr (n, w) ↦ (n, w)
]

-- The value that a thread passes to gthread_exit is the one that gthread_join returns, if
-- wait_for_thread ever returns a number other than 0.
pub gthread_join-gthread_exit :
    (t : Tinfo) (pid retval i : ℕ) (rets : List ℕ) (m : ℕ)
    → IsValid t
    → i < max_threads
    → runs_as pid (thread_at t i) ≡ true
    → m < length rets
    → get_or rets m 0 ≢ 0
    → (r : Outcome) × (gthread_join (gthread_exit t pid retval) i rets ≡ some r)
      × (r.result ≡ some retval)
gthread_join-gthread_exit t pid retval i rets m v l r h e =
    let x = gthread_exit-Exits t pid retval v in
    let (n, w) = ended-Waits rets m h e in
    let a = (v.each i l).alive (ground arith) in
    let o = x.own i l r in
    let d : (thread_at (gthread_exit t pid retval) i).tid ≡ i = rw o a in
    let t' = gthread_exit t pid retval in
    (
      _,
      found_lem t' i i n rets l (id-alive t' i x.valid l d) w,
      ap (λ (h : Thread). some h.ret_addr) o,
    )
