-- ===== src/Gthread/Invariant.antt =====
-- The well-formedness of the thread table of gthread.c, and that every function keeps it.
use building_gem_os_cs.Base.{
  ℕ, ◌<◌, ◌≡◌, refl, sym, ◌∙◌, ◌⊎◌, inl, inr, some, set, arith, length, length-set, get_or-set_self,
  get_or-set_ne, get_or-replicate, ℕ_discrete,
}
use building_gem_os_cs.Gthread.{
  Area, Thread, Tinfo, initial, max_threads, max_galloc_areas, th_status_alive, thread_at, area_at,
  no_thread, no_area, with_area,
}

-- An area is cleared, or it belongs to the thread in whose entry it stands.
abbrev pub IsArea : ℕ → Area → Type 0
IsArea i a = (a ≡ no_area) ⊎ ((a.owner ≡ some i) × (0 < a.start))

-- An entry that was never used has status 0; the others hold their own index.
pub record IsThread (i : ℕ) (h : Thread) : Type 0 where
  pub index : (h.tid ≡ i) ⊎ (h.tid ≡ 0)
  pub alive : h.status ≡ th_status_alive → h.tid ≡ i
  pub four : length h.priv_areas ≡ max_galloc_areas
  pub areas : (j : ℕ) → j < max_galloc_areas → IsArea i (area_at h j)

pub record IsValid (t : Tinfo) : Type 0 where
  pub four : length t.threads ≡ max_threads
  pub each : (i : ℕ) → i < max_threads → IsThread i (thread_at t i)

no_thread-IsThread : (i : ℕ) → IsThread i no_thread
no_thread-IsThread i = record {
  index = inr refl;
  alive = λ e. absurd (omega arith);
  four = refl;
  areas = λ j h. inl (get_or-replicate max_galloc_areas j no_area);
}

-- The program starts well formed.
pub initial-IsValid : IsValid initial
initial-IsValid = record {
  four = refl;
  each = λ i h. rw (get_or-replicate max_threads i no_thread) (no_thread-IsThread i);
}

pub set-IsValid :
    (t : Tinfo) (i n : ℕ) (h : Thread)
    → IsValid t
    → i < max_threads
    → IsThread i h
    → IsValid (record { threads = set t.threads i h; num_threads = n })
set-IsValid t i n h v l w = record {
  four = length-set t.threads i h ∙ v.four;
  each = λ k m. elim (ℕ_discrete k i) [
    | yes e ↦ rw (e, get_or-set_self t.threads i h no_thread (omega (arith, v.four))) w
    | no ne ↦ rw (get_or-set_ne t.threads i k h no_thread (λ e. ne (sym e))) (v.each k m)
  ];
}

pub with_area-IsThread :
    (h : Thread) (i j : ℕ) (a : Area)
    → IsThread i h
    → IsArea i a
    → IsThread i (record h { priv_areas = set h.priv_areas j a })
with_area-IsThread h i j a w r = record {
  index = w.index;
  alive = w.alive;
  four = length-set h.priv_areas j a ∙ w.four;
  areas = λ k m. elim (ℕ_discrete k j) [
    | yes e ↦ rw (e, get_or-set_self h.priv_areas j a no_area (omega (arith, w.four))) r
    | no ne ↦ rw (get_or-set_ne h.priv_areas j k a no_area (λ e. ne (sym e))) (w.areas k m)
  ];
}

-- Filling or clearing an area of a thread keeps the table well formed.
pub with_area-IsValid :
    (t : Tinfo) (i j : ℕ) (a : Area)
    → IsValid t
    → i < max_threads
    → IsArea i a
    → IsValid (with_area t i j a)
with_area-IsValid t i j a v l r =
    set-IsValid t i t.num_threads
      (record (thread_at t i) { priv_areas = set (thread_at t i).priv_areas j a }) v l
      (with_area-IsThread (thread_at t i) i j a (v.each i l) r)
