-- ===== src/Gthread/Alloc.antt =====
-- gmalloc of gthread.c.
use building_gem_os_cs.Base.{
  ℕ, ◌+◌, ◌<◌, ◌≡◌, ◌≢◌, refl, ◌⊎◌, inl, inr, true, false, none, some, [], ◌∷◌, arith, find_index,
  find_index-le, find_index-holds, find_index-first, find_index-eq, Option-cases, ℕ_discrete,
}
use building_gem_os_cs.Gthread.{
  Area, Tinfo, max_threads, max_galloc_areas, thread_at, area_at, no_thread, no_area, runs_as,
  Outcome, outcome, mmap, prot_rw, map_th_private, sibling_flag, is_free, with_area, free_index,
  gmalloc,
}
use building_gem_os_cs.Gthread.Invariant.{IsValid, with_area-IsValid}

-- The entry and the area that gmalloc takes: the first live entry of the running thread, and the
-- first free area in it.
pub record Takes (t : Tinfo) (pid i j : ℕ) : Type 0 where
  pub entry : i < max_threads
  pub runs : runs_as pid (thread_at t i) ≡ true
  pub first_entry : (k : ℕ) → k < i → runs_as pid (thread_at t k) ≡ false
  pub area : j < max_galloc_areas
  pub free : is_free (area_at (thread_at t i) j) ≡ true
  pub first_area : (k : ℕ) → k < j → is_free (area_at (thread_at t i) k) ≡ false

abbrev pub new_area : (i start size alloc_flag : ℕ) → Area
new_area i start size alloc_flag = record {
  owner = some i;
  start = start;
  length = size;
  flags = alloc_flag;
}

module _ (t : Tinfo) (pid size alloc_flag start : ℕ) (v : IsValid t) where
  indices :
      (i j : ℕ) → Takes t pid i j → (find_index (runs_as pid) t.threads ≡ i) × (free_index t i ≡ j)
  indices i j k = (
    find_index-eq (runs_as pid) t.threads i no_thread (omega (arith, v.four, k.entry)) k.runs
        k.first_entry,
    find_index-eq is_free (thread_at t i).priv_areas j no_area
        (omega (arith, (v.each i k.entry).four, k.area)) k.free k.first_area,
  )

  pub gmalloc_lem :
      (flag i j : ℕ)
      → sibling_flag alloc_flag ≡ some flag
      → Takes t pid i j
      → start ≢ 0
      → gmalloc t pid size alloc_flag start
        ≡ outcome
            (some start)
            (with_area t i j (new_area i start size alloc_flag))
            (mmap size (prot_rw + flag) map_th_private ∷ [])
  unfolding gmalloc
  gmalloc_lem flag i j f k s =
      let e = indices i j k in
      let h = k.entry in let l = k.area in rw (gmalloc, f, e.0, e.1) (ground arith)

-- Why gmalloc calls nothing: it does not know the flag, the caller has no live entry, or the entry
-- that it takes has no free area.
abbrev pub Refuses : (t : Tinfo) (pid alloc_flag : ℕ) → Type 0
Refuses t pid alloc_flag =
    (sibling_flag alloc_flag ≡ none)
    ⊎ ((i : ℕ) → i < max_threads → runs_as pid (thread_at t i) ≡ false)
    ⊎ ((i : ℕ) × (i < max_threads)
        × (runs_as pid (thread_at t i) ≡ true)
        × ((j : ℕ) → j < max_galloc_areas → is_free (area_at (thread_at t i) j) ≡ false))

-- What gmalloc does, by cause.
pub data Allocates (t : Tinfo) (pid size alloc_flag start : ℕ) (r : Outcome) : Type 0 where
  refused :
      Refuses t pid alloc_flag → r ≡ outcome none t [] → Allocates t pid size alloc_flag start r
  no_memory :
      (flag : ℕ)
      → sibling_flag alloc_flag ≡ some flag
      → start ≡ 0
      → r ≡ outcome none t (mmap size (prot_rw + flag) map_th_private ∷ [])
      → Allocates t pid size alloc_flag start r
  allocated :
      (flag i j : ℕ)
      → sibling_flag alloc_flag ≡ some flag
      → Takes t pid i j
      → start ≢ 0
      → r
        ≡ outcome
            (some start)
            (with_area t i j (new_area i start size alloc_flag))
            (mmap size (prot_rw + flag) map_th_private ∷ [])
      → IsValid r.tinfo
      → Allocates t pid size alloc_flag start r

module _ (t : Tinfo) (pid size alloc_flag start : ℕ) (v : IsValid t) where
  abbrev entry : ℕ
  entry = find_index (runs_as pid) t.threads

  unknown_flag :
      sibling_flag alloc_flag ≡ none
      → Allocates t pid size alloc_flag start (gmalloc t pid size alloc_flag start)
  unfolding gmalloc
  unknown_flag e = refused (inl e) (ground arith)

  no_entry :
      (flag : ℕ)
      → sibling_flag alloc_flag ≡ some flag
      → entry ≡ max_threads
      → Allocates t pid size alloc_flag start (gmalloc t pid size alloc_flag start)
  unfolding gmalloc
  no_entry flag f e =
      refused
        (inr (inl (λ i l. find_index-first (runs_as pid) t.threads no_thread i (omega (arith, e)))))
        (rw (gmalloc, f) (ground arith))

  no_area_left :
      (flag : ℕ)
      → sibling_flag alloc_flag ≡ some flag
      → entry < max_threads
      → free_index t entry ≡ max_galloc_areas
      → Allocates t pid size alloc_flag start (gmalloc t pid size alloc_flag start)
  unfolding gmalloc
  no_area_left flag f l e =
      refused
        (inr (
          inr (
            entry,
            l,
            find_index-holds (runs_as pid) t.threads no_thread (omega (arith, v.four)),
            (λ j m.
                find_index-first is_free (thread_at t entry).priv_areas no_area j
                  (omega (arith, e))),
          )))
        (rw (gmalloc, f) (ground arith))

  found :
      (flag : ℕ)
      → sibling_flag alloc_flag ≡ some flag
      → entry < max_threads
      → free_index t entry < max_galloc_areas
      → Allocates t pid size alloc_flag start (gmalloc t pid size alloc_flag start)
  unfolding gmalloc
  found flag f l m = elim (ℕ_discrete start 0) [
    | yes z ↦ no_memory flag f z (rw (gmalloc, f) (ground arith))
    | no nz ↦
        let k : Takes t pid entry (free_index t entry) = record {
          entry = l;
          runs = find_index-holds (runs_as pid) t.threads no_thread (omega (arith, v.four));
          first_entry = λ i h. find_index-first (runs_as pid) t.threads no_thread i h;
          area = m;
          free =
              find_index-holds is_free (thread_at t entry).priv_areas no_area
                (omega (arith, (v.each entry l).four));
          first_area = λ i h. find_index-first is_free (thread_at t entry).priv_areas no_area i h;
        } in
        let e = gmalloc_lem t pid size alloc_flag start v flag entry (free_index t entry) f k nz in
        allocated flag entry (free_index t entry) f k nz e (
          rw e (
            with_area-IsValid t entry (free_index t entry) (new_area entry start size alloc_flag) v
              l (inr (refl, omega arith))))
  ]

pub gmalloc-Allocates :
    (t : Tinfo) (pid size alloc_flag start : ℕ)
    → IsValid t
    → Allocates t pid size alloc_flag start (gmalloc t pid size alloc_flag start)
gmalloc-Allocates t pid size alloc_flag start v = elim (Option-cases (sibling_flag alloc_flag)) [
  | inl e ↦ unknown_flag t pid size alloc_flag start v e
  | inr (flag, f) ↦ elim (ℕ_discrete (entry t pid size alloc_flag start v) max_threads) [
    | yes e ↦ no_entry t pid size alloc_flag start v flag f e
    | no ne ↦ live flag f (ground (arith, v.four, find_index-le (runs_as pid) t.threads))
  ]
]
  where
    live :
        (flag : ℕ)
        → sibling_flag alloc_flag ≡ some flag
        → entry t pid size alloc_flag start v < max_threads
        → Allocates t pid size alloc_flag start (gmalloc t pid size alloc_flag start)
    live flag f l =
        let i = entry t pid size alloc_flag start v in
        elim (ℕ_discrete (free_index t i) max_galloc_areas) [
          | yes e ↦ no_area_left t pid size alloc_flag start v flag f l e
          | no ne ↦
              found t pid size alloc_flag start v flag f l (
                ground (arith, (v.each i l).four, find_index-le is_free (thread_at t i).priv_areas))
        ]
