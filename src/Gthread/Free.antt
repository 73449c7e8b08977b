-- ===== src/Gthread/Free.antt =====
-- gfree of gthread.c.
use building_gem_os_cs.Base.{
  ℕ, ◌<◌, ◌≡◌, ◌≢◌, refl, sym, ap, ◌∙◌, ◌⊎◌, inl, inr, Bool, true, false, Option, none, some, [],
  ◌∷◌, arith, find_index, find_index-le, find_index-holds, find_index-first, ℕ_discrete,
}
use building_gem_os_cs.Gthread.{
  Area, Tinfo, max_threads, max_galloc_areas, thread_at, area_at, no_thread, no_area, Outcome,
  outcome, munmap, with_area, starts_at, area_index, has_area, gfree,
}
use building_gem_os_cs.Gthread.Invariant.{IsValid, with_area-IsValid}

-- No area of the table starts at the address.
abbrev pub IsFresh : Tinfo → ℕ → Type 0
IsFresh t ptr =
    (i j : ℕ) → i < max_threads → j < max_galloc_areas → (area_at (thread_at t i) j).start ≢ ptr

pub gfree_lem :
    (t : Tinfo) (pid ptr i j k : ℕ)
    → i < max_threads
    → find_index (has_area ptr) t.threads ≡ i
    → area_index ptr (thread_at t i) ≡ j
    → (area_at (thread_at t i) j).owner ≡ some k
    → (thread_at t k).pid ≡ pid
    → gfree t pid ptr true
      ≡ some (
          outcome
            (some 0)
            (with_area t i j no_area)
            (munmap ptr (area_at (thread_at t i) j).length ∷ []))
unfolding gfree
gfree_lem t pid ptr i j k l e f o p = rw (gfree, e, f, o, p) (ground arith)

module _ (t : Tinfo) (pid ptr : ℕ) (v : IsValid t) where
  abbrev entry : ℕ
  entry = find_index (has_area ptr) t.threads

  abbrev slot : ℕ
  slot = area_index ptr (thread_at t entry)

  slot-lt : entry < max_threads → slot < max_galloc_areas
  slot-lt l =
      let h = find_index-holds (has_area ptr) t.threads no_thread (omega (arith, v.four)) in
      let n = find_index-le (starts_at ptr) (thread_at t entry).priv_areas in
      ground (arith, (v.each entry l).four)

  start-slot : entry < max_threads → (area_at (thread_at t entry) slot).start ≡ ptr
  start-slot l =
      let m = slot-lt l in
      let h =
        find_index-holds (starts_at ptr) (thread_at t entry).priv_areas no_area
          (omega (arith, (v.each entry l).four)) in
      ground arith

  -- The area that is found has an owner if it is not at NULL, and none otherwise.
  owner-slot :
      entry < max_threads
      → ((ptr ≡ 0) × (area_at (thread_at t entry) slot ≡ no_area))
        ⊎ ((ptr ≢ 0) × ((area_at (thread_at t entry) slot).owner ≡ some entry))
  owner-slot l =
      let s = start-slot l in
      elim ((v.each entry l).areas slot (slot-lt l)) [
        | inl e ↦ inl (sym s ∙ ap (λ (a : Area). a.start) e, e)
        | inr (o, p) ↦ inr ((λ z. omega (arith, s, p, z)), o)
      ]

-- What gfree does, by cause; `none` is a fault.
pub data Frees (t : Tinfo) (pid ptr : ℕ) : Bool → Option Outcome → Type 0 where
  unknown : {u : Bool} → IsFresh t ptr → Frees t pid ptr u (some (outcome none t []))
  faults :
      {u : Bool} (i j : ℕ)
      → i < max_threads
      → j < max_galloc_areas
      → ptr ≡ 0
      → area_at (thread_at t i) j ≡ no_area
      → Frees t pid ptr u none
  denied :
      {u : Bool} (i j : ℕ)
      → i < max_threads
      → j < max_galloc_areas
      → (area_at (thread_at t i) j).start ≡ ptr
      → (thread_at t i).pid ≢ pid
      → Frees t pid ptr u (some (outcome none t []))
  kept :
      (i j : ℕ)
      → i < max_threads
      → j < max_galloc_areas
      → (area_at (thread_at t i) j).start ≡ ptr
      → (thread_at t i).pid ≡ pid
      → Frees t pid ptr false
          (some (outcome none t (munmap ptr (area_at (thread_at t i) j).length ∷ [])))
  freed :
      (i j : ℕ)
      → i < max_threads
      → j < max_galloc_areas
      → (area_at (thread_at t i) j).start ≡ ptr
      → (thread_at t i).pid ≡ pid
      → IsValid (with_area t i j no_area)
      → Frees t pid ptr true (
          some (
            outcome
              (some 0)
              (with_area t i j no_area)
              (munmap ptr (area_at (thread_at t i) j).length ∷ [])))

module _ (t : Tinfo) (pid ptr : ℕ) (v : IsValid t) where
  not_found-IsFresh : find_index (has_area ptr) t.threads ≡ max_threads → IsFresh t ptr
  not_found-IsFresh e i j l m s =
      let w = v.each i l in
      let h = find_index-first (has_area ptr) t.threads no_thread i (omega (arith, e)) in
      let n = find_index-le (starts_at ptr) (thread_at t i).priv_areas in
      let q : j < area_index ptr (thread_at t i) = ground (arith, w.four) in
      let r = find_index-first (starts_at ptr) (thread_at t i).priv_areas no_area j q in
      ground arith

  owned_lem :
      (u : Bool)
      → entry t pid ptr v < max_threads
      → ptr ≢ 0
      → (area_at (thread_at t (entry t pid ptr v)) (slot t pid ptr v)).owner
        ≡ some (entry t pid ptr v)
      → Frees t pid ptr u (gfree t pid ptr u)
  unfolding gfree
  owned_lem u l z o =
      let i = entry t pid ptr v in
      let j = slot t pid ptr v in
      let m = slot-lt t pid ptr v l in
      let s = start-slot t pid ptr v l in
      elim (ℕ_discrete (thread_at t i).pid pid) [
        | no ne ↦
            let r : gfree t pid ptr u ≡ some (outcome none t []) = rw (gfree, o) (ground arith) in
            rw r (denied i j l m s ne)
        | yes p ↦ elim u as (λ b. Frees t pid ptr b (gfree t pid ptr b)) [
          | true ↦
              rw (gfree_lem t pid ptr i j i l refl refl o p)
                (freed i j l m s p (with_area-IsValid t i j no_area v l (inl refl)))
          | false ↦
              let r : gfree t pid ptr false
                  ≡ some (outcome none t (munmap ptr (area_at (thread_at t i) j).length ∷ [])) =
                rw (gfree, o) (ground arith) in
              rw r (kept i j l m s p)
        ]
      ]

-- gfree does one of five things. If no area starts at the pointer, or the thread whose area does has
-- another pid, it fails and calls nothing; if munmap fails it fails; these times the table is not
-- changed. It faults only on NULL, which it finds in an area that is cleared. Else it unmaps the
-- area with its length, clears it and changes nothing else, and the table stays well formed.
pub gfree-Frees :
    (t : Tinfo) (pid ptr : ℕ) (u : Bool) → IsValid t → Frees t pid ptr u (gfree t pid ptr u)
unfolding gfree
gfree-Frees t pid ptr u v = elim (ℕ_discrete (entry t pid ptr v) max_threads) [
  | yes e ↦
      let r : gfree t pid ptr u ≡ some (outcome none t []) = ground arith in
      rw r (unknown (not_found-IsFresh t pid ptr v e))
  | no ne ↦ by_owner (ground (arith, v.four, find_index-le (has_area ptr) t.threads))
]
  where
    by_owner : entry t pid ptr v < max_threads → Frees t pid ptr u (gfree t pid ptr u)
    by_owner l = elim (owner-slot t pid ptr v l) [
      | inl (z, e) ↦
          let o : (area_at (thread_at t (entry t pid ptr v)) (slot t pid ptr v)).owner ≡ none =
            ap (λ (a : Area). a.owner) e in
          let r : gfree t pid ptr u ≡ none = rw (gfree, o) (ground arith) in
          rw r (faults (entry t pid ptr v) (slot t pid ptr v) l (slot-lt t pid ptr v l) z e)
      | inr (z, o) ↦ owned_lem t pid ptr v u l z o
    ]
