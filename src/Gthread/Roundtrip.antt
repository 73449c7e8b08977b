-- ===== src/Gthread/Roundtrip.antt =====
-- What gmalloc of gthread.c hands out and gfree takes back.
use building_gem_os_cs.Base.{
  ℕ, ◌<◌, ◌≡◌, ◌≢◌, refl, sym, ap, ◌∙◌, inl, inr, true, false, some, List, [], ◌∷◌, set, arith,
  length, length-set, get_or-set_self, get_or-set_ne, set-set_back, find_index, find_index-eq,
  find_index-none,
}
use building_gem_os_cs.Gthread.{
  Area, Thread, Tinfo, max_threads, max_galloc_areas, thread_at, area_at, no_thread, no_area,
  outcome, munmap, sibling_flag, is_free, with_area, gmalloc, starts_at, area_index, has_area,
  gfree,
}
use building_gem_os_cs.Gthread.Invariant.{IsValid}
use building_gem_os_cs.Gthread.Alloc.{Takes, new_area, gmalloc_lem}
use building_gem_os_cs.Gthread.Free.{IsFresh, gfree_lem}

has_area-fresh :
    (t : Tinfo) (ptr i : ℕ)
    → IsValid t
    → IsFresh t ptr
    → i < max_threads
    → has_area ptr (thread_at t i) ≡ false
has_area-fresh t ptr i v f l =
    let w = v.each i l in
    let e =
      find_index-none (starts_at ptr) (thread_at t i).priv_areas no_area
        (λ j m. let q = f i j l (omega (arith, w.four)) in ground arith) in
    ground (arith, w.four)

free-no_area :
    (t : Tinfo) (i j : ℕ)
    → IsValid t
    → i < max_threads
    → j < max_galloc_areas
    → is_free (area_at (thread_at t i) j) ≡ true
    → area_at (thread_at t i) j ≡ no_area
free-no_area t i j v l m f = elim ((v.each i l).areas j m) [
  | inl e ↦ e
  | inr (o, p) ↦ absurd (ground (arith, o, f))
]

module _ (t : Tinfo) (pid i j : ℕ) (a : Area) (v : IsValid t) (k : Takes t pid i j) where
  abbrev old : Thread
  old = thread_at t i

  abbrev filled : Tinfo
  filled = with_area t i j a

  abbrev filled_thread : Thread
  filled_thread = record old { priv_areas = set old.priv_areas j a }

  entry_len : i < length t.threads
  entry_len = let h = k.entry in omega (arith, v.four)

  area_len : j < length old.priv_areas
  area_len = let h = k.area in omega (arith, (v.each i k.entry).four)

  pub filled_at : thread_at filled i ≡ filled_thread
  filled_at = get_or-set_self t.threads i filled_thread no_thread entry_len

  pub filled_area : area_at filled_thread j ≡ a
  filled_area = get_or-set_self old.priv_areas j a no_area area_len

  area_index-filled : IsFresh t a.start → area_index a.start filled_thread ≡ j
  area_index-filled f =
      find_index-eq (starts_at a.start) filled_thread.priv_areas j no_area
        (rw (length-set old.priv_areas j a) area_len) (rw filled_area (ground arith))
        (λ m l.
          let n = k.area in
          let q = f i m k.entry (omega arith) in
          rw (get_or-set_ne old.priv_areas j m a no_area (omega arith)) (ground arith))

  entry_index-filled : IsFresh t a.start → find_index (has_area a.start) filled.threads ≡ i
  entry_index-filled f =
      let n = k.entry in
      find_index-eq (has_area a.start) filled.threads i no_thread
        (rw (length-set t.threads i filled_thread) entry_len)
        (rw (filled_at, area_index-filled f) (let n = k.area in ground arith))
        (λ m l.
          rw (get_or-set_ne t.threads i m filled_thread no_thread (omega arith))
            (has_area-fresh t a.start m v f (omega arith)))

  areas_back : set filled_thread.priv_areas j no_area ≡ old.priv_areas
  areas_back =
      ap (set (set old.priv_areas j a) j) (sym (free-no_area t i j v k.entry k.area k.free))
      ∙ set-set_back old.priv_areas j a no_area

  pub cleared-filled : with_area filled i j no_area ≡ t
  cleared-filled =
      ap
        (λ (h : Thread). record t {
          threads = set filled.threads i (record h { priv_areas = set h.priv_areas j no_area });
        })
        filled_at
      ∙ ap
          (λ (areas : List Area). record t {
            threads = set filled.threads i (record old { priv_areas = areas });
          })
          areas_back
      ∙ ap (λ (hs : List Thread). record t { threads = hs })
          (set-set_back t.threads i filled_thread no_thread)

  gfree-filled :
      IsFresh t a.start
      → a.owner ≡ some i
      → pid ≡ (thread_at t i).pid
      → gfree filled pid a.start true ≡ some (outcome (some 0) t (munmap a.start a.length ∷ []))
  gfree-filled f o p =
      gfree_lem filled pid a.start i j i k.entry (entry_index-filled f)
        (rw filled_at (area_index-filled f)) (rw (filled_at, filled_area) o) (rw filled_at (sym p))
      ∙ rw (cleared-filled, filled_at, filled_area) refl

-- What gmalloc hands out gfree takes back: if gmalloc knows the flag, the thread has an entry and a
-- free area, mmap returns an address other than NULL at which no area starts, then gfree of that
-- address by the same thread, munmap succeeding, returns 0, unmaps exactly what was mapped and leaves
-- the table as it was before.
pub gfree-gmalloc :
    (t : Tinfo) (pid size alloc_flag start flag i j : ℕ)
    → IsValid t
    → sibling_flag alloc_flag ≡ some flag
    → Takes t pid i j
    → start ≢ 0
    → IsFresh t start
    → gfree (gmalloc t pid size alloc_flag start).tinfo pid start true
      ≡ some (outcome (some 0) t (munmap start size ∷ []))
gfree-gmalloc t pid size alloc_flag start flag i j v e k s f =
    rw (gmalloc_lem t pid size alloc_flag start v flag i j e k s) (
      gfree-filled t pid i j (new_area i start size alloc_flag) v k f refl
        (let q = k.runs in ground arith))
