-- ===== src/Debug/Info.antt =====
-- do_info_breakpoints of debug.c.
use building_gem_os_cs.Base.{
  ℕ, zero, suc, ◌+◌, ◌≤◌, ◌<◌, ◌≡◌, ◌≢◌, refl, ◌∙◌, ◌⊎◌, inl, inr, List, [], ◌∷◌, arith, length,
  get_or,
}
use building_gem_os_cs.Debug.{
  Breakpoint, DebugInfo, UserArray, put, copy_breakpoints, do_info_breakpoints,
}
use building_gem_os_cs.Debug.Invariant.{IsValid}

count_lem :
    (bs : List Breakpoint) (i : ℕ) (ubp : UserArray) → (copy_breakpoints bs i ubp).0 ≡ i + length bs
unfolding copy_breakpoints
count_lem [] i ubp = omega arith
count_lem (b ∷ bs) i ubp = omega (arith, count_lem bs (i + 1) (put ubp i b))

put_ne : (ubp : UserArray) (i j : ℕ) (b : Breakpoint) → j ≢ i → put ubp i b j ≡ ubp j
put_ne ubp i j b h = ground arith

copy_other :
    (bs : List Breakpoint) (i : ℕ) (ubp : UserArray) (j : ℕ)
    → (j < i) ⊎ (i + length bs ≤ j)
    → (copy_breakpoints bs i ubp).1 j ≡ ubp j
unfolding copy_breakpoints
copy_other [] i ubp j h = refl
copy_other (b ∷ bs) i ubp j h =
    copy_other bs (i + 1) (put ubp i b) j (omega arith) ∙ put_ne ubp i j b (omega arith)

copy_at :
    (bs : List Breakpoint) (i : ℕ) (ubp : UserArray) (k : ℕ) (d : Breakpoint)
    → k < length bs
    → (copy_breakpoints bs i ubp).1 (i + k) ≡ get_or bs k d
unfolding copy_breakpoints
copy_at [] i ubp k d h = absurd (omega arith)
copy_at (b ∷ bs) i ubp zero d h =
    copy_other bs (i + 1) (put ubp i b) (i + 0) (inl (omega arith)) ∙ ground arith
copy_at (b ∷ bs) i ubp (suc k) d h =
    let e : i + suc k ≡ i + 1 + k = omega arith in
    rw e (copy_at bs (i + 1) (put ubp i b) k d (omega arith))

-- The call returns the number of breakpoints, at most MAX_BREAKPOINTS, and puts them in order into
-- the first elements of the array, of which it changes no other.
pub do_info_breakpoints_lem :
    (d : DebugInfo) (ubp : UserArray)
    → IsValid d
    → let (n, array) = do_info_breakpoints d ubp in
      (n ≡ d.breakpoint_count)
      × (n ≤ 8)
      × ((k : ℕ) (none : Breakpoint) → k < n → array k ≡ get_or d.head k none)
      × ((j : ℕ) → n ≤ j → array j ≡ ubp j)
unfolding do_info_breakpoints
do_info_breakpoints_lem d ubp v =
    let c = count_lem d.head 0 ubp in
    (
      omega (arith, c, v.count),
      omega (arith, c, v.count, v.few),
      (λ k b h.
          let e : 0 + k ≡ k = omega arith in
          rw e at (copy_at d.head 0 ubp k b (omega (arith, c, h)))),
      (λ j h. copy_other d.head 0 ubp j (inr (omega (arith, c, h)))),
    )
