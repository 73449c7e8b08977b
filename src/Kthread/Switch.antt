-- ===== src/Kthread/Switch.antt =====
-- handle_private_ctxswitch of clone_threads.c (Assignment-4/gemOS/src).
use building_gem_os_cs.Base.{
  ℕ, zero, suc, ◌+◌, not, ◌&&◌, Option, none, some, List, [], ◌∷◌, ◌==◌, if◌then◌else◌, get_or,
}
use building_gem_os_cs.Base.Partial.{◌>>=◌}
use building_gem_os_cs.Kthread.{max_private_areas, th_used, Frames, PrivateMap, Thread}
use building_gem_os_cs.Kthread.Walk.{do_page_walk}
use building_gem_os_cs.Kthread.Fault.{is_owned, free_map}

-- The last thread with the pid: the loop does not stop at the first.
abbrev pub last_with_pid : (pid : ℕ) → Option Thread → List Thread → Option Thread
last_with_pid pid found [] = found
last_with_pid pid found (t ∷ ts) = last_with_pid pid (if t.pid == pid then some t else found) ts

-- `if (map.owner != NULL) do_page_walk(pgd, map, cur)`
abbrev pub walk_owned : (pgd : ℕ) → PrivateMap → (cur : ℕ) → Frames → Frames
walk_owned pgd map cur m = if is_owned map.owner then do_page_walk pgd map cur m else m

abbrev pub area_of : Thread → ℕ → PrivateMap
area_of t i = get_or t.private_mappings i free_map

-- The inner loop: area `i` of every used thread but the next.
unfoldable pub close_areas : (pgd next_pid i : ℕ) → List Thread → Frames → Frames
close_areas pgd next_pid i [] m = m
close_areas pgd next_pid i (t ∷ ts) m =
    close_areas pgd next_pid i ts (
      if not (t.pid == next_pid) && t.status == th_used
      then walk_owned pgd (area_of t i) 1 m
      else m)

-- A round of the second loop, for area `i`: `none` where it reads through `nth`, which is NULL.
unfoldable pub switch_area :
    (current_pgd next_pgd i : ℕ) → List Thread → (cth nth : Option Thread) → Frames → Option Frames
switch_area cpgd npgd i ts (some c) (some n) m =
    some (walk_owned npgd (area_of n i) 0 (walk_owned cpgd (area_of c i) 1 m))
switch_area cpgd npgd i ts (some c) none m = some m
switch_area cpgd npgd i ts none (some n) m =
    some (walk_owned npgd (area_of n i) 0 (close_areas cpgd n.pid i ts m))
switch_area cpgd npgd i ts none none m = none

unfoldable pub switch_areas :
    (current_pgd next_pgd i left : ℕ)
    → List Thread
    → (cth nth : Option Thread) → Frames
    → Option Frames
switch_areas cpgd npgd i zero ts cth nth m = some m
switch_areas cpgd npgd i (suc left) ts cth nth m = do
  m' ← switch_area cpgd npgd i ts cth nth m
  switch_areas cpgd npgd (i + 1) left ts cth nth m'

unfoldable pub handle_private_ctxswitch :
    (current_pid current_pgd next_pid next_pgd : ℕ) → List Thread → Frames → Option Frames
handle_private_ctxswitch current_pid current_pgd next_pid next_pgd ts m =
    switch_areas current_pgd next_pgd 0 max_private_areas ts (last_with_pid current_pid none ts)
      (last_with_pid next_pid none ts) m
