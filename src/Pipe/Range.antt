-- ===== src/Pipe/Range.antt =====
-- is_valid_mem_range of pipe.c: the first region that holds the whole buffer decides.
use building_gem_os_cs.Base.{
  ℕ, ◌+◌, ◌≤◌, ◌≡◌, Bool, true, ◌&&◌, Option, none, some, List, [], ◌∷◌, ◌++◌, ◌==◌, leb,
  if◌then◌else◌,
}
use building_gem_os_cs.Kernel.{MmSegment, VmArea, Context}
use building_gem_os_cs.Pipe.{permits, mm_seg_stack}

-- A range of addresses, both ends included, with its access flags.
pub record Region : Type 0 where
  pub first : ℕ
  pub last : ℕ
  pub flags : ℕ

-- A segment reaches to `next_free`, but the stack to `end`.
pub segments : ℕ → List MmSegment → List Region
segments i [] = []
segments i (s ∷ ss) =
    record {
      first = s.start;
      last = if i == mm_seg_stack then s.end else s.next_free;
      flags = s.access_flags;
    }
    ∷ segments (i + 1) ss

pub areas : List VmArea → List Region
areas [] = []
areas (a ∷ as') = record { first = a.vm_start; last = a.vm_end; flags = a.access_flags } ∷ areas as'

pub regions : Context → List Region
regions ctx = segments 0 ctx.mms ++ areas ctx.vm_area

abbrev pub Holds : (buff last : ℕ) → Region → Type 0
Holds buff last r = (r.first ≤ buff) × (last ≤ r.last)

-- The first region of the list that holds `[buff, last]` grants the access.
pub data Grants (buff last bit : ℕ) : List Region → Type 0 where
  here :
      {r : Region} {rs : List Region}
      → Holds buff last r
      → permits bit r.flags ≡ true
      → Grants buff last bit (r ∷ rs)
  there :
      {r : Region} {rs : List Region}
      → ¬ Holds buff last r
      → Grants buff last bit rs
      → Grants buff last bit (r ∷ rs)

module _ (buff last bit : ℕ) where
  search_regions : List Region → Option Bool
  search_regions [] = none
  search_regions (r ∷ rs) =
      if leb r.first buff && leb last r.last then some (permits bit r.flags) else search_regions rs

  or_else : Option Bool → Option Bool → Option Bool
  or_else none s = s
  or_else (some b) s = some b
