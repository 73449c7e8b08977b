-- ===== src/Kthread/Walk.antt =====
-- do_page_walk of clone_threads.c (Assignment-4/gemOS/src).
use building_gem_os_cs.Base.{
  ℕ, zero, suc, ◌+◌, ◌*◌, ◌/◌, ◌%◌, ◌^◌, bit_and, Bool, ◌&&◌, Option, none, some, ◌==◌,
  if◌then◌else◌,
}
use building_gem_os_cs.Base.Partial.{◌>>=◌, put}
use building_gem_os_cs.Kthread.{Frames, PrivateMap, tp_siblings_noaccess, tp_siblings_rdonly}

abbrev pub page_size : ℕ
page_size = 4096

-- `0x1FF & (addr >> PGD_SHIFT)` and so on, with the shifts 39, 30, 21 and 12
abbrev pub offset_l1 : ℕ → ℕ
offset_l1 addr = addr / 2 ^ 39 % 512

abbrev pub offset_l2 : ℕ → ℕ
offset_l2 addr = addr / 2 ^ 30 % 512

abbrev pub offset_l3 : ℕ → ℕ
offset_l3 addr = addr / 2 ^ 21 % 512

abbrev pub offset_l4 : ℕ → ℕ
offset_l4 addr = addr / 2 ^ 12 % 512

-- `entry & 1`
abbrev pub is_present : ℕ → Bool
is_present entry = entry % 2 == 1

-- `entry >> PTE_SHIFT`, as a `u32`
abbrev pub pfn_of : ℕ → ℕ
pfn_of entry = entry / 2 ^ 12 % 2 ^ 32

-- `(pfn << PTE_SHIFT) | bits`, with a `u32` shifted
abbrev pub entry_of : (pfn bits : ℕ) → ℕ
entry_of pfn bits = pfn * 2 ^ 12 % 2 ^ 32 + bits

-- the frame that an entry leads to
abbrev pub follow : ℕ → Option ℕ
follow entry = if is_present entry then some (pfn_of entry) else none

-- The frame of the last level for an address; `none` where the walk returns before it.
unfoldable pub find_l4 : Frames → (pgd addr : ℕ) → Option ℕ
find_l4 m pgd addr = do
  pfn2 ← follow (m pgd (offset_l1 addr))
  pfn3 ← follow (m pfn2 (offset_l2 addr))
  follow (m pfn3 (offset_l3 addr))

-- the permissions that a page of a private area gets
unfoldable pub access_bits : (flags cur : ℕ) → ℕ
access_bits flags cur =
    let access = bit_and flags 0x70 in
    if access == tp_siblings_noaccess && cur == 1
    then 0x1
    else if access == tp_siblings_rdonly && cur == 1
    then 0x5
    else 0x7

abbrev pub write_entry : Frames → (pfn offset value : ℕ) → Frames
write_entry m pfn offset value = put m pfn (put (m pfn) offset value)

-- One round of the loop: the state behind it, or `none` where the function returns.
unfoldable pub walk_page : (flags cur pgd addr : ℕ) → Frames → Option Frames
walk_page flags cur pgd addr m = do
  pfn4 ← find_l4 m pgd addr
  data_pfn ← follow (m pfn4 (offset_l4 addr))
  some (write_entry m pfn4 (offset_l4 addr) (entry_of data_pfn (access_bits flags cur)))

-- The loop over the pages from number `i` on, with the number of those left.
unfoldable pub walk_pages : (flags cur pgd start i left : ℕ) → Frames → Frames
walk_pages flags cur pgd start i zero m = m
walk_pages flags cur pgd start i (suc left) m =
    elim (walk_page flags cur pgd ((start + i * page_size) % 2 ^ 64) m) [
      | none ↦ m
      | some m' ↦ walk_pages flags cur pgd start (i + 1) left m'
    ]

unfoldable pub do_page_walk : (pgd : ℕ) → PrivateMap → (cur : ℕ) → Frames → Frames
do_page_walk pgd map cur m =
    walk_pages map.flags cur pgd map.start_addr 0 (map.length / page_size) m
