-- ===== src/Kthread/Pages.antt =====
-- What do_page_walk does to the pages of an area.
use building_gem_os_cs.Base.{ℕ, ◌+◌, ◌*◌, ◌%◌, ◌^◌, ◌<◌, ◌≤◌, ◌≡◌, ◌≢◌, Bool, true, false, some}
use building_gem_os_cs.Kthread.{Frames}
use building_gem_os_cs.Kthread.Walk.{
  page_size, offset_l1, offset_l2, offset_l3, offset_l4, pfn_of, entry_of, follow, access_bits,
  write_entry,
}

-- The tables of the upper levels lead to a table of the last level, which is none of them.
pub record Leads (upper : ℕ → Bool) (m : Frames) (pgd addr pfn4 : ℕ) : Type 0 where
  pub pfn2 : ℕ
  pub pfn3 : ℕ
  pub top : upper pgd ≡ true
  pub step1 : follow (m pgd (offset_l1 addr)) ≡ some pfn2
  pub upper2 : upper pfn2 ≡ true
  pub step2 : follow (m pfn2 (offset_l2 addr)) ≡ some pfn3
  pub upper3 : upper pfn3 ≡ true
  pub step3 : follow (m pfn3 (offset_l3 addr)) ≡ some pfn4
  pub leaf : upper pfn4 ≡ false

abbrev pub page_at : (start i : ℕ) → ℕ
page_at start i = (start + i * page_size) % 2 ^ 64

-- The area of `n` pages from `start` on has tables: `frame i` is that with the entry of page `i`, and
-- no two pages have the same entry.
pub record HasTables (upper : ℕ → Bool) (m : Frames) (pgd start n : ℕ) (frame : ℕ → ℕ)
    : Type 0 where
  pub leads : (i : ℕ) → i < n → Leads upper m pgd (page_at start i) (frame i)
  pub apart :
      (i j : ℕ)
      → i < j
      → j < n
      → frame i ≡ frame j
      → offset_l4 (page_at start i) ≢ offset_l4 (page_at start j)

abbrev pub entry_at : Frames → (start : ℕ) → (ℕ → ℕ) → ℕ → ℕ
entry_at m start frame i = m (frame i) (offset_l4 (page_at start i))

-- The pages `i` to `k - 1` have the bits, over the frames that they had, and no other entry of any
-- table has changed.
pub record Walked (bits start : ℕ) (frame : ℕ → ℕ) (i k : ℕ) (m m' : Frames) : Type 0 where
  pub set :
      (j : ℕ)
      → i ≤ j
      → j < k
      → entry_at m' start frame j ≡ entry_of (pfn_of (entry_at m start frame j)) bits
  pub others :
      (f o : ℕ)
      → ((j : ℕ) → i ≤ j → j < k → f ≡ frame j → o ≢ offset_l4 (page_at start j))
      → m' f o ≡ m f o

module _ (upper : ℕ → Bool) (flags cur pgd start n : ℕ) (frame : ℕ → ℕ) where
  abbrev stepped : Frames → ℕ → Frames
  stepped m i =
      write_entry m (frame i) (offset_l4 (page_at start i))
        (entry_of (pfn_of (entry_at m start frame i)) (access_bits flags cur))
