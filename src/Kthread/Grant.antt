-- ===== src/Kthread/Grant.antt =====
-- When handle_thread_private_fault grants an access, and what it then maps.
use building_gem_os_cs.Base.{
  ℕ, zero, suc, ◌+◌, ◌%◌, ◌^◌, ◌<◌, ◌≡◌, ◌≢◌, refl, ap, ◌∙◌, bit_and, true, false, Option, none,
  some, List, ◌∷◌, ◌==◌, get_or, find_index, length, arith, Bool-cases, ◌⊎◌, inl, inr,
}
use building_gem_os_cs.Kthread.{
  max_threads, max_private_areas, th_unused, tp_siblings_noaccess, tp_siblings_rdonly, Frames,
  Thread,
}
use building_gem_os_cs.Kthread.Walk.{
  offset_l1, offset_l2, offset_l3, offset_l4, is_present, pfn_of, entry_of, follow, find_l4,
}
use building_gem_os_cs.Kthread.Fault.{
  Context, holds, search, free_map, free_thread, is_allowed, enter_level, NewFrames, map_page,
  Fault, segfault, fixed, fix, respond, handle_thread_private_fault,
}

-- The first area that holds the address is number `j` of thread `i`, and all threads up to it are used.
pub data InArea (addr : ℕ) : List Thread → ℕ → ℕ → Type 0 where
  here :
      {t : Thread} {ts : List Thread} {j : ℕ}
      → t.status ≢ th_unused
      → find_index (holds addr) t.private_mappings ≡ j
      → j ≢ max_private_areas
      → InArea addr (t ∷ ts) zero j
  there :
      {t : Thread} {ts : List Thread} {i j : ℕ}
      → t.status ≢ th_unused
      → find_index (holds addr) t.private_mappings ≡ max_private_areas
      → InArea addr ts i j
      → InArea addr (t ∷ ts) (suc i) j

search-InArea :
    (addr k : ℕ) (o : Option ℕ) {ts : List Thread} {i j : ℕ}
    → InArea addr ts i j
    → (search addr k o ts ≡ (k + i, some j)) × (i < length ts) × (j ≢ max_private_areas)
unfolding search
search-InArea addr k o (here {t = t} {ts = ts} {j = j} u e n) =
    let a : (t.status == th_unused) ≡ false = ground arith in
    let b : (j == max_private_areas) ≡ false = ground arith in
    (rw (a, e, b) (ground arith), omega arith, n)
search-InArea addr k o (there {t = t} {ts = ts} {i = i} {j = j} u e h) =
    let a : (t.status == th_unused) ≡ false = ground arith in
    let r = search-InArea addr (k + 1) (some max_private_areas) h in
    (rw (a, e, r.0) (ground arith), omega (arith, r.1), r.2)

enter_level_lem :
    (m : Frames) (f o new : ℕ)
    → new < 2 ^ 20
    → follow ((enter_level m f o new).1 f o) ≡ some (enter_level m f o new).0
unfolding enter_level
enter_level_lem m f o new h = elim (Bool-cases (is_present (m f o))) [
  | inl e ↦ rw (e, e) refl
  | inr e ↦
      let p : is_present (entry_of new 7) ≡ true = ground arith in
      let q : pfn_of (entry_of new 7) ≡ new = omega arith in rw e (ground (arith, p, q))
]

enter_level_other :
    (m : Frames) (f o new g q : ℕ) → (g ≡ f → q ≢ o) → (enter_level m f o new).1 g q ≡ m g q
unfolding enter_level
enter_level_other m f o new g q h = elim (Bool-cases (is_present (m f o))) [
  | inl e ↦ rw e refl
  | inr e ↦ rw e (elim (Bool-cases (g == f)) [
    | inl y ↦ let y' : g ≡ f = ground arith in let n = h y' in rw y' (ground (arith, n))
    | inr y ↦ rw y refl
  ])
]

-- The levels of a mapping one after the other: the frames that they lead to and the tables behind them.
module _ (m : Frames) (pgd addr : ℕ) (new : NewFrames) where
  abbrev pub level2 : ℕ × Frames
  level2 = enter_level m pgd (offset_l1 addr) new.new2

  abbrev pub level3 : ℕ × Frames
  level3 = enter_level level2.1 level2.0 (offset_l2 addr) new.new3

  abbrev pub level4 : ℕ × Frames
  level4 = enter_level level3.1 level3.0 (offset_l3 addr) new.new4

  abbrev pub page : ℕ × Frames
  page = enter_level level4.1 level4.0 (offset_l4 addr) new.user

  -- New frames lie below 4 GiB, and the four tables of the address, old or new, are distinct.
  pub record IsTree : Type 0 where
    pub small2 : new.new2 < 2 ^ 20
    pub small3 : new.new3 < 2 ^ 20
    pub small4 : new.new4 < 2 ^ 20
    pub small : new.user < 2 ^ 20
    pub apart1 : (pgd ≢ level2.0) × (pgd ≢ level3.0) × (pgd ≢ level4.0)
    pub apart2 : (level2.0 ≢ level3.0) × (level2.0 ≢ level4.0)
    pub apart3 : level3.0 ≢ level4.0

  -- The tables lead from the root to a present page, and only entries on this way have changed.
  pub record Mapped (m' : Frames) : Type 0 where
    pub table : ℕ
    pub leads : find_l4 m' pgd addr ≡ some table
    pub frame : ℕ
    pub present : follow (m' table (offset_l4 addr)) ≡ some frame
    pub others :
        (f o : ℕ)
        → (f ≡ pgd → o ≢ offset_l1 addr)
        → (f ≡ level2.0 → o ≢ offset_l2 addr)
        → (f ≡ level3.0 → o ≢ offset_l3 addr)
        → (f ≡ level4.0 → o ≢ offset_l4 addr)
        → m' f o ≡ m f o

  module _ (h : IsTree) where
    -- An entry of a table that is not that of a later level stays.
    keep3 : (f o : ℕ) → f ≢ level4.0 → page.1 f o ≡ level4.1 f o
    keep3 f o n =
        enter_level_other level4.1 level4.0 (offset_l4 addr) new.user f o (λ e. absurd (n e))

    keep2 : (f o : ℕ) → f ≢ level3.0 → f ≢ level4.0 → page.1 f o ≡ level3.1 f o
    keep2 f o n k =
        keep3 f o k
        ∙ enter_level_other level3.1 level3.0 (offset_l3 addr) new.new4 f o (λ e. absurd (n e))

    keep1 : (f o : ℕ) → f ≢ level2.0 → f ≢ level3.0 → f ≢ level4.0 → page.1 f o ≡ level2.1 f o
    keep1 f o n k l =
        keep2 f o k l
        ∙ enter_level_other level2.1 level2.0 (offset_l2 addr) new.new3 f o (λ e. absurd (n e))

    leads_lem : find_l4 page.1 pgd addr ≡ some level4.0
    unfolding find_l4
    leads_lem =
        let a = keep1 pgd (offset_l1 addr) h.apart1.0 h.apart1.1 h.apart1.2 in
        let a' = enter_level_lem m pgd (offset_l1 addr) new.new2 h.small2 in
        let b = keep2 level2.0 (offset_l2 addr) h.apart2.0 h.apart2.1 in
        let b' = enter_level_lem level2.1 level2.0 (offset_l2 addr) new.new3 h.small3 in
        let c = keep3 level3.0 (offset_l3 addr) h.apart3 in
        let c' = enter_level_lem level3.1 level3.0 (offset_l3 addr) new.new4 h.small4 in
        rw (ap follow a ∙ a', ap follow b ∙ b') (ap follow c ∙ c')

    map_page-Mapped : Mapped (map_page m pgd addr new)
    unfolding map_page
    map_page-Mapped = record {
      table = level4.0;
      leads = leads_lem;
      frame = page.0;
      present = enter_level_lem level4.1 level4.0 (offset_l4 addr) new.user h.small;
      others = λ f o a b c d.
          enter_level_other level4.1 level4.0 (offset_l4 addr) new.user f o d
          ∙ enter_level_other level3.1 level3.0 (offset_l3 addr) new.new4 f o c
          ∙ enter_level_other level2.1 level2.0 (offset_l2 addr) new.new3 f o b
          ∙ enter_level_other m pgd (offset_l1 addr) new.new2 f o a;
    }

-- Who may touch a page of an area: its thread, the process, and a sibling as the flags say. What counts
-- as a write is bit 0 of the error code, PF_ERROR_PRESENT, not PF_ERROR_WR.
abbrev pub Permitted : (current th : Context) → (flags error_code : ℕ) → Type 0
Permitted current th flags error_code =
    (th.pid ≡ current.pid)
    ⊎ ((th.ppid ≡ current.pid)
        ⊎ ((bit_and flags 0x70 ≢ tp_siblings_noaccess)
            × (bit_and flags 0x70 ≡ tp_siblings_rdonly → error_code % 2 ≡ 0)))

is_allowed-Permitted :
    (current th : Context) (flags error_code : ℕ)
    → is_allowed current th flags error_code ≡ true
    → Permitted current th flags error_code
unfolding is_allowed
is_allowed-Permitted current th flags error_code e = elim (Bool-cases (th.pid == current.pid)) [
  | inl a ↦ inl (ground arith)
  | inr a ↦ elim (Bool-cases (th.ppid == current.pid)) [
    | inl b ↦ inr (inl (ground arith))
    | inr b ↦ inr (inr (λ n. ground arith, λ r. ground arith))
  ]
]

Permitted-is_allowed :
    (current th : Context) (flags error_code : ℕ)
    → Permitted current th flags error_code
    → is_allowed current th flags error_code ≡ true
unfolding is_allowed
Permitted-is_allowed current th flags error_code (inl a) = ground arith
Permitted-is_allowed current th flags error_code (inr (inl b)) = ground arith
Permitted-is_allowed current th flags error_code (inr (inr (n, r))) = ground arith

abbrev pub Decided :
    (current th : Context) (flags addr error_code : ℕ) → NewFrames → Frames → Option Fault → Type 0
Decided current th flags addr error_code new m r =
    (Permitted current th flags error_code
      × (m' : Frames) × (r ≡ some (fixed m'))
      × Mapped m current.pgd addr new m')
    ⊎ ((¬ (Permitted current th flags error_code)) × (r ≡ some segfault))

handler-fix :
    (current : Context) (ctx_by_pid : ℕ → Context) (threads : List Thread) (addr error_code : ℕ)
    (new : NewFrames) (m : Frames) (i j : ℕ)
    → length threads ≡ max_threads
    → InArea addr threads i j
    → handle_thread_private_fault current ctx_by_pid threads addr error_code new m
      ≡ some (fix current ctx_by_pid threads addr error_code new m i j)
unfolding handle_thread_private_fault respond
handler-fix current ctx_by_pid threads addr error_code new m i j l h =
    let (e, a, b) = search-InArea addr 0 none h in
    let z : 0 + i ≡ i = omega arith in
    let x : (i == max_threads) ≡ false = ground arith in
    let y : (j == max_private_areas) ≡ false = ground arith in
    let e' : search addr 0 none threads ≡ (i, some j) = rw z at e in rw (e', x, y) refl

-- The table has MAX_THREADS threads, the first area that holds the address is one of a used thread
-- with none but used threads before it, and the tables of the address, old or new, are distinct. If
-- the thread, the process or a sibling that the flags let pass makes the access, the handler returns 1
-- and the tables then lead from the root to a present page, with no entry changed but those on this
-- way; else it ends the process by segfault_exit. A sibling passes unless the flags say no access, or
-- say read only and bit 0 of the error code is set; this is the bit of a present page and not that of
-- a write, so that a sibling's first write to a read-only page is granted.
pub handle_thread_private_fault-Decided :
    (current : Context) (ctx_by_pid : ℕ → Context) (threads : List Thread) (addr error_code : ℕ)
    (new : NewFrames) (m : Frames) (i j : ℕ)
    → length threads ≡ max_threads
    → InArea addr threads i j
    → IsTree m current.pgd addr new
    → let th = get_or threads i free_thread in
      Decided current
        (ctx_by_pid th.pid)
        (get_or th.private_mappings j free_map).flags
        addr
        error_code
        new
        m
        (handle_thread_private_fault current ctx_by_pid threads addr error_code new m)
unfolding fix
handle_thread_private_fault-Decided current ctx_by_pid threads addr error_code new m i j l h tree =
    let th = get_or threads i free_thread in
    let flags = (get_or th.private_mappings j free_map).flags in
    let c = ctx_by_pid th.pid in
    let e = handler-fix current ctx_by_pid threads addr error_code new m i j l h in
    elim (Bool-cases (is_allowed current c flags error_code)) [
      | inl a ↦ inl (
        is_allowed-Permitted current c flags error_code a,
        map_page m current.pgd addr new,
        e ∙ rw (fix, a) refl,
        map_page-Mapped m current.pgd addr new tree,
      )
      | inr a ↦ inr (
        λ p. let t = Permitted-is_allowed current c flags error_code p in ground (arith, a, t),
        e ∙ rw (fix, a) refl,
      )
    ]
