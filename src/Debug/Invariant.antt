-- ===== src/Debug/Invariant.antt =====
-- The well-formedness of the breakpoint list of debug.c.
use building_gem_os_cs.Base.{ℕ, ◌≤◌, ◌<◌, ◌≡◌, ◌≢◌, List, [], ◌∷◌, ◌++◌, arith, length, All}
use building_gem_os_cs.Debug.{Breakpoint, DebugInfo, max_breakpoints}

-- The numbers rise along the list, from above `low` to at most `high`.
abbrev pub Rises : (low high : ℕ) → List Breakpoint → Type 0
Rises low high [] = low ≤ high
Rises low high (b ∷ bs) = (low < b.num) × Rises b.num high bs

-- No two breakpoints have one address.
abbrev pub IsDistinct : List Breakpoint → Type 0
IsDistinct [] = Unit
IsDistinct (b ∷ bs) = All (λ c. b.addr ≢ c.addr) bs × IsDistinct bs

abbrev pub Lacks : ℕ → List Breakpoint → Type 0
Lacks addr = All (λ b. b.addr ≢ addr)

pub record IsValid (d : DebugInfo) : Type 0 where
  pub count : d.breakpoint_count ≡ length d.head
  pub few : d.breakpoint_count ≤ max_breakpoints
  pub numbers : Rises 0 d.last_num d.head
  pub distinct : IsDistinct d.head

pub Rises-mono :
    (low low' high high' : ℕ) (bs : List Breakpoint)
    → low' ≤ low
    → high ≤ high'
    → Rises low high bs
    → Rises low' high' bs
Rises-mono low low' high high' [] l h r = omega arith
Rises-mono low low' high high' (b ∷ bs) l h r =
    (omega arith, Rises-mono b.num b.num high high' bs (omega arith) h r.1)

pub Rises-le : (low high : ℕ) (bs : List Breakpoint) → Rises low high bs → low ≤ high
Rises-le low high [] r = r
Rises-le low high (b ∷ bs) r = let rest = Rises-le b.num high bs r.1 in omega arith

pub Rises-append :
    (low high : ℕ) (bs : List Breakpoint) (b : Breakpoint)
    → Rises low high bs
    → high < b.num
    → Rises low b.num (bs ++ b ∷ [])
Rises-append low high [] b r h = (omega arith, omega arith)
Rises-append low high (c ∷ bs) b r h = (r.0, Rises-append c.num high bs b r.1 h)

All-append :
    (P : Breakpoint → Type 0) (bs : List Breakpoint) (b : Breakpoint)
    → All P bs
    → P b
    → All P (bs ++ b ∷ [])
All-append P [] b a h = (h, tt)
All-append P (c ∷ bs) b a h = (a.0, All-append P bs b a.1 h)

pub IsDistinct-append :
    (bs : List Breakpoint) (b : Breakpoint)
    → IsDistinct bs
    → Lacks b.addr bs
    → IsDistinct (bs ++ b ∷ [])
IsDistinct-append [] b d l = (tt, tt)
IsDistinct-append (c ∷ bs) b d l =
    (All-append (λ x. c.addr ≢ x.addr) bs b d.0 l.0, IsDistinct-append bs b d.1 l.1)
