-- ===== src/Debug/Flags.antt =====
-- The list of breakpoints of debug.c as a map from addresses to flags, and the walk of
-- do_set_breakpoint along it.
use building_gem_os_cs.Base.{
  ℕ, ◌≡◌, ◌≢◌, refl, ap, ◌∙◌, inl, inr, Bool, true, false, ◌&&◌, Option, none, some, List, [], ◌∷◌,
  ◌++◌, ◌==◌, if◌then◌else◌, arith, length, All, Bool-cases,
}
use building_gem_os_cs.Debug.{Breakpoint, Walk, not_found, refused, changed, behind, change_flag}
use building_gem_os_cs.Debug.Invariant.{IsDistinct, Rises, Lacks}

-- Whether the list has a breakpoint at an address, and the flag that it has there.
abbrev pub flag_at : ℕ → List Breakpoint → Option ℕ
flag_at addr [] = none
flag_at addr (b ∷ bs) = if b.addr == addr then some b.end_breakpoint_enable else flag_at addr bs

-- The list with another flag at an address.
abbrev pub retag : ℕ → ℕ → List Breakpoint → List Breakpoint
retag addr flag [] = []
retag addr flag (b ∷ bs) =
    if b.addr == addr
    then record b { end_breakpoint_enable = flag } ∷ bs
    else b ∷ retag addr flag bs

pub flag_at-Lacks : (addr : ℕ) (bs : List Breakpoint) → flag_at addr bs ≡ none → Lacks addr bs
flag_at-Lacks addr [] e = tt
flag_at-Lacks addr (b ∷ bs) e = (ground arith, flag_at-Lacks addr bs (ground arith))

pub flag_at-append :
    (x : ℕ) (bs : List Breakpoint) (b : Breakpoint)
    → flag_at b.addr bs ≡ none
    → flag_at x (bs ++ b ∷ [])
      ≡ (if x == b.addr then some b.end_breakpoint_enable else flag_at x bs)
flag_at-append x [] b e = ground arith
flag_at-append x (c ∷ bs) b e = ground (arith, flag_at-append x bs b)

pub flag_at-retag :
    (x addr flag e : ℕ) (bs : List Breakpoint)
    → flag_at addr bs ≡ some e
    → flag_at x (retag addr flag bs) ≡ (if x == addr then some flag else flag_at x bs)
flag_at-retag x addr flag e [] h = absurd (cc)
flag_at-retag x addr flag e (c ∷ bs) h = ground (arith, flag_at-retag x addr flag e bs)

pub length-retag : (addr flag : ℕ) (bs : List Breakpoint) → length (retag addr flag bs) ≡ length bs
length-retag addr flag [] = refl
length-retag addr flag (b ∷ bs) = ground (arith, length-retag addr flag bs)

pub Rises-retag :
    (addr flag low high : ℕ) (bs : List Breakpoint)
    → Rises low high bs
    → Rises low high (retag addr flag bs)
Rises-retag addr flag low high [] r = r
Rises-retag addr flag low high (b ∷ bs) r = ground (arith, Rises-retag addr flag b.num high bs r.1)

Lacks-retag :
    (x addr flag : ℕ) (bs : List Breakpoint)
    → All (λ c. x ≢ c.addr) bs
    → All (λ c. x ≢ c.addr) (retag addr flag bs)
Lacks-retag x addr flag [] a = tt
Lacks-retag x addr flag (b ∷ bs) a = elim (Bool-cases (b.addr == addr)) [
  | inl t ↦ rw t (a.0, a.1)
  | inr f ↦ rw f (a.0, Lacks-retag x addr flag bs a.1)
]

pub IsDistinct-retag :
    (addr flag : ℕ) (bs : List Breakpoint) → IsDistinct bs → IsDistinct (retag addr flag bs)
IsDistinct-retag addr flag [] d = tt
IsDistinct-retag addr flag (b ∷ bs) d = elim (Bool-cases (b.addr == addr)) [
  | inl t ↦ rw t (d.0, d.1)
  | inr f ↦ rw f (Lacks-retag b.addr addr flag bs d.0, IsDistinct-retag addr flag bs d.1)
]

-- The walk, described by the flag that it finds.
unfoldable pub walk_at :
    (addr : ℕ) → (stacked : Bool) → (flag : ℕ) → List Breakpoint → Option ℕ → Walk
walk_at addr stacked flag bs none = not_found
walk_at addr stacked flag bs (some e) =
    if stacked && (e == 1 && flag == 0)
    then refused
    else changed (stacked && (e == 0 && flag == 1)) (retag addr flag bs)

behind-walk_at :
    (addr : ℕ) (stacked : Bool) (flag : ℕ) (b : Breakpoint) (bs : List Breakpoint) (o : Option ℕ)
    → (b.addr == addr) ≡ false
    → behind b (walk_at addr stacked flag bs o) ≡ walk_at addr stacked flag (b ∷ bs) o
unfolding walk_at
behind-walk_at addr stacked flag b bs none f = refl
behind-walk_at addr stacked flag b bs (some e) f =
    elim (Bool-cases (stacked && (e == 1 && flag == 0))) [ inl t ↦ rw t | inr u ↦ rw (u, f) ]

choose :
    (a c : Bool) (list : List Breakpoint)
    → (if a then refused else if c then changed true list else changed false list)
      ≡ (if a then refused else changed c list)
choose true c list = refl
choose false true list = refl
choose false false list = refl

pub change_flag_lem :
    (addr : ℕ) (stacked : Bool) (flag : ℕ) (bs : List Breakpoint)
    → change_flag addr stacked flag bs ≡ walk_at addr stacked flag bs (flag_at addr bs)
unfolding change_flag walk_at
change_flag_lem addr stacked flag [] = refl
change_flag_lem addr stacked flag (b ∷ bs) = elim (Bool-cases (b.addr == addr)) [
  | inl t ↦ here t
  | inr f ↦
      rw (f, change_flag)
        (ap (behind b) (change_flag_lem addr stacked flag bs)
          ∙ behind-walk_at addr stacked flag b bs (flag_at addr bs) f)
]
  where
    here :
        (b.addr == addr) ≡ true
        → change_flag addr stacked flag (b ∷ bs)
          ≡ walk_at addr stacked flag (b ∷ bs) (flag_at addr (b ∷ bs))
    here t = rw (t, walk_at, t) (choose _ _ (record b { end_breakpoint_enable = flag } ∷ bs))
