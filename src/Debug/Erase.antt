-- ===== src/Debug/Erase.antt =====
-- The list of breakpoints of debug.c without the one at an address.
use building_gem_os_cs.Base.{
  ℕ, suc, ◌≡◌, ◌≢◌, refl, ap, inl, inr, Option, none, some, List, [], ◌∷◌, ◌==◌, if◌then◌else◌,
  arith, length, All, Bool-cases,
}
use building_gem_os_cs.Debug.{Breakpoint}
use building_gem_os_cs.Debug.Invariant.{IsDistinct, Rises, Rises-mono}
use building_gem_os_cs.Debug.Flags.{flag_at}

-- The list without the breakpoint at an address.
abbrev pub erase : ℕ → List Breakpoint → List Breakpoint
erase addr [] = []
erase addr (b ∷ bs) = if b.addr == addr then bs else b ∷ erase addr bs

-- The flag of the node before the one at an address, from a node on.
abbrev pub flag_before : ℕ → Breakpoint → List Breakpoint → Option ℕ
flag_before addr bp [] = none
flag_before addr bp (b ∷ bs) =
    if b.addr == addr then some bp.end_breakpoint_enable else flag_before addr b bs

-- The flag that the code looks at: that of the breakpoint if it stands first, else that of the
-- breakpoint before it.
abbrev pub checked_flag : ℕ → List Breakpoint → Option ℕ
checked_flag addr [] = none
checked_flag addr (b ∷ bs) =
    if b.addr == addr then some b.end_breakpoint_enable else flag_before addr b bs

pub flag_at-erase :
    (x addr : ℕ) (bs : List Breakpoint)
    → IsDistinct bs
    → flag_at x (erase addr bs) ≡ (if x == addr then none else flag_at x bs)
flag_at-erase x addr [] d = ground arith
flag_at-erase x addr (b ∷ bs) d = elim (Bool-cases (b.addr == addr)) [
  | inl t ↦ ground (arith, Lacks-flag_at b.addr bs d.0)
  | inr f ↦ ground (arith, flag_at-erase x addr bs d.1)
]
  where
    Lacks-flag_at : (y : ℕ) (cs : List Breakpoint) → All (λ c. y ≢ c.addr) cs → flag_at y cs ≡ none
    Lacks-flag_at y [] a = refl
    Lacks-flag_at y (c ∷ cs) a = let rest = Lacks-flag_at y cs a.1 in ground (arith, a.0)

pub Rises-erase :
    (addr low high : ℕ) (bs : List Breakpoint) → Rises low high bs → Rises low high (erase addr bs)
Rises-erase addr low high [] r = r
Rises-erase addr low high (b ∷ bs) r = elim (Bool-cases (b.addr == addr)) [
  | inl t ↦ rw t (Rises-mono b.num low high high bs (omega arith) (omega arith) r.1)
  | inr f ↦ rw f (r.0, Rises-erase addr b.num high bs r.1)
]

Lacks-erase :
    (x addr : ℕ) (bs : List Breakpoint)
    → All (λ c. x ≢ c.addr) bs
    → All (λ c. x ≢ c.addr) (erase addr bs)
Lacks-erase x addr [] a = tt
Lacks-erase x addr (b ∷ bs) a = elim (Bool-cases (b.addr == addr)) [
  | inl t ↦ rw t a.1
  | inr f ↦ rw f (a.0, Lacks-erase x addr bs a.1)
]

pub IsDistinct-erase :
    (addr : ℕ) (bs : List Breakpoint) → IsDistinct bs → IsDistinct (erase addr bs)
IsDistinct-erase addr [] d = tt
IsDistinct-erase addr (b ∷ bs) d = elim (Bool-cases (b.addr == addr)) [
  | inl t ↦ rw t d.1
  | inr f ↦ rw f (Lacks-erase b.addr addr bs d.0, IsDistinct-erase addr bs d.1)
]

pub length-erase :
    (addr : ℕ) (bs : List Breakpoint) {e : ℕ}
    → checked_flag addr bs ≡ some e
    → length bs ≡ suc (length (erase addr bs))
length-erase addr [] h = absurd (cc)
length-erase addr (b ∷ bs) {e} h = elim (Bool-cases (b.addr == addr)) [
  | inl t ↦ rw t
  | inr f ↦ rw f (ap suc (behind b bs (ground arith)))
]
  where
    behind :
        (b : Breakpoint) (bs : List Breakpoint)
        → flag_before addr b bs ≡ some e
        → length bs ≡ suc (length (erase addr bs))
    behind b [] h = absurd (cc)
    behind b (c ∷ bs) h = elim (Bool-cases (c.addr == addr)) [
      | inl t ↦ rw t
      | inr f ↦ rw f (let rest = behind c bs (ground arith) in ap suc rest)
    ]
