-- ===== src/Debug/Remove.antt =====
-- do_remove_breakpoint of debug.c.
use building_gem_os_cs.Base.{
  ℕ, ◌≡◌, ◌≢◌, refl, ap, subst, ◌∙◌, inl, inr, Bool, true, false, ◌&&◌, Option, none, some, List,
  [], ◌∷◌, ◌==◌, if◌then◌else◌, arith, Bool-cases,
}
use building_gem_os_cs.Base.Memory.{Memory, update}
use building_gem_os_cs.Debug.{
  Breakpoint, DebugInfo, success, failure, Outcome, outcome, on_stack, Cut, absent, kept, cut,
  behind_cut, cut_behind, removed, do_remove_breakpoint, pushrbp_opcode,
}
use building_gem_os_cs.Debug.Invariant.{IsValid}
use building_gem_os_cs.Debug.Flags.{flag_at}
use building_gem_os_cs.Debug.Erase.{
  erase, flag_before, checked_flag, flag_at-erase, Rises-erase, IsDistinct-erase, length-erase,
}

abbrev cut_at : (addr : ℕ) → (stacked : Bool) → List Breakpoint → Option ℕ → Cut
cut_at addr stacked bs none = absent
cut_at addr stacked bs (some e) = if e == 1 && stacked then kept else cut (erase addr bs)

behind-cut_at :
    (addr : ℕ) (stacked : Bool) (b : Breakpoint) (bs : List Breakpoint) (o : Option ℕ)
    → (b.addr == addr) ≡ false
    → behind_cut b (cut_at addr stacked bs o) ≡ cut_at addr stacked (b ∷ bs) o
behind-cut_at addr stacked b bs none f = refl
behind-cut_at addr stacked b bs (some e) f = elim (Bool-cases (e == 1 && stacked)) [
  | inl t ↦ rw t
  | inr u ↦ rw (u, f)
]

cut_behind_lem :
    (addr : ℕ) (stacked : Bool) (b : Breakpoint) (bs : List Breakpoint)
    → (b.addr == addr) ≡ false
    → cut_behind addr stacked b bs ≡ cut_at addr stacked (b ∷ bs) (flag_before addr b bs)
unfolding cut_behind
cut_behind_lem addr stacked b [] f = refl
cut_behind_lem addr stacked b (c ∷ bs) f = elim (Bool-cases (c.addr == addr)) [
  | inl t ↦ rw (t, cut_behind, f, t)
  | inr g ↦
      rw (g, cut_behind)
        (ap (behind_cut b) (cut_behind_lem addr stacked c bs g)
          ∙ behind-cut_at addr stacked b (c ∷ bs) (flag_before addr c bs) f)
]

-- The call, described by the flag that it looks at.
remove_at : DebugInfo → Memory → (addr : ℕ) → Option ℕ → Outcome
remove_at d m addr none = outcome failure d m
remove_at d m addr (some e) =
    if e == 1 && on_stack addr d.stack
    then outcome failure d m
    else removed d m addr (erase addr d.head)

module _ (d : DebugInfo) (m : Memory) (addr : ℕ) where
  -- What the call does behind the walk.
  resume : Cut → Option Outcome
  resume w = elim w [
    | absent ↦ some (outcome failure d m)
    | kept ↦ some (outcome failure d m)
    | cut list ↦ some (removed d m addr list)
  ]

  resume-cut_at :
      (o : Option ℕ)
      → resume (cut_at addr (on_stack addr d.stack) d.head o) ≡ some (remove_at d m addr o)
  unfolding resume remove_at
  resume-cut_at none = refl
  resume-cut_at (some e) = elim (Bool-cases (e == 1 && on_stack addr d.stack)) [
    | inl t ↦ rw t
    | inr f ↦ rw f
  ]

module _ (d : DebugInfo) (m : Memory) (addr : ℕ) where
  remove_list :
      (b : Breakpoint) (bs : List Breakpoint)
      → do_remove_breakpoint (record d { head = b ∷ bs }) m addr
        ≡ some (remove_at (record d { head = b ∷ bs }) m addr (checked_flag addr (b ∷ bs)))
  unfolding do_remove_breakpoint resume remove_at
  remove_list b bs = elim (Bool-cases (b.addr == addr)) [
    | inl t ↦ rw (t, remove_at, t)
    | inr f ↦ rw f (
        ap (resume (record d { head = b ∷ bs }) m addr)
          (cut_behind_lem addr (on_stack addr d.stack) b bs f)
        ∙ resume-cut_at (record d { head = b ∷ bs }) m addr (flag_before addr b bs))
  ]

  remove_lem :
      (bs : List Breakpoint)
      → bs ≢ []
      → do_remove_breakpoint (record d { head = bs }) m addr
        ≡ some (remove_at (record d { head = bs }) m addr (checked_flag addr bs))
  remove_lem [] n = absurd (n refl)
  remove_lem (b ∷ bs) n = remove_list b bs

checked_flag-none :
    (addr : ℕ) (bs : List Breakpoint) → checked_flag addr bs ≡ none → flag_at addr bs ≡ none
checked_flag-none addr [] h = refl
checked_flag-none addr (b ∷ bs) h = ground (arith, behind b bs)
  where
    behind :
        (b : Breakpoint) (bs : List Breakpoint)
        → flag_before addr b bs ≡ none
        → flag_at addr bs ≡ none
    behind b [] h = refl
    behind b (c ∷ bs) h = ground (arith, behind c bs)

-- What a call does.
pub data Removes (d : DebugInfo) (m : Memory) (addr : ℕ) (r : Outcome) : Type 0 where
  done :
      r.status ≡ success
      → IsValid r.dbg
      → ((x : ℕ) → flag_at x r.dbg.head ≡ (if x == addr then none else flag_at x d.head))
      → r.memory ≡ update m addr pushrbp_opcode
      → Removes d m addr r
  no_breakpoint : flag_at addr d.head ≡ none → r ≡ outcome failure d m → Removes d m addr r
  -- The flag that counts is `checked_flag`.
  on_the_stack :
      checked_flag addr d.head ≡ some 1
      → on_stack addr d.stack ≡ true
      → r ≡ outcome failure d m
      → Removes d m addr r

remove_at-Removes :
    (d : DebugInfo) (m : Memory) (addr : ℕ) (o : Option ℕ)
    → IsValid d
    → checked_flag addr d.head ≡ o
    → Removes d m addr (remove_at d m addr o)
unfolding remove_at
remove_at-Removes d m addr none v h = no_breakpoint (checked_flag-none addr d.head h) refl
remove_at-Removes d m addr (some e) v h = elim (Bool-cases (e == 1 && on_stack addr d.stack)) [
  | inl t ↦ rw t (on_the_stack (ground arith) (ground arith) refl)
  | inr f ↦ rw f (
      done refl
        (record {
          count = omega (arith, length-erase addr d.head h, v.count, v.few);
          few = omega (arith, length-erase addr d.head h, v.count, v.few);
          numbers = Rises-erase addr 0 d.last_num d.head v.numbers;
          distinct = IsDistinct-erase addr d.head v.distinct;
        })
        (λ x. flag_at-erase x addr d.head v.distinct) refl)
]

-- With a breakpoint set somewhere, the call does one of three things. It takes the breakpoint at
-- the address, and no other, from the list, keeps the list well formed and puts PUSH RBP back; or
-- it fails and changes nothing, as there is no breakpoint at the address; or it does so as the
-- function is on the stack and the flag looked at is 1.
pub do_remove_breakpoint-Removes :
    (d : DebugInfo) (m : Memory) (addr : ℕ)
    → IsValid d
    → d.head ≢ []
    → (r : Outcome) × (do_remove_breakpoint d m addr ≡ some r) × Removes d m addr r
do_remove_breakpoint-Removes d m addr v n = (
  remove_at d m addr (checked_flag addr d.head),
  remove_lem d m addr d.head n,
  remove_at-Removes d m addr (checked_flag addr d.head) v refl,
)

-- A call that returns has found a breakpoint in the list, keeps the list well formed, and assigns
-- no number.
pub do_remove_breakpoint-IsValid :
    (d : DebugInfo) (m : Memory) (addr : ℕ) {r : Outcome}
    → IsValid d
    → do_remove_breakpoint d m addr ≡ some r
    → IsValid r.dbg × (r.dbg.last_num ≡ d.last_num)
unfolding remove_at do_remove_breakpoint
do_remove_breakpoint-IsValid d m addr {r} v e = list d.head v e
  where
    last : (c : DebugInfo) (o : Option ℕ) → (remove_at c m addr o).dbg.last_num ≡ c.last_num
    last c none = refl
    last c (some k) = ground arith

    valid : {c : DebugInfo} (q : Outcome) → IsValid c → Removes c m addr q → IsValid q.dbg
    valid q v (done _ w _ _) = w
    valid q v (no_breakpoint _ f) = rw f v
    valid q v (on_the_stack _ _ f) = rw f v

    list :
        (bs : List Breakpoint)
        → IsValid (record d { head = bs })
        → do_remove_breakpoint (record d { head = bs }) m addr ≡ some r
        → IsValid r.dbg × (r.dbg.last_num ≡ d.last_num)
    list [] w f = absurd (cc)
    list (b ∷ bs) w f =
        let c : DebugInfo = record d { head = b ∷ bs } in
        let q = remove_at c m addr (checked_flag addr (b ∷ bs)) in
        let g : q ≡ r = cc (remove_list d m addr b bs, f) in
        (
          subst (λ s. IsValid s.dbg) g
              (valid q w (remove_at-Removes c m addr (checked_flag addr (b ∷ bs)) w refl)),
          subst (λ s. s.dbg.last_num ≡ d.last_num) g (last c (checked_flag addr (b ∷ bs))),
        )
