-- ===== src/Scheduler/Pick.antt =====
-- pick_next_context of schedule.c: which process it picks, and that its loop ends.
use building_gem_os_cs.Base.{
  ℕ, zero, suc, ◌+◌, ◌-◌, ◌<◌, ◌≡◌, ◌≢◌, refl, ◌∙◌, true, false, some, List, [], ◌∷◌, ◌++◌, ◌==◌,
  if◌then◌else◌, arith, inl, inr, Bool-cases, ℕ_discrete,
}
use building_gem_os_cs.Machine.{Contexts, max_processes}
use building_gem_os_cs.Scheduler.{is_ready, pick_loop, pick_next_context}

-- `n` pids from `i` on.
abbrev pub upto : (i n : ℕ) → List ℕ
upto i zero = []
upto i (suc n) = i ∷ upto (i + 1) n

-- The order in which the processes get their turn: those behind `own`, then, from process 1 on,
-- those up to `own`.
abbrev pub round_robin : ℕ → List ℕ
round_robin own = upto (own + 1) (max_processes - 1 - own) ++ upto 1 own

-- The first of them that is READY, or the swapper, process 0.
abbrev pub first_ready : Contexts → List ℕ → ℕ
first_ready ctxs [] = 0
first_ready ctxs (i ∷ is) = if is_ready (ctxs i) then i else first_ready ctxs is

module _ (ctxs : Contexts) (own fuel pid : ℕ) where
  step_ready : 0 < pid → is_ready (ctxs pid) ≡ true → pick_loop (suc fuel) ctxs own pid ≡ some pid
  unfolding pick_loop
  step_ready p r = ground arith

  step_own :
      0 < pid
      → is_ready (ctxs pid) ≡ false
      → pid ≡ own
      → pick_loop (suc fuel) ctxs own pid ≡ pick_loop fuel ctxs own 0
  unfolding pick_loop
  step_own p r e = ground arith

  step_next :
      0 < pid
      → is_ready (ctxs pid) ≡ false
      → pid ≢ own
      → pid + 1 < max_processes
      → pick_loop (suc fuel) ctxs own pid ≡ pick_loop fuel ctxs own (pid + 1)
  unfolding pick_loop
  step_next p r ne l = ground arith

  step_wrap :
      0 < own
      → is_ready (ctxs pid) ≡ false
      → own < pid
      → pid + 1 ≡ max_processes
      → pick_loop (suc fuel) ctxs own pid ≡ pick_loop fuel ctxs own 1
  unfolding pick_loop
  step_wrap o r l e = ground arith

  step_swapper :
      own ≡ 0
      → is_ready (ctxs pid) ≡ false
      → pid + 1 ≡ max_processes
      → pick_loop (suc fuel) ctxs own pid ≡ some 0
  unfolding pick_loop
  step_swapper o r e = ground arith

  step_zero : pick_loop (suc fuel) ctxs own 0 ≡ some 0
  unfolding pick_loop
  step_zero = refl

first_ready_yes :
    (ctxs : Contexts) (i : ℕ) (is : List ℕ)
    → is_ready (ctxs i) ≡ true
    → some i ≡ some (first_ready ctxs (i ∷ is))
first_ready_yes ctxs i is r = rw r refl

first_ready_no :
    (ctxs : Contexts) (i : ℕ) (is : List ℕ)
    → is_ready (ctxs i) ≡ false
    → some (first_ready ctxs is) ≡ some (first_ready ctxs (i ∷ is))
first_ready_no ctxs i is r = rw r refl

-- The part of the loop up to `own`, for which the fuel is enough.
low_lem :
    (ctxs : Contexts) (own n fuel pid : ℕ)
    → own < max_processes
    → 0 < pid
    → pid + n ≡ own
    → n + 1 < fuel
    → pick_loop fuel ctxs own pid ≡ some (first_ready ctxs (upto pid (suc n)))
low_lem ctxs own n zero pid o p e f = absurd (omega arith)
low_lem ctxs own n (suc zero) pid o p e f = absurd (omega arith)
low_lem ctxs own zero (suc (suc fuel)) pid o p e f = elim (Bool-cases (is_ready (ctxs pid))) [
  | inl r ↦ step_ready ctxs own (suc fuel) pid p r ∙ first_ready_yes ctxs pid [] r
  | inr r ↦
      step_own ctxs own (suc fuel) pid p r (omega arith)
      ∙ step_zero ctxs own fuel 0
      ∙ first_ready_no ctxs pid [] r
]
low_lem ctxs own (suc n) (suc (suc fuel)) pid o p e f =
    let h = low_lem ctxs own n (suc fuel) (pid + 1) o (omega arith) (omega arith) (omega arith) in
    elim (Bool-cases (is_ready (ctxs pid))) [
      | inl r ↦
          step_ready ctxs own (suc fuel) pid p r
          ∙ first_ready_yes ctxs pid (upto (pid + 1) (suc n)) r
      | inr r ↦
          step_next ctxs own (suc fuel) pid p r (omega arith) (omega arith)
          ∙ h
          ∙ first_ready_no ctxs pid (upto (pid + 1) (suc n)) r
    ]

-- What the loop comes to behind the last process.
abbrev back : ℕ → List ℕ
back own = upto 1 own

wrapped :
    (ctxs : Contexts) (own fuel pid : ℕ)
    → own < pid
    → pid + 1 ≡ max_processes
    → own + 1 < fuel
    → is_ready (ctxs pid) ≡ false
    → pick_loop (suc fuel) ctxs own pid ≡ some (first_ready ctxs (back own))
wrapped ctxs zero fuel pid l e f r = step_swapper ctxs zero fuel pid refl r e
wrapped ctxs (suc own) fuel pid l e f r =
    step_wrap ctxs (suc own) fuel pid (omega arith) r l e
    ∙ low_lem ctxs (suc own) own fuel 1 (omega arith) (omega arith) (omega arith) (omega arith)

-- The part of the loop behind `own`.
high_lem :
    (ctxs : Contexts) (own n fuel pid : ℕ)
    → own < pid
    → pid + suc n ≡ max_processes
    → n + own + 2 < fuel
    → pick_loop fuel ctxs own pid ≡ some (first_ready ctxs (upto pid (suc n) ++ back own))
high_lem ctxs own n zero pid l e f = absurd (omega arith)
high_lem ctxs own zero (suc fuel) pid l e f = elim (Bool-cases (is_ready (ctxs pid))) [
  | inl r ↦ step_ready ctxs own fuel pid (omega arith) r ∙ first_ready_yes ctxs pid (back own) r
  | inr r ↦
      wrapped ctxs own fuel pid l (omega arith) (omega arith) r
      ∙ first_ready_no ctxs pid (back own) r
]
high_lem ctxs own (suc n) (suc fuel) pid l e f =
    let h = high_lem ctxs own n fuel (pid + 1) (omega arith) (omega arith) (omega arith) in
    let is = upto (pid + 1) (suc n) ++ back own in
    elim (Bool-cases (is_ready (ctxs pid))) [
      | inl r ↦ step_ready ctxs own fuel pid (omega arith) r ∙ first_ready_yes ctxs pid is r
      | inr r ↦
          step_next ctxs own fuel pid (omega arith) r (omega arith) (omega arith)
          ∙ h
          ∙ first_ready_no ctxs pid is r
    ]

-- pick_next_context always returns: the first READY process in round-robin order from the one
-- behind `own` on, with `own` itself the last, or the swapper if none is READY.
pub pick_next_context_lem :
    (ctxs : Contexts) (own : ℕ)
    → own < max_processes
    → pick_next_context ctxs own ≡ some (first_ready ctxs (round_robin own))
unfolding pick_next_context
pick_next_context_lem ctxs own o = elim (ℕ_discrete own (max_processes - 1)) [
  | yes e ↦ rw e (
      low_lem ctxs (max_processes - 1) (max_processes - 2) (max_processes + 1) 1 (omega arith)
        (omega arith) refl (omega arith))
  | no ne ↦
      let start : (if own + 1 == max_processes then 1 else own + 1) ≡ own + 1 = ground arith in
      let count : max_processes - 1 - own ≡ suc (max_processes - 2 - own) = omega arith in
      rw (start, count)
        (high_lem ctxs own (max_processes - 2 - own) (max_processes + 1) (own + 1) (omega arith)
          (omega arith) (omega arith))
]
