-- ===== src/Scheduler/Fair.antt =====
-- No READY process waits for long: the turns that pick_next_context of schedule.c gives.
use building_gem_os_cs.Base.{
  ℕ, zero, suc, ◌+◌, ◌-◌, ◌≤◌, ◌<◌, ◌≡◌, ◌≢◌, refl, sym, ap, ◌∙◌, ◌⊎◌, inl, inr, true, none, some,
  List, [], ◌∷◌, ◌++◌, ltb, if◌then◌else◌, arith, length, get_or, subst, Bool-cases, ℕ_discrete,
}
use mathlib.Core.List.{append-nil}
use building_gem_os_cs.Machine.{Contexts, max_processes}
use building_gem_os_cs.Scheduler.{is_ready, pick_next_context}
use building_gem_os_cs.Scheduler.Pick.{upto, round_robin, first_ready, pick_next_context_lem}

-- How many turns after `own` it is the turn of process `i`.
abbrev pub distance : (own i : ℕ) → ℕ
distance own i = if ltb own i then i - own else max_processes - 1 - own + i

-- A process among the `n` from `a` on that is READY bounds the choice.
first_ready-le :
    (ctxs : Contexts) (i a n : ℕ) (rest : List ℕ)
    → is_ready (ctxs i) ≡ true
    → a ≤ i
    → i < a + n
    → (a ≤ first_ready ctxs (upto a n ++ rest)) × (first_ready ctxs (upto a n ++ rest) ≤ i)
first_ready-le ctxs i a zero rest r l u = absurd (omega arith)
first_ready-le ctxs i a (suc n) rest r l u = elim (Bool-cases (is_ready (ctxs a))) [
  | inl q ↦ rw q (omega arith, l)
  | inr q ↦
      let ne : a ≢ i = λ (e : a ≡ i).
        (let z = subst (λ (k : ℕ). is_ready (ctxs k) ≡ true) (sym e) r in ground arith) in
      let h = first_ready-le ctxs i (a + 1) n rest r (omega arith) (omega arith) in
      rw q (omega arith, h.1)
]

first_ready-last :
    (ctxs : Contexts) (i a n : ℕ)
    → is_ready (ctxs i) ≡ true
    → a ≤ i
    → i < a + n
    → (a ≤ first_ready ctxs (upto a n)) × (first_ready ctxs (upto a n) ≤ i)
first_ready-last ctxs i a n r l u =
    subst (λ (is : List ℕ). (a ≤ first_ready ctxs is) × (first_ready ctxs is ≤ i))
      (append-nil (upto a n)) (first_ready-le ctxs i a n [] r l u)

-- The choice is among them, or it is that from the rest.
first_ready-append :
    (ctxs : Contexts) (a n : ℕ) (rest : List ℕ)
    → ((a ≤ first_ready ctxs (upto a n ++ rest)) × (first_ready ctxs (upto a n ++ rest) < a + n))
      ⊎ (first_ready ctxs (upto a n ++ rest) ≡ first_ready ctxs rest)
first_ready-append ctxs a zero rest = inr refl
first_ready-append ctxs a (suc n) rest = elim (Bool-cases (is_ready (ctxs a))) [
  | inl q ↦ rw q (inl (omega arith, omega arith))
  | inr q ↦ elim (first_ready-append ctxs (a + 1) n rest) [
    | inl h ↦ rw q (inl (omega arith, omega arith))
    | inr e ↦ rw q (inr e)
  ]
]

-- What a turn does for process `i`: it is its turn, or its turn comes nearer.
abbrev Nears : (own i j : ℕ) → Type 0
Nears own i j = (0 < j) × (j < max_processes) × ((j ≡ i) ⊎ (distance j i < distance own i))

Nears-up : (own i j : ℕ) → own < i → i < max_processes → own + 1 ≤ j → j ≤ i → Nears own i j
Nears-up own i j l u a b =
    (omega arith, omega arith, elim (ℕ_discrete j i) [ yes e ↦ inl e | no ne ↦ inr (ground arith) ])

Nears-round :
    (own i j : ℕ)
    → i ≤ own
    → own < max_processes
    → 0 < i
    → ((own + 1 ≤ j) × (j < max_processes)) ⊎ ((1 ≤ j) × (j ≤ i))
    → Nears own i j
Nears-round own i j l u z (inl h) = (omega arith, h.1, inr (ground arith))
Nears-round own i j l u z (inr h) =
    (h.0, omega arith, elim (ℕ_discrete j i) [ yes e ↦ inl e | no ne ↦ inr (ground arith) ])

first_ready-Nears :
    (ctxs : Contexts) (own i : ℕ)
    → own < max_processes
    → 0 < i
    → i < max_processes
    → is_ready (ctxs i) ≡ true
    → Nears own i (first_ready ctxs (round_robin own))
first_ready-Nears ctxs own i o z u r = elim (Bool-cases (ltb own i)) [
  | inl b ↦
      let h =
        first_ready-le ctxs i (own + 1) (max_processes - 1 - own) (upto 1 own) r (ground arith)
          (omega arith) in
      Nears-up own i _ (ground arith) u h.0 h.1
  | inr b ↦
      Nears-round own i _ (ground arith) o z
        (elim (first_ready-append ctxs (own + 1) (max_processes - 1 - own) (upto 1 own)) [
          | inl h ↦ inl (h.0, omega arith)
          | inr e ↦ inr (rw e (first_ready-last ctxs i 1 own r (omega arith) (ground arith)))
        ])
]

-- A sequence of turns, from one of `own` on, in each of which process `i` is READY; the contexts may
-- change in any other way between the turns.
pub data Turns (i : ℕ) : (own : ℕ) → List ℕ → Type 0 where
  stop : {own : ℕ} → Turns i own []
  turn :
      {own j : ℕ} {js : List ℕ} (ctxs : Contexts)
      → is_ready (ctxs i) ≡ true
      → pick_next_context ctxs own ≡ some j
      → Turns i j js
      → Turns i own (j ∷ js)

picked-Nears :
    (ctxs : Contexts) (own i j : ℕ)
    → own < max_processes
    → 0 < i
    → i < max_processes
    → is_ready (ctxs i) ≡ true
    → pick_next_context ctxs own ≡ some j
    → Nears own i j
picked-Nears ctxs own i j o z u r e =
    subst (Nears own i)
      (ap (elim [ none ↦ 0 | some k ↦ k ]) (sym (pick_next_context_lem ctxs own o) ∙ e))
      (first_ready-Nears ctxs own i o z u r)

soon :
    {i own : ℕ} {js : List ℕ}
    → own < max_processes
    → 0 < i
    → i < max_processes
    → distance own i ≤ length js
    → Turns i own js
    → (k : ℕ) × (k < distance own i) × (get_or js k 0 ≡ i)
soon o z u d stop = absurd (ground arith)
soon {i} {own} o z u d (turn {j} ctxs r e ts) =
    let (p, q, n) = picked-Nears ctxs own i j o z u r e in
    elim n [
      | inl m ↦ (0, ground arith, m)
      | inr m ↦ let (k, l, g) = soon q z u (omega arith) ts in (suc k, omega arith, g)
    ]

-- A process that is READY at each of MAX_PROCESSES - 1 turns in a row has one of them.
pub pick_next_context_fair :
    (i own : ℕ) (js : List ℕ)
    → own < max_processes
    → 0 < i
    → i < max_processes
    → length js ≡ max_processes - 1
    → Turns i own js
    → (k : ℕ) × (k < max_processes - 1) × (get_or js k 0 ≡ i)
pick_next_context_fair i own js o z u l ts =
    let d : distance own i ≤ max_processes - 1 = ground arith in
    let (k, m, g) = soon o z u (omega arith) ts in (k, omega arith, g)
