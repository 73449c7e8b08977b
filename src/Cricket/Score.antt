-- ===== src/Cricket/Score.antt =====
-- An innings of utils.c: what its lines and its total come to, and that it ends.
use building_gem_os_cs.Base.{
  ℕ, zero, suc, ◌+◌, ◌≤◌, ◌<◌, ◌≡◌, refl, ◌∙◌, ◌⊎◌, inl, inr, true, false, Option, none, some, List,
  [], ◌∷◌, ◌++◌, ◌==◌, if◌then◌else◌, arith, length, length-append, Bool-cases,
}
use building_gem_os_cs.Cricket.{Wicket, Innings, all_out, ball, over, play, close}

abbrev pub sum_runs : List Wicket → ℕ
sum_runs [] = 0
sum_runs (w ∷ ws) = w.runs + sum_runs ws

pub sum_runs-append : (vs ws : List Wicket) → sum_runs (vs ++ ws) ≡ sum_runs vs + sum_runs ws
sum_runs-append [] ws = omega arith
sum_runs-append (v ∷ vs) ws = omega (arith, sum_runs-append vs ws)

-- The lines number the wickets from `k` on.
abbrev pub Numbered : ℕ → List Wicket → Type 0
Numbered k [] = Unit
Numbered k (w ∷ ws) = (w.number ≡ k) × Numbered (k + 1) ws

Numbered-append :
    (k : ℕ) (vs : List Wicket) (w : Wicket)
    → Numbered k vs
    → w.number ≡ k + length vs
    → Numbered k (vs ++ w ∷ [])
Numbered-append k [] w n e = (omega arith, tt)
Numbered-append k (v ∷ vs) w n e = (n.0, Numbered-append (k + 1) vs w n.1 (omega arith))

-- During an innings: a line for each wicket, and the total is that of the lines and the runs since.
pub record IsInnings (s : Innings) : Type 0 where
  pub total : s.total ≡ sum_runs s.lines + s.current
  pub count : length s.lines ≡ s.wickets
  pub numbers : Numbered 1 s.lines
  pub bound : s.wickets ≤ all_out
  pub dismissed : s.wickets ≡ all_out → s.current ≡ 0

ball-IsInnings :
    (s : Innings) (x y : ℕ) → IsInnings s → s.wickets < all_out → IsInnings (ball s x y)
ball-IsInnings s x y v l = elim (Bool-cases (x == y)) [
  | inl e ↦
      let w : Wicket = record { number = s.wickets + 1; runs = s.current; not_out = false } in
      rw e (record {
        total = let h = sum_runs-append s.lines (w ∷ []) in omega (arith, v.total);
        count = length-append s.lines (w ∷ []) ∙ omega (arith, v.count);
        numbers = Numbered-append 1 s.lines w v.numbers (omega (arith, v.count));
        bound = omega arith;
        dismissed = λ _. refl;
      })
  | inr e ↦ rw e (record {
    total = omega (arith, v.total);
    count = v.count;
    numbers = v.numbers;
    bound = v.bound;
    dismissed = λ e. absurd (omega arith);
  })
]

-- The total is not above the target.
abbrev pub Within : Option ℕ → Innings → Type 0
Within none s = Unit
Within (some t) s = s.total ≤ t

-- The total is not above the target, or a wicket is left.
abbrev pub Chased : Option ℕ → Innings → Type 0
Chased none s = Unit
Chased (some t) s = (s.total ≤ t) ⊎ (s.wickets < all_out)

Within-Chased : (target : Option ℕ) (s : Innings) → Within target s → Chased target s
Within-Chased none s w = tt
Within-Chased (some t) s w = inl w

over-Chased :
    (target : Option ℕ) (s : Innings) (x y : ℕ)
    → s.wickets < all_out
    → Within target s
    → Chased target (ball s x y)
over-Chased none s x y l w = tt
over-Chased (some t) s x y l w = elim (Bool-cases (x == y)) [
  | inl e ↦ rw e (inl w)
  | inr e ↦ rw e (inr l)
]

goes_on-Within :
    (target : Option ℕ) (s : Innings) (x y : ℕ)
    → Within target s
    → over target s x y ≡ false
    → Within target (ball s x y)
goes_on-Within none s x y w o = tt
goes_on-Within (some t) s x y w o = elim (Bool-cases (x == y)) [
  | inl e ↦ rw e w
  | inr e ↦ rw e (let q = rw e at o in ground arith)
]

goes_on_wickets :
    (target : Option ℕ) (s : Innings) (x y : ℕ)
    → s.wickets < all_out
    → over target s x y ≡ false
    → (ball s x y).wickets < all_out
goes_on_wickets target s x y l o = elim (Bool-cases (x == y)) [
  | inl e ↦ rw e (let q = rw e at o in ground arith)
  | inr e ↦ rw e l
]

pub play_lem :
    (n : ℕ) (target : Option ℕ) (s : Innings) (bat bowl : List ℕ)
    → IsInnings s
    → s.wickets < all_out
    → Within target s
    → n ≤ length bat
    → n ≤ length bowl
    → (r : Innings) × (bat' : List ℕ) × (bowl' : List ℕ) × (play n target s bat bowl
        ≡ some (r, bat', bowl'))
      × IsInnings r
      × Chased target r
      × (length bat ≤ n + length bat')
      × (length bowl ≤ n + length bowl')
unfolding play
play_lem zero target s bat bowl v l w p q =
    (s, bat, bowl, refl, v, Within-Chased target s w, omega arith, omega arith)
play_lem (suc n) target s [] bowl v l w p q = absurd (omega arith)
play_lem (suc n) target s (x ∷ bat) [] v l w p q = absurd (omega arith)
play_lem (suc n) target s (x ∷ bat) (y ∷ bowl) v l w p q = elim (Bool-cases (over target s x y)) [
  | inl e ↦ (
    ball s x y,
    bat,
    bowl,
    rw e refl,
    ball-IsInnings s x y v l,
    over-Chased target s x y l w,
    omega arith,
    omega arith,
  )
  | inr e ↦
      let (r, bat', bowl', h, i, c, f, g) =
        play_lem n target (ball s x y) bat bowl (ball-IsInnings s x y v l)
          (goes_on_wickets target s x y l e) (goes_on-Within target s x y w e) (omega arith)
          (omega arith) in
      (r, bat', bowl', rw e h, i, c, omega arith, omega arith)
]

-- The lines of a finished innings number the wickets from 1 on, their runs add up to the total, and
-- there are ten of them, or one more than wickets have fallen.
pub record Scorecard (s : Innings) : Type 0 where
  pub total : sum_runs s.lines ≡ s.total
  pub numbers : Numbered 1 s.lines
  pub count : length s.lines ≡ (if s.wickets == all_out then all_out else s.wickets + 1)
  pub bound : s.wickets ≤ all_out

pub close-Scorecard : (s : Innings) → IsInnings s → Scorecard (close s)
close-Scorecard s v = elim (Bool-cases (s.wickets == all_out)) [
  | inl e ↦
      let q : s.wickets ≡ all_out = ground arith in
      rw e (record {
        total = let c = v.dismissed q in omega (arith, v.total);
        numbers = v.numbers;
        count = rw e (v.count ∙ q);
        bound = v.bound;
      })
  | inr e ↦
      let w : Wicket = record { number = s.wickets + 1; runs = s.current; not_out = true } in
      rw e (record {
        total = let h = sum_runs-append s.lines (w ∷ []) in omega (arith, v.total);
        numbers = Numbered-append 1 s.lines w v.numbers (omega (arith, v.count));
        count = rw e (length-append s.lines (w ∷ []) ∙ omega (arith, v.count));
        bound = v.bound;
      })
]
