-- ===== src/Cricket/Winner.antt =====
-- A match of utils.c: that it is played to its end, and who wins it.
use building_gem_os_cs.Base.{
  ℕ, ◌+◌, ◌-◌, ◌*◌, ◌%◌, ◌≤◌, ◌<◌, ◌≡◌, refl, inl, inr, none, some, List, ◌∷◌, ◌==◌, ltb, ltb→lt,
  if◌then◌else◌, arith, length, Bool-cases,
}
use building_gem_os_cs.Cricket.{
  Innings, by_runs, by_wickets, tie, Played, balls, all_out, opening, play, close, verdict, innings,
  match,
}
use building_gem_os_cs.Cricket.Score.{IsInnings, Chased, play_lem, Scorecard, close-Scorecard}

-- The result of a match by the totals of its innings.
pub data Decides (p : Played) : Type 0 where
  chased :
      p.innings1.total < p.innings2.total
      → p.winner ≡ p.second
      → p.innings2.wickets < all_out
      → p.result ≡ by_wickets (all_out - p.innings2.wickets)
      → Decides p
  defended :
      p.innings2.total < p.innings1.total
      → p.winner ≡ p.first
      → p.result ≡ by_runs (p.innings1.total - p.innings2.total)
      → Decides p
  tied :
      p.innings1.total ≡ p.innings2.total
      → p.winner ≡ (if ltb p.second p.first then p.second else p.first)
      → p.result ≡ tie
      → Decides p

close_total : (s : Innings) → (close s).total ≡ s.total
close_total s = elim (Bool-cases (s.wickets == all_out)) [ inl e ↦ rw e refl | inr e ↦ rw e refl ]

close_wickets : (s : Innings) → (close s).wickets ≡ s.wickets
close_wickets s = elim (Bool-cases (s.wickets == all_out)) [ inl e ↦ rw e refl | inr e ↦ rw e refl ]

opening-IsInnings : IsInnings opening
opening-IsInnings = record {
  total = refl;
  count = refl;
  numbers = tt;
  bound = omega arith;
  dismissed = λ e. absurd (omega arith);
}

abbrev played : (first second : ℕ) → (a b : Innings) → (xs ys : List ℕ) → Played
played first second a b xs ys = record {
  first = first;
  second = second;
  innings1 = close a;
  innings2 = close b;
  result = (verdict first second a b).0;
  winner = (verdict first second a b).1;
  rest1 = xs;
  rest2 = ys;
}

played-Decides :
    (first second : ℕ) (a b : Innings) (xs ys : List ℕ)
    → Chased (some a.total) b
    → Decides (played first second a b xs ys)
played-Decides first second a b xs ys c = elim (Bool-cases (ltb a.total b.total)) [
  | inl e ↦
      chased (rw (close_total a, close_total b) (ground arith)) (rw e refl)
        (rw (close_wickets b)
          (let l = ltb→lt a.total b.total e in elim c [ inl d ↦ absurd (omega arith) | inr d ↦ d ]))
        (rw (e, close_wickets b) refl)
  | inr e ↦ elim (Bool-cases (ltb b.total a.total)) [
    | inl f ↦
        defended (rw (close_total a, close_total b) (ground arith)) (rw (e, f) refl)
          (rw (e, f, close_total a, close_total b) refl)
    | inr f ↦
        tied (rw (close_total a, close_total b) (ground arith)) (rw (e, f) refl) (rw (e, f) refl)
  ]
]

-- What a match that is played to its end comes to, for teams with `m` and `n` scores.
pub record IsPlayed (first second m n : ℕ) (p : Played) : Type 0 where
  pub first_team : p.first ≡ first
  pub second_team : p.second ≡ second
  pub scorecard1 : Scorecard p.innings1
  pub scorecard2 : Scorecard p.innings2
  pub decides : Decides p
  pub used1 : m ≤ 2 * balls + length p.rest1
  pub used2 : n ≤ 2 * balls + length p.rest2

innings_eq :
    (first second : ℕ) (xs ys xs1 ys1 xs2 ys2 : List ℕ) (a b : Innings)
    → play balls none opening xs ys ≡ some (a, xs1, ys1)
    → play balls (some a.total) opening ys1 xs1 ≡ some (b, ys2, xs2)
    → innings first second xs ys ≡ some (played first second a b xs2 ys2)
unfolding innings
innings_eq first second xs ys xs1 ys1 xs2 ys2 a b e h = rw (innings, e, h) refl

innings_lem :
    (first second : ℕ) (xs ys : List ℕ)
    → 2 * balls ≤ length xs
    → 2 * balls ≤ length ys
    → (p : Played) × (innings first second xs ys ≡ some p)
      × IsPlayed first second (length xs) (length ys) p
unfolding innings
innings_lem first second xs ys l m =
    let (a, xs1, ys1, e, v, _, f, g) =
      play_lem balls none opening xs ys opening-IsInnings (omega arith) tt (omega arith)
        (omega arith) in
    let (b, ys2, xs2, h, w, c, o, q) =
      play_lem balls (some a.total) opening ys1 xs1 opening-IsInnings (omega arith) (omega arith)
        (omega arith) (omega arith) in
    (
      played first second a b xs2 ys2,
      innings_eq first second xs ys xs1 ys1 xs2 ys2 a b e h,
      record {
        first_team = refl;
        second_team = refl;
        scorecard1 = close-Scorecard a v;
        scorecard2 = close-Scorecard b w;
        decides = played-Decides first second a b xs2 ys2 c;
        used1 = omega arith;
        used2 = omega arith;
      },
    )

pub match-IsPlayed :
    (team1 team2 x y : ℕ) (xs ys : List ℕ)
    → 2 * balls ≤ length xs
    → 2 * balls ≤ length ys
    → (p : Played) × (match team1 team2 (x ∷ xs) (y ∷ ys) ≡ some p)
      × IsPlayed
          (if (x + y) % 2 == 0 then team2 else team1)
          (if (x + y) % 2 == 0 then team1 else team2)
          (if (x + y) % 2 == 0 then length ys else length xs)
          (if (x + y) % 2 == 0 then length xs else length ys)
          p
unfolding match
match-IsPlayed team1 team2 x y xs ys l m = elim (Bool-cases ((x + y) % 2 == 0)) [
  | inl e ↦ rw e (innings_lem team2 team1 ys xs m l)
  | inr e ↦ rw e (innings_lem team1 team2 xs ys l m)
]
