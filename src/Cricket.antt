-- ===== src/Cricket.antt =====
-- Assignment1/190547/Part3/utils.c: a match between two teams and the matches of a group. The scores
-- that a team process reads from its file, a digit at a time, are a list; what is written to the
-- output file is part of the result.
pub mod Score
pub mod Winner
pub mod Group
pub mod Tests
use building_gem_os_cs.Base.{
  ℕ, zero, suc, ◌+◌, ◌-◌, ◌*◌, ◌%◌, Bool, true, false, ◌&&◌, Option, none, some, List, [], ◌∷◌,
  ◌++◌, ◌==◌, ltb, if◌then◌else◌,
}

abbrev pub balls : ℕ
balls = 120

abbrev pub all_out : ℕ
all_out = 10

-- A line of the output file: the number of the wicket, and the runs since the one before. The last
-- may stand for the batsman who is not out.
pub record Wicket : Type 0 where
  pub number : ℕ
  pub runs : ℕ
  pub not_out : Bool

-- `curWkt`, `curBatsRuns`, `totalRuns1` or `totalRuns2`, and the lines written so far.
pub record Innings : Type 0 where
  pub wickets : ℕ
  pub current : ℕ
  pub total : ℕ
  pub lines : List Wicket

abbrev pub opening : Innings
opening = record { wickets = 0; current = 0; total = 0; lines = [] }

abbrev pub scored : Innings → ℕ → Innings
scored n runs = record n { current = n.current + runs; total = n.total + runs }

abbrev pub fallen : Innings → Innings
fallen n = record {
  wickets = n.wickets + 1;
  current = 0;
  total = n.total;
  lines = n.lines ++ record { number = n.wickets + 1; runs = n.current; not_out = false } ∷ [];
}

-- One ball: equal scores are a wicket.
abbrev pub ball : Innings → (bat bowl : ℕ) → Innings
ball n bat bowl = if bat == bowl then fallen n else scored n bat

abbrev pub exceeds : Option ℕ → Innings → Bool
exceeds none n = false
exceeds (some target) n = ltb target n.total

-- Whether the loop breaks behind the ball: at the last wicket, or, in the second innings, as the
-- total exceeds the target.
abbrev pub over : Option ℕ → Innings → (bat bowl : ℕ) → Bool
over target n bat bowl =
    if bat == bowl then n.wickets + 1 == all_out else exceeds target (scored n bat)

-- The loop over the balls, with what is left of the two files; `none` if a team has no score left.
unfoldable pub play :
    (n : ℕ)
    → (target : Option ℕ) → Innings
    → (bat bowl : List ℕ) → Option (Innings × List ℕ × List ℕ)
play zero target s bat bowl = some (s, bat, bowl)
play (suc n) target s [] bowl = none
play (suc n) target s (x ∷ bat) [] = none
play (suc n) target s (x ∷ bat) (y ∷ bowl) =
    let rest = play n target (ball s x y) bat bowl in
    if over target s x y then some (ball s x y, bat, bowl) else rest

-- The line for the batsman who is not out.
abbrev pub close : Innings → Innings
close s = if s.wickets == all_out then s else record s {
  current = 0;
  lines = s.lines ++ record { number = s.wickets + 1; runs = s.current; not_out = true } ∷ [];
}

pub data Result : Type 0 where
  by_runs : ℕ → Result
  by_wickets : ℕ → Result
  tie : Result

-- What a match leaves: `first` and `second` are the teams in the order in which they bat.
pub record Played : Type 0 where
  pub first : ℕ
  pub second : ℕ
  pub innings1 : Innings
  pub innings2 : Innings
  pub result : Result
  pub winner : ℕ
  pub rest1 : List ℕ
  pub rest2 : List ℕ

abbrev pub verdict : (first second : ℕ) → (innings1 innings2 : Innings) → Result × ℕ
verdict first second a b =
    if ltb a.total b.total
    then (by_wickets (all_out - b.wickets), second)
    else if ltb b.total a.total
    then (by_runs (a.total - b.total), first)
    else (tie, if ltb second first then second else first)

-- The match behind the toss: `first` bats first, with the scores `xs`.
unfoldable pub innings : (first second : ℕ) → (xs ys : List ℕ) → Option Played
innings first second xs ys = elim (play balls none opening xs ys) [
  | none ↦ none
  | some (a, xs1, ys1) ↦ elim (play balls (some a.total) opening ys1 xs1) [
    | none ↦ none
    | some (b, ys2, xs2) ↦ some (record {
      first = first;
      second = second;
      innings1 = close a;
      innings2 = close b;
      result = (verdict first second a b).0;
      winner = (verdict first second a b).1;
      rest1 = xs2;
      rest2 = ys2;
    })
  ]
]

-- `match`, for two teams and the scores in their files. The first of each is for the toss.
unfoldable pub match : (team1 team2 : ℕ) → (xs ys : List ℕ) → Option Played
match team1 team2 [] ys = none
match team1 team2 (x ∷ xs) [] = none
match team1 team2 (x ∷ xs) (y ∷ ys) =
    if (x + y) % 2 == 0 then innings team2 team1 ys xs else innings team1 team2 xs ys

-- `points`, by the id of the team.
abbrev pub Points : Type 0
Points = ℕ → ℕ

abbrev pub win : Points → ℕ → Points
win points w j = if j == w then points j + 1 else points j

-- The loop that looks for the leader among the `n` teams from `j` on, with `leader` the best so far.
unfoldable pub find_leader : Points → (n j leader : ℕ) → ℕ
find_leader points zero j leader = leader
find_leader points (suc n) j leader =
    find_leader points n (j + 1) (if ltb (points leader) (points j) then j else leader)

-- The files of the teams, by id.
abbrev pub Files : Type 0
Files = ℕ → List ℕ

abbrev pub left : Files → Played → Files
left files p j = if j == p.first then p.rest1 else if j == p.second then p.rest2 else files j

-- The matches of a list of pairs, in order: the points, or `none` if a file has no score left.
unfoldable pub play_all : List (ℕ × ℕ) → Files → Points → Option Points
play_all [] files points = some points
play_all ((a, b) ∷ pairs) files points = elim (match a b (files a) (files b)) [
  | none ↦ none
  | some p ↦ play_all pairs (left files p) (win points p.winner)
]

-- The two loops over the teams of group `i`.
abbrev pub pairs : ℕ → List (ℕ × ℕ)
pairs i =
    (4 * i, 4 * i + 1)
    ∷ (4 * i, 4 * i + 2)
    ∷ (4 * i, 4 * i + 3)
    ∷ (4 * i + 1, 4 * i + 2)
    ∷ (4 * i + 1, 4 * i + 3)
    ∷ (4 * i + 2, 4 * i + 3)
    ∷ []

-- What group `i` of `conductGroupMatches` writes to its pipe.
unfoldable pub group_winner : ℕ → Files → Option ℕ
group_winner i files = elim (play_all (pairs i) files (λ j. 0)) [
  | none ↦ none
  | some points ↦ some (find_leader points 4 (4 * i) (4 * i))
]
