-- ===== src/Cricket/Group.antt =====
-- The matches of a group of utils.c: who leads its table of points.
use building_gem_os_cs.Base.{
  ℕ, zero, suc, ◌+◌, ◌*◌, ◌%◌, ◌≤◌, ◌<◌, ◌≡◌, refl, ap, subst, ◌∙◌, ◌⊎◌, inl, inr, true, false,
  some, List, [], ◌∷◌, ◌==◌, ltb, ltb→lt, if◌then◌else◌, arith, length, Bool-cases, ℕ_discrete,
}
use building_gem_os_cs.Cricket.Winner.{Decides, chased, defended, tied, IsPlayed, match-IsPlayed}
use building_gem_os_cs.Cricket.{
  balls, Points, find_leader, Played, match, Files, left, win, play_all, pairs, group_winner,
}

-- Of the teams from `lo` up to `hi`, `r` is the first of those with the most points.
pub record Leads (points : Points) (lo hi r : ℕ) : Type 0 where
  pub candidate : (lo ≤ r) × (r < hi)
  pub most : (k : ℕ) → lo ≤ k → k < hi → points k ≤ points r
  pub first : (k : ℕ) → lo ≤ k → k < r → points k < points r

step-Leads :
    (points : Points) (lo j leader : ℕ)
    → Leads points lo j leader
    → Leads points lo (j + 1) (if ltb (points leader) (points j) then j else leader)
step-Leads points lo j leader v = elim (Bool-cases (ltb (points leader) (points j))) [
  | inl e ↦
      let l = ltb→lt (points leader) (points j) e in
      rw e (record {
        candidate = let c = v.candidate in (omega arith, omega arith);
        most = λ k a b. elim (ℕ_discrete k j) [
          | yes q ↦ rw q (omega arith)
          | no ne ↦ let h = v.most k a (omega arith) in omega arith
        ];
        first = λ k a b. let h = v.most k a b in omega arith;
      })
  | inr e ↦
      let l : points j ≤ points leader = ground arith in
      rw e (record {
        candidate = let c = v.candidate in (c.0, omega arith);
        most = λ k a b. elim (ℕ_discrete k j) [ yes q ↦ rw q l | no ne ↦ v.most k a (omega arith) ];
        first = v.first;
      })
]

find_leader-Leads :
    (points : Points) (n lo j leader : ℕ)
    → Leads points lo j leader
    → Leads points lo (j + n) (find_leader points n j leader)
unfolding find_leader
find_leader-Leads points zero lo j leader v =
    subst (λ (hi : ℕ). Leads points lo hi leader) (omega arith) v
find_leader-Leads points (suc n) lo j leader v =
    subst
      (λ (hi : ℕ).
        Leads points lo hi
          (find_leader points n (j + 1) (if ltb (points leader) (points j) then j else leader)))
      (omega arith)
      (find_leader-Leads points n lo (j + 1) (if ltb (points leader) (points j) then j else leader)
        (step-Leads points lo j leader v))

only-Leads : (points : Points) (lo : ℕ) → Leads points lo (lo + 1) lo
only-Leads points lo = record {
  candidate = (omega arith, omega arith);
  most = λ k a b. let q : k ≡ lo = omega arith in rw q (omega arith);
  first = λ k a b. absurd (omega arith);
}

from_start :
    (points : Points) (n lo : ℕ)
    → find_leader points (suc n) lo lo ≡ find_leader points n (lo + 1) lo
unfolding find_leader
from_start points n lo = let e : ltb (points lo) (points lo) ≡ false = ground arith in rw e refl

leader_lem : (points : Points) (lo : ℕ) → Leads points lo (lo + 4) (find_leader points 4 lo lo)
leader_lem points lo = rw (from_start points 3 lo) (
    subst (λ (hi : ℕ). Leads points lo hi (find_leader points 3 (lo + 1) lo)) (omega arith)
      (find_leader-Leads points 3 lo (lo + 1) lo (only-Leads points lo)))

-- The points after the matches of a list of pairs: each match gives one to one of its two teams.
pub data Table : List (ℕ × ℕ) → Points → Points → Type 0 where
  done : {points : Points} → Table [] points points
  played :
      {a b w : ℕ} {pairs : List (ℕ × ℕ)} {points last : Points}
      → (w ≡ a) ⊎ (w ≡ b)
      → Table pairs (win points w) last
      → Table ((a, b) ∷ pairs) points last

winner_of : (p : Played) → Decides p → (p.winner ≡ p.first) ⊎ (p.winner ≡ p.second)
winner_of p (chased _ e _ _) = inr e
winner_of p (defended _ e _) = inl e
winner_of p (tied _ e _) = elim (Bool-cases (ltb p.second p.first)) [
  | inl f ↦ inr (e ∙ rw f refl)
  | inr f ↦ inl (e ∙ rw f refl)
]

-- The scores that a match takes of each team.
abbrev pub match_scores : ℕ
match_scores = 2 * balls + 1

-- What a match does to the files, by the team ids.
record Fair (a b : ℕ) (files : Files) (p : Played) : Type 0 where
  winner : (p.winner ≡ a) ⊎ (p.winner ≡ b)
  rest : (j : ℕ) → length (files j) ≤ match_scores + length (left files p j)

left_lem :
    (files : Files) (p : Played) (k : ℕ)
    → length (files p.first) ≤ k + length p.rest1
    → length (files p.second) ≤ k + length p.rest2
    → (j : ℕ) → length (files j) ≤ k + length (left files p j)
left_lem files p k f g j = elim (ℕ_discrete j p.first) [
  | yes e ↦ rw e (let t : (p.first == p.first) ≡ true = ground arith in rw t f)
  | no ne ↦
      let t : (j == p.first) ≡ false = ground arith in
      rw t (elim (ℕ_discrete j p.second) [
        | yes e ↦ rw e (let u : (p.second == p.second) ≡ true = ground arith in rw u g)
        | no nf ↦ let u : (j == p.second) ≡ false = ground arith in rw u (omega arith)
      ])
]

fair_lem :
    (a b first second m n : ℕ) (files : Files) (p : Played)
    → IsPlayed first second m n p
    → ((first ≡ a) × (second ≡ b)) ⊎ ((first ≡ b) × (second ≡ a))
    → length (files first) ≡ suc m
    → length (files second) ≡ suc n
    → Fair a b files p
fair_lem a b first second m n files p i o f g = record {
  winner = elim (winner_of p i.decides) [
    | inl e ↦ elim o [ inl q ↦ inl (e ∙ i.first_team ∙ q.0) | inr q ↦ inr (e ∙ i.first_team ∙ q.0) ]
    | inr e ↦ elim o [
      | inl q ↦ inr (e ∙ i.second_team ∙ q.1)
      | inr q ↦ inl (e ∙ i.second_team ∙ q.1)
    ]
  ];
  rest =
      left_lem files p match_scores (rw (i.first_team, f) (let u = i.used1 in omega arith))
        (rw (i.second_team, g) (let u = i.used2 in omega arith));
}

match_lem :
    (a b x y : ℕ) (xs ys : List ℕ) (files : Files)
    → files a ≡ x ∷ xs
    → files b ≡ y ∷ ys
    → 2 * balls ≤ length xs
    → 2 * balls ≤ length ys
    → (p : Played) × (match a b (files a) (files b) ≡ some p) × Fair a b files p
match_lem a b x y xs ys files e f l m =
    let (p, h, i) = match-IsPlayed a b x y xs ys l m in (p, rw (e, f) h, fair p i)
  where
    fair :
        (p : Played)
        → IsPlayed
            (if (x + y) % 2 == 0 then b else a)
            (if (x + y) % 2 == 0 then a else b)
            (if (x + y) % 2 == 0 then length ys else length xs)
            (if (x + y) % 2 == 0 then length xs else length ys)
            p
        → Fair a b files p
    fair p i = elim (Bool-cases ((x + y) % 2 == 0)) [
      | inl t ↦
          fair_lem a b b a (length ys) (length xs) files p (rw t at i) (inr (refl, refl))
            (ap (λ (zs : List ℕ). length zs) f) (ap (λ (zs : List ℕ). length zs) e)
      | inr t ↦
          fair_lem a b a b (length xs) (length ys) files p (rw t at i) (inl (refl, refl))
            (ap (λ (zs : List ℕ). length zs) e) (ap (λ (zs : List ℕ). length zs) f)
    ]

cons_lem :
    (n : ℕ) (xs : List ℕ)
    → n < length xs
    → (x : ℕ) × (ys : List ℕ) × (xs ≡ x ∷ ys) × (n ≤ length ys)
cons_lem n [] l = absurd (omega arith)
cons_lem n (x ∷ xs) l = (x, xs, refl, omega arith)

-- Enough scores for every match of a list of pairs.
play_all-Table :
    (ps : List (ℕ × ℕ)) (files : Files) (points : Points)
    → ((j : ℕ) → match_scores * length ps ≤ length (files j))
    → (last : Points) × (play_all ps files points ≡ some last) × Table ps points last
unfolding play_all
play_all-Table [] files points f = (points, refl, done)
play_all-Table ((a, b) ∷ ps) files points f =
    let (x, xs, e, l) = cons_lem (2 * balls) (files a) (let h = f a in omega arith) in
    let (y, ys, g, m) = cons_lem (2 * balls) (files b) (let h = f b in omega arith) in
    let (p, h, i) = match_lem a b x y xs ys files e g l m in
    let (last, q, t) =
      play_all-Table ps (left files p) (win points p.winner)
        (λ j. let u = i.rest j in let h = f j in omega arith) in
    (last, rw (play_all, h) q, played i.winner t)

group_eq :
    (i : ℕ) (files : Files) (points : Points)
    → play_all (pairs i) files (λ j. 0) ≡ some points
    → group_winner i files ≡ some (find_leader points 4 (4 * i) (4 * i))
unfolding group_winner
group_eq i files points e = rw (group_winner, e) refl

-- If each team of a group has scores for six matches, the group is played to its end: each match
-- gives a point to one of its two teams, and the winner is the first team with the most points.
pub group_winner-Leads :
    (i : ℕ) (files : Files)
    → ((j : ℕ) → match_scores * 6 ≤ length (files j))
    → (r : ℕ) × (points : Points) × (group_winner i files ≡ some r)
      × Table (pairs i) (λ j. 0) points
      × Leads points (4 * i) (4 * i + 4) r
group_winner-Leads i files f =
    let (points, e, t) = play_all-Table (pairs i) files (λ j. 0) f in
    (
      find_leader points 4 (4 * i) (4 * i),
      points,
      group_eq i files points e,
      t,
      leader_lem points (4 * i),
    )
