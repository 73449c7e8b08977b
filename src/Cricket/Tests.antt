-- ===== src/Cricket/Tests.antt =====
-- The theorems on utils.c at concrete inputs, and a short innings.
use building_gem_os_cs.Base.{
  ℕ, ◌*◌, ◌≤◌, ◌≡◌, refl, false, none, some, List, [], ◌∷◌, arith, length, replicate,
}
use building_gem_os_cs.Cricket.{opening, play, Files}
use building_gem_os_cs.Cricket.Group.{match_scores}

-- Four balls: 4 runs, a wicket, 6 runs, 1 run.
play_run :
    play 4 none opening (4 ∷ 2 ∷ 6 ∷ 1 ∷ []) (1 ∷ 2 ∷ 3 ∷ 0 ∷ [])
    ≡ some (
      record {
        wickets = 1;
        current = 7;
        total = 11;
        lines = record { number = 1; runs = 4; not_out = false } ∷ [];
      },
      [],
      [],
    )
unfolding play
play_run = refl

abbrev fours : List ℕ
fours = replicate 240 4

abbrev threes : List ℕ
threes = replicate 240 3

abbrev files : Files
files j = replicate 1446 j

enough : (j : ℕ) → match_scores * 6 ≤ length (files j)
enough j = omega arith
