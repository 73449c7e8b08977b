-- ===== src/Printf/Tests.antt =====
-- The theorem on decimal numbers at a concrete input, and runs of vuprintf.
use building_gem_os_cs.Base.{ℕ, ◌-◌, ◌^◌, ◌≡◌, refl, some, none, List, [], ◌∷◌}
use building_gem_os_cs.Printf.{Arg, int, dec_chars, print_int, print_arg, vuprintf}

abbrev minus_42 : List Arg
minus_42 = int (2 ^ 32 - 42) ∷ []

-- "x=%d" and "x=-42"
abbrev x_format : List ℕ
x_format = 120 ∷ 61 ∷ 37 ∷ 100 ∷ []

abbrev x_text : List ℕ
x_text = 120 ∷ 61 ∷ 45 ∷ 52 ∷ 50 ∷ []

decimal_run : vuprintf x_format minus_42 ≡ some x_text
unfolding vuprintf print_arg print_int dec_chars
decimal_run = refl

-- A format that ends in '%' is read on behind its end.
abbrev bad_format : List ℕ
bad_format = 120 ∷ 37 ∷ []

percent_run : vuprintf bad_format minus_42 ≡ none
unfolding vuprintf
percent_run = refl
