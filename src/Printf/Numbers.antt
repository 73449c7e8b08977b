-- ===== src/Printf/Numbers.antt =====
-- The decimal numbers of vuprintf, read back.
use building_gem_os_cs.Base.{
  ℕ, zero, suc, ◌+◌, ◌-◌, ◌*◌, ◌/◌, ◌<◌, ◌≤◌, ◌≡◌, List, [], ◌∷◌, length, All,
}
use building_gem_os_cs.Printf.{digit_zero}

-- A number read from digits, the first the most significant, behind what has been read.
abbrev pub dec_value : (read : ℕ) → List ℕ → ℕ
dec_value read [] = read
dec_value read (c ∷ cs) = dec_value (read * 10 + (c - digit_zero)) cs

abbrev pub IsDigits : List ℕ → Type 0
IsDigits s = All (λ c. (digit_zero ≤ c) × (c < digit_zero + 10)) s

-- the value of digits, the first the least significant
abbrev value : List ℕ → ℕ
value [] = 0
value (c ∷ cs) = (c - digit_zero) + 10 * value cs

-- `k` decimal digits hold the number.
abbrev Has : ℕ → ℕ → Type 0
Has zero n = n ≡ 0
Has (suc k) n = Has k (n / 10)

-- The digits of a number: at most ten of them, fewer than `chars` has room for.
pub record Decimal (n : ℕ) (s : List ℕ) : Type 0 where
  pub digits : IsDigits s
  pub number : dec_value 0 s ≡ n
  pub short : length s ≤ 10
