-- ===== src/Printf.antt =====
-- vuprintf of Assignment-3/src/user/lib.c (the same function stands in Assignment_2/gemOS/src/user and
-- Assignment-4/template/user): the formatting of printf in user space. The result is what it puts into
-- the buffer, without a bound; `none` where the code reads behind the end of the format, takes an
-- argument that is not there or of another type, or negates the least number of a type.
pub mod Numbers
pub mod Tests
use building_gem_os_cs.Base.{
  ℕ, zero, suc, ◌+◌, ◌-◌, ◌*◌, ◌/◌, ◌%◌, ◌^◌, Bool, true, false, Option, none, some, List, [], ◌∷◌,
  ◌++◌, ◌==◌, ltb, if◌then◌else◌,
}
use building_gem_os_cs.Base.Partial.{◌>>=◌}

-- an argument: the bits of an int or a long, or a string, `none` for NULL
pub data Arg : Type 0 where
  int : ℕ → Arg
  long : ℕ → Arg
  string : Option (List ℕ) → Arg

-- the array `chars`
abbrev pub chars_size : ℕ
chars_size = 20

abbrev pub percent : ℕ
percent = 37

abbrev pub minus_sign : ℕ
minus_sign = 45

abbrev pub digit_zero : ℕ
digit_zero = 48

-- `while(tmp) { chars[count++] = '0' + tmp % 10; tmp /= 10; }`, with the room in `chars`
unfoldable pub dec_chars : (room : ℕ) → ℕ → List ℕ
dec_chars zero tmp = []
dec_chars (suc room) tmp =
    let rest = (digit_zero + tmp % 10) ∷ dec_chars room (tmp / 10) in if tmp == 0 then [] else rest

-- a digit from 10 on is a capital letter
abbrev pub hex_char : ℕ → ℕ
hex_char d = if ltb 9 d then 65 + (d - 10) else digit_zero + d

unfoldable pub hex_chars : (room : ℕ) → ℕ → List ℕ
hex_chars zero tmp = []
hex_chars (suc room) tmp =
    let rest = hex_char (tmp % 16) ∷ hex_chars room (tmp / 16) in if tmp == 0 then [] else rest

-- `while(count--) buf[out++] = chars[count];`
abbrev pub reversed : List ℕ → List ℕ
reversed [] = []
reversed (c ∷ cs) = reversed cs ++ c ∷ []

-- the cases 'd' and 'u', which are one
unfoldable pub print_int : ℕ → Option (List ℕ)
print_int num =
    if num == 0
    then some (digit_zero ∷ [])
    else if num == 2 ^ 31
    then none
    else if ltb num (2 ^ 31)
    then some (reversed (dec_chars chars_size num))
    else some (minus_sign ∷ reversed (dec_chars chars_size (2 ^ 32 - num)))

-- the case 'x'
unfoldable pub print_long : ℕ → Option (List ℕ)
print_long num =
    if num == 0
    then some (digit_zero ∷ 120 ∷ digit_zero ∷ [])
    else if num == 2 ^ 63
    then none
    else if ltb num (2 ^ 63)
    then some (digit_zero ∷ 120 ∷ reversed (hex_chars chars_size num))
    else some (minus_sign ∷ digit_zero ∷ 120 ∷ reversed (hex_chars chars_size (2 ^ 64 - num)))

abbrev pub print_string : Option (List ℕ) → List ℕ
print_string none = []
print_string (some s) = s

-- the cases of the switch over the character behind '%'
pub data Conversion : Type 0 where
  as_char as_int as_long as_string as_is : Conversion

abbrev pub conversion : (ch : ℕ) → Conversion
conversion ch =
    if ch == 99
    then as_char
    else if ch == 100
    then as_int
    else if ch == 117
    then as_int
    else if ch == 120
    then as_long
    else if ch == 115
    then as_string
    else as_is

-- What a case puts out, and the arguments that are left.
unfoldable pub print_arg : Conversion → (ch : ℕ) → List Arg → Option (List ℕ × List Arg)
print_arg as_is ch args = some (ch ∷ [], args)
print_arg as_char ch (int n ∷ args) = some ((n % 256) ∷ [], args)
print_arg as_int ch (int n ∷ args) = do s ← print_int n; some (s, args)
print_arg as_long ch (long n ∷ args) = do s ← print_long n; some (s, args)
print_arg as_string ch (string s ∷ args) = some (print_string s, args)
print_arg _ ch args = none

-- The loop over the format, which is given without the 0 at its end.
unfoldable pub vuprintf : (format : List ℕ) → List Arg → Option (List ℕ)
vuprintf [] args = some []
vuprintf (ch ∷ []) args = if ch == percent then none else some (ch ∷ [])
vuprintf (ch ∷ next ∷ format) args =
    let plain = do out ← vuprintf (next ∷ format) args; some (ch ∷ out)
    in let converted = do
      (s, args') ← print_arg (conversion next) next args
      out ← vuprintf format args'
      some (s ++ out)
      in if ch == percent then converted else plain
