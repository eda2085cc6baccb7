-- ===== src/Python/Number.antt =====
-- `str(n)` and `repr(n)` of a natural number, and `int(s)`.
pub mod RoundTrip
use ipbench.Prelude.{
  ℕ, zero, suc, ◌+◌, ◌-◌, ◌*◌, ◌/◌, ◌%◌, Bool, false, ◌&&◌, ◌||◌, Option, none, some, [], ◌∷◌, ◌++◌,
  ltb, ◌==◌, if◌then◌else◌, ℤ, pos, negsuc,
}
use ipbench.Python.Text.{Text, is_digit, strip}

-- The decimal digits of a number; the fuel is one more than the number.
unfoldable pub digits : ℕ → ℕ → Text
digits zero n = []
digits (suc fuel) n =
    let front = digits fuel (n / 10) in
    if ltb n 10 then (b'0' + n) ∷ [] else front ++ (b'0' + n % 10) ∷ []

-- str(n), repr(n)
unfoldable pub decimal : ℕ → Text
unfolding digits
decimal n = digits (suc n) n

-- str(n) of any integer
abbrev pub show : ℤ → Text
show (pos n) = decimal n
show (negsuc n) = b'-' ∷ decimal (suc n)

-- Digits behind the number `n`; single underscores may stand between two digits. The flag says
-- that the character before was a digit.
unfoldable pub read_digits : Bool → ℕ → Text → Option ℕ
read_digits after_digit n [] = if after_digit then some n else none
read_digits after_digit n (c ∷ s) =
    let next = read_digits (is_digit c) (if is_digit c then n * 10 + (c - b'0') else n) s in
    if is_digit c || (after_digit && c == b'_') then next else none

abbrev pub negated : ℕ → ℤ
negated zero = pos 0
negated (suc n) = negsuc n

abbrev pub as_pos : Option ℕ → Option ℤ
as_pos none = none
as_pos (some n) = some (pos n)

abbrev as_negated : Option ℕ → Option ℤ
as_negated none = none
as_negated (some n) = some (negated n)

unfoldable pub read_signed : Text → Option ℤ
unfolding read_digits
read_signed [] = none
read_signed (c ∷ s) =
    if c == b'+'
    then as_pos (read_digits false 0 s)
    else if c == b'-'
    then as_negated (read_digits false 0 s)
    else as_pos (read_digits false 0 (c ∷ s))

-- int(s), where `none` is a ValueError
unfoldable pub int : Text → Option ℤ
unfolding read_signed strip
int s = read_signed (strip s)
