-- ===== src/Python/Number/RoundTrip.antt =====
-- `int` reads back what `str` prints.
use ipbench.Prelude.{
  sym, ◌≢◌, ℕ, zero, suc, ◌+◌, ◌-◌, ◌*◌, ◌/◌, ◌%◌, ◌^◌, ◌≤◌, ◌<◌, ◌≡◌, refl, ap, ◌∙◌, Bool, true,
  false, some, [], ◌∷◌, ◌++◌, append_assoc, append-nil, arith, ltb, ltb→lt, lt→ltb, All, All-append,
  All-mono, length, length-append, Bool-cases, inl, inr, pos,
}
use mathlib.Core.Option.{none-ne-some}
use native.Mathlib.Nat.{pow-suc}
use ipbench.Python.Text.{Text, is_digit, is_space, strip}
use ipbench.Python.Text.Strip.{lstrip_of_not_space, rstrip-append_space, rstrip_of_not_spaces}
use ipbench.Python.Number.{digits, decimal, read_digits, read_signed, int, as_pos}

abbrev pub IsDigit : ℕ → Type 0
IsDigit c = is_digit c ≡ true

pub not_space_of_IsDigit : (c : ℕ) → IsDigit c → is_space c ≡ false
unfolding is_space
not_space_of_IsDigit c h = ground arith

pub ascii_digit : (c : ℕ) → IsDigit c → c < 0x80
ascii_digit c h = ground arith

pub not_newline : (c : ℕ) → IsDigit c → c ≢ b'\n'
not_newline c h = ground arith

digits-IsDigit : (fuel n : ℕ) → All IsDigit (digits fuel n)
unfolding digits
digits-IsDigit zero n = tt
digits-IsDigit (suc f) n = elim (Bool-cases (ltb n 10)) [
  | inl h ↦ rw h (ground arith, tt)
  | inr h ↦
      rw h (All-append IsDigit (digits f (n / 10)) _ (digits-IsDigit f (n / 10)) (ground arith, tt))
]

-- What is printed is digits.
pub decimal-IsDigit : (n : ℕ) → All IsDigit (decimal n)
unfolding decimal
decimal-IsDigit n = digits-IsDigit (suc n) n

read_digit :
    (b : Bool) (n d : ℕ) (s : Text)
    → d < 10
    → read_digits b n ((b'0' + d) ∷ s) ≡ read_digits true (n * 10 + d) s
unfolding read_digits
read_digit b n d s h =
    let e : is_digit (b'0' + d) ≡ true = ground arith in
    let f : b'0' + d - b'0' ≡ d = omega arith in rw (e, f) refl

read_digits-digits :
    (fuel n : ℕ) (b : Bool) (s : Text)
    → n < fuel
    → read_digits b 0 (digits fuel n ++ s) ≡ read_digits true n s
unfolding digits
read_digits-digits zero n b s h = absurd (omega arith)
read_digits-digits (suc f) n b s h = elim (Bool-cases (ltb n 10)) [
  | inl small ↦
      rw small (
        read_digit b 0 n s (ltb→lt n 10 small) ∙ ap (λ (m : ℕ). read_digits true m s) (omega arith))
  | inr large ↦
      let e : n / 10 * 10 + n % 10 ≡ n = omega arith in
      rw (large, append_assoc)
        (read_digits-digits f (n / 10) b ((b'0' + n % 10) ∷ s) (ground arith)
          ∙ read_digit true (n / 10) (n % 10) s (omega arith)
          ∙ rw e)
]

read_digits-decimal : (n : ℕ) → read_digits false 0 (decimal n) ≡ some n
unfolding decimal read_digits
read_digits-decimal n =
    rw (← append-nil (digits (suc n) n))
      (read_digits-digits (suc n) n false [] (omega arith) ∙ refl)

strip_digits : (s : Text) → All IsDigit s → strip s ≡ s
unfolding strip
strip_digits [] h = refl
strip_digits (c ∷ s) (h, hs) =
    rw (lstrip_of_not_space c s (not_space_of_IsDigit c h))
      (rstrip_of_not_spaces (c ∷ s) (All-mono (c ∷ s) not_space_of_IsDigit (h, hs)))

strip_digits_line : (s : Text) → All IsDigit s → strip (s ++ b'\n' ∷ []) ≡ s
unfolding strip is_space
strip_digits_line [] h = refl
strip_digits_line (c ∷ s) (h, hs) =
    rw (lstrip_of_not_space c (s ++ b'\n' ∷ []) (not_space_of_IsDigit c h)) (
      rstrip-append_space (c ∷ s) b'\n' refl
      ∙ rstrip_of_not_spaces (c ∷ s) (All-mono (c ∷ s) not_space_of_IsDigit (h, hs)))

read_signed_digits : (s : Text) → All IsDigit s → read_signed s ≡ as_pos (read_digits false 0 s)
unfolding read_signed
read_signed_digits [] h = refl
read_signed_digits (c ∷ s) (h, hs) = ground arith

read_signed-decimal : (n : ℕ) → read_signed (decimal n) ≡ some (pos n)
read_signed-decimal n =
    read_signed_digits (decimal n) (decimal-IsDigit n) ∙ ap as_pos (read_digits-decimal n)

-- A printed number is read back.
pub int-decimal : (n : ℕ) → int (decimal n) ≡ some (pos n)
unfolding int
int-decimal n = rw (strip_digits (decimal n) (decimal-IsDigit n)) (read_signed-decimal n)

-- A printed number that ends a line is read back.
pub int-decimal_line : (n : ℕ) → int (decimal n ++ b'\n' ∷ []) ≡ some (pos n)
unfolding int
int-decimal_line n = rw (strip_digits_line (decimal n) (decimal-IsDigit n)) (read_signed-decimal n)

length-digits : (fuel n k : ℕ) → n < 10 ^ suc k → length (digits fuel n) ≤ suc k
unfolding digits
length-digits zero n k h = omega arith
length-digits (suc f) n zero h = rw (lt→ltb n 10 h) (omega arith)
length-digits (suc f) n (suc k) h =
    let e : 10 ^ suc (suc k) ≡ 10 ^ suc k * 10 = pow-suc 10 (suc k) in
    let ih = length-digits f (n / 10) k (omega arith) in
    elim (Bool-cases (ltb n 10)) [
      | inl small ↦ rw small (omega arith)
      | inr large ↦
          rw large (omega (arith, length-append (digits f (n / 10)) ((b'0' + n % 10) ∷ [])))
    ]

-- A number below 10 ^ k takes at most k characters.
pub length-decimal : (n k : ℕ) → n < 10 ^ suc k → length (decimal n) ≤ suc k
unfolding decimal
length-decimal n k h = length-digits (suc n) n k h

pow_pos : (k : ℕ) → 1 ≤ 10 ^ k
pow_pos zero = omega arith
pow_pos (suc k) = omega (arith, pow-suc 10 k, pow_pos k)

digits-length : (fuel n k : ℕ) → n < fuel → 10 ^ k ≤ n → suc k ≤ length (digits fuel n)
unfolding digits
digits-length zero n k enough h = absurd (omega arith)
digits-length (suc f) n zero enough h = elim (Bool-cases (ltb n 10)) [
  | inl small ↦ rw small (omega arith)
  | inr large ↦ rw large (omega (arith, length-append (digits f (n / 10)) ((b'0' + n % 10) ∷ [])))
]
digits-length (suc f) n (suc k) enough h =
    let e : 10 ^ suc k ≡ 10 ^ k * 10 = pow-suc 10 k in
    let positive = pow_pos k in
    let ih = digits-length f (n / 10) k (omega arith) (omega arith) in
    elim (Bool-cases (ltb n 10)) [
      | inl small ↦ absurd (omega (arith, ltb→lt n 10 small))
      | inr large ↦
          rw large (omega (arith, length-append (digits f (n / 10)) ((b'0' + n % 10) ∷ [])))
    ]

-- A number from 10 ^ k on takes more than k characters.
pub decimal-length : (n k : ℕ) → 10 ^ k ≤ n → suc k ≤ length (decimal n)
unfolding decimal
decimal-length n k h = digits-length (suc n) n k (omega arith) h

pub decimal-ne-nil : (n : ℕ) → decimal n ≢ []
unfolding int
decimal-ne-nil n e = none-ne-some (pos n) (sym (ap int e) ∙ int-decimal n)
