-- ===== src/Scripts/Ununmarshall.antt =====
-- helpers/scripts/ununmarshall.py: the log of a run without its first lines and the lines of the
-- controller. The file is the list of its lines.
use ipbench.Prelude.{
  zero, ℕ, suc, ◌+◌, ◌≡◌, refl, Bool, true, false, ◌||◌, ltb, if◌then◌else◌, List, [], ◌∷◌, drop,
  arith, ◌≤◌,
}
use ipbench.Python.Text.{Text, codes, starts_with}

-- sub in s
unfoldable pub has_sub : Text → Text → Bool
has_sub sub [] = starts_with [] sub
has_sub sub (c ∷ s) = starts_with (c ∷ s) sub || has_sub sub s

-- "[unmarshall]" in line or "test" in line or "Test" in line
unfoldable pub is_noise : Text → Bool
is_noise line =
    has_sub (codes "[unmarshall]") line
    || has_sub (codes "test") line
    || has_sub (codes "Test") line

-- The loop over the lines that are left, with the number of the line.
unfoldable pub clean : ℕ → List Text → List Text
clean count [] = []
clean count (line ∷ rest) =
    let later = clean (if ltb count 10 then suc count else count) rest in
    if ltb count 10 then later else (if is_noise line then later else line ∷ later)

abbrev pub header_line : Text
header_line =
    codes
      "Requested_throughput,Achieved_throughput_sent,Achieved_throughput_received,Sent_size_received,Min,Avg,Max,Std-dev,Median\n"

-- What is written to the new file.
unfoldable pub cleaned : List Text → List Text
unfolding clean
cleaned lines = header_line ∷ clean 1 lines

-- The lines that are no noise.
abbrev pub kept : List Text → List Text
kept [] = []
kept (line ∷ rest) = let later = kept rest in if is_noise line then later else line ∷ later

clean_late : (count : ℕ) (lines : List Text) → 10 ≤ count → clean count lines ≡ kept lines
unfolding clean
clean_late count [] h = refl
clean_late count (line ∷ rest) h =
    let e : ltb count 10 ≡ false = ground arith in rw (e, clean_late count rest h) refl

clean_early :
    (n count : ℕ) (lines : List Text) → count + n ≡ 10 → clean count lines ≡ kept (drop n lines)
unfolding clean
clean_early zero count lines h = clean_late count lines (omega arith)
clean_early (suc n) count [] h = refl
clean_early (suc n) count (line ∷ rest) h =
    let e : ltb count 10 ≡ true = ground arith in
    rw e (clean_early n (suc count) rest (omega arith))

-- The new file is the header line and, of the lines behind the first nine, those that are no noise.
pub cleaned_lem : (lines : List Text) → cleaned lines ≡ header_line ∷ kept (drop 9 lines)
unfolding cleaned
cleaned_lem lines = rw (clean_early 9 1 lines refl) refl
