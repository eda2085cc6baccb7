-- ===== src/Python/Text.antt =====
-- Python's `str` and `bytes` as lists of code points and bytes, with the methods that the program
-- calls: `strip`, `find`, slices, `split`, `upper`, and the greedy character classes of its patterns.
pub mod Strip
pub mod Search
pub mod Split
use Prim.Native.Char.{code}
use ipbench.Prelude.{
  ℕ, suc, ◌-◌, Bool, true, false, ◌&&◌, ◌||◌, Option, none, some, List, [], ◌∷◌, map, String, leb,
  ◌==◌, if◌then◌else◌, ℤ, pos, negsuc, clamp, length, take, drop,
}

abbrev pub Text : Type 0
Text = List ℕ

abbrev pub Bytes : Type 0
Bytes = List ℕ

-- The code points of a literal.
abbrev pub codes : String → Text
codes String.[] = []
codes (String.◌∷◌ c s) = code c ∷ codes s

-- s == t
abbrev pub text_eq : Text → Text → Bool
text_eq [] [] = true
text_eq [] (d ∷ t) = false
text_eq (c ∷ s) [] = false
text_eq (c ∷ s) (d ∷ t) = c == d && text_eq s t

-- `str.isspace` of one character, which is also `\s` of a pattern on text.
unfoldable pub is_space : ℕ → Bool
is_space c =
    (leb 9 c && leb c 13)
    || (leb 28 c && leb c 32)
    || c == 0x85
    || c == 0xa0
    || c == 0x1680
    || (leb 0x2000 c && leb c 0x200a)
    || c == 0x2028
    || c == 0x2029
    || c == 0x202f
    || c == 0x205f
    || c == 0x3000

abbrev pub is_digit : ℕ → Bool
is_digit c = leb b'0' c && leb c b'9'

-- `\w` of a pattern, on ASCII.
unfoldable pub is_word : ℕ → Bool
is_word c = is_digit c || (leb b'A' c && leb c b'Z') || (leb b'a' c && leb c b'z') || c == b'_'

unfoldable pub lstrip : Text → Text
lstrip [] = []
lstrip (c ∷ s) = let rest = lstrip s in if is_space c then rest else c ∷ s

abbrev pub or_drop : ℕ → Text → Text
or_drop c [] = if is_space c then [] else c ∷ []
or_drop c (d ∷ s) = c ∷ d ∷ s

unfoldable pub rstrip : Text → Text
rstrip [] = []
rstrip (c ∷ s) = or_drop c (rstrip s)

-- s.strip()
unfoldable pub strip : Text → Text
unfolding lstrip rstrip
strip s = rstrip (lstrip s)

-- The first position of a character.
unfoldable pub position : ℕ → Text → Option ℕ
position c [] = none
position c (d ∷ s) =
    let later = position c s in
    if d == c then some 0 else elim later [ none ↦ none | some i ↦ some (suc i) ]

-- s.find(c), which is -1 where the character is missing
unfoldable pub find : ℕ → Text → ℤ
unfolding position
find c s = elim (position c s) [ none ↦ negsuc 0 | some i ↦ pos i ]

-- s[a:], s[:b], s[a:b]
abbrev pub slice_from : ℤ → Text → Text
slice_from a s = drop (clamp (length s) a) s

abbrev pub slice_to : ℤ → Text → Text
slice_to b s = take (clamp (length s) b) s

abbrev pub slice : ℤ → ℤ → Text → Text
slice a b s = take (clamp (length s) b - clamp (length s) a) (drop (clamp (length s) a) s)

-- A greedy class: the longest prefix whose characters pass the test, and what follows it.
unfoldable pub span : (ℕ → Bool) → Text → Text × Text
span p [] = ([], [])
span p (c ∷ s) = let (a, b) = span p s in if p c then (c ∷ a, b) else ([], c ∷ s)

abbrev pub onto_first : ℕ → List Text → List Text
onto_first c [] = (c ∷ []) ∷ []
onto_first c (part ∷ parts) = (c ∷ part) ∷ parts

-- s.split(sep) for the separators "||" and "::", which double one character
unfoldable pub split_pair : ℕ → Text → List Text
split_pair sep [] = [] ∷ []
split_pair sep (c ∷ []) = (c ∷ []) ∷ []
split_pair sep (c ∷ d ∷ s) = elim (c == sep && d == sep) [
  | true ↦ [] ∷ split_pair sep s
  | false ↦ onto_first c (split_pair sep (d ∷ s))
]

-- s.upper() on ASCII
unfoldable pub upper : Text → Text
upper = map (λ c. if leb b'a' c && leb c b'z' then c - 32 else c)

unfoldable pub starts_with : Text → Text → Bool
starts_with s [] = true
starts_with [] (d ∷ t) = false
starts_with (c ∷ s) (d ∷ t) = c == d && starts_with s t
