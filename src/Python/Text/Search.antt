-- ===== src/Python/Text/Search.antt =====
-- What `find`, slices and greedy classes give on a text that is put together from parts.
use ipbench.Prelude.{
  append_assoc, sym, suc, ◌==◌, ℕ, ◌≡◌, ◌≢◌, refl, ◌+◌, ◌-◌, Bool, true, false, none, some, [], ◌∷◌,
  ◌++◌, arith, All, pos, negsuc, length, length-append, take-append, drop-append, min, not,
  Bool-cases, inl, inr,
}
use ipbench.Python.Text.{Text, text_eq, position, find, slice_from, slice_to, slice, span}

abbrev pub Lacks : ℕ → Text → Type 0
Lacks c = All (λ d. d ≢ c)

pub text_eq_refl : (s : Text) → text_eq s s ≡ true
text_eq_refl [] = refl
text_eq_refl (c ∷ s) = ground (arith, text_eq_refl s)

pub eq_of_text_eq : (s t : Text) → text_eq s t ≡ true → s ≡ t
eq_of_text_eq [] [] h = refl
eq_of_text_eq [] (d ∷ t) h = cc
eq_of_text_eq (c ∷ s) [] h = cc
eq_of_text_eq (c ∷ s) (d ∷ t) h = ground (arith, eq_of_text_eq s t)

pub position-append : (c : ℕ) (p s : Text) → Lacks c p → position c (p ++ c ∷ s) ≡ some (length p)
unfolding position
position-append c [] s h = ground arith
position-append c (d ∷ p) s (h, hs) = rw (position-append c p s hs) (ground arith)

position_missing : (c : ℕ) (s : Text) → Lacks c s → position c s ≡ none
unfolding position
position_missing c [] h = refl
position_missing c (d ∷ s) (h, hs) = rw (position_missing c s hs) (ground arith)

-- The first `c` stands behind a part that lacks it.
pub find-append : (c : ℕ) (p s : Text) → Lacks c p → find c (p ++ c ∷ s) ≡ pos (length p)
unfolding find
find-append c p s h = ground (arith, position-append c p s h)

pub find_missing : (c : ℕ) (s : Text) → Lacks c s → find c s ≡ negsuc 0
unfolding find
find_missing c s h = ground (arith, position_missing c s h)

clamp-append : (p s : Text) → min (length p) (length (p ++ s)) ≡ length p
clamp-append p s = omega (arith, length-append p s)

pub slice_to-append : (p s : Text) → slice_to (pos (length p)) (p ++ s) ≡ p
slice_to-append p s = rw clamp-append (take-append p s)

pub slice_from-append : (p s : Text) → slice_from (pos (length p)) (p ++ s) ≡ s
slice_from-append p s = rw clamp-append (drop-append p s)

-- The slice between two parts.
pub slice-append :
    (p q s : Text) → slice (pos (length p)) (pos (length p + length q)) (p ++ (q ++ s)) ≡ q
slice-append p q s =
    let e : min (length p + length q) (length (p ++ (q ++ s))) ≡ length p + length q =
      omega (arith, length-append p (q ++ s), length-append q s) in
    let f : length p + length q - length p ≡ length q = omega arith in
    rw (e, clamp-append, f, drop-append) (take-append q s)

pub slice_behind :
    (p : Text) (c : ℕ) (s : Text) → slice_from (pos (suc (length p))) (p ++ c ∷ s) ≡ s
slice_behind p c s =
    let e : suc (length p) ≡ length (p ++ c ∷ []) = omega (arith, length-append p (c ∷ [])) in
    rw (e, sym (append_assoc p (c ∷ []) s)) (slice_from-append (p ++ c ∷ []) s)

pub slice_front : (p s : Text) → slice (pos 0) (pos (length p)) (p ++ s) ≡ p
slice_front p s =
    let e : min 0 (length (p ++ s)) ≡ 0 = omega arith in
    let f : length p - 0 ≡ length p = omega arith in rw (clamp-append, e, f) (take-append p s)

-- What stands before the first `c`, or all of the text.
abbrev pub before : ℕ → Text → Text
before c s = (span (λ d. not (d == c)) s).0

pub before-Lacks : (c : ℕ) (s : Text) → Lacks c (before c s)
unfolding span
before-Lacks c [] = tt
before-Lacks c (d ∷ s) = ground (arith, before-Lacks c s)

-- A text that is followed by `c` is cut at its own first `c`, or at the one that follows.
pub append-before : (c : ℕ) (s t : Text) → (rest : Text) × (s ++ c ∷ t ≡ before c s ++ c ∷ rest)
unfolding span
append-before c [] t = (t, refl)
append-before c (d ∷ s) t =
    let (rest, e) = append-before c s t in
    elim (Bool-cases (d == c)) [
      | inl same ↦ (s ++ c ∷ t, ground arith)
      | inr differ ↦ (rest, ground (arith, e))
    ]

module _ (test : ℕ → Bool) where
  -- A greedy class stops at the first character that fails its test.
  pub span-append :
      (p : Text) (c : ℕ) (s : Text)
      → All (λ d. test d ≡ true) p
      → test c ≡ false
      → span test (p ++ c ∷ s) ≡ (p, c ∷ s)
  unfolding span
  span-append [] c s h hc = rw hc
  span-append (d ∷ p) c s (h, hs) hc = rw (span-append p c s hs hc, h)

  pub span-All : (p : Text) → All (λ d. test d ≡ true) p → span test p ≡ (p, [])
  unfolding span
  span-All [] h = refl
  span-All (d ∷ p) (h, hs) = rw (span-All p hs, h)
