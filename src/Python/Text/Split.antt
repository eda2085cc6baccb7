-- ===== src/Python/Text/Split.antt =====
-- `split` on a doubled character, for parts that lack the character.
use ipbench.Prelude.{ℕ, ◌≡◌, ◌≢◌, refl, [], ◌∷◌, ◌++◌, arith, ◌==◌, true, false}
use ipbench.Python.Text.{Text, split_pair}
use ipbench.Python.Text.Search.{Lacks}

differs : (c d : ℕ) → c ≢ d → (c == d) ≡ false
differs c d h = ground arith

same : (c : ℕ) → (c == c) ≡ true
same c = ground arith

pub split_pair-append :
    (sep : ℕ) (p s : Text)
    → Lacks sep p
    → split_pair sep (p ++ sep ∷ sep ∷ s) ≡ p ∷ split_pair sep s
unfolding split_pair
split_pair-append sep [] s h = rw (same sep, split_pair)
split_pair-append sep (c ∷ []) s (h, hs) =
    rw (split_pair, differs c sep h, split_pair-append sep [] s tt)
split_pair-append sep (c ∷ d ∷ p) s (h, hs) =
    rw (split_pair, differs c sep h, split_pair-append sep (d ∷ p) s hs)

pub split_pair_whole : (sep : ℕ) (p : Text) → Lacks sep p → split_pair sep p ≡ p ∷ []
unfolding split_pair
split_pair_whole sep [] h = refl
split_pair_whole sep (c ∷ []) h = refl
split_pair_whole sep (c ∷ d ∷ p) (h, hs) =
    rw (split_pair, differs c sep h, split_pair_whole sep (d ∷ p) hs)
