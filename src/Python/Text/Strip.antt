-- ===== src/Python/Text/Strip.antt =====
-- `strip` removes the spaces at the ends of a text and nothing else.
use ipbench.Prelude.{ℕ, ◌≡◌, refl, true, false, [], ◌∷◌, ◌++◌, All}
use ipbench.Python.Text.{Text, is_space, lstrip, rstrip, or_drop}

pub lstrip_of_not_space : (c : ℕ) (s : Text) → is_space c ≡ false → lstrip (c ∷ s) ≡ c ∷ s
unfolding lstrip
lstrip_of_not_space c s h = rw h

pub rstrip-append_space : (s : Text) (c : ℕ) → is_space c ≡ true → rstrip (s ++ c ∷ []) ≡ rstrip s
unfolding rstrip
rstrip-append_space [] c h = rw h
rstrip-append_space (d ∷ s) c h = rw (rstrip-append_space s c h)

pub rstrip-append_not_space :
    (s : Text) (c : ℕ) → is_space c ≡ false → rstrip (s ++ c ∷ []) ≡ s ++ c ∷ []
unfolding rstrip
rstrip-append_not_space [] c h = rw h
rstrip-append_not_space (d ∷ []) c h = rw h
rstrip-append_not_space (d ∷ e ∷ s) c h = rw (rstrip-append_not_space (e ∷ s) c h)

or_drop_of_not_space : (c : ℕ) (s : Text) → is_space c ≡ false → or_drop c s ≡ c ∷ s
or_drop_of_not_space c [] h = rw h
or_drop_of_not_space c (d ∷ s) h = refl

pub rstrip_of_not_spaces : (s : Text) → All (λ c. is_space c ≡ false) s → rstrip s ≡ s
unfolding rstrip
rstrip_of_not_spaces [] h = refl
rstrip_of_not_spaces (c ∷ s) (h, hs) = rw (rstrip_of_not_spaces s hs) (or_drop_of_not_space c s h)
