-- ===== src/Python/Exec/Laws.antt =====
-- The laws by which calls are grouped, and `each` over a list.
use ipbench.Prelude.{List, [], ◌∷◌, ◌++◌, ◌≡◌, refl, sym, ◌∙◌}
use ipbench.Python.Outcome.{Outcome, returned, raised, stalled}
use ipbench.Python.Exec.{Exec, each, resume, ◌>>=◌, ◌>>◌}

module _ {S A B : Type 0} where
  resume_ext :
      (f g : A → Exec S B) (r : Outcome A) (s : S)
      → ((a : A) (t : S) → f a t ≡ g a t)
      → resume r f s ≡ resume r g s
  resume_ext f g (returned a) s h = h a s
  resume_ext f g (raised e) s h = refl
  resume_ext f g stalled s h = refl

  pub bind_ext :
      (m : Exec S A) (f g : A → Exec S B) (s : S)
      → ((a : A) (t : S) → f a t ≡ g a t)
      → (m >>= f) s ≡ (m >>= g) s
  bind_ext m f g s h = resume_ext f g (m s).0 (m s).1 h

module _ {S A B C : Type 0} where
  resume_assoc :
      (f : A → Exec S B) (g : B → Exec S C) (r : Outcome A) (s : S)
      → resume (resume r f s).0 g (resume r f s).1 ≡ resume r (λ a. f a >>= g) s
  resume_assoc f g (returned a) s = refl
  resume_assoc f g (raised e) s = refl
  resume_assoc f g stalled s = refl

  pub bind_assoc :
      (m : Exec S A) (f : A → Exec S B) (g : B → Exec S C) (s : S)
      → ((m >>= f) >>= g) s ≡ (m >>= λ a. f a >>= g) s
  bind_assoc m f g s = resume_assoc f g (m s).0 (m s).1

module _ {S A : Type 0} (f : A → Exec S (Unit {0})) where
  pub each-append : (l k : List A) (s : S) → each f (l ++ k) s ≡ (each f l >> each f k) s
  unfolding each
  each-append [] k s = refl
  each-append (a ∷ l) k s =
      bind_ext (f a) (λ _. each f (l ++ k)) (λ _. each f l >> each f k) s (λ _. each-append l k)
      ∙ sym (bind_assoc (f a) (λ _. each f l) (λ _. each f k) s)
