-- ===== src/Python/Exec/Items.antt =====
-- What `collect` returns, and what `lift` does, as postconditions.
use ipbench.Prelude.{List, [], ◌∷◌, ◌≡◌, refl}
use ipbench.Python.Outcome.{Outcome, returned, raised, stalled}
use ipbench.Python.Exec.{Exec, lift, collect}
use ipbench.Python.Exec.Leaves.{Leaves, Leaves-bind, Leaves-fact}

-- The items of two lists are related one by one.
abbrev pub Pointwise : {A B : Type 0} → (A → B → Type 0) → List A → List B → Type 0
Pointwise R [] [] = Unit {0}
Pointwise R [] (b ∷ bs) = ⊥
Pointwise R (a ∷ l) [] = ⊥
Pointwise R (a ∷ l) (b ∷ bs) = R a b × Pointwise R l bs

module _ {S A B : Type 0} (P : S → Type 0) (R : A → B → Type 0) (f : A → Exec S B)
    (each_item : (a : A) → Leaves P (f a) (λ b s. P s × R a b)) where
  pub collect-Leaves : (l : List A) → Leaves P (collect f l) (λ bs s. P s × Pointwise R l bs)
  unfolding collect
  collect-Leaves [] = record { from = λ s p. (p, tt) }
  collect-Leaves (a ∷ l) = Leaves-bind {Q = λ b s. P s × R a b} (f a) _ (each_item a) (λ b.
      Leaves-bind {Q = λ bs s. (P s × Pointwise R l bs) × R a b} (collect f l) _
        (Leaves-fact (R a b) (collect f l) (collect-Leaves l))
        (λ bs. record { from = λ s (pr, r). (pr.0, (r, pr.1)) }))

module _ {S A : Type 0} (P : S → Type 0) where
  -- The value that a call returned.
  pub lift-Leaves : (r : Outcome A) → Leaves P (lift r) (λ a s. P s × (r ≡ returned a))
  lift-Leaves (returned a) = record { from = λ s p. (p, refl) }
  lift-Leaves (raised e) = record { from = λ s p. tt }
  lift-Leaves stalled = record { from = λ s p. tt }
