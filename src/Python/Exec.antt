-- ===== src/Python/Exec.antt =====
-- Code that changes a state and may raise. What was changed before an exception stays changed, so
-- the state comes back beside the exception too.
pub mod Ensures
pub mod Laws
pub mod Leaves
pub mod Items
pub mod Stays
use ipbench.Prelude.{List, [], ◌∷◌}
use ipbench.Python.Outcome.{Outcome, returned, raised, stalled, Exn}

abbrev pub Exec {ℓ} : Type ℓ → Type ℓ → Type ℓ
Exec S A = S → Outcome A × S

module _ {ℓ} {S A : Type ℓ} where
  abbrev pub pure : A → Exec S A
  pure a s = (returned a, s)

  abbrev pub raise : Exn → Exec S A
  raise e s = (raised e, s)

  abbrev pub lift : Outcome A → Exec S A
  lift r s = (r, s)

  abbrev pub gets : (S → A) → Exec S A
  gets f s = (returned (f s), s)

module _ {ℓ} {S A B : Type ℓ} where
  abbrev pub resume : Outcome A → (A → Exec S B) → Exec S B
  resume (returned a) f s = f a s
  resume (raised e) f s = (raised e, s)
  resume stalled f s = (stalled, s)

  infixl 10 ◌>>=◌
  abbrev pub ◌>>=◌ : Exec S A → (A → Exec S B) → Exec S B
  ◌>>=◌ m f s = let (r, s') = m s in resume r f s'

infixl 10 ◌>>◌
abbrev pub ◌>>◌ {ℓ} : {S A B : Type ℓ} → Exec S A → Exec S B → Exec S B
m >> n = m >>= λ _. n

module _ {S : Type 0} where
  abbrev pub modify : (S → S) → Exec S (Unit {0})
  modify f s = (returned tt, f s)

-- A call for each item of a list, in order, and the values that they return.
module _ {S A B : Type 0} where
  unfoldable pub collect : (A → Exec S B) → List A → Exec S (List B)
  collect f [] = pure []
  collect f (a ∷ l) = do b ← f a; rest ← collect f l; pure (b ∷ rest)

module _ {S A : Type 0} where
  unfoldable pub each : (A → Exec S (Unit {0})) → List A → Exec S (Unit {0})
  each f [] = pure tt
  each f (a ∷ l) = f a >> each f l
