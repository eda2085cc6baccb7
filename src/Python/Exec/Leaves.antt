-- ===== src/Python/Exec/Leaves.antt =====
-- Partial correctness of code that may raise or be cut off: a value that it returns, from a state
-- that meets the precondition, meets the postcondition with the state that it leaves.
use ipbench.Prelude.{◌≡◌, subst}
use ipbench.Python.Outcome.{
  Outcome, returned, raised, stalled, returned-injective, raised-ne-returned,
}
use ipbench.Python.Exec.{Exec, lift, resume, ◌>>=◌}

module _ {S A : Type 0} where
  abbrev pub Left : (A → S → Type 0) → Outcome A → S → Type 0
  Left Q (returned a) s = Q a s
  Left Q (raised e) s = Unit
  Left Q stalled s = Unit

  pub record Leaves (P : S → Type 0) (m : Exec S A) (Q : A → S → Type 0) : Type 0 where
    pub from : (s : S) → P s → Left Q (m s).0 (m s).1

module _ {S A : Type 0} (Q : A → S → Type 0) where
  -- What holds whatever is returned.
  pub Left-always : (r : Outcome A) (s : S) → ((a : A) → Q a s) → Left Q r s
  Left-always (returned a) s h = h a
  Left-always (raised e) s h = tt
  Left-always stalled s h = tt

  pub post_of_Left : (r : Outcome A) (s : S) (a : A) → Left Q r s → r ≡ returned a → Q a s
  post_of_Left (returned b) s a h e = subst (λ x. Q x s) (returned-injective b a e) h
  post_of_Left (raised x) s a h e = absurd (raised-ne-returned x a e)
  post_of_Left stalled s a h e = cc

module _ {S A B : Type 0} {Q : A → S → Type 0} {R : B → S → Type 0} where
  Left-resume :
      (r : Outcome A) (s : S) (f : A → Exec S B)
      → Left Q r s
      → ((a : A) → Leaves (Q a) (f a) R)
      → Left R (resume r f s).0 (resume r f s).1
  Left-resume (returned a) s f q hf = (hf a).from s q
  Left-resume (raised e) s f q hf = tt
  Left-resume stalled s f q hf = tt

  pub Leaves-bind :
      {P : S → Type 0} (m : Exec S A) (f : A → Exec S B)
      → Leaves P m Q
      → ((a : A) → Leaves (Q a) (f a) R)
      → Leaves P (m >>= f) R
  Leaves-bind m f hm hf = record { from = λ s p. Left-resume (m s).0 (m s).1 f (hm.from s p) hf }

module _ {S A : Type 0} {P : S → Type 0} where
  -- Code that leaves the state alone.
  pub Leaves-lift : (r : Outcome A) → Leaves P (lift r) (λ _. P)
  Leaves-lift r = record { from = λ s p. Left-always (λ _. P) r s (λ _. p) }

module _ {S A : Type 0} (Q R : A → S → Type 0) where
  -- What follows from the postcondition.
  pub Left-weaken : (r : Outcome A) (s : S) → Left Q r s → ((a : A) → Q a s → R a s) → Left R r s
  Left-weaken (returned a) s q h = h a q
  Left-weaken (raised e) s q h = tt
  Left-weaken stalled s q h = tt

module _ {S A : Type 0} {P : S → Type 0} {Q : A → S → Type 0} where
  -- A fact that is not about the state.
  pub Leaves-fact :
      (F : Type 0) (m : Exec S A) → Leaves P m Q → Leaves (λ s. P s × F) m (λ a s. Q a s × F)
  Leaves-fact F m h = record {
    from =
        λ s (p, f). Left-weaken Q (λ a s. Q a s × F) (m s).0 (m s).1 (h.from s p) (λ a q. (q, f));
  }
