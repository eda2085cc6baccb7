-- ===== src/Python/Exec/Ensures.antt =====
-- Total correctness of code that may raise: from a state that meets the precondition the code is
-- never cut off, and a value that it returns meets the postcondition with the state it leaves.
use ipbench.Prelude.{subst, Option, none, some, Bool, true, false, ◌≡◌, refl, if◌then◌else◌}
use ipbench.Python.Outcome.{
  Outcome, returned, raised, stalled, Exn, or_raise, returned-injective, raised-ne-returned,
}
use ipbench.Python.Exec.{Exec, pure, raise, lift, ◌>>=◌, resume}

module _ {S A : Type 0} where
  -- What is left of a postcondition at an outcome.
  abbrev pub Meets : (A → S → Type 0) → Outcome A → S → Type 0
  Meets Q (returned a) s = Q a s
  Meets Q (raised e) s = Unit
  Meets Q stalled s = ⊥

  pub record Ensures (P : S → Type 0) (m : Exec S A) (Q : A → S → Type 0) : Type 0 where
    pub from : (s : S) → P s → Meets Q (m s).0 (m s).1

module _ {S A : Type 0} (Q : A → S → Type 0) where
  pub ended_of_Meets : (r : Outcome A) (s : S) → Meets Q r s → r ≡ stalled → ⊥
  ended_of_Meets (returned a) s h e = cc
  ended_of_Meets (raised x) s h e = cc
  ended_of_Meets stalled s h e = h

  pub post_of_Meets : (r : Outcome A) (s : S) (a : A) → Meets Q r s → r ≡ returned a → Q a s
  post_of_Meets (returned b) s a h e = subst (λ x. Q x s) (returned-injective b a e) h
  post_of_Meets (raised x) s a h e = absurd (raised-ne-returned x a e)
  post_of_Meets stalled s a h e = absurd h

  pub Meets-ended :
      (r : Outcome A) (s : S) → (r ≡ stalled → ⊥) → ((a : A) → r ≡ returned a → Q a s) → Meets Q r s
  Meets-ended (returned a) s ended q = q a refl
  Meets-ended (raised e) s ended q = tt
  Meets-ended stalled s ended q = ended refl

  pub Meets-or_raise :
      (e : Exn) (o : Option A) (s : S) → ((a : A) → Q a s) → Meets Q (or_raise e o) s
  Meets-or_raise e none s q = tt
  Meets-or_raise e (some a) s q = q a

module _ {S T A : Type 0} (Q : A → S → Type 0) (R : A → T → Type 0) where
  pub Meets-mono :
      (r : Outcome A) (s : S) (t : T) → Meets Q r s → ((a : A) → Q a s → R a t) → Meets R r t
  Meets-mono (returned a) s t q f = f a q
  Meets-mono (raised e) s t q f = tt
  Meets-mono stalled s t q f = q

module _ {S A : Type 0} {P : S → Type 0} {Q : A → S → Type 0} where
  pub Ensures_after :
      {R : A → S → Type 0} (m : Exec S A)
      → Ensures P m Q
      → ((a : A) (s : S) → Q a s → R a s)
      → Ensures P m R
  Ensures_after {R} m h f = record {
    from = λ s p. Meets-mono Q R (m s).0 (m s).1 (m s).1 (h.from s p) (λ a. f a (m s).1);
  }

  pub Ensures-pure : (a : A) → ((s : S) → P s → Q a s) → Ensures P (pure a) Q
  Ensures-pure a h = record { from = h }

  pub Ensures-raise : (e : Exn) → Ensures P (raise e) Q
  Ensures-raise e = record { from = λ s p. tt }

  pub Ensures-if :
      (b : Bool) (m n : Exec S A)
      → (b ≡ true → Ensures P m Q)
      → (b ≡ false → Ensures P n Q)
      → Ensures P (if b then m else n) Q
  Ensures-if true m n hm hn = hm refl
  Ensures-if false m n hm hn = hn refl

  pub Ensures_before :
      {P' : S → Type 0} (m : Exec S A) → ((s : S) → P' s → P s) → Ensures P m Q → Ensures P' m Q
  Ensures_before m f h = record { from = λ s p. h.from s (f s p) }

module _ {S A B : Type 0} {Q : A → S → Type 0} {R : B → S → Type 0} where
  Meets-resume :
      (r : Outcome A) (s : S) (f : A → Exec S B)
      → Meets Q r s
      → ((a : A) → Ensures (Q a) (f a) R)
      → Meets R (resume r f s).0 (resume r f s).1
  Meets-resume (returned a) s f q hf = (hf a).from s q
  Meets-resume (raised e) s f q hf = tt
  Meets-resume stalled s f q hf = q

  pub Ensures-bind :
      {P : S → Type 0} (m : Exec S A) (f : A → Exec S B)
      → Ensures P m Q
      → ((a : A) → Ensures (Q a) (f a) R)
      → Ensures P (m >>= f) R
  Ensures-bind m f hm hf = record { from = λ s p. Meets-resume (m s).0 (m s).1 f (hm.from s p) hf }

module _ {S A B : Type 0} {P : S → Type 0} {R : B → S → Type 0} where
  pub Ensures-lift :
      (r : Outcome A) (f : A → Exec S B)
      → (r ≡ stalled → ⊥)
      → ((a : A) → r ≡ returned a → Ensures P (f a) R)
      → Ensures P (lift r >>= f) R
  Ensures-lift (returned a) f ended hf = hf a refl
  Ensures-lift (raised e) f ended hf = record { from = λ s p. tt }
  Ensures-lift stalled f ended hf = absurd (ended refl)
