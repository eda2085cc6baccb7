-- ===== src/Python/Exec/Stays.antt =====
-- What code leaves as it was, whether it returns, raises or is cut off.
use ipbench.Prelude.{Bool, true, false, if◌then◌else◌}
use ipbench.Python.Outcome.{Outcome, Exn, returned, raised, stalled}
use ipbench.Python.Exec.{Exec, lift, resume, ◌>>=◌}

pub record Stays {S A : Type 0} (P : S → Type 0) (m : Exec S A) : Type 0 where
  pub from : (s : S) → P s → P (m s).1

module _ {S A : Type 0} {P : S → Type 0} where
  pub Stays-lift : (r : Outcome A) → Stays P (lift r)
  Stays-lift r = record { from = λ s p. p }

  pub Stays-if : (b : Bool) (m n : Exec S A) → Stays P m → Stays P n → Stays P (if b then m else n)
  Stays-if true m n hm hn = hm
  Stays-if false m n hm hn = hn

module _ {S A B : Type 0} {P : S → Type 0} where
  resume-Stays :
      (r : Outcome A) (f : A → Exec S B) (s : S)
      → ((a : A) → Stays P (f a))
      → P s
      → P (resume r f s).1
  resume-Stays (returned a) f s hf p = (hf a).from s p
  resume-Stays (raised e) f s hf p = p
  resume-Stays stalled f s hf p = p

  pub Stays-bind :
      (m : Exec S A) (f : A → Exec S B) → Stays P m → ((a : A) → Stays P (f a)) → Stays P (m >>= f)
  Stays-bind m f hm hf = record { from = λ s p. resume-Stays (m s).0 f (m s).1 hf (hm.from s p) }

-- What code leads to, with its outcome, from a state that meets the precondition.
pub record Leads {S A : Type 0} (P : S → Type 0) (m : Exec S A) (E : Outcome A → S → Type 0)
    : Type 0 where
  pub from : (s : S) → P s → E (m s).0 (m s).1

module _ {S A B : Type 0} {P : S → Type 0} (E : Outcome B → S → Type 0)
    (fails : (e : Exn) (s : S) → P s → E (raised e) s) (stalls : (s : S) → P s → E stalled s) where
  resume-Leads :
      (r : Outcome A) (f : A → Exec S B) (s : S)
      → ((a : A) → Leads P (f a) E)
      → P s
      → E (resume r f s).0 (resume r f s).1
  resume-Leads (returned a) f s hf p = (hf a).from s p
  resume-Leads (raised e) f s hf p = fails e s p
  resume-Leads stalled f s hf p = stalls s p

  pub Leads-bind :
      (m : Exec S A) (f : A → Exec S B)
      → Stays P m
      → ((a : A) → Leads P (f a) E)
      → Leads P (m >>= f) E
  Leads-bind m f hm hf = record { from = λ s p. resume-Leads (m s).0 f (m s).1 hf (hm.from s p) }
