-- ===== src/Controller/Options/Said.antt =====
-- What `parse_args` of ipbench2/src/ipbench.py makes of the options that may be given once: the last
-- occurrence counts.
use ipbench.Prelude.{ℤ, pos, ◌≡◌, refl, sym, ap, ◌∙◌, Option, none, some, List, [], ◌∷◌}
use ipbench.Python.Text.{Text}
use ipbench.Python.Number.{int}
use ipbench.Python.Outcome.{
  returned, and_then, and_then-eq-returned, returned-injective, raised-ne-returned, or_raise,
  exit_usage,
}
use ipbench.Controller.Options.{
  Options, Argument, port, test, test_args, test_target, test_port, target_test_port, integer,
  apply, apply_all, parse_args, defaults,
}

-- The last value that an option is given, and `none` where it is not given.
abbrev pub last {ℓ} : {A : Type ℓ} → (Argument → Option A) → Option A → List Argument → Option A
last given seen [] = seen
last given seen (a ∷ l) = last given (elim (given a) [ none ↦ seen | some v ↦ some v ]) l

abbrev pub port_given : Argument → Option ℤ
port_given (port v) = int v
port_given a = none

abbrev pub test_port_given : Argument → Option ℤ
test_port_given (test_port v) = int v
test_port_given a = none

abbrev pub test_given : Argument → Option Text
test_given (test v) = some v
test_given a = none

abbrev pub test_args_given : Argument → Option Text
test_args_given (test_args v) = some v
test_args_given a = none

abbrev pub test_target_given : Argument → Option Text
test_target_given (test_target v) = some v
test_target_given a = none

abbrev pub or_default {ℓ} : {A : Type ℓ} → A → Option A → A
or_default d none = d
or_default d (some a) = a

abbrev pub or_none {ℓ} : {A : Type ℓ} → Option A → Option A → Option A
or_none d none = d
or_none d (some a) = some a

-- What each argument makes of such a field.
abbrev Steps : {A B : Type 0} → (Options → B) → (Argument → Option A) → (B → Option A → B) → Type 0
Steps {A = A} {B = B} field given view =
    (a : Argument) (o o' : Options)
    → apply a o ≡ returned o'
    → (seen : Option A) (d : B) → field o ≡ view d seen
    → field o' ≡ view d (elim (given a) [ none ↦ seen | some v ↦ some v ])

-- A field of the options that one option sets.
module _ {A B : Type 0} (field : Options → B) (given : Argument → Option A)
    (view : B → Option A → B) (step : Steps field given view) where
  apply_all-field :
      (l : List Argument) (o o' : Options) (seen : Option A) (d : B)
      → apply_all l o ≡ returned o'
      → field o ≡ view d seen
      → field o' ≡ view d (last given seen l)
  unfolding apply_all
  apply_all-field [] o o' seen d h e = ap field (sym (returned-injective o o' h)) ∙ e
  apply_all-field (a ∷ l) o o' seen d h e =
      let (o₁, first, rest) = and_then-eq-returned (apply a o) (λ p. apply_all l p) o' h in
      apply_all-field l o₁ o' _ d rest (step a o o₁ first seen d e)

integer-int : (v : Text) (n : ℤ) → integer v ≡ returned n → int v ≡ some n
integer-int v n h = of_number (int v) h
  where
    of_number : (r : Option ℤ) → or_raise exit_usage r ≡ returned n → r ≡ some n
    of_number none e = absurd (raised-ne-returned _ n e)
    of_number (some k) e = ap (λ x. some x) (returned-injective k n e)

-- An option of another field, with a number.
by_integer {ℓ} :
    {B : Type ℓ} (field : Options → B) (v : Text) (g : ℤ → Options) (o o' : Options)
    → and_then (integer v) (λ n. returned (g n)) ≡ returned o'
    → ((n : ℤ) → field (g n) ≡ field o)
    → field o' ≡ field o
by_integer field v g o o' h same =
    let (n, e, f) = and_then-eq-returned (integer v) (λ n. returned (g n)) o' h in
    ap field (sym (returned-injective (g n) o' f)) ∙ same n

port-step : Steps (λ o. o.port) port_given or_default
unfolding apply
port-step (port v) o o' h seen d e =
    let (n, read, f) = and_then-eq-returned (integer v) _ o' h in
    rw (integer-int v n read) (ap (λ (x : Options). x.port) (sym (returned-injective _ o' f)))
port-step (test_port v) o o' h seen d e =
    by_integer (λ (x : Options). x.port) v (λ n. record o { test_port = n }) o o' h (λ n. refl) ∙ e
port-step (target_test_port v) o o' h seen d e =
    by_integer (λ (x : Options). x.port) v (λ n. record o { target_test_port = n }) o o' h
      (λ n. refl)
    ∙ e
port-step _ o o' h seen d e = ap (λ (x : Options). x.port) (sym (returned-injective _ o' h)) ∙ e

test_port-step : Steps (λ o. o.test_port) test_port_given or_default
unfolding apply
test_port-step (test_port v) o o' h seen d e =
    let (n, read, f) = and_then-eq-returned (integer v) _ o' h in
    rw (integer-int v n read) (ap (λ (x : Options). x.test_port) (sym (returned-injective _ o' f)))
test_port-step (port v) o o' h seen d e =
    by_integer (λ (x : Options). x.test_port) v (λ n. record o { port = n }) o o' h (λ n. refl) ∙ e
test_port-step (target_test_port v) o o' h seen d e =
    by_integer (λ (x : Options). x.test_port) v (λ n. record o { target_test_port = n }) o o' h
      (λ n. refl)
    ∙ e
test_port-step _ o o' h seen d e =
    ap (λ (x : Options). x.test_port) (sym (returned-injective _ o' h)) ∙ e

test_args-step : Steps (λ o. o.test_args) test_args_given or_default
unfolding apply
test_args-step (test_args v) o o' h seen d e =
    ap (λ (x : Options). x.test_args) (sym (returned-injective _ o' h))
test_args-step (port v) o o' h seen d e =
    by_integer (λ (x : Options). x.test_args) v (λ n. record o { port = n }) o o' h (λ n. refl) ∙ e
test_args-step (test_port v) o o' h seen d e =
    by_integer (λ (x : Options). x.test_args) v (λ n. record o { test_port = n }) o o' h (λ n. refl)
    ∙ e
test_args-step (target_test_port v) o o' h seen d e =
    by_integer (λ (x : Options). x.test_args) v (λ n. record o { target_test_port = n }) o o' h
      (λ n. refl)
    ∙ e
test_args-step _ o o' h seen d e =
    ap (λ (x : Options). x.test_args) (sym (returned-injective _ o' h)) ∙ e

test_target-step : Steps (λ o. o.test_target) test_target_given or_none
unfolding apply
test_target-step (test_target v) o o' h seen d e =
    ap (λ (x : Options). x.test_target) (sym (returned-injective _ o' h))
test_target-step (port v) o o' h seen d e =
    by_integer (λ (x : Options). x.test_target) v (λ n. record o { port = n }) o o' h (λ n. refl)
    ∙ e
test_target-step (test_port v) o o' h seen d e =
    by_integer (λ (x : Options). x.test_target) v (λ n. record o { test_port = n }) o o' h
      (λ n. refl)
    ∙ e
test_target-step (target_test_port v) o o' h seen d e =
    by_integer (λ (x : Options). x.test_target) v (λ n. record o { target_test_port = n }) o o' h
      (λ n. refl)
    ∙ e
test_target-step _ o o' h seen d e =
    ap (λ (x : Options). x.test_target) (sym (returned-injective _ o' h)) ∙ e

test-step : Steps (λ o. o.test) test_given or_none
unfolding apply
test-step (test v) o o' h seen d e = ap (λ (x : Options). x.test) (sym (returned-injective _ o' h))
test-step (port v) o o' h seen d e =
    by_integer (λ (x : Options). x.test) v (λ n. record o { port = n }) o o' h (λ n. refl) ∙ e
test-step (test_port v) o o' h seen d e =
    by_integer (λ (x : Options). x.test) v (λ n. record o { test_port = n }) o o' h (λ n. refl) ∙ e
test-step (target_test_port v) o o' h seen d e =
    by_integer (λ (x : Options). x.test) v (λ n. record o { target_test_port = n }) o o' h
      (λ n. refl)
    ∙ e
test-step _ o o' h seen d e = ap (λ (x : Options). x.test) (sym (returned-injective _ o' h)) ∙ e

or_none-none : {A : Type 0} (x : Option A) → or_none none x ≡ x
or_none-none none = refl
or_none-none (some a) = refl

-- What `parse_args` leaves in the fields that go into the clients of the command line.
module _ (l : List Argument) (o : Options) (parsed : parse_args l ≡ returned o) where
  pub port_said : o.port ≡ or_default (pos 8036) (last port_given none l)
  unfolding parse_args
  port_said =
      apply_all-field (λ o. o.port) port_given or_default port-step l defaults o none (pos 8036)
        parsed refl

  pub test_port_said : o.test_port ≡ or_default (pos 0) (last test_port_given none l)
  unfolding parse_args
  test_port_said =
      apply_all-field (λ o. o.test_port) test_port_given or_default test_port-step l defaults o none
        (pos 0) parsed refl

  pub test_args_said : o.test_args ≡ or_default [] (last test_args_given none l)
  unfolding parse_args
  test_args_said =
      apply_all-field (λ o. o.test_args) test_args_given or_default test_args-step l defaults o none
        [] parsed refl

  pub test_target_said : o.test_target ≡ last test_target_given none l
  unfolding parse_args
  test_target_said =
      apply_all-field (λ o. o.test_target) test_target_given or_none test_target-step l defaults o
        none none parsed refl
      ∙ or_none-none (last test_target_given none l)

  pub test_said : o.test ≡ last test_given none l
  unfolding parse_args
  test_said =
      apply_all-field (λ o. o.test) test_given or_none test-step l defaults o none none parsed refl
      ∙ or_none-none (last test_given none l)
