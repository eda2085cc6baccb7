-- ===== src/Python/Outcome.antt =====
-- What a call of Python code comes to: a value, or an exception. `stalled` is a loop that was cut
-- off after the rounds that its model allows.
use ipbench.Prelude.{◌≡◌, refl, Option, none, some}
use ipbench.Python.Text.{Text}

pub data Exn : Type 0 where
  -- RuntimeError(detail), which the plugin wrappers raise
  runtime_error : Text → Exn
  -- IpBenchError(value)
  ipbench_error : Text → Exn
  value_error type_error key_error index_error attribute_error unbound_local : Exn
  unicode_error os_error broken_pipe keyboard_interrupt : Exn
  -- Exception("InitializationError", …) of the state machine
  initialization_error : Exn
  -- sys.exit(0), sys.exit(1), and the exit of a command line that cannot be parsed
  exit_ok exit_failed exit_usage : Exn
  -- ProcessLookupError, where nothing catches it
  process_lookup : Exn
  -- SyntaxError, of an XML path
  syntax_error : Exn

pub data Outcome {ℓ} (A : Type ℓ) : Type ℓ where
  returned : A → Outcome A
  raised : Exn → Outcome A
  stalled : Outcome A

-- A library call that fails in one way only.
abbrev pub or_raise {ℓ} : {A : Type ℓ} → Exn → Option A → Outcome A
or_raise e none = raised e
or_raise e (some a) = returned a

-- A call, and what is done with its value.
abbrev pub and_then {ℓ κ} : {A : Type ℓ} {B : Type κ} → Outcome A → (A → Outcome B) → Outcome B
and_then (returned a) f = f a
and_then (raised e) f = raised e
and_then stalled f = stalled

pub and_then_ended {ℓ κ} :
    {A : Type ℓ} {B : Type κ} (r : Outcome A) (f : A → Outcome B)
    → (r ≡ stalled → ⊥)
    → ((a : A) → f a ≡ stalled → ⊥)
    → and_then r f ≡ stalled
    → ⊥
and_then_ended (returned a) f hr hf e = hf a e
and_then_ended (raised x) f hr hf e = cc
and_then_ended stalled f hr hf e = hr refl

pub returned-injective {ℓ} : {A : Type ℓ} (a b : A) → returned a ≡ returned b → a ≡ b
returned-injective a b e = cc

pub raised-ne-returned {ℓ} : {A : Type ℓ} (x : Exn) (a : A) → raised x ≡ returned a → ⊥
raised-ne-returned x a e = cc

pub and_then-eq-returned :
    {A B : Type 0} (r : Outcome A) (f : A → Outcome B) (b : B)
    → and_then r f ≡ returned b
    → (a : A) × (r ≡ returned a) × (f a ≡ returned b)
and_then-eq-returned (returned a) f b h = (a, refl, h)
and_then-eq-returned (raised e) f b h = cc
and_then-eq-returned stalled f b h = cc
