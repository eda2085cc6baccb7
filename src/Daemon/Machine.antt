-- ===== src/Daemon/Machine.antt =====
-- The class `StateMachine` of ipbench2/src/ipbenchd.py, over the state that its handlers share and
-- the cargo that they pass on. A handler that returns no pair (`None`) is `none`.
pub mod Rule
use ipbench.Prelude.{
  ℕ, zero, suc, Bool, false, Option, none, some, List, [], ◌∷◌, ◌++◌, ◌||◌, if◌then◌else◌,
}
use ipbench.Python.Text.{Text, text_eq, upper}
use ipbench.Python.Outcome.{
  returned, raised, stalled, type_error, key_error, initialization_error, Outcome,
}
use ipbench.Python.Exec.{Exec, pure, lift, ◌>>=◌}

-- d.get(k) and d[k] = v of a dict with text keys
module _ {ℓ} {V : Type ℓ} where
  unfoldable pub lookup : Text → List (Text × V) → Option V
  lookup k [] = none
  lookup k ((j, v) ∷ d) = if text_eq j k then some v else lookup k d

  unfoldable pub insert : Text → V → List (Text × V) → List (Text × V)
  insert k v [] = (k, v) ∷ []
  insert k v ((j, w) ∷ d) = if text_eq j k then (j, v) ∷ d else (j, w) ∷ insert k v d

-- k in l
abbrev pub contains : Text → List Text → Bool
contains k [] = false
contains k (j ∷ l) = text_eq j k || contains k l

module _ (S C : Type 0) where
  abbrev pub Handler : Type 0
  Handler = C → Exec S (Option (Text × C))

  pub record StateMachine : Type 0 where
    pub handlers : List (Text × Handler)
    pub start_state : Option Text
    pub end_states : List Text

module _ {S C : Type 0} where
  -- __init__
  unfoldable pub empty : StateMachine S C
  empty = record { handlers = []; start_state = none; end_states = [] }

  unfoldable pub add_state : Text → Handler S C → Bool → StateMachine S C → StateMachine S C
  unfolding upper insert
  add_state name handler end_state m = record m {
    handlers = insert (upper name) handler m.handlers;
    end_states = if end_state then m.end_states ++ upper name ∷ [] else m.end_states;
  }

  unfoldable pub set_start : Text → StateMachine S C → StateMachine S C
  unfolding upper
  set_start name m = record m { start_state = some (upper name) }

  -- What the loop does with a handler's result: `none` where the new state is an end state, and the
  -- next handler with its cargo else.
  unfoldable pub next : StateMachine S C → Option (Text × C) → Outcome (Option (Handler S C × C))
  unfolding upper lookup
  next m none = raised type_error
  next m (some (new_state, cargo)) =
      if contains (upper new_state) m.end_states
      then returned none
      else (elim (lookup (upper new_state) m.handlers) [
        | none ↦ raised key_error
        | some handler ↦ returned (some (handler, cargo))
      ])

  -- `while True`, for at most so many calls of handlers.
  unfoldable pub loop : ℕ → StateMachine S C → Handler S C → C → Exec S (Unit {0})
  loop zero m handler cargo = lift stalled
  loop (suc rounds) m handler cargo = do
    result ← handler cargo
    step ← lift (next m result)
    (elim step [ none ↦ pure tt | some (handler', cargo') ↦ loop rounds m handler' cargo' ])

  -- The handler of the start state, and the checks at the head of `run`.
  abbrev pub start_handler : StateMachine S C → Option (Handler S C)
  start_handler m = elim m.start_state [ none ↦ none | some name ↦ lookup name m.handlers ]

  abbrev pub checked : Option (Handler S C) → List Text → Outcome (Handler S C)
  checked none ends = raised initialization_error
  checked (some h) [] = raised initialization_error
  checked (some h) (_ ∷ _) = returned h

  unfoldable pub run : ℕ → StateMachine S C → C → Exec S (Unit {0})
  run rounds m cargo = do
    handler ← lift (checked (start_handler m) m.end_states)
    loop rounds m handler cargo
