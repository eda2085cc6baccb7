-- ===== src/Daemon/Machine/Rule.antt =====
-- The rule for `StateMachine.run`: an invariant for each state, and a rank that each handler lowers.
use mathlib.Core.Option.{none-ne-some, some-injective}
use ipbench.Prelude.{
  Option-cases, ℕ, zero, suc, ◌≤◌, ◌<◌, ◌≡◌, subst, true, Bool-cases, inl, inr, Option, none, some,
  List, [], ◌∷◌, All, arith,
}
use ipbench.Python.Text.{Text, text_eq, upper}
use ipbench.Python.Text.Search.{eq_of_text_eq}
use ipbench.Python.Outcome.{returned, stalled}
use ipbench.Python.Exec.{pure, lift, ◌>>=◌}
use ipbench.Python.Exec.Ensures.{Ensures, Ensures-bind, Ensures-lift}
use ipbench.Daemon.Machine.{
  StateMachine, Handler, contains, lookup, next, loop, checked, start_handler, run,
}

module _ {S C : Type 0} (I : Text → C → S → Type 0) (rank : Text → ℕ) where
  -- What a handler of a state of rank `n` has to hand on.
  abbrev pub Proceeds : ℕ → Option (Text × C) → S → Type 0
  Proceeds n none s = Unit
  Proceeds n (some (name, cargo)) s = I (upper name) cargo s × (rank (upper name) < n)

  -- A handler keeps the invariants and lowers the rank.
  abbrev pub Sound : Text × Handler S C → Type 0
  Sound (name, handler) =
      (cargo : C) → Ensures (I name cargo) (handler cargo) (Proceeds (rank name))

  lookup-All :
      (d : List (Text × Handler S C)) (k : Text) (handler : Handler S C)
      → All Sound d
      → lookup k d ≡ some handler
      → Sound (k, handler)
  unfolding lookup
  lookup-All [] k handler h e = absurd (none-ne-some handler e)
  lookup-All ((j, g) ∷ d) k handler (h, hs) e = elim (Bool-cases (text_eq j k)) [
    | inl same ↦
        let f : g ≡ handler = some-injective g handler (rw (same, lookup) at e) in
        subst (λ n. Sound (n, handler)) (eq_of_text_eq j k same) (subst (λ x. Sound (j, x)) f h)
    | inr differ ↦ lookup-All d k handler hs (rw (differ, lookup) at e)
  ]

  module _ (m : StateMachine S C) where
    -- The run ended in an end state with its invariant.
    abbrev pub Ended : Unit {0} → S → Type 0
    Ended _ s = (name : Text) × (cargo : C) × (contains name m.end_states ≡ true) × I name cargo s

    -- What the loop does with a result, if its next rounds are right.
    dispatch_lem :
        (n rounds : ℕ) (result : Option (Text × C))
        → All Sound m.handlers
        → n ≤ rounds
        → ((name : Text) (handler : Handler S C) (cargo : C)
            → Sound (name, handler)
            → rank name < rounds
            → Ensures (I name cargo) (loop rounds m handler cargo) Ended)
        → Ensures
            (Proceeds n result)
            (lift (next m result) >>= λ step. elim step [
              | none ↦ pure tt
              | some (h, c) ↦ loop rounds m h c
            ])
            Ended
    unfolding next
    dispatch_lem n rounds none all le rec = record { from = λ s p. tt }
    dispatch_lem n rounds (some (name, cargo)) all le rec =
        elim (Bool-cases (contains (upper name) m.end_states)) [
          | inl ends ↦ rw (ends, next) (record { from = λ s p. (upper name, cargo, ends, p.0) })
          | inr goes ↦
              rw (goes, next)
                (elim (Option-cases (lookup (upper name) m.handlers)) [
                  | inl missing ↦ rw (missing, next) (record { from = λ s p. tt })
                  | inr (h, found) ↦
                      rw (found, next)
                        (record {
                          from = λ s p.
                              (rec (upper name) h cargo
                                  (lookup-All m.handlers (upper name) h all found)
                                  (omega (arith, p.1))).from
                                s p.0;
                        })
                ])
        ]

    pub loop_lem :
        (rounds : ℕ) (name : Text) (handler : Handler S C) (cargo : C)
        → All Sound m.handlers
        → Sound (name, handler)
        → rank name < rounds
        → Ensures (I name cargo) (loop rounds m handler cargo) Ended
    unfolding loop
    loop_lem zero name handler cargo all sound low = absurd (omega arith)
    loop_lem (suc rounds) name handler cargo all sound low =
        Ensures-bind (handler cargo) _ (sound cargo) (λ result.
          dispatch_lem (rank name) rounds result all (omega arith)
            (λ n h c sd lw. loop_lem rounds n h c all sd lw))

    checked_lem :
        (o : Option (Handler S C)) (ends : List Text)
        → (checked o ends ≡ stalled → ⊥)
          × ((h : Handler S C) → checked o ends ≡ returned h → o ≡ some h)
    checked_lem none ends = (λ e. cc, λ h e. cc)
    checked_lem (some h) [] = (λ e. cc, λ h' e. cc)
    checked_lem (some h) (_ ∷ _) = (λ e. cc, λ h' e. cc)

    -- If a start state is set, every handler keeps the invariants `I` of the states and hands on only
    -- states of a lower rank, and there are more rounds than the rank of the start state, then
    -- `run`, begun where the invariant of the start state holds, is never cut off, and if it
    -- returns, then with the invariant of a state that is an end state.
    pub run_lem :
        (rounds : ℕ) (start : Text) (cargo : C)
        → m.start_state ≡ some start
        → All Sound m.handlers
        → rank start < rounds
        → Ensures (I start cargo) (run rounds m cargo) Ended
    unfolding run
    run_lem rounds start cargo e all low =
        let (ended, found) = checked_lem (start_handler m) m.end_states in
        Ensures-lift (checked (start_handler m) m.end_states) _ ended (λ h f.
          loop_lem rounds start h cargo all
            (lookup-All m.handlers start h all (rw (e, start_handler) at (found h f))) low)
