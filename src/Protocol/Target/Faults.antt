-- ===== src/Protocol/Target/Faults.antt =====
-- ipbench2/src/ipbenchd.py in target mode: what a client can do while the test runs, other than STOP.
use ipbench.Prelude.{ℕ, suc, ◌≡◌, ◌≢◌, refl, sym, subst, ap, ◌∙◌, List, [], ◌∷◌, ◌++◌}
use ipbench.Python.Text.{Text, Bytes, codes}
use ipbench.Python.Outcome.{returned}
use ipbench.Daemon.TestStatus.RoundTrip.{Holds}
use ipbench.Daemon.TestStatus.History.{not_running_lem}
use ipbench.Daemon.Shunt.{Shunt}
use ipbench.Daemon.Common.{error_cargo}
use ipbench.Daemon.Target.System.{
  runs, interrupted, ended, at, starting, System, turn, goes_on, schedule,
}
use ipbench.Daemon.Processes.{update, update_same, update_other}
use ipbench.Daemon.Target.Turns.{rests, farewells, parent_deaf}
use ipbench.Daemon.Target.Turns.Child.{child_aborts, child_quits}
use ipbench.Protocol.Target.{IsTesting}
use ipbench.Protocol.Target.Orders.{Side, parent, child, turns_of}

module _ {S : Shunt} where
  -- Two processes whose turns change nothing.
  both_rest :
      (p c : ℕ) (sides : List Side) (w : System S)
      → turn S p w ≡ w
      → turn S c w ≡ w
      → schedule S (turns_of p c sides) w ≡ w
  unfolding schedule
  both_rest p c [] w idle idle' = refl
  both_rest p c (parent ∷ sides) w idle idle' =
      ap (λ x. schedule S (turns_of p c sides) x) idle ∙ both_rest p c sides w idle idle'
  both_rest p c (child ∷ sides) w idle idle' =
      ap (λ x. schedule S (turns_of p c sides) x) idle' ∙ both_rest p c sides w idle idle'

  -- When the child of a target that tests reads ABORT, and SHUNT.start() of the parent would not fail,
  -- only the child ends: however the two are scheduled afterwards, the parent stays in SHUNT.start()
  -- with a SIGINT that it does not act on, nothing is written, and the status still holds the id that
  -- it held.
  pub abort_target :
      (p c q : ℕ) (sides : List Side) (rest : List Bytes) (w : System S) (s₁ : S.State)
      → p ≢ c
      → IsTesting p c w.lives w.places
      → w.input ≡ codes "ABORT\n" ∷ rest
      → Holds q w.status
      → S.start (w.shunts p) ≡ (returned tt, s₁)
      → let w' = schedule S (goes_on c ∷ turns_of p c sides) w in
        (w'.output ≡ w.output)
        × (w'.lives c ≡ ended)
        × (w'.lives p ≡ interrupted)
        × (w'.places p ≡ starting c)
        × Holds q w'.status
  unfolding schedule
  abort_target p c q sides rest w s₁ apart t lines h started =
      let other : c ≢ p = λ x. apart (sym x) in
      let lives = update w.lives p interrupted in
      let deaf = update_other lives c p ended other ∙ update_same w.lives p interrupted in
      let over = update_same lives c ended in
      let shunts = update w.shunts c (w.shunts c) in
      let e =
        ap (λ x. turn S c (record w { input = x })) lines
        ∙ child_aborts {S = S} rest w.output w.writes w.status w.lives w.shunts w.places w.fresh p c
            t.child_runs t.parent_runs t.reads in
      let idle =
        parent_deaf {S = S} rest w.output w.writes w.status (update lives c ended) shunts w.places
          w.fresh p c s₁ deaf t.waits
          (ap (λ x. S.start x) (update_other w.shunts c p (w.shunts c) other) ∙ started) in
      subst
        (λ (w' : System S).
          (w'.output ≡ w.output)
          × (w'.lives c ≡ ended)
          × (w'.lives p ≡ interrupted)
          × (w'.places p ≡ starting c)
          × Holds q w'.status)
        (sym (
          ap (λ x. schedule S (turns_of p c sides) x) e
          ∙ both_rest p c sides _ idle (rests c _ over)))
        (refl, over, deaf, t.waits, h)

  -- When the child of a target that tests reads QUIT, its two next turns write the farewell, clear the
  -- status, whatever it held, and end the child, while the parent still runs its test.
  pub quit_target :
      (p c m q : ℕ) (rest : List Bytes) (w : System S)
      → p ≢ c
      → IsTesting p c w.lives w.places
      → w.input ≡ codes "QUIT\n" ∷ rest
      → w.writes ≡ suc m
      → Holds q w.status
      → let w' = schedule S (goes_on c ∷ goes_on c ∷ []) w in
        (w'.output ≡ w.output ++ codes "222 CLOSING CONTROL CONNECTION (Come back soon!)\n")
        × Holds 0 w'.status
        × (w'.lives c ≡ ended)
        × (w'.lives p ≡ runs)
        × (w'.places p ≡ starting c)
  unfolding schedule
  quit_target p c m q rest w apart t lines more h =
      let (st, cleared, h') = not_running_lem q w.status h in
      let last = error_cargo 222 (codes "Come back soon!") in
      let places = update w.places c (at (codes "ERROR") last) in
      let e =
        ap (λ x. turn S c (turn S c (record w { input = x }))) lines
        ∙ ap (λ x. turn S c x)
            (child_quits {S = S} rest w.output w.writes w.status w.lives w.shunts w.places w.fresh p
              c t.child_runs t.reads)
        ∙ farewells {S = S} rest w.output w.writes w.status w.lives (update w.shunts c (w.shunts c))
            places w.fresh c m st t.child_runs (update_same w.places c _) more cleared in
      subst
        (λ (w' : System S).
          (w'.output ≡ w.output ++ codes "222 CLOSING CONTROL CONNECTION (Come back soon!)\n")
          × Holds 0 w'.status
          × (w'.lives c ≡ ended)
          × (w'.lives p ≡ runs)
          × (w'.places p ≡ starting c))
        (sym e)
        (
          refl,
          h',
          update_same w.lives c ended,
          update_other w.lives c p ended (λ x. apart (sym x)) ∙ t.parent_runs,
          update_other w.places c p _ (λ x. apart (sym x)) ∙ t.waits,
        )
