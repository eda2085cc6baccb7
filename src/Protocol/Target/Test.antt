-- ===== src/Protocol/Target/Test.antt =====
-- A test of the target from START on.
use ipbench.Prelude.{ℕ, suc, ◌≤◌, ◌≡◌, ◌≢◌, refl, sym, subst, ap, ◌∙◌, List, ◌∷◌, ◌++◌, is, ℤ}
use ipbench.Python.Text.{Bytes, codes}
use ipbench.Python.Outcome.{returned}
use ipbench.Daemon.TestStatus.RoundTrip.{Holds}
use ipbench.Daemon.Shunt.{Shunt}
use ipbench.Daemon.Common.{one}
use ipbench.Daemon.Target.System.{
  runs, ended, at, starting, child_of, System, turn, goes_on, schedule, forking,
}
use ipbench.Daemon.Processes.{update, update_same, update_other}
use ipbench.Daemon.Target.Turns.{reads_start, forks_child}
use ipbench.Protocol.Results.{result_text}
use ipbench.Protocol.Target.Orders.{Side, parents_after, turns_of, stop_once}

module _ {S : Shunt} where
  -- When a target process that was set up, and is before RUN, reads START, it forks a child, with the
  -- next id, and its SHUNT.start() goes on until SIGUSR1. The two may then go on in any order, and if
  -- the next line is STOP and the plugin's calls succeed: once the child had a turn and behind it the
  -- parent two, and however many they have, the test has one result, written once behind what was
  -- written before; STOP was read and nothing behind it; both processes have ended, and the status
  -- holds no id. The socket takes at least three writes, and the status held an id.
  pub target_test :
      (p n q : ℕ) (sides : List Side) (rest : List Bytes) (w : System S) (s₁ s₂ : S.State) (v : ℤ)
      (content : Bytes)
      → p ≢ w.fresh
      → 2 ≤ parents_after sides
      → w.lives p ≡ runs
      → w.places p ≡ at (codes "RUN") one
      → w.input ≡ codes "START\n" ∷ codes "STOP\n" ∷ rest
      → w.writes ≡ suc (suc (suc n))
      → Holds q w.status
      → S.start (w.shunts p) ≡ (returned tt, s₁)
      → S.marshall s₁ ≡ (returned (v, content), s₂)
      → let w' = schedule S (goes_on p ∷ goes_on p ∷ turns_of p w.fresh sides) w in
        (w'.output ≡ w.output ++ result_text (is v 0) content)
        × (w'.input ≡ rest)
        × (w'.lives p ≡ ended)
        × (w'.lives w.fresh ≡ ended)
        × Holds 0 w'.status
  unfolding schedule
  target_test p n q sides rest w s₁ s₂ v content apart two alive here lines more h started done =
      let c = w.fresh in
      let e =
        ap (λ x. turn S p (turn S p (record w { input = x }))) lines
        ∙ ap (λ x. turn S p x)
            (reads_start {S = S} (codes "STOP\n" ∷ rest) w.output w.writes w.status w.lives w.shunts
              w.places c p alive here)
        ∙ forks_child {S = S} (codes "STOP\n" ∷ rest) w.output w.writes w.status w.lives
            (update w.shunts p (w.shunts p)) (update w.places p forking) c p alive
            (update_same w.places p forking) in
      let shunts = update w.shunts p (w.shunts p) in
      let places = update (update w.places p forking) p (starting c) in
      let other : c ≢ p = λ x. apart (sym x) in
      subst
        (λ x.
          let w' = schedule S (turns_of p c sides) x in
          (w'.output ≡ w.output ++ result_text (is v 0) content)
          × (w'.input ≡ rest)
          × (w'.lives p ≡ ended)
          × (w'.lives w.fresh ≡ ended)
          × Holds 0 w'.status)
        (sym e)
        (stop_once p c apart rest w.output n q (w.shunts p) s₁ s₂ v content started done sides _ two
          (record {
            parent_runs = update_other w.lives c p runs other ∙ alive;
            child_runs = update_same w.lives c runs;
            waits =
                update_other places c p (child_of p) other
                ∙ update_same (update w.places p forking) p (starting c);
            reads = update_same places c (child_of p);
            state = update_other shunts c p (shunts p) other ∙ update_same w.shunts p (w.shunts p);
            lines = refl;
            output = refl;
            writes = more;
            status = h;
          }))
