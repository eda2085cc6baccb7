-- ===== src/Daemon/Run.antt =====
-- The state RUN: the method `run` of `IpbenchClient` in ipbench2/src/ipbenchd.py.
pub mod Quiet
pub mod Sound
use ipbench.Prelude.{ℕ, zero, suc, Bool, Option, none, some, if◌then◌else◌}
use ipbench.Python.Text.{Text, codes, text_eq}
use ipbench.Python.Outcome.{stalled}
use ipbench.Python.Exec.{Exec, pure, lift}
use ipbench.Daemon.Shunt.{Shunt}
use ipbench.Daemon.World.{Os, World, on_shunt}
use ipbench.Daemon.Commands.{match_word}
use ipbench.Daemon.Common.{Cargo, Next, go_on, on_line, refuse, try_plugin}

module _ (S : Shunt) (O : Os) (target : Bool) where
  abbrev W : Type 0
  W = World S O

  run_line : Exec W Next → Option Text → Exec W Next
  run_line again none = refuse S O again
  run_line again (some cmd) =
      if text_eq cmd (codes "START")
      then try_plugin S O (on_shunt S.start) (λ _. pure (go_on "MARSHALL"))
      else refuse S O again

  run_loop : ℕ → Exec W Next
  run_loop zero = lift stalled
  run_loop (suc rounds) =
      let again = run_loop rounds in
      on_line S O target (λ line_in. run_line again (match_word line_in))

  unfoldable pub run : Cargo → Exec W Next
  unfolding run_loop run_line
  run val w = run_loop (suc w.writes) w
