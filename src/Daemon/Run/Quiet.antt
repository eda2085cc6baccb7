-- ===== src/Daemon/Run/Quiet.antt =====
-- The state RUN leaves the status and the process table as they were.
use ipbench.Prelude.{false, ℕ, zero, suc, Option, none, some}
use ipbench.Python.Text.{Text, codes, text_eq}
use ipbench.Python.Exec.{Exec}
use ipbench.Python.Exec.Stays.{Stays-lift, Stays-if}
use ipbench.Daemon.Shunt.{Shunt}
use ipbench.Daemon.World.{Os, World, on_shunt}
use ipbench.Daemon.World.Quiet.{on_shunt-Quiet}
use ipbench.Daemon.Commands.{match_word}
use ipbench.Daemon.Common.{Cargo, Next}
use ipbench.Daemon.Common.Quiet.{Stay, try_plugin-Quiet, refuse-Quiet, on_line-Quiet}
use ipbench.Daemon.Run.{run_line, run_loop, run}

module _ {S : Shunt} {O : Os} (k : ℕ) (t : O.Table) where
  run_line-Quiet :
      (again : Exec (World S O) Next) (cmd : Option Text)
      → Stay k t again
      → Stay {S = S} {O = O} k t (run_line S O false again cmd)
  unfolding run_line
  run_line-Quiet again none h = refuse-Quiet k t again h
  run_line-Quiet again (some cmd) h =
      Stays-if (text_eq cmd (codes "START")) _ _
        (try_plugin-Quiet k t (on_shunt S.start) _ (on_shunt-Quiet k t S.start) (λ _. Stays-lift _))
        (refuse-Quiet k t again h)

  run_loop-Quiet : (rounds : ℕ) → Stay {S = S} {O = O} k t (run_loop S O false rounds)
  unfolding run_loop
  run_loop-Quiet zero = Stays-lift _
  run_loop-Quiet (suc rounds) =
      on_line-Quiet k t false _ (λ line. run_line-Quiet _ (match_word line) (run_loop-Quiet rounds))

  pub run-Quiet : (cargo : Cargo) → Stay {S = S} {O = O} k t (run S O false cargo)
  unfolding run
  run-Quiet cargo = record { from = λ w q. (run_loop-Quiet (suc w.writes)).from w q }
