-- ===== src/Daemon/Run/Sound.antt =====
-- The state RUN keeps the invariant of the daemon's states, and ends.
use ipbench.Prelude.{ℕ, zero, suc, ◌<◌, ◌≡◌, refl, Bool, Option, none, some, inr, arith}
use ipbench.Python.Text.{Text, codes, text_eq, upper}
use ipbench.Python.Exec.{Exec}
use ipbench.Python.Exec.Ensures.{Ensures, Ensures-pure, Ensures-if}
use ipbench.Daemon.TestStatus.RoundTrip.{Holds}
use ipbench.Daemon.Shunt.{Shunt}
use ipbench.Daemon.World.{Os, World, on_shunt}
use ipbench.Daemon.World.Keeps.{Has}
use ipbench.Daemon.Common.{Cargo, Next}
use ipbench.Daemon.Common.Keeps.{Untouched, refuse-Ensures, on_line-Ensures, try_plugin-Ensures}
use ipbench.Daemon.Invariant.{Inv, HandsOn, Answers}
use ipbench.Daemon.Commands.{match_word}
use ipbench.Daemon.Run.{run_line, run_loop, run}

module _ {S : Shunt} {O : Os} (answers : Answers S) where
  start-Untouched : Untouched {S = S} {O = O} (on_shunt S.start)
  unfolding on_shunt
  start-Untouched = record {
    status = λ w. refl;
    writes = λ w. refl;
    ended = λ w. answers.start w.shunt;
  }

module _ (S : Shunt) (O : Os) (answers : Answers S) (target : Bool) (pid q : ℕ)
    (none_ran : q ≡ 0) where
  run_line-Ensures :
      (k : ℕ) (again : Exec (World S O) Next) (m : Option Text)
      → ((j : ℕ) → j < k → Ensures {S = World S O} (Has (Holds pid) j) again (HandsOn q pid 3))
      → Ensures (Has (Holds pid) k) (run_line S O target again m) (HandsOn q pid 3)
  unfolding run_line upper
  run_line-Ensures k again none ih = refuse-Ensures (Holds pid) k again ih
  run_line-Ensures k again (some cmd) ih =
      Ensures-if (text_eq cmd (codes "START")) _ _
        (λ _.
          try_plugin-Ensures (Holds pid) k (on_shunt S.start) _ (start-Untouched answers)
            (λ _. Ensures-pure _ (λ w p. ((none_ran, p.0), omega arith)))
            (λ detail w p. ((pid, p.0), omega arith)))
        (λ _. refuse-Ensures (Holds pid) k again ih)

  run_loop-Ensures :
      (rounds k : ℕ)
      → k < rounds
      → Ensures {S = World S O} (Has (Holds pid) k) (run_loop S O target rounds) (HandsOn q pid 3)
  unfolding run_loop upper
  run_loop-Ensures zero k h = absurd (omega arith)
  run_loop-Ensures (suc rounds) k h =
      on_line-Ensures S O target pid k _ (λ w p. (inr (none_ran, p.0), omega arith))
        (λ w p. ((pid, p.0), omega arith))
        (λ line.
          run_line-Ensures k (run_loop S O target rounds) (match_word line)
            (λ j lt. run_loop-Ensures rounds j (omega arith)))

pub run-Sound :
    (S : Shunt) (O : Os) (answers : Answers S) (target : Bool) (pid q : ℕ) (cargo : Cargo)
    → Ensures {S = World S O}
        (Inv q pid (codes "RUN") cargo)
        (run S O target cargo)
        (HandsOn q pid 3)
unfolding run
run-Sound S O answers target pid q cargo = record {
  from = λ w h.
      (run_loop-Ensures S O answers target pid q h.0 (suc w.writes) w.writes (omega arith)).from w
        (h.1, omega arith);
}
