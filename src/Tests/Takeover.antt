-- ===== src/Tests/Takeover.antt =====
-- A second connection while process 7 runs a test.
use ipbench.Prelude.{Bool, String, ◌≡◌, refl, arith, true, false, [], replicate}
use ipbench.Python.Text.{codes}
use ipbench.Python.Outcome.{returned, raised, exit_ok}
use ipbench.Daemon.TestStatus.{TestStatus}
use ipbench.Daemon.TestStatus.RoundTrip.{Holds, held, Holds-held}
use ipbench.Daemon.World.{World}
use ipbench.Daemon.Handle.{handle}
use ipbench.Daemon.Handle.Takeover.{
  connection, hello_refused, abort_kills, abort_clears, quit_clears,
}
use ipbench.Tests.Daemon.{plugin, one_process}

abbrev busy : TestStatus
busy = held 7 (replicate 20 0)

busy-Holds : Holds 7 busy
busy-Holds = Holds-held 7 (replicate 20 0) (omega arith) refl

-- The world of a connection that sends the line.
abbrev second : String → Bool → World plugin one_process
second line alive = connection plugin one_process 42 7 busy busy-Holds (codes line) [] 3 tt alive

hello_refused_example :
    let r = handle plugin one_process 42 (second "HELLO\n" true) in
    (r.0 ≡ returned tt)
    × (r.1.output ≡ codes "100 IPBENCH V1.0\n421 SERVICE NOT AVAILABLE (Already Running)\n")
    × Holds 7 r.1.status
    × (r.1.processes ≡ true)
hello_refused_example =
    hello_refused plugin one_process 42 7 busy busy-Holds (omega arith) [] 3 tt true

quit_clears_example :
    let r = handle plugin one_process 42 (second "QUIT\n" true) in
    (r.0 ≡ returned tt) × Holds 0 r.1.status
quit_clears_example = quit_clears plugin one_process 42 7 busy busy-Holds [] 3 tt true

abort_kills_example :
    let r = handle plugin one_process 42 (second "ABORT\n" true) in
    (r.0 ≡ returned tt) × Holds 7 r.1.status × (r.1.processes ≡ false)
abort_kills_example =
    abort_kills plugin one_process 42 7 busy busy-Holds (omega arith) (λ e. omega (arith, e)) [] 3
      tt true false refl

abort_clears_example :
    let r = handle plugin one_process 42 (second "ABORT\n" false) in
    (r.0 ≡ raised exit_ok) × Holds 0 r.1.status × (r.1.processes ≡ false)
abort_clears_example =
    abort_clears plugin one_process 42 7 busy busy-Holds (omega arith) [] 3 tt false refl
