-- ===== src/Tests/Overlap.antt =====
-- Processes 42 and 43 that both read HELLO.
use ipbench.Prelude.{◌≡◌, refl, arith, []}
use ipbench.Python.Text.{codes}
use ipbench.Python.Outcome.{returned}
use ipbench.Daemon.TestStatus.RoundTrip.{Holds}
use ipbench.Daemon.Common.{go_on, fail_with}
use ipbench.Daemon.Listen.Overlap.{one_by_one, overlapping, hello_lem}
use ipbench.Tests.Daemon.{connect}
use ipbench.Tests.Target.{zero_Holds}

hello_lem_example :
    let after = one_by_one 42 43 (connect 0 []) (connect 0 []) in
    let between = overlapping 42 43 (connect 0 []) (connect 0 []) in
    ((after.0 ≡ returned (go_on "SETUP"))
      × (after.1 ≡ returned (fail_with 421 (codes "Already Running")))
      × Holds 42 after.2)
    × ((between.0 ≡ returned (go_on "SETUP"))
        × (between.1 ≡ returned (go_on "SETUP"))
        × Holds 43 between.2)
hello_lem_example =
    hello_lem 42 43 19 19 (connect 0 []) (connect 0 []) (omega arith) (omega arith) (omega arith)
      refl refl zero_Holds
