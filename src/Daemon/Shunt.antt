-- ===== src/Daemon/Shunt.antt =====
-- The modules `ipbench_client` and `ipbench_target`, as the daemon calls them: wrappers of the test
-- plugins, which may change their state and raise.
use ipbench.Prelude.{ℤ}
use ipbench.Python.Text.{Text, Bytes}
use ipbench.Python.Exec.{Exec}

pub record Shunt : Type 1 where
  pub State : Type 0
  pub load_plugin : Text → Exec State (Unit {0})
  -- `setup(hostname, port, clientargs)` of `ipbench_client`
  pub setup_client : Text → ℤ → Text → Exec State (Unit {0})
  -- `setup(clientargs)` of `ipbench_target`
  pub setup_target : Text → Exec State (Unit {0})
  pub start : Exec State (Unit {0})
  -- the return value, which is not 0 for data flagged as invalid, and the data
  pub marshall : Exec State (ℤ × Bytes)
