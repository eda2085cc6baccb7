-- ===== src/Daemon/Handle.antt =====
-- `IpbenchRequestHandler.handle` of ipbench2/src/ipbenchd.py in client mode: the state machine of a
-- connection.
pub mod Total
pub mod Takeover
use ipbench.Prelude.{if◌then◌else◌, ℕ, Bool, true, false, []}
use ipbench.Python.Text.{codes}
use ipbench.Python.Outcome.{
  Outcome, returned, raised, stalled, Exn, keyboard_interrupt, exit_ok, exit_failed, exit_usage,
}
use ipbench.Python.Exec.{Exec, pure, raise, lift, ◌>>◌}
use ipbench.Daemon.Machine.{StateMachine, Handler, empty, add_state, set_start}
use ipbench.Daemon.Machine
use ipbench.Daemon.Shunt.{Shunt}
use ipbench.Daemon.World.{Os, World, reply}
use ipbench.Daemon.Common.{Cargo, one}
use ipbench.Daemon.Listen.{listen}
use ipbench.Daemon.Setup.{setup}
use ipbench.Daemon.Run.{run}
use ipbench.Daemon.Finish.{marshall, error, abort, reset}

-- `except Exception` takes all but these.
abbrev pub is_exception : Exn → Bool
is_exception keyboard_interrupt = false
is_exception exit_ok = false
is_exception exit_failed = false
is_exception exit_usage = false
is_exception _ = true

module _ (S : Shunt) (O : Os) (pid : ℕ) where
  abbrev W : Type 0
  W = World S O

  unfoldable pub client_machine : StateMachine W Cargo
  unfolding add_state set_start empty
  client_machine =
      let m1 = add_state (codes "LISTEN") (listen S O false pid) false empty in
      let m2 = add_state (codes "SETUP") (setup S O false) false m1 in
      let m3 = add_state (codes "RUN") (run S O false) false m2 in
      let m4 = add_state (codes "MARSHALL") (marshall S O) false m3 in
      let m5 = add_state (codes "ERROR") (error S O) false m4 in
      let m6 = add_state (codes "ABORT") (abort S O pid) false m5 in
      let m7 = set_start (codes "LISTEN") m6 in add_state (codes "RESET") (reset S O) true m7

  -- The greeting; an exception is only written to the debug output.
  greet_end : Outcome (Unit {0}) → Exec W (Unit {0})
  greet_end (returned u) = pure u
  greet_end (raised e) = if is_exception e then pure tt else raise e
  greet_end stalled = lift stalled

  unfoldable pub greet : Exec W (Unit {0})
  unfolding greet_end
  greet w = let (r, w') = reply 100 [] w in greet_end r w'

  -- Any exception ends the process with sys.exit(0).
  session_end : Outcome (Unit {0}) → Exec W (Unit {0})
  session_end (returned u) = pure u
  session_end (raised e) = if is_exception e then raise exit_ok else raise e
  session_end stalled = lift stalled

  -- A session calls five handlers at most, so six rounds are enough.
  unfoldable pub session : Exec W (Unit {0})
  unfolding session_end client_machine
  session w = let (r, w') = Machine.run 6 client_machine one w in session_end r w'

  unfoldable pub handle : Exec W (Unit {0})
  unfolding greet session
  handle = greet >> session
