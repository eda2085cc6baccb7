-- ===== src/Daemon/Finish.antt =====
-- The states that end a session: `marshall`, `reset`, `error` and `abort` of `IpbenchClient` in
-- ipbench2/src/ipbenchd.py.
pub mod Sound
use ipbench.Prelude.{ℕ, Bool, true, false, none, [], ◌∷◌, ◌++◌, ◌==◌, if◌then◌else◌, ℤ, is, length}
use ipbench.Python.Text.{Bytes, codes}
use ipbench.Python.Number.{decimal}
use ipbench.Python.Outcome.{type_error, keyboard_interrupt}
use ipbench.Python.Exec.{Exec, pure, raise, ◌>>=◌, ◌>>◌}
use ipbench.Daemon.TestStatus.{is_running, running_pid, not_running}
use ipbench.Daemon.Shunt.{Shunt}
use ipbench.Daemon.World.{Os, World, sigint, sigkill, write, send, reply, on_status, on_shunt, kill}
use ipbench.Daemon.Common.{Cargo, one, error_cargo, Next, go_on, try_plugin}

module _ (S : Shunt) (O : Os) where
  abbrev W : Type 0
  W = World S O

  -- The replies of MARSHALL, and the end of the test.
  unfoldable pub deliver : ℤ × Bytes → Exec W Next
  deliver (valid, content) = do
    (if is valid 0
        then reply 220 (codes "Data to follow" ∷ [])
        else reply 221 (codes "Data to follow" ∷ []))
    send (codes "Content-length: " ++ (decimal (length content) ++ b'\n' ∷ []))
    write content
    on_status not_running
    pure (go_on "RESET")

  unfoldable pub marshall : Cargo → Exec W Next
  unfolding deliver
  marshall val = try_plugin S O (on_shunt S.marshall) deliver

  -- reset
  abbrev pub reset : Cargo → Exec W Next
  reset fd = pure none

  -- A test that was refused because another runs leaves the status alone.
  abbrev release : ℕ → Exec W (Unit {0})
  release code = if code == 421 then pure tt else on_status not_running

  unfoldable pub error : Cargo → Exec W Next
  error one = raise type_error
  error (error_cargo code msg) = do release code; reply code (msg ∷ []); pure (go_on "RESET")

-- `pid` is the id of the process that serves the connection.
module _ (S : Shunt) (O : Os) (pid : ℕ) where
  -- The second signal, after the first was delivered. A process that signals itself with SIGINT
  -- gets a KeyboardInterrupt and does not come here.
  kill_again : ℤ → Exec (World S O) Next
  kill_again p = do kill p sigkill; pure (go_on "RESET")

  interrupted : ℤ → Bool → Exec (World S O) Next
  interrupted p false = do on_status not_running; pure none
  interrupted p true = if is p pid then raise keyboard_interrupt else kill_again p

  abort_when : Bool → Exec (World S O) Next
  abort_when false = pure (go_on "RESET")
  abort_when true = do p ← on_status running_pid; found ← kill p sigint; interrupted p found

  unfoldable pub abort : Cargo → Exec (World S O) Next
  unfolding abort_when interrupted kill_again
  abort val = do busy ← on_status is_running; abort_when busy
