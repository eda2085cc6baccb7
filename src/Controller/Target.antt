-- ===== src/Controller/Target.antt =====
-- `setup` and `stop` of `IpbenchTestTarget` in ipbench2/src/ipbench.py.
use ipbench.Prelude.{◌++◌, is}
use ipbench.Python.Text.{Text, codes}
use ipbench.Python.Number.{show}
use ipbench.Python.Exec.{Exec, ◌>>=◌, ◌>>◌}
use ipbench.Controller.Socket.{Peer, send_command}
use ipbench.Controller.Client.{receive_return_code, expect}

-- The arguments of SETUP for a target.
abbrev pub target_arguments : Text → Text
target_arguments args = codes "args::\"" ++ (args ++ codes "\"")

module _ {T : Type 0} where
  -- setup, for the test's arguments
  unfoldable pub setup : Text → Exec (Peer T) (Unit {0})
  setup test_args = do
    send_command (codes "SETUP " ++ target_arguments test_args)
    status ← receive_return_code
    expect (is status.code 200)
        (codes "SETUP Failed (" ++ (show status.code ++ (codes " " ++ (status.str ++ codes ")"))))

  unfoldable pub stop : Exec (Peer T) (Unit {0})
  stop = send_command (codes "STOP")
