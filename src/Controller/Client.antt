-- ===== src/Controller/Client.antt =====
-- The conversation of `IpbenchTestClient` in ipbench2/src/ipbench.py: `connect`, `setup`, `start` and
-- `close`.
pub mod Conversation
use ipbench.Prelude.{
  ℤ, pos, Bool, true, false, Option, none, some, List, [], ◌++◌, is, if◌then◌else◌,
}
use ipbench.Python.Text.{Text, Bytes, codes}
use ipbench.Python.Number.{show}
use ipbench.Python.Codec.{decode}
use ipbench.Python.Outcome.{
  Exn, returned, raised, ipbench_error, unicode_error, os_error, exit_failed, or_raise,
}
use ipbench.Python.Exec.{Exec, pure, raise, lift, ◌>>=◌, ◌>>◌}
use ipbench.Controller.Socket.{Peer, recv, send_command}
use ipbench.Controller.ReturnCode.{Status, parse_return_code}

-- The fields that the conversation reads.
pub record TestClient : Type 0 where
  pub hostname : Text
  pub test_target : Option Text
  pub test_port : Option ℤ
  pub test_name : Text
  pub test_args : Option Text

-- socket.connect: the pieces that will arrive over the connection, or an OSError.
abbrev pub Dial : Type 0
Dial = Option (List Bytes)

module _ {T : Type 0} where
  -- parse_return_code
  unfoldable pub receive_return_code : Exec (Peer T) Status
  receive_return_code = do
    data' ← recv (pos 1024)
    text ← lift (or_raise unicode_error (decode data'))
    lift (parse_return_code text)

  abbrev pub expect : Bool → Text → Exec (Peer T) (Unit {0})
  expect true msg = pure tt
  expect false msg = raise (ipbench_error msg)

  -- A socket that is opened anew.
  abbrev pub open_socket : Exn → Dial → Exec (Peer T) (Unit {0})
  open_socket e none p = (raised e, p)
  open_socket e (some pieces) p = (returned tt, record p { incoming = pieces })

  -- The reply to connecting.
  abbrev pub greeted : Exec (Peer T) (Unit {0})
  greeted = do
    status ← receive_return_code
    expect (is status.code 100) (codes "Invalid Version Flag")

  -- With the option --reset: ABORT, and a second connection.
  abbrev pub reset_first : Bool → Dial → Exec (Peer T) (Unit {0})
  reset_first false again = pure tt
  reset_first true again = do send_command (codes "ABORT"); open_socket os_error again; greeted

  abbrev pub say_hello : TestClient → Exec (Peer T) (Unit {0})
  say_hello c = do
    send_command (codes "HELLO")
    status ← receive_return_code
    expect (is status.code 200) (
        codes "HELLO to "
        ++ (c.hostname
            ++ (codes " failed ("
                ++ (show status.code ++ (codes " " ++ (status.str ++ codes ")"))))))

  abbrev pub load : TestClient → Exec (Peer T) (Unit {0})
  load c = do
    send_command (codes "LOAD " ++ c.test_name)
    status ← receive_return_code
    (if is status.code 421
        then raise (
            ipbench_error (
              codes "LOAD to " ++ (c.hostname ++ (codes " failed (" ++ (status.msg ++ codes ")")))))
        else expect (is status.code 200) (codes "LOAD Failed"))

  -- A first connection that fails ends the program.
  unfoldable pub connect : Bool → Dial → Dial → TestClient → Exec (Peer T) (Unit {0})
  connect reset first again c = do
    open_socket exit_failed first
    greeted
    reset_first reset again
    say_hello c
    load c

-- The line of SETUP.
abbrev pub setup_arguments : Text → ℤ → Text → Text
setup_arguments target port args =
    (codes "target::" ++ target)
    ++ (codes "||"
        ++ ((codes "port::" ++ show port)
            ++ (codes "||" ++ (codes "args::\"" ++ (args ++ codes "\"")))))

abbrev pub or_default {ℓ} : {A : Type ℓ} → A → Option A → A
or_default a none = a
or_default a (some b) = b

module _ {T : Type 0} where
  unfoldable pub setup : TestClient → Exec (Peer T) (Unit {0})
  setup c = do
    target ← lift (or_raise (ipbench_error (codes "Must specify --test-target")) c.test_target)
    send_command (
        codes "SETUP "
        ++ setup_arguments target (or_default (pos 0) c.test_port) (or_default [] c.test_args))
    status ← receive_return_code
    expect (is status.code 200) (
        codes "SETUP to "
        ++ (c.hostname
            ++ (codes "failed ("
                ++ (show status.code ++ (codes " " ++ (status.str ++ codes ")"))))))

  unfoldable pub start : Exec (Peer T) (Unit {0})
  start = send_command (codes "START")

  -- close; the socket is not used any more.
  unfoldable pub close : Exec (Peer T) (Unit {0})
  close = send_command (codes "QUIT")
