-- ===== src/Daemon/Common.antt =====
-- What the handlers of `IpbenchClient` share in ipbench2/src/ipbenchd.py: the help texts,
-- `parse_common_opts`, and the exits on ABORT, on QUIT and on a plugin's error.
pub mod Quiet
pub mod Keeps
pub mod Line
use ipbench.Prelude.{ℕ, Bool, true, false, Option, some, List, [], ◌∷◌, ◌++◌, if◌then◌else◌, String}
use ipbench.Python.Text.{Text, Bytes, codes, text_eq, strip}
use ipbench.Python.Number.{show}
use ipbench.Python.Outcome.{Outcome, returned, raised, stalled, Exn, runtime_error}
use ipbench.Python.Exec.{Exec, pure, raise, lift, ◌>>=◌, ◌>>◌}
use ipbench.Daemon.TestStatus.{is_running, running_pid}
use ipbench.Daemon.Shunt.{Shunt}
use ipbench.Daemon.World.{Os, World, send, reply, readline, on_status}
use ipbench.Daemon.Commands.{match_any}

abbrev pub help_text : Text
help_text =
    codes "\nHELP OPTIONS\n------------\nHELP\nHELLO\nLOAD"
    ++ (codes "\nSETUP target::<test-target>||port::<test-port>||args::<test-args>"
        ++ codes "\nSTART\nABORT\nSTATUS\nQUIT\n")

abbrev pub help_text_target : Text
help_text_target =
    codes "\nHELP OPTIONS\n------------\nHELP\nHELLO\nLOAD\nSETUP args::<target-test-args>"
    ++ codes "\nSTART\nSTOP\nABORT\nSTATUS\nQUIT\n"

-- What a handler passes on: the number 1, or an error code and its message.
pub data Cargo : Type 0 where
  one : Cargo
  error_cargo : ℕ → Text → Cargo

-- A handler's result: a state's name and its cargo, or `None`.
abbrev pub Next : Type 0
Next = Option (Text × Cargo)

abbrev pub go_on : String → Next
go_on name = some (codes name, one)

abbrev pub fail_with : ℕ → Text → Next
fail_with code msg = some (codes "ERROR", error_cargo code msg)

abbrev pub farewell : Next
farewell = fail_with 222 (codes "Come back soon!")

module _ (S : Shunt) (O : Os) where
  abbrev W : Type 0
  W = World S O

  -- `try: … except RuntimeError as detail: return ("ERROR", (451, str(detail).strip()))`, with what
  -- follows the call.
  abbrev pub caught : Exn → Exec W Next
  caught (runtime_error detail) = pure (fail_with 451 (strip detail))
  caught e = raise e

  abbrev pub after_plugin : {A : Type 0} → Outcome A → (A → Exec W Next) → Exec W Next
  after_plugin (returned a) k = k a
  after_plugin (raised e) k = caught e
  after_plugin stalled k = lift stalled

  abbrev pub try_plugin : {A : Type 0} → Exec W A → (A → Exec W Next) → Exec W Next
  try_plugin m k w = let (r, w') = m w in after_plugin r k w'

  -- A bad line: the error is sent, and the loop goes on.
  abbrev pub refuse : Exec W Next → Exec W Next
  refuse again = reply 500 [] >> again

-- `target` is OPTIONS.target.
module _ (S : Shunt) (O : Os) (target : Bool) where
  -- The branch of STATUS behind its first line.
  running_line : Bool → Exec (World S O) (Unit {0})
  running_line false = send (codes "Not running a test\n")
  running_line true = do
    p ← on_status running_pid
    send (codes "Running a test (" ++ (show p ++ codes ")\n"))

  help : Exec (World S O) (Unit {0})
  help = do send (if target then help_text_target else help_text); reply 200 []

  show_status : Exec (World S O) (Unit {0})
  show_status = do
    send (if target then codes "Target Daemon mode\n" else codes "Testing Daemon mode\n")
    busy ← on_status is_running
    running_line busy
    reply 200 []

  -- A round of parse_common_opts behind the read.
  common_line : Exec (World S O) Text → Text → Exec (World S O) Text
  common_line again line_in =
      if text_eq (match_any line_in) (codes "HELP")
      then help >> again
      else if text_eq (match_any line_in) (codes "STATUS")
      then show_status >> again
      else pure line_in

  -- The loop of parse_common_opts over the lines that are left; at the end of file the empty line is
  -- returned.
  common_opts : List Bytes → Exec (World S O) Text
  common_opts [] = do line ← readline; pure (strip line)
  common_opts (_ ∷ rest) = do line ← readline; common_line (common_opts rest) (strip line)

  unfoldable pub parse_common_opts : Exec (World S O) Text
  unfolding common_opts common_line help show_status running_line
  parse_common_opts w = common_opts w.input w

  -- The head of each handler's loop: a line, and what ABORT and QUIT do.
  abbrev pub by_line : (Text → Exec (World S O) Next) → Text → Exec (World S O) Next
  by_line k line_in =
      if text_eq line_in (codes "ABORT")
      then pure (go_on "ABORT")
      else if text_eq line_in (codes "QUIT")
      then pure farewell
      else k line_in

  abbrev pub on_line : (Text → Exec (World S O) Next) → Exec (World S O) Next
  on_line k = do line_in ← parse_common_opts; by_line k line_in
