-- ===== src/Daemon/Main.antt =====
-- The command line and the address of the daemon: `main` of ipbench2/src/ipbenchd.py. Each occurrence
-- of an option, with its value, is an `Argument`.
pub mod Address
use ipbench.Prelude.{ℤ, pos, Bool, true, false, List, [], ◌∷◌, if◌then◌else◌}
use ipbench.Python.Text.{Text}
use ipbench.Python.Number.{int}
use ipbench.Python.Outcome.{Outcome, returned, exit_usage, or_raise, and_then}

pub record Options : Type 0 where
  pub ip : Text
  pub port : ℤ
  pub debug : Bool
  pub target : Bool

abbrev pub defaults : Options
defaults = record { ip = []; port = pos 8036; debug = false; target = false }

pub data Argument : Type 0 where
  with_debug with_target : Argument
  ip port : Text → Argument

-- type=int: a value that is no number ends the program.
unfoldable pub apply : Argument → Options → Outcome Options
unfolding int
apply with_debug o = returned (record o { debug = true })
apply with_target o = returned (record o { target = true })
apply (ip v) o = returned (record o { ip = v })
apply (port v) o = and_then (or_raise exit_usage (int v)) (λ n. returned (record o { port = n }))

unfoldable pub apply_all : List Argument → Options → Outcome Options
unfolding apply
apply_all [] o = returned o
apply_all (a ∷ l) o = and_then (apply a o) (λ o'. apply_all l o')

-- if OPTIONS.target: OPTIONS.port = 8037
abbrev pub with_target_port : Options → Options
with_target_port o = if o.target then record o { port = pos 8037 } else o

-- The options with which the server is made: it listens on `ip` and `port`, and its sessions are
-- those of a target if `target`.
unfoldable pub server_options : List Argument → Outcome Options
unfolding apply_all
server_options l = and_then (apply_all l defaults) (λ o. returned (with_target_port o))
