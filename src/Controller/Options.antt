-- ===== src/Controller/Options.antt =====
-- The command line of the controller: `OPTIONS` and its parser in `main` of ipbench2/src/ipbench.py.
-- Each occurrence of an option, with its value, is an `Argument`.
pub mod Latest
pub mod Said
use ipbench.Prelude.{ℤ, pos, Bool, true, false, Option, none, some, List, [], ◌∷◌, ◌++◌}
use ipbench.Python.Text.{Text}
use ipbench.Python.Number.{int}
use ipbench.Python.Outcome.{Outcome, returned, exit_usage, or_raise, and_then}

pub record Options : Type 0 where
  pub debug : Bool
  pub clients : List Text
  pub port : ℤ
  pub test : Option Text
  pub test_args : Text
  pub reset : Bool
  pub test_target : Option Text
  pub test_port : ℤ
  pub target_test_hostname : Option Text
  pub target_test_port : ℤ
  pub target_test : Option Text
  pub target_test_args : Text
  pub controller_args : Option Text
  pub target_controller_args : Option Text
  pub config : Option Text

-- What the options are where the command line says nothing.
abbrev pub defaults : Options
defaults = record {
  debug = false;
  clients = [];
  port = pos 8036;
  test = none;
  test_args = [];
  reset = false;
  test_target = none;
  test_port = pos 0;
  target_test_hostname = none;
  target_test_port = pos 8037;
  target_test = none;
  target_test_args = [];
  controller_args = none;
  target_controller_args = none;
  config = none;
}

pub data Argument : Type 0 where
  with_debug with_reset : Argument
  client port test test_args test_target test_port : Text → Argument
  target_test_hostname target_test_port target_test target_test_args : Text → Argument
  controller_args target_controller_args config : Text → Argument

-- type=int: a value that is no number ends the program.
abbrev pub integer : Text → Outcome ℤ
integer value = or_raise exit_usage (int value)

unfoldable pub apply : Argument → Options → Outcome Options
unfolding int
apply with_debug o = returned (record o { debug = true })
apply with_reset o = returned (record o { reset = true })
apply (client v) o = returned (record o { clients = o.clients ++ v ∷ [] })
apply (port v) o = and_then (integer v) (λ n. returned (record o { port = n }))
apply (test v) o = returned (record o { test = some v })
apply (test_args v) o = returned (record o { test_args = v })
apply (test_target v) o = returned (record o { test_target = some v })
apply (test_port v) o = and_then (integer v) (λ n. returned (record o { test_port = n }))
apply (target_test_hostname v) o = returned (record o { target_test_hostname = some v })
apply (target_test_port v) o =
    and_then (integer v) (λ n. returned (record o { target_test_port = n }))
apply (target_test v) o = returned (record o { target_test = some v })
apply (target_test_args v) o = returned (record o { target_test_args = v })
apply (controller_args v) o = returned (record o { controller_args = some v })
apply (target_controller_args v) o = returned (record o { target_controller_args = some v })
apply (config v) o = returned (record o { config = some v })

unfoldable pub apply_all : List Argument → Options → Outcome Options
unfolding apply
apply_all [] o = returned o
apply_all (a ∷ l) o = and_then (apply a o) (λ o'. apply_all l o')

-- parser.parse_args()
unfoldable pub parse_args : List Argument → Outcome Options
unfolding apply_all
parse_args l = apply_all l defaults
