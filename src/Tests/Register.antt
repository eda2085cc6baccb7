-- ===== src/Tests/Register.antt =====
-- The register of the shared status, and the daemon's command line, at concrete data.
use ipbench.Prelude.{false, ◌≡◌, ◌^◌, refl, arith, true, List, [], ◌∷◌, pos, replicate}
use ipbench.Python.Text.{codes, strip, is_space}
use ipbench.Python.Number.{int}
use ipbench.Python.Outcome.{returned, raised, value_error}
use ipbench.Daemon.TestStatus.RoundTrip.{Holds, held, Holds-held}
use ipbench.Daemon.TestStatus.Register.{
  Call, marks, clears, asks, names, done, says, id_is, respond, trace, trace-respond,
}
use ipbench.Daemon.Main.{Options, Argument, with_target, port, server_options}
use ipbench.Daemon.Main.Address.{server_options_lem}

abbrev calls : List Call
calls = marks 4711 ∷ asks ∷ marks (10 ^ 19) ∷ names ∷ clears ∷ asks ∷ []

five_Holds : Holds 5 (held 5 (replicate 20 0))
five_Holds = Holds-held 5 (replicate 20 0) (omega arith) refl

trace-respond_example :
    ((trace respond calls (held 5 (replicate 20 0))).0
      ≡ returned done
        ∷ returned (says true)
        ∷ raised value_error
        ∷ returned (id_is (pos 4711))
        ∷ returned done
        ∷ returned (says false)
        ∷ [])
    × Holds 0 (trace respond calls (held 5 (replicate 20 0))).1
trace-respond_example = trace-respond calls 5 (held 5 (replicate 20 0)) five_Holds

abbrev target_arguments : List Argument
target_arguments = with_target ∷ port (codes "9000") ∷ []

abbrev target_options : Options
target_options = record { ip = []; port = pos 8037; debug = false; target = true }

target_parsed : server_options target_arguments ≡ returned target_options
unfolding server_options int strip is_space
target_parsed = refl

server_options_lem_example : (target_options.target ≡ true) × (target_options.port ≡ pos 8037)
server_options_lem_example = server_options_lem target_arguments target_options target_parsed
