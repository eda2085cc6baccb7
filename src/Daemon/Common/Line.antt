-- ===== src/Daemon/Common/Line.antt =====
-- What the head of a handler's loop makes of one line.
use ipbench.Prelude.{◌≡◌, refl, Bool, false, some, List, ◌∷◌}
use ipbench.Python.Text.{Text, Bytes, codes, text_eq, strip}
use ipbench.Python.Codec.{decode}
use ipbench.Python.Outcome.{returned}
use ipbench.Daemon.Shunt.{Shunt}
use ipbench.Daemon.World.{Os, World, readline}
use ipbench.Daemon.Commands.{match_any}
use ipbench.Daemon.Common.{parse_common_opts}

module _ {S : Shunt} {O : Os} where
  -- The world with other lines to come.
  abbrev pub with_input : World S O → List Bytes → World S O
  with_input w lines = record w { input = lines }

  -- A line that is neither HELP nor STATUS is returned without the spaces at its ends.
  pub parse_common_opts_line :
      (target : Bool) (raw : Bytes) (line text : Text) (rest : List Bytes) (w : World S O)
      → decode raw ≡ some line
      → strip line ≡ text
      → text_eq (match_any text) (codes "HELP") ≡ false
      → text_eq (match_any text) (codes "STATUS") ≡ false
      → parse_common_opts S O target (with_input w (raw ∷ rest))
        ≡ (returned text, with_input w rest)
  unfolding parse_common_opts readline
  parse_common_opts_line target raw line text rest w read stripped no_help no_status =
      rw (read, stripped, no_help, no_status) refl
