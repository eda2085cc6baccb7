-- ===== src/Tests/File.antt =====
-- A configuration file with one client, whose test arguments are those of <test>.
use ipbench.Prelude.{ℕ, pos, ◌==◌, ◌≡◌, refl, none, some, List, [], ◌∷◌, if◌then◌else◌}
use ipbench.Python.Text.{codes, text_eq, is_space}
use ipbench.Python.Outcome.{returned}
use ipbench.Controller.Options.{defaults}
use ipbench.Controller.Config.{Xml, ClientSpec, read_config}
use ipbench.Controller.Config.File.{FromFile, read_config-clients}

-- The element 0 holds the <test> 1, which holds the <client> 2.
abbrev one_client : Xml
one_client = record {
  Element = ℕ;
  parse = λ file. returned 0;
  findall = λ path e.
      if text_eq path (codes "test")
      then returned (1 ∷ [])
      else if text_eq path (codes "./client")
      then returned (2 ∷ [])
      else returned [];
  get = λ name e.
      if e == 1
      then (if text_eq name (codes "args")
          then some (codes "size=64")
          else if text_eq name (codes "port")
          then some (codes "81")
          else none)
      else if text_eq name (codes "hostname")
      then some (codes "a")
      else none;
  keys = λ e. [];
}

abbrev read : List ClientSpec
read =
    record {
      hostname = codes "a";
      port = pos 8036;
      test_port = pos 81;
      test_args = codes "size=64";
      test_target = some (codes "None");
    }
    ∷ []

file_parsed :
    read_config one_client 0 defaults ≡ (returned (read, []), (read_config one_client 0 defaults).1)
unfolding read_config is_space
file_parsed = refl

read_config-clients_example : FromFile one_client (pos 8036) 0 read
read_config-clients_example =
    read_config-clients one_client 0 defaults (read_config one_client 0 defaults).1 read []
      file_parsed
