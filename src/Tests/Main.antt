-- ===== src/Tests/Main.antt =====
-- Runs of the controller's program with a test module that keeps what it is given.
use mathlib.Core.List.{Perm}
use ipbench.Prelude.{
  ℕ, ◌≡◌, ◌<◌, refl, arith, true, false, none, some, List, [], ◌∷◌, ◌++◌, pos, ◌==◌, inl, inr,
}
use ipbench.Python.Text.{Bytes, codes, is_space, find}
use ipbench.Python.Number.{decimal, int}
use ipbench.Python.Codec.{decode, decode_ignore, decode_ascii_ignore}
use ipbench.Python.Outcome.{Outcome, returned, raised, ipbench_error, key_error, os_error}
use ipbench.Python.Exec.{Exec, pure, each}
use ipbench.Controller.Options.{Options, Argument, client, test, test_target, parse_args, defaults}
use ipbench.Controller.Options.Latest.{parse_args-clients}
use ipbench.Controller.Config.{Xml, ClientSpec, gather, client_of, config_lists}
use ipbench.Controller.Config.Ready.{Ready, gather-Ready, gather_command_line}
use ipbench.Controller.Bench.{Modules, Connection, Bench}
use ipbench.Controller.Poll.{Round, poll, select}
use ipbench.Controller.Poll.Order.{served, poll_lem, poll_perm}
use ipbench.Controller.ReturnCode.{parse_return_code}
use ipbench.Controller.Socket.{recv, send_command}
use ipbench.Controller.Client.{connect, receive_return_code, start, close}
use ipbench.Controller.Client
use ipbench.Controller.Unmarshall.{unmarshall, match_length}
use ipbench.Controller.Main.{run_tests, main}
use ipbench.Controller.Main.Closing.{quit_from}
use ipbench.Controller.Main.Total.{Prepared, tried, main_closes, main_key_error}

-- No file can be read.
abbrev no_xml : Xml
no_xml = record {
  Element = Unit {0};
  parse = λ file. raised os_error;
  findall = λ path e. returned [];
  get = λ name e. none;
  keys = λ e. [];
}

abbrev keeper : Modules
keeper = record {
  State = List Bytes;
  load_client = λ name. pure tt;
  setup_clients = λ n args. pure tt;
  get_default_port = pure (pos 7);
  unmarshall_client = λ i content valid t. (returned tt, content ∷ t);
  output_clients = pure tt;
  load_target = λ name. pure tt;
  setup_target = λ args. pure tt;
  unmarshall_target = λ content valid t. (returned tt, content ∷ t);
  output_target = pure tt;
}

abbrev connection : List Bytes → Connection
connection pieces = record { first = some pieces; again = none; incoming = []; sent = [] }

abbrev bench : List Bytes → Bench keeper
bench pieces = record {
  clients = λ i. connection pieces;
  targets = λ i. connection [];
  clients_made = 0;
  targets_made = 0;
  tests = [];
}

abbrev one_host : List Argument
one_host = client (codes "h") ∷ test (codes "latency") ∷ test_target (codes "10.0.0.2") ∷ []

abbrev one_host_options : Options
one_host_options = record defaults {
  clients = codes "h" ∷ [];
  test = some (codes "latency");
  test_target = some (codes "10.0.0.2");
}

one_host_parses : parse_args one_host ≡ returned one_host_options
unfolding parse_args
one_host_parses = refl

parse_args-clients_example : one_host_options.clients ≡ codes "h" ∷ []
parse_args-clients_example = parse_args-clients one_host one_host_options one_host_parses

abbrev host_client : ClientSpec
host_client = client_of one_host_options (codes "h")

one_host_gathered :
    gather no_xml one_host_options
    ≡ (returned (codes "latency", host_client ∷ [], []), one_host_options)
unfolding gather config_lists
one_host_gathered = refl

gather_command_line_example :
    gather no_xml one_host_options
    ≡ (returned (codes "latency", host_client ∷ [], []), one_host_options)
gather_command_line_example =
    gather_command_line no_xml one_host one_host_options (codes "latency") (codes "h") []
      one_host_parses refl refl refl refl

gather-Ready_example : Ready (codes "latency", host_client ∷ [], []) one_host_options
gather-Ready_example =
    gather-Ready no_xml one_host_options one_host_options (codes "latency", host_client ∷ [], [])
      one_host_gathered

abbrev conversation : List Bytes
conversation =
    codes "100 IPBENCH V1.0\n"
    ∷ codes "200 OK (Ready to go)\n"
    ∷ codes "200 OK\n"
    ∷ codes "200 OK\n"
    ∷ codes "220 VALID DATA (Data to follow)\n"
    ∷ codes "Content-length: 2\n"
    ∷ codes "ab"
    ∷ []

abbrev always : Round
always = record { clients = λ i. true; targets = λ i. false }

one-Prepared :
    (pieces : List Bytes)
    → Prepared no_xml keeper one_host
        (bench pieces)
        one_host_options
        (codes "latency")
        (host_client ∷ [])
        []
        []
unfolding gather config_lists
one-Prepared pieces = record {
  parsed = one_host_options;
  loaded = [];
  parses = one_host_parses;
  gathers = refl;
  loads = refl;
  sets_up = refl;
}

abbrev run_one : Outcome (Unit {0}) × Bench keeper
run_one =
    tried no_xml keeper 3 (always ∷ []) one_host (bench conversation) one_host_options
      (codes "latency") (host_client ∷ []) [] [] (one-Prepared conversation)

run_one_done : run_one.0 ≡ returned tt
unfolding run_tests connect receive_return_code recv decode parse_return_code int is_space find
    send_command Client.setup start poll unmarshall decode_ignore match_length decode_ascii_ignore
run_one_done = refl

main_closes_example : main no_xml keeper 3 (always ∷ []) one_host (bench conversation) ≡ (
  returned tt,
  record run_one.1 { clients = quit_from 1 0 run_one.1.clients; targets = run_one.1.targets },
)
main_closes_example =
    main_closes no_xml keeper 3 (always ∷ []) one_host (bench conversation) one_host_options
      (codes "latency") (host_client ∷ []) [] [] (one-Prepared conversation) refl refl run_one_done

-- Two clients, the first of which answers HELLO with 421.
abbrev two_hosts : List Argument
two_hosts = client (codes "h") ∷ one_host

abbrev two_hosts_options : Options
two_hosts_options = record one_host_options { clients = codes "h" ∷ codes "h" ∷ [] }

abbrev busy_conversation : List Bytes
busy_conversation =
    codes "100 IPBENCH V1.0\n" ∷ codes "421 SERVICE NOT AVAILABLE (Already Running)\n" ∷ []

two-Prepared :
    Prepared no_xml keeper two_hosts
      (bench busy_conversation)
      two_hosts_options
      (codes "latency")
      (host_client ∷ host_client ∷ [])
      []
      []
unfolding gather config_lists parse_args
two-Prepared = record {
  parsed = two_hosts_options;
  loaded = [];
  parses = refl;
  gathers = refl;
  loads = refl;
  sets_up = refl;
}

abbrev run_two : Outcome (Unit {0}) × Bench keeper
run_two =
    tried no_xml keeper 3 [] two_hosts (bench busy_conversation) two_hosts_options (codes "latency")
      (host_client ∷ host_client ∷ []) [] [] two-Prepared

run_two_refused :
    run_two.0 ≡ raised (ipbench_error (codes "HELLO to h failed (421 SERVICE NOT AVAILABLE)"))
unfolding run_tests connect receive_return_code recv decode parse_return_code int is_space find
    send_command Client.setup start poll unmarshall decode_ignore match_length decode_ascii_ignore
    decimal
run_two_refused = refl

run_two_short : run_two.1.clients_made < 2
unfolding run_tests connect receive_return_code recv decode parse_return_code int is_space find
    send_command Client.setup start poll unmarshall decode_ignore match_length decode_ascii_ignore
run_two_short = omega arith

main_key_error_example : main no_xml keeper 3 [] two_hosts (bench busy_conversation) ≡ (
  raised key_error,
  record run_two.1 { clients = quit_from run_two.1.clients_made 0 run_two.1.clients },
)
main_key_error_example =
    main_key_error no_xml keeper 3 [] two_hosts (bench busy_conversation) two_hosts_options
      (codes "latency") (host_client ∷ host_client ∷ []) [] [] two-Prepared
      (codes "HELLO to h failed (421 SERVICE NOT AVAILABLE)") run_two_refused run_two_short

-- Three clients; the second is readable first.
abbrev by_turns : List Round
by_turns =
    record { clients = λ i. i == 1; targets = λ i. false }
    ∷ record { clients = λ i. true; targets = λ i. false }
    ∷ []

abbrev note_place : ℕ → Exec (List ℕ) (Unit {0})
note_place i l = (returned tt, l ++ i ∷ [])

poll_lem_example :
    poll note_place by_turns (0 ∷ []) (0 ∷ 1 ∷ 2 ∷ []) [] ≡ (returned tt, 1 ∷ 0 ∷ 2 ∷ [])
unfolding served select each
poll_lem_example =
    poll_lem note_place by_turns (0 ∷ []) (0 ∷ 1 ∷ 2 ∷ []) []
      (inr (inl refl), (inl refl, (inr (inl refl), tt))) (refl, (refl, tt))

poll_perm_example :
    (order : List ℕ) × Perm order (0 ∷ 1 ∷ 2 ∷ [])
    × (poll note_place by_turns (0 ∷ []) (0 ∷ 1 ∷ 2 ∷ []) [] ≡ each note_place order [])
unfolding select
poll_perm_example =
    poll_perm note_place by_turns (0 ∷ []) (0 ∷ 1 ∷ 2 ∷ []) []
      (inr (inl refl), (inl refl, (inr (inl refl), tt))) (refl, (refl, tt))
