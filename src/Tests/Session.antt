-- ===== src/Tests/Session.antt =====
-- The conversation of the controller with the daemon at concrete data.
use ipbench.Prelude.{◌≡◌, refl, arith, true, false, none, some, List, [], ◌∷◌, ◌++◌, replicate, pos}
use ipbench.Python.Text.{Bytes, codes, is_word, is_space, find, strip}
use ipbench.Python.Number.{decimal, int}
use ipbench.Python.Codec.{decode}
use ipbench.Python.Outcome.{returned, raised, ipbench_error}
use ipbench.Daemon.TestStatus.RoundTrip.{Holds, held, Holds-held}
use ipbench.Daemon.Commands.{setup_args}
use ipbench.Daemon.Handle.{handle}
use ipbench.Controller.Socket.{Peer}
use ipbench.Controller.ReturnCode.{Status, parse_return_code}
use ipbench.Controller.Client.{TestClient, connect}
use ipbench.Controller.Client.Conversation.{Reads, connect_lem, connect_refused, after_command}
use ipbench.Controller.Unmarshall.Pieces.{with_incoming}
use ipbench.Protocol.Lines.{load_text, setup_text}
use ipbench.Protocol.Results.{result_text}
use ipbench.Protocol.SetupLine.{setup_args-setup_arguments, setup_args-target_arguments}
use ipbench.Protocol.Session.{handle_test, sent, IsPart, replies}
use ipbench.Protocol.Session.Steps.{world}
use ipbench.Protocol.Exchange.{Replies-greeting, Replies-ok}
use ipbench.Tests.Daemon.{plugin, one_process}

pub target-IsPart : IsPart (codes "10.0.0.2")
target-IsPart = record {
  ascii = omega arith;
  no_colon = omega arith;
  no_bar = omega arith;
  no_newline = omega arith;
}

pub args-IsPart : IsPart (codes "size=64")
args-IsPart = record {
  ascii = omega arith;
  no_colon = omega arith;
  no_bar = omega arith;
  no_newline = omega arith;
}

abbrev commands : List Bytes
commands =
    codes "HELLO\n"
    ∷ sent (load_text (codes "latency"))
    ∷ sent (setup_text (codes "10.0.0.2") 7 (codes "size=64"))
    ∷ codes "START\n"
    ∷ []

handle_test_example :
    let r = handle plugin one_process 42 (world commands [] 9 (held 0 (replicate 20 0)) tt true) in
    (r.0 ≡ returned tt)
    × (r.1.output ≡ replies ++ result_text true (codes "ab"))
    × Holds 0 r.1.status
    × (r.1.shunt ≡ tt)
unfolding is_word
handle_test_example =
    handle_test plugin one_process 42 (omega arith) (codes "latency") (codes "10.0.0.2")
      (codes "size=64") 7 [] 2 (held 0 (replicate 20 0)) tt tt tt tt tt true (pos 0) (codes "ab")
      (Holds-held 0 (replicate 20 0) (omega arith) refl)
      (refl, (refl, (refl, (refl, (refl, (refl, (refl, tt))))))) (λ e. cc) target-IsPart args-IsPart
      refl refl refl refl

setup_args-setup_arguments_example :
    setup_args (codes "target::10.0.0.2||port::0||args::\"size=64\"")
    ≡ returned (record {
      test_target = some (codes "10.0.0.2");
      test_port = some (pos 0);
      test_args = some (codes "size=64");
    })
unfolding decimal
setup_args-setup_arguments_example =
    setup_args-setup_arguments (codes "10.0.0.2") 0 (codes "size=64") (omega arith) (omega arith)
      (omega arith) (omega arith)

abbrev client : TestClient
client = record {
  hostname = codes "h";
  test_target = some (codes "10.0.0.2");
  test_port = some (pos 7);
  test_name = codes "latency";
  test_args = none;
}

abbrev pub peer : Peer (Unit {0})
peer = record { incoming = []; sent = []; tests = tt }

abbrev refusal : Status
refusal = record {
  code = pos 421;
  str = codes "SERVICE NOT AVAILABLE";
  msg = codes "Already Running";
}

Reads-refusal : Reads (codes "421 SERVICE NOT AVAILABLE (Already Running)\n") refusal
unfolding parse_return_code int is_space find decode strip
Reads-refusal = record {
  short = omega arith;
  text = codes "421 SERVICE NOT AVAILABLE (Already Running)\n";
  decoded = refl;
  parsed = refl;
}

connect_lem_example :
    connect false
      (some (codes "100 IPBENCH V1.0\n" ∷ codes "200 OK\n" ∷ codes "200 OK\n" ∷ []))
      none
      client
      peer
    ≡ (
      returned tt,
      with_incoming (after_command (codes "LOAD latency") (after_command (codes "HELLO") peer)) [],
    )
connect_lem_example =
    connect_lem (codes "100 IPBENCH V1.0\n") (codes "200 OK\n") (codes "200 OK\n") [] none client
      peer Replies-greeting Replies-ok Replies-ok

connect_refused_example :
    connect false
      (some
        (codes "100 IPBENCH V1.0\n" ∷ codes "421 SERVICE NOT AVAILABLE (Already Running)\n" ∷ []))
      none
      client
      peer
    ≡ (
      raised (ipbench_error (codes "HELLO to h failed (421 SERVICE NOT AVAILABLE)")),
      with_incoming (after_command (codes "HELLO") peer) [],
    )
unfolding decimal
connect_refused_example =
    connect_refused (codes "100 IPBENCH V1.0\n")
      (codes "421 SERVICE NOT AVAILABLE (Already Running)\n") [] none client peer refusal
      Replies-greeting Reads-refusal refl

setup_args-target_arguments_example :
    setup_args (codes "args::\"cpu=1\"")
    ≡ returned (record { test_target = none; test_port = none; test_args = some (codes "cpu=1") })
setup_args-target_arguments_example =
    setup_args-target_arguments (codes "cpu=1") (omega arith) (omega arith)
