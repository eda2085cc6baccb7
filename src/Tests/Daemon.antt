-- ===== src/Tests/Daemon.antt =====
-- Sessions of the daemon with a plugin that always succeeds, and theorems at such data.
use ipbench.Prelude.{
  ℕ, pos, ◌≡◌, ◌≢◌, ◌⊎◌, refl, arith, Bool, true, false, none, some, List, [], ◌∷◌, replicate,
  if◌then◌else◌, is,
}
use ipbench.Python.Text.{Bytes, codes, strip, position}
use ipbench.Python.Number.{decimal}
use ipbench.Python.Codec.{encode, decode}
use ipbench.Python.Outcome.{returned, stalled}
use ipbench.Python.Exec.{pure}
use ipbench.Daemon.TestStatus.{
  init, is_running, read_pid, running, not_running, write_pid, clear_pid,
}
use ipbench.Daemon.TestStatus.RoundTrip.{Holds, held, Holds-held}
use ipbench.Daemon.TestStatus.History.{run, clear, ask_after, ask_after_lem}
use ipbench.Daemon.Shunt.{Shunt}
use ipbench.Daemon.World.{Os, World, reply, readline, on_status, on_shunt}
use ipbench.Daemon.Status.{str_status}
use ipbench.Daemon.Commands.{
  match_any, match_not_spaces, match_word, match_load, match_setup, setup_args,
}
use ipbench.Daemon.Common.{parse_common_opts}
use ipbench.Daemon.Listen.{listen}
use ipbench.Daemon.Setup.{setup}
use ipbench.Daemon.Run
use ipbench.Daemon.Machine
use ipbench.Daemon.Finish.{marshall}
use ipbench.Daemon.Invariant.{Inv, rank, Answers}
use ipbench.Daemon.Handle.{handle, client_machine}
use ipbench.Daemon.Machine.Rule
use ipbench.Daemon.Machine.{StateMachine}
use ipbench.Daemon.Common.{Cargo, one}
use ipbench.Python.Exec.Ensures.{Ensures}
use ipbench.Daemon.Handle.Total.{starts, handlers-Sound, handle_status}

abbrev pub plugin : Shunt
plugin = record {
  State = Unit {0};
  load_plugin = λ name. pure tt;
  setup_client = λ host port args. pure tt;
  setup_target = λ args. pure tt;
  start = pure tt;
  marshall = pure (pos 0, codes "ab");
}

-- One other process runs; its id is 7.
abbrev pub one_process : Os
one_process = record {
  Table = Bool;
  kill = λ p sig alive. if is p 7 then (if alive then some false else none) else none;
}

-- A connection while the status holds an id.
abbrev pub connect : ℕ → List Bytes → World plugin one_process
connect q lines = record {
  input = lines;
  output = [];
  writes = 20;
  status = held q (replicate 20 0);
  shunt = tt;
  processes = true;
}

pub plugin-Answers : Answers plugin
plugin-Answers = record {
  load_plugin = λ name s e. cc;
  setup_client = λ host port args s e. cc;
  setup_target = λ args s e. cc;
  start = λ s e. cc;
  marshall = λ s e. cc;
}

abbrev script : List Bytes
script =
    codes "HELLO\n"
    ∷ codes "BOGUS\n"
    ∷ codes "LOAD latency\n"
    ∷ codes "SETUP target::host||port::80||args::\"x\"\n"
    ∷ codes "START\n"
    ∷ []

run_script :
    (handle plugin one_process 42 (connect 0 script)).1.output
    ≡ codes
        "100 IPBENCH V1.0\n200 OK (Ready to go)\n500 SYNTAX ERROR\n200 OK\n200 OK\n220 VALID DATA (Data to follow)\nContent-length: 2\nab"
unfolding handle Machine.run Machine.loop Machine.next listen setup Run.run marshall
    parse_common_opts reply str_status readline decode match_any match_not_spaces match_load
    match_setup match_word setup_args strip on_status on_shunt decimal encode is_running running
    not_running read_pid write_pid clear_pid position
run_script = refl

handle_status_example :
    ((handle plugin one_process 42 (connect 0 script)).0 ≢ stalled)
    × ((handle plugin one_process 42 (connect 0 script)).0 ≡ returned tt
        → Holds 0 (handle plugin one_process 42 (connect 0 script)).1.status
          ⊎ Holds 0 (handle plugin one_process 42 (connect 0 script)).1.status)
handle_status_example =
    handle_status plugin one_process plugin-Answers 42 0 (omega arith) (connect 0 script)
      (Holds-held 0 (replicate 20 0) (omega arith) refl)

ask_after_lem_example :
    (ask_after (run 4711 ∷ clear ∷ run 12 ∷ []) init.1).0 ≡ returned (true, pos 12)
ask_after_lem_example =
    ask_after_lem (run 4711 ∷ clear ∷ run 12 ∷ []) (omega arith, (tt, (omega arith, tt)))

abbrev machine : StateMachine (World plugin one_process) Cargo
machine = client_machine plugin one_process 42

run_lem_example :
    Ensures
      (Inv {S = plugin} {O = one_process} 0 42 (codes "LISTEN") one)
      (Machine.run 6 machine one)
      (Rule.Ended (Inv {S = plugin} {O = one_process} 0 42) rank machine)
run_lem_example =
    Rule.run_lem (Inv {S = plugin} {O = one_process} 0 42) rank machine 6 (codes "LISTEN") one
      (starts plugin one_process 42)
      (handlers-Sound plugin one_process plugin-Answers 42 0 (omega arith)) (omega arith)
