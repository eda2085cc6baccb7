-- ===== src/Tests/Server.antt =====
-- A server with two connections: process 100 has the test, and process 101 has yet to read its HELLO.
use ipbench.Prelude.{
  inl, inr, sym, ◌∙◌, ℕ, ◌≡◌, ◌≢◌, ◌++◌, refl, arith, true, pos, false, List, [], ◌∷◌, replicate,
  All,
}
use ipbench.Python.Text.{is_word, Bytes, codes, position, strip, upper}
use ipbench.Python.Number.{decimal}
use ipbench.Python.Codec.{encode, decode}
use ipbench.Python.Exec.{pure}
use ipbench.Daemon.TestStatus.{is_running, read_pid, running, not_running, write_pid, clear_pid}
use ipbench.Daemon.TestStatus.RoundTrip.{Holds, held, Holds-held}
use ipbench.Daemon.World.{reply, readline, on_status, on_shunt}
use ipbench.Daemon.Status.{str_status}
use ipbench.Daemon.Commands.{
  match_any, match_not_spaces, match_word, match_load, match_setup, setup_args,
}
use ipbench.Daemon.Common.{error_cargo, Cargo, parse_common_opts, one}
use ipbench.Daemon.Listen.{listen}
use ipbench.Daemon.Setup.{setup}
use ipbench.Daemon.Handle.{greet}
use ipbench.Daemon.Processes.{absent, runs, ended}
use ipbench.Daemon.Server.{
  Stage, over, unknown, stage_of, Server, Wrapper, Event, accepts, waited_for, goes_on, construct,
  accept, turn, serve,
}
use ipbench.Daemon.Server.Exclusion.{Begins, HasTest, Idle, mutual_exclusion}
use ipbench.Daemon.Server.Readable.{known_stages}
use ipbench.Daemon.Server.Undisturbed.{Spares, undisturbed}
use ipbench.Tests.Daemon.{plugin, plugin-Answers}
use ipbench.Tests.Session.{target-IsPart, args-IsPart}
use ipbench.Daemon.Server.Between.{Stands, AllSpare}
use ipbench.Protocol.Session.{replies}
use ipbench.Protocol.Results.{result_text}
use ipbench.Protocol.Session.Interleaved.{round, interleaved_test}
use ipbench.Protocol.Session.Turns.{configuring, greeted}

abbrev wrapper : Wrapper plugin
wrapper = record { unloaded = tt; import_module = pure tt; enable_debug = pure tt }

abbrev start : Server plugin
start = record {
  status = held 0 (replicate 20 0);
  lives = λ p. absent;
  sessions = λ p. record { input = []; output = []; writes = 0; shunt = tt; stage = over };
  fresh = 100;
}

start-Idle : Idle start
start-Idle = record {
  held = Holds-held 0 (replicate 20 0) (omega arith) refl;
  lives = λ p e. cc;
  started = omega arith;
  unused = λ p. refl;
}

abbrev controller : List Bytes
controller =
    codes "HELLO\n"
    ∷ codes "LOAD latency\n"
    ∷ codes "SETUP target::host||port::80||args::\"x\"\n"
    ∷ []

abbrev events : List Event
events = accepts controller 20 ∷ accepts (codes "HELLO\n" ∷ []) 20 ∷ goes_on 100 ∷ goes_on 100 ∷ []

abbrev owner : ℕ
owner = 100

abbrev busy : Server plugin
busy = serve wrapper false events start

events-Begins : All Begins events
events-Begins = (inr (_, inl refl), (inr (_, inl refl), (tt, (tt, tt))))

busy_run : HasTest busy owner × ((busy.sessions 101).stage ≡ Stage.listen one)
unfolding serve accept construct turn stage_of upper greet listen setup parse_common_opts reply
    str_status readline decode match_any match_not_spaces match_load match_setup match_word
    setup_args strip on_status on_shunt decimal encode is_running running not_running read_pid
    write_pid clear_pid position
busy_run = ((refl, refl), refl)

mutual_exclusion_example : (owner ≡ owner) × Holds owner busy.status
mutual_exclusion_example =
    mutual_exclusion wrapper false start events owner owner plugin-Answers start-Idle (omega arith)
      events-Begins busy_run.0 busy_run.0

-- A controller, and peers that say QUIT and something else first.
abbrev intruded : List Event
intruded =
    accepts controller 20
    ∷ accepts (codes "QUIT\n" ∷ []) 20
    ∷ accepts (codes "STATUS\r\n" ∷ codes "hello\r\n" ∷ []) 20
    ∷ goes_on 100
    ∷ goes_on 101
    ∷ goes_on 102
    ∷ goes_on 101
    ∷ goes_on 100
    ∷ []

known_stages_example :
    (id : ℕ) × Holds id (serve wrapper false intruded start).status
    × (((serve wrapper false intruded start).sessions 101).stage ≢ unknown)
known_stages_example =
    known_stages wrapper false start intruded 101 plugin-Answers start-Idle (omega arith)

listen-ne-abort : (c : Cargo) → Stage.listen one ≢ Stage.abort c
listen-ne-abort c e = cc

goes_on-Spares : Spares busy owner (goes_on 101)
goes_on-Spares = (λ e. omega (arith, e), λ c e. listen-ne-abort c (sym busy_run.1 ∙ e))

undisturbed_example :
    let after = turn plugin 101 busy in
    (after.sessions owner ≡ busy.sessions owner)
    × (after.lives owner ≡ runs)
    × Holds owner after.status
undisturbed_example =
    undisturbed wrapper false start events owner (goes_on 101) plugin-Answers start-Idle
      (omega arith) events-Begins busy_run.0 goes_on-Spares

-- The same connections, and a whole test of process 100.
abbrev commands : List Bytes
commands = codes "HELLO\n" ∷ configuring (codes "latency") (codes "10.0.0.2") (codes "size=64") 7 []

abbrev arrivals : List Event
arrivals = accepts commands 7 ∷ accepts (codes "HELLO\n" ∷ []) 20 ∷ []

arrivals-Begins : All Begins arrivals
arrivals-Begins = (inr (_, inl refl), (inr (_, inl refl), tt))

abbrev open_server : Server plugin
open_server = serve wrapper false arrivals start

-- Process 101 is refused after the first turn of process 100, and says so after the second.
abbrev other_turn : List Event
other_turn = goes_on 101 ∷ []

abbrev other_ends : List Event
other_ends = waited_for 101 ∷ accepts [] 5 ∷ []

abbrev first_round : Server plugin
first_round = round wrapper false owner other_turn open_server

abbrev second_round : Server plugin
second_round = round wrapper false owner other_turn first_round

rounds_run :
    Holds 0 open_server.status
    × Stands owner
        (greeted (codes "latency") (codes "10.0.0.2") (codes "size=64") 7 0 [] tt)
        open_server
    × (((turn plugin owner open_server).sessions 101).stage ≡ Stage.listen one)
    × (((turn plugin owner first_round).sessions 101).stage
        ≡ Stage.error (error_cargo 421 (codes "Already Running")))
unfolding serve accept construct turn stage_of upper greet listen setup parse_common_opts reply
    str_status readline decode match_any match_not_spaces match_load match_setup match_word
    setup_args strip on_status on_shunt decimal encode is_running running not_running read_pid
    write_pid clear_pid position
rounds_run = (
  Holds-held 0 (replicate 20 0) (omega arith) refl,
  record { session = refl; alive = refl },
  refl,
  refl,
)

error-ne-abort : (c d : Cargo) → Stage.error c ≢ Stage.abort d
error-ne-abort c d e = cc

first-AllSpare : AllSpare wrapper false (turn plugin owner open_server) owner other_turn
first-AllSpare = ((λ e. omega (arith, e), λ c e. listen-ne-abort c (sym rounds_run.2 ∙ e)), tt)

second-AllSpare : AllSpare wrapper false (turn plugin owner first_round) owner other_turn
second-AllSpare = ((λ e. omega (arith, e), λ c e. error-ne-abort _ c (sym rounds_run.3 ∙ e)), tt)

interleaved_test_example :
    let f = turn plugin owner (round wrapper false owner other_ends second_round) in
    (f.lives owner ≡ ended)
    × ((f.sessions owner).output ≡ replies ++ result_text true (codes "ab"))
    × ((f.sessions owner).shunt ≡ tt)
    × Holds 0 f.status
unfolding is_word
interleaved_test_example =
    interleaved_test (codes "latency") (codes "10.0.0.2") (codes "size=64") 7 0 [] wrapper false
      start arrivals other_turn other_turn other_ends owner tt tt tt tt tt (pos 0) (codes "ab")
      plugin-Answers start-Idle (omega arith) arrivals-Begins (tt, tt) (tt, tt) (tt, (inl refl, tt))
      rounds_run.0 rounds_run.1 first-AllSpare second-AllSpare (tt, (tt, tt))
      (refl, (refl, (refl, (refl, (refl, (refl, (refl, tt))))))) (λ e. cc) target-IsPart args-IsPart
      refl refl refl refl
