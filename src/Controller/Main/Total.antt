-- ===== src/Controller/Main/Total.antt =====
-- How `main` ends: what it does with the connections after the `try` block.
use ipbench.Prelude.{ℕ, ◌<◌, ◌≡◌, List, length}
use ipbench.Python.Text.{Text}
use ipbench.Python.Outcome.{Outcome, returned, raised, ipbench_error, key_error}
use ipbench.Controller.Options.{Options, Argument, parse_args}
use ipbench.Controller.Config.{Xml, ClientSpec, TargetSpec, gather}
use ipbench.Controller.Bench.{Modules, Bench, on_tests}
use ipbench.Controller.Poll.{Round}
use ipbench.Controller.Main.{run_tests, main}
use ipbench.Controller.Main.Made.{run_tests-Made}
use ipbench.Controller.Main.Closing.{quit_from, close_all_made, close_all_missing}

-- What came of the command line and of the configuration, and of loading the test.
pub record Prepared (X : Xml) (M : Modules) (arguments : List Argument) (b : Bench M) (o : Options)
    (test : Text) (clients : List ClientSpec) (targets : List TargetSpec) (t : M.State)
    : Type 0 where
  pub parsed : Options
  pub loaded : M.State
  pub parses : parse_args arguments ≡ returned parsed
  pub gathers : gather X parsed ≡ (returned (test, clients, targets), o)
  pub loads : M.load_client test b.tests ≡ (returned tt, loaded)
  pub sets_up : M.setup_clients (length clients) o.controller_args loaded ≡ (returned tt, t)

module _ (X : Xml) (M : Modules) (rounds : ℕ) (answers : List Round) (arguments : List Argument)
    (b : Bench M) (o : Options) (test : Text) (clients : List ClientSpec)
    (targets : List TargetSpec) (t : M.State)
    (ready : Prepared X M arguments b o test clients targets t) where
  -- The `try` block of this run.
  abbrev pub tried : Outcome (Unit {0}) × Bench M
  tried = run_tests M o test rounds answers clients targets (record b { tests = t })

  -- Where the command line, the configuration and the test module are in order and no object was
  -- made before, a `try` block that ends without an exception is followed by QUIT to every client
  -- and every target, and `main` returns; nothing else changes.
  pub main_closes :
      b.clients_made ≡ 0
      → b.targets_made ≡ 0
      → tried.0 ≡ returned tt
      → main X M rounds answers arguments b ≡ (
        returned tt,
        record tried.1 {
          clients = quit_from (length clients) 0 tried.1.clients;
          targets = quit_from (length targets) 0 tried.1.targets;
        },
      )
  unfolding main on_tests
  main_closes no_client no_target done =
      let (k, n) =
        run_tests-Made M o test rounds answers clients targets (record b { tests = t })
          (no_client, no_target) done in
      rw (ready.parses, ready.gathers, ready.loads, ready.sets_up, done)
        (close_all_made clients targets tried.1 k n)

  -- An IpBenchError that leaves the `try` block before every client has its object ends `main` with
  -- a KeyError: QUIT is sent to the clients that have one, and to no target.
  pub main_key_error :
      (m : Text)
      → tried.0 ≡ raised (ipbench_error m)
      → tried.1.clients_made < length clients
      → main X M rounds answers arguments b ≡ (
        raised key_error,
        record tried.1 { clients = quit_from tried.1.clients_made 0 tried.1.clients },
      )
  unfolding main on_tests
  main_key_error m failed short =
      rw (ready.parses, ready.gathers, ready.loads, ready.sets_up, failed)
        (close_all_missing clients targets tried.1 short)
