-- ===== src/Controller/Main.antt =====
-- `main` of ipbench2/src/ipbench.py, behind the lists of clients and targets that Controller.Config
-- gathers.
pub mod Closing
pub mod Made
pub mod Total
use ipbench.Prelude.{
  ℕ, zero, suc, ℤ, pos, Bool, true, false, Option, none, some, List, [], ◌∷◌, is, ltb,
  if◌then◌else◌, length,
}
use ipbench.Python.Text.{Text, Bytes}
use ipbench.Python.Outcome.{
  Outcome, returned, raised, stalled, Exn, ipbench_error, type_error, key_error, or_raise, and_then,
}
use ipbench.Python.Exec.{Exec, pure, raise, lift, modify, ◌>>=◌, ◌>>◌}
use ipbench.Controller.Socket.{Peer}
use ipbench.Controller.Client
use ipbench.Controller.Client.{TestClient, connect, start, close}
use ipbench.Controller.Target
use ipbench.Controller.Unmarshall.{unmarshall}
use ipbench.Controller.Options.{Options, Argument, parse_args}
use ipbench.Controller.Config.{Xml, ClientSpec, TargetSpec, gather}
use ipbench.Controller.Bench.{Modules, Connection, Bench, on_client, on_target, on_tests, in_peer}
use ipbench.Controller.Poll.{Round, poll}

-- A call for each item of a list with its place, from a number on.
module _ {S A : Type 0} where
  unfoldable pub each_from : (ℕ → A → Exec S (Unit {0})) → ℕ → List A → Exec S (Unit {0})
  each_from f i [] = pure tt
  each_from f i (a ∷ l) = f i a >> each_from f (suc i) l

-- The places of a list's items, from a number on.
abbrev pub places : {A : Type 0} → ℕ → List A → List ℕ
places i [] = []
places i (a ∷ l) = i ∷ places (suc i) l

-- IpbenchTestTarget(…): what `connect` reads of it
abbrev pub test_target_of : Text → TargetSpec → TestClient
test_target_of host t = record {
  hostname = host;
  test_target = none;
  test_port = none;
  test_name = t.test;
  test_args = some t.test_args;
}

-- IpbenchTestClient(…)
abbrev pub test_client_of : Text → ℤ → ClientSpec → TestClient
test_client_of test port c = record {
  hostname = c.hostname;
  test_target = c.test_target;
  test_port = some port;
  test_name = test;
  test_args = some c.test_args;
}

-- call_test_unmarshall of both classes
module _ (M : Modules) where
  abbrev pub call_client_unmarshall : ℕ → Bytes → Bool → Exec (Peer M.State) (Unit {0})
  call_client_unmarshall i content valid = in_peer (M.unmarshall_client i content valid)

  abbrev pub call_target_unmarshall : Bytes → Bool → Exec (Peer M.State) (Unit {0})
  call_target_unmarshall content valid = in_peer (M.unmarshall_target content valid)

-- `rounds` bounds the loop that reads a result.
module _ (M : Modules) (o : Options) (test : Text) (rounds : ℕ) where
  abbrev pub B : Type 0
  B = Bench M

  -- testobj.connect() and testobj.setup()
  abbrev pub open_target : Connection → Text → TargetSpec → Exec (Peer M.State) (Unit {0})
  open_target c host t =
      connect o.reset c.first c.again (test_target_of host t) >> Target.setup t.test_args

  abbrev pub open_client : Connection → ℤ → ClientSpec → Exec (Peer M.State) (Unit {0})
  open_client x p c =
      connect o.reset x.first x.again (test_client_of test p c)
      >> Client.setup (test_client_of test p c)

  -- A round of the loop that sets up the targets. A missing hostname is a TypeError.
  unfoldable pub setup_target : ℕ → TargetSpec → Exec B (Unit {0})
  unfolding on_tests on_target
  setup_target i t w =
      (do
        host ← lift (or_raise type_error t.hostname)
        on_tests (M.load_target t.test)
        on_tests (M.setup_target o.target_controller_args)
        modify (λ v. record v { targets_made = suc i })
        on_target i (open_target (w.targets i) host t))
        w

  -- A client without a port for the test gets the module's default.
  abbrev pub port_of : ClientSpec → Exec B ℤ
  port_of c = if is c.test_port 0 then on_tests M.get_default_port else pure c.test_port

  unfoldable pub setup_client : ℕ → ClientSpec → Exec B (Unit {0})
  unfolding on_tests on_client
  setup_client i c w =
      (do
        p ← port_of c
        modify (λ v. record v { clients_made = suc i })
        on_client i (open_client (w.clients i) p c))
        w

  unfoldable pub start_target : ℕ → TargetSpec → Exec B (Unit {0})
  unfolding on_target
  start_target i t = on_target i start

  unfoldable pub start_client : ℕ → ClientSpec → Exec B (Unit {0})
  unfolding on_client
  start_client i c = on_client i start

  unfoldable pub unmarshall_client : ℕ → Exec B (Unit {0})
  unfolding on_client
  unmarshall_client i = on_client i (unmarshall rounds (call_client_unmarshall M i))

  unfoldable pub stop_target : ℕ → TargetSpec → Exec B (Unit {0})
  unfolding on_target
  stop_target i t = on_target i (Target.stop >> unmarshall rounds (call_target_unmarshall M))

  abbrev pub output_target : ℕ → TargetSpec → Exec B (Unit {0})
  output_target i t = on_tests M.output_target

  -- The `try` block; `answers` are those of `select`.
  unfoldable pub run_tests : List Round → List ClientSpec → List TargetSpec → Exec B (Unit {0})
  unfolding setup_target setup_client start_target start_client unmarshall_client stop_target
      on_tests each_from
  run_tests answers clients targets = do
    each_from setup_target 0 targets
    each_from setup_client 0 clients
    each_from start_target 0 targets
    each_from start_client 0 clients
    poll unmarshall_client answers (places 0 targets) (places 0 clients)
    each_from stop_target 0 targets
    on_tests M.output_clients
    each_from output_target 0 targets

-- except IpBenchError: it is printed
abbrev pub caught : {S : Type 0} → Outcome (Unit {0}) → Exec S (Unit {0})
caught (returned u) = pure u
caught (raised (ipbench_error m)) = pure tt
caught (raised e) = raise e
caught stalled = lift stalled

module _ {M : Modules} where
  -- client["testobj"].close(): where there is no such entry, a KeyError
  unfoldable pub close_client : ℕ → ClientSpec → Exec (Bench M) (Unit {0})
  unfolding on_client
  close_client i c w = if ltb i w.clients_made then on_client i close w else raise key_error w

  unfoldable pub close_target : ℕ → TargetSpec → Exec (Bench M) (Unit {0})
  unfolding on_target
  close_target i t w = if ltb i w.targets_made then on_target i close w else raise key_error w

  -- for client in clients + targets
  unfoldable pub close_all : List ClientSpec → List TargetSpec → Exec (Bench M) (Unit {0})
  unfolding close_client close_target each_from
  close_all clients targets = each_from close_client 0 clients >> each_from close_target 0 targets

abbrev pub with_options : {A : Type 0} → Exec Options A → Options → Outcome (A × Options)
with_options m o = let (r, o') = m o in and_then r (λ a. returned (a, o'))

-- The program, for a command line.
unfoldable pub main :
    (X : Xml) (M : Modules) → ℕ → List Round → List Argument → Exec (Bench M) (Unit {0})
unfolding on_tests run_tests close_all
main X M rounds answers arguments = do
  parsed ← lift (parse_args arguments)
  ((test, clients, targets), o) ← lift (with_options (gather X) parsed)
  on_tests (M.load_client test)
  on_tests (M.setup_clients (length clients) o.controller_args)
  (λ w. let (r, w') = run_tests M o test rounds answers clients targets w in caught r w')
  close_all clients targets
