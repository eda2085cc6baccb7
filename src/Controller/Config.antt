-- ===== src/Controller/Config.antt =====
-- The lists of clients and targets: the first half of `main` in ipbench2/src/ipbench.py, which reads
-- the configuration file and the command line.
pub mod Ready
pub mod Fields
pub mod File
use ipbench.Prelude.{
  ℕ, ℤ, pos, Bool, true, false, Option, none, some, List, [], ◌∷◌, ◌++◌, ltb, if◌then◌else◌, length,
  map,
}
use ipbench.Python.Text.{Text, codes}
use ipbench.Python.Number.{int}
use ipbench.Python.Outcome.{
  Outcome, returned, raised, exit_failed, value_error, index_error, or_raise,
}
use ipbench.Python.Exec.{Exec, pure, raise, lift, gets, modify, collect, each, ◌>>=◌, ◌>>◌}
use ipbench.Controller.Options.{Options}

-- The module lxml.etree: `parse(file).getroot()`, and of an element `findall`, `get` (`none` where
-- the attribute is missing) and `keys`.
pub record Xml : Type 1 where
  pub Element : Type 0
  pub parse : Text → Outcome Element
  pub findall : Text → Element → Outcome (List Element)
  pub get : Text → Element → Option Text
  pub keys : Element → List Text

-- The dicts `newclient` and `newtarget`.
pub record ClientSpec : Type 0 where
  pub hostname : Text
  pub port : ℤ
  pub test_port : ℤ
  pub test_args : Text
  pub test_target : Option Text

pub record TargetSpec : Type 0 where
  pub hostname : Option Text
  pub port : ℤ
  pub test_args : Text
  pub test : Text

abbrev pub get_or {ℓ} : {A : Type ℓ} → A → Option A → A
get_or d none = d
get_or d (some a) = a

-- str(…) of a value that may be None
abbrev pub str_of : Option Text → Text
str_of = get_or (codes "None")

-- error_exit
abbrev pub error_exit : {A : Type 0} → Exec Options A
error_exit = raise exit_failed

abbrev pub expect_test : Option Text → Exec Options Text
expect_test none = error_exit
expect_test (some t) = pure t

abbrev pub joined {ℓ} : {A : Type ℓ} → List (List A) → List A
joined [] = []
joined (l ∷ ls) = l ++ joined ls

-- A list that may not be empty.
abbrev pub expect_some : {A : Type 0} → List A → Exec Options (List A)
expect_some [] = error_exit
expect_some (a ∷ l) = pure (a ∷ l)

module _ (X : Xml) where
  -- int(e.get(name, default))
  abbrev pub int_attribute : Text → ℤ → X.Element → Outcome ℤ
  int_attribute name default e = elim (X.get name e) [
    | none ↦ returned default
    | some t ↦ or_raise value_error (int t)
  ]

  -- The attributes of <test>.
  unfoldable pub read_test : X.Element → Exec Options (Unit {0})
  unfolding int
  read_test e = do
    modify (λ o. record o {
      test = some (str_of (X.get (codes "name") e));
      test_args = get_or [] (X.get (codes "args") e);
    })
    p ← lift (int_attribute (codes "port") (pos 0) e)
    modify (λ o. record o {
      test_port = p;
      test_target = some (str_of (X.get (codes "target") e));
      controller_args = some (str_of (X.get (codes "controller_args") e));
    })

  -- A <client>, with the values of <test> and of the command line where it has no attribute.
  unfoldable pub read_client : X.Element → Exec Options ClientSpec
  unfolding int
  read_client e = do
    o ← gets (λ o. o)
    p ← lift (int_attribute (codes "port") o.port e)
    tp ← lift (int_attribute (codes "test_port") o.test_port e)
    host ← lift (or_raise exit_failed (X.get (codes "hostname") e))
    pure (record {
      hostname = host;
      port = p;
      test_port = tp;
      test_args = get_or o.test_args (X.get (codes "test_args") e);
      test_target = some (get_or (str_of o.test_target) (X.get (codes "test_target") e));
    })

  -- A round of the loop over the attributes of a <target>, which do the same.
  read_attribute : X.Element → TargetSpec → Exec Options TargetSpec
  read_attribute e t = do
    o ← gets (λ o. o)
    p ← lift (int_attribute (codes "port") o.target_test_port e)
    host ← lift (
        or_raise exit_failed
          (elim (X.get (codes "hostname") e) [ none ↦ o.target_test_hostname | some h ↦ some h ]))
    pure (record t {
      hostname = some host;
      port = p;
      test_args = get_or o.target_test_args (X.get (codes "test_args") e);
    })

  read_attributes : X.Element → List Text → TargetSpec → Exec Options TargetSpec
  read_attributes e [] t = pure t
  read_attributes e (k ∷ ks) t = do t' ← read_attribute e t; read_attributes e ks t'

  unfoldable pub read_target : Text → X.Element → Exec Options TargetSpec
  unfolding read_attributes read_attribute int
  read_target name e = do
    o ← gets (λ o. o)
    read_attributes e (X.keys e) (record {
      hostname = o.target_test_hostname;
      port = o.target_test_port;
      test_args = o.target_test_args;
      test = name;
    })

  -- A <target_test> and the targets of all sections of its name.
  unfoldable pub read_target_test : X.Element → X.Element → Exec Options (List TargetSpec)
  unfolding read_target collect
  read_target_test doc e = do
    modify (λ o. record o {
      target_test_args = get_or [] (X.get (codes "args") e);
      target_controller_args = some (str_of (X.get (codes "controller_args") e));
    })
    name ← lift (or_raise exit_failed (X.get (codes "name") e))
    found ← lift (X.findall (codes "target_test[@name='" ++ (name ++ codes "']/target")) doc)
    tclients ← expect_some found
    collect (read_target name) tclients

  abbrev pub at_most_one : List X.Element → Exec Options (Unit {0})
  at_most_one tests = if ltb 1 (length tests) then error_exit else pure tt

  -- tests[0]
  abbrev pub first_test : List X.Element → Outcome X.Element
  first_test [] = raised index_error
  first_test (e ∷ l) = returned e

  -- The lists from the file.
  unfoldable pub read_config : X.Element → Exec Options (List ClientSpec × List TargetSpec)
  unfolding read_test read_client read_target_test collect each
  read_config doc = do
    tests ← lift (X.findall (codes "test") doc)
    at_most_one tests
    each read_test tests
    o ← gets (λ o. o)
    expect_test o.test
    first ← lift (first_test tests)
    found ← lift (X.findall (codes "./client") first)
    clients ← collect read_client found
    target_tests ← lift (X.findall (codes "target_test") doc)
    targets ← collect (read_target_test doc) target_tests
    pure (clients, joined targets)

  -- An empty name is as good as none.
  unfoldable pub config_lists : Exec Options (List ClientSpec × List TargetSpec)
  unfolding read_config
  config_lists o = elim o.config [
    | none ↦ pure ([], []) o
    | some [] ↦ pure ([], []) o
    | some (c ∷ file) ↦ (do doc ← lift (X.parse (c ∷ file)); read_config doc) o
  ]

-- The clients of the command line.
abbrev pub client_of : Options → Text → ClientSpec
client_of o host = record {
  hostname = host;
  port = o.port;
  test_port = o.test_port;
  test_args = o.test_args;
  test_target = o.test_target;
}

abbrev pub named_clients : List Text → Exec Options (List ClientSpec)
named_clients [] = pure []
named_clients (h ∷ hs) = do o ← gets (λ o. o); expect_test o.test; pure (map (client_of o) (h ∷ hs))

-- The one target of the command line.
abbrev pub target_of : Options → Text → Text → TargetSpec
target_of o t host = record {
  hostname = some host;
  port = o.target_test_port;
  test_args = o.target_test_args;
  test = t;
}

abbrev pub named_target : Option Text → Exec Options (List TargetSpec)
named_target none = pure []
named_target (some []) = pure []
named_target (some (c ∷ t)) = do
  o ← gets (λ o. o)
  host ← lift (or_raise exit_failed o.target_test_hostname)
  pure (target_of o (c ∷ t) host ∷ [])

-- Both lists, and the name of the test.
unfoldable pub gather : Xml → Exec Options (Text × List ClientSpec × List TargetSpec)
unfolding config_lists
gather X = do
  (clients, targets) ← config_lists X
  o ← gets (λ o. o)
  more ← named_clients o.clients
  extra ← named_target o.target_test
  t ← expect_test o.test
  all ← expect_some (clients ++ more)
  pure (t, all, targets ++ extra)
