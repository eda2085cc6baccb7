-- ===== src/Controller/Bench.antt =====
-- What `main` of ipbench2/src/ipbench.py works on: a connection to each client and to each target, and
-- the test modules that all of them share.
use ipbench.Prelude.{ℕ, ℤ, Bool, Option, List, ◌==◌, if◌then◌else◌}
use ipbench.Python.Text.{Text, Bytes}
use ipbench.Python.Exec.{Exec}
use ipbench.Controller.Socket.{Peer}
use ipbench.Controller.Client.{Dial}

-- The modules `ipbench_client` and `ipbench_target`, as the controller calls them. A call may raise.
pub record Modules : Type 1 where
  pub State : Type 0
  pub load_client : Text → Exec State (Unit {0})
  pub setup_clients : ℕ → Option Text → Exec State (Unit {0})
  pub get_default_port : Exec State ℤ
  pub unmarshall_client : ℕ → Bytes → Bool → Exec State (Unit {0})
  pub output_clients : Exec State (Unit {0})
  pub load_target : Text → Exec State (Unit {0})
  pub setup_target : Option Text → Exec State (Unit {0})
  pub unmarshall_target : Bytes → Bool → Exec State (Unit {0})
  pub output_target : Exec State (Unit {0})

-- A connection: what the two attempts to open it come to, what is still to arrive, and what was
-- sent.
pub record Connection : Type 0 where
  pub first : Dial
  pub again : Dial
  pub incoming : List Bytes
  pub sent : Bytes

-- Clients and targets go by their places in their lists; those before `clients_made` and
-- `targets_made` have their "testobj".
pub record Bench (M : Modules) : Type 0 where
  pub clients : ℕ → Connection
  pub targets : ℕ → Connection
  pub clients_made : ℕ
  pub targets_made : ℕ
  pub tests : M.State

abbrev pub update {ℓ} : {A : Type ℓ} → (ℕ → A) → ℕ → A → ℕ → A
update f i a j = if i == j then a else f j

abbrev pub as_peer : {T : Type 0} → Connection → T → Peer T
as_peer c t = record { incoming = c.incoming; sent = c.sent; tests = t }

abbrev pub after : {T : Type 0} → Connection → Peer T → Connection
after c p = record c { incoming = p.incoming; sent = p.sent }

module _ {M : Modules} {A : Type 0} where
  unfoldable pub on_client : ℕ → Exec (Peer M.State) A → Exec (Bench M) A
  on_client i m w =
      let (r, p) = m (as_peer (w.clients i) w.tests) in
      (r, record w { clients = update w.clients i (after (w.clients i) p); tests = p.tests })

  unfoldable pub on_target : ℕ → Exec (Peer M.State) A → Exec (Bench M) A
  on_target i m w =
      let (r, p) = m (as_peer (w.targets i) w.tests) in
      (r, record w { targets = update w.targets i (after (w.targets i) p); tests = p.tests })

  -- A call of a test module.
  unfoldable pub on_tests : Exec M.State A → Exec (Bench M) A
  on_tests m w = let (r, t) = m w.tests in (r, record w { tests = t })

-- A call of a test module within the work on a connection.
abbrev pub in_peer : {T A : Type 0} → Exec T A → Exec (Peer T) A
in_peer m p = let (r, t) = m p.tests in (r, record p { tests = t })
