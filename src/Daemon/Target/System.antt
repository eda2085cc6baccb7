-- ===== src/Daemon/Target/System.antt =====
-- The processes of a target session of ipbench2/src/ipbenchd.py: the one that serves the connection,
-- and what it forks. They share the connection, the status and the process table; each has its own
-- copy of the plugin's state. A process goes on by one handler, or one side of the fork, at a time.
-- SHUNT.start() of a target is a C call: it fails at once, or goes on until SIGUSR1 tells the plugin
-- to stop, and Python acts on a SIGINT when the call is over.
use ipbench.Prelude.{ℕ, suc, ℤ, pos, negsuc, true, Option, none, some, List, [], ◌∷◌, if◌then◌else◌}
use ipbench.Python.Text.{Text, Bytes, codes, text_eq, upper}
use ipbench.Python.Outcome.{Outcome, returned, raised, stalled}
use ipbench.Python.Exec.{Exec}
use ipbench.Daemon.TestStatus.{TestStatus}
use ipbench.Daemon.Shunt.{Shunt}
use ipbench.Daemon.World.{Os, World, Signal, sigint, sigkill, sigusr1}
use ipbench.Daemon.Common.{Cargo, Next, one}
use ipbench.Daemon.Processes.{update}
use ipbench.Daemon.Listen.{listen}
use ipbench.Daemon.Setup.{setup}
use ipbench.Daemon.Finish.{marshall, error, abort}
use ipbench.Daemon.Target.{
  Begun, forks, hands, ChildEnd, exits, returns, loops, begin, parent_run, child_run,
}

-- A process runs with no signal, or after SIGUSR1 told its plugin to stop, or with a SIGINT that the
-- interpreter has not acted on yet, or with both; one that has ended can be signalled until it is
-- waited for.
pub data Life : Type 0 where
  absent runs told interrupted both ended : Life

abbrev pub signalled : Signal → Life → Life
signalled sigkill l = ended
signalled sigint runs = interrupted
signalled sigint told = both
signalled sigint l = l
signalled sigusr1 runs = told
signalled sigusr1 interrupted = both
signalled sigusr1 l = l

abbrev pub send_signal : ℤ → Signal → (ℕ → Life) → Option (ℕ → Life)
send_signal (negsuc n) sig lives = none
send_signal (pos p) sig lives = elim (lives p) [
  | absent ↦ none
  | runs ↦ some (update lives p (signalled sig runs))
  | told ↦ some (update lives p (signalled sig told))
  | interrupted ↦ some (update lives p (signalled sig interrupted))
  | both ↦ some (update lives p (signalled sig both))
  | ended ↦ some lives
]

-- The process table.
abbrev pub live : Os
live = record { Table = ℕ → Life; kill = send_signal }

-- Where a process stands: before a handler, before the fork, in SHUNT.start() with its child, or in
-- the child before its line.
pub data Place : Type 0 where
  at : Text → Cargo → Place
  forking : Place
  starting : ℕ → Place
  child_of : ℕ → Place

-- What happens next: a process goes on, or one that has ended is waited for.
pub data Event : Type 0 where
  goes_on : ℕ → Event
  waited_for : ℕ → Event

module _ (S : Shunt) where
  pub record System : Type 0 where
    pub input : List Bytes
    pub output : Bytes
    pub writes : ℕ
    pub status : TestStatus
    pub lives : ℕ → Life
    pub shunts : ℕ → S.State
    pub places : ℕ → Place
    -- the id of the next process
    pub fresh : ℕ

  -- What a process sees.
  abbrev pub world_of : System → ℕ → World S live
  world_of s p = record {
    input = s.input;
    output = s.output;
    writes = s.writes;
    status = s.status;
    shunt = s.shunts p;
    processes = s.lives;
  }

  abbrev pub with_world : System → ℕ → World S live → System
  with_world s p w = record s {
    input = w.input;
    output = w.output;
    writes = w.writes;
    status = w.status;
    lives = w.processes;
    shunts = update s.shunts p w.shunt;
  }

  abbrev pub move_to : Place → ℕ → System → System
  move_to place p s = record s { places = update s.places p place }

  -- The process ends, by os._exit.
  abbrev pub leave : ℕ → System → System
  leave p s = record s { lives = update s.lives p ended }

  -- The process ends through socketserver, which shuts down the connection for writing.
  abbrev pub hang_up : ℕ → System → System
  hang_up p s = record s { lives = update s.lives p ended; writes = 0 }

  -- What a process does with the state that a handler returns.
  abbrev pub follow : Next → ℕ → System → System
  follow none p s = hang_up p s
  follow (some (name, cargo)) p s =
      if text_eq (upper name) (codes "RESET")
      then hang_up p s
      else move_to (at (upper name) cargo) p s

  -- An exception ends the process.
  abbrev pub settle : {A : Type 0} → (A → ℕ → System → System) → Outcome A → ℕ → System → System
  settle k (returned a) p s = k a p s
  settle k (raised e) p s = hang_up p s
  settle k stalled p s = s

  abbrev pub act :
      {A : Type 0} → Exec (World S live) A → (A → ℕ → System → System) → ℕ → System → System
  act m k p s = let (r, w) = m (world_of s p) in settle k r p (with_world s p w)

  abbrev pub after_begin : Begun → ℕ → System → System
  after_begin forks = move_to forking
  after_begin (hands next) = follow next

  abbrev pub after_child : ChildEnd → ℕ → System → System
  after_child exits = leave
  after_child (returns next) = follow next
  after_child loops = move_to (at (codes "RUN") one)

  -- pid = os.fork()
  abbrev pub fork : ℕ → System → System
  fork p s = record s {
    lives = update s.lives s.fresh runs;
    shunts = update s.shunts s.fresh (s.shunts p);
    places = update (update s.places p (starting s.fresh)) s.fresh (child_of p);
    fresh = suc s.fresh;
  }

  -- The handler of a state.
  abbrev pub enter : Text → Cargo → ℕ → System → System
  enter name cargo p =
      if text_eq name (codes "LISTEN")
      then act (listen S live true p cargo) follow p
      else if text_eq name (codes "SETUP")
      then act (setup S live true cargo) follow p
      else if text_eq name (codes "RUN")
      then act (begin S live) after_begin p
      else if text_eq name (codes "MARSHALL")
      then act (marshall S live cargo) follow p
      else if text_eq name (codes "ERROR")
      then act (error S live cargo) follow p
      else if text_eq name (codes "ABORT")
      then act (abort S live p cargo) follow p
      else hang_up p

  abbrev pub go_from : Place → ℕ → System → System
  go_from (at name cargo) p = enter name cargo p
  go_from forking p = fork p
  go_from (starting child) p = act (parent_run S live child) follow p
  go_from (child_of ppid) p = act (child_run S live ppid) after_child p

  -- A process in SHUNT.start() that nothing told to stop: the call fails, or it goes on.
  abbrev pub fails_or_goes_on : Outcome (Unit {0}) → (ℕ → System → System) → ℕ → System → System
  fails_or_goes_on (returned u) failed p s = s
  fails_or_goes_on (raised e) failed p s = failed p s
  fails_or_goes_on stalled failed p s = s

  abbrev pub in_start : (ℕ → System → System) → ℕ → System → System
  in_start failed p s = fails_or_goes_on (S.start (s.shunts p)).0 failed p s

  abbrev pub untold : Place → ℕ → System → System
  untold (starting child) p = in_start (go_from (starting child)) p
  untold (at name cargo) p = go_from (at name cargo) p
  untold forking p = go_from forking p
  untold (child_of ppid) p = go_from (child_of ppid) p

  -- KeyboardInterrupt, once the interpreter goes on.
  abbrev pub interrupt : Place → ℕ → System → System
  interrupt (starting child) p = in_start hang_up p
  interrupt (at name cargo) p = hang_up p
  interrupt forking p = hang_up p
  interrupt (child_of ppid) p = hang_up p

  abbrev pub take_turn : Life → Place → ℕ → System → System
  take_turn absent place p s = s
  take_turn runs place p s = untold place p s
  take_turn told place p s = go_from place p s
  take_turn interrupted place p s = interrupt place p s
  take_turn both place p s = hang_up p s
  take_turn ended place p s = s

  -- A turn of a process; one that has ended does nothing.
  unfoldable pub turn : ℕ → System → System
  unfolding upper
  turn p s = take_turn (s.lives p) (s.places p) p s

  -- waitpid
  abbrev pub reap : ℕ → System → System
  reap p s = elim (s.lives p) [
    | absent ↦ s
    | runs ↦ s
    | told ↦ s
    | interrupted ↦ s
    | both ↦ s
    | ended ↦ record s { lives = update s.lives p absent }
  ]

  abbrev pub happen : Event → System → System
  happen (goes_on p) s = turn p s
  happen (waited_for p) s = reap p s

  unfoldable pub schedule : List Event → System → System
  unfolding turn
  schedule [] s = s
  schedule (e ∷ es) s = schedule es (happen e s)
