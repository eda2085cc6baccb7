-- ===== src/Daemon/Server.antt =====
-- The daemon in client mode with all its connections: `handle` and the constructor of `IpbenchClient`
-- in ipbench2/src/ipbenchd.py, in a process of its own for each connection, as `IpbenchClientServer`
-- has it of socketserver. The processes share the status and the process table. A process goes on by
-- one handler at a time, and the handlers of different processes in any order.
pub mod Invariant
pub mod Effects
pub mod Aborts
pub mod Follow
pub mod Opening
pub mod Stages
pub mod Turn
pub mod Accept
pub mod Exclusion
pub mod Bystander
pub mod Undisturbed
pub mod Between
pub mod Sane
pub mod Readable
use ipbench.Prelude.{false, ℕ, suc, Bool, none, some, List, [], ◌∷◌, if◌then◌else◌}
use ipbench.Python.Text.{Text, Bytes, codes, text_eq, upper}
use ipbench.Python.Outcome.{Outcome, returned, raised, stalled}
use ipbench.Python.Exec.{Exec, pure, ◌>>◌}
use ipbench.Daemon.TestStatus.{TestStatus}
use ipbench.Daemon.Shunt.{Shunt}
use ipbench.Daemon.World.{World, on_shunt}
use ipbench.Daemon.Common.{Cargo, Next, one}
use ipbench.Daemon.Listen
use ipbench.Daemon.Setup
use ipbench.Daemon.Run
use ipbench.Daemon.Finish
use ipbench.Daemon.Handle.{greet}
use ipbench.Daemon.Processes.{Life, absent, runs, ended, is_running, update, live}

-- Where a process is: it is to enter a handler, or its machine is over, by the end state or by an
-- exception, or it was led to a state that the machine does not know.
pub data Stage : Type 0 where
  listen setup run marshall error abort : Cargo → Stage
  over unknown : Stage

-- The keys of `handlers`, which are upper case.
unfoldable pub stage_of : Text → Cargo → Stage
stage_of name cargo =
    if text_eq name (codes "RESET")
    then over
    else if text_eq name (codes "LISTEN")
    then listen cargo
    else if text_eq name (codes "SETUP")
    then setup cargo
    else if text_eq name (codes "RUN")
    then run cargo
    else if text_eq name (codes "MARSHALL")
    then marshall cargo
    else if text_eq name (codes "ERROR")
    then error cargo
    else if text_eq name (codes "ABORT")
    then abort cargo
    else unknown

-- The module `ipbench_client` before a process imports it.
pub record Wrapper (S : Shunt) : Type 0 where
  pub unloaded : S.State
  pub import_module : Exec S.State (Unit {0})
  pub enable_debug : Exec S.State (Unit {0})

-- What happens next: a connection arrives, a process goes on, or one that has ended is waited for.
pub data Event : Type 0 where
  accepts : List Bytes → ℕ → Event
  goes_on : ℕ → Event
  waited_for : ℕ → Event

module _ (S : Shunt) where
  -- A connection, and where its process stands.
  pub record Session : Type 0 where
    pub input : List Bytes
    pub output : Bytes
    pub writes : ℕ
    pub shunt : S.State
    pub stage : Stage

  pub record Server : Type 0 where
    pub status : TestStatus
    pub lives : ℕ → Life
    pub sessions : ℕ → Session
    -- the id of the next process
    pub fresh : ℕ

  -- What a process sees.
  abbrev pub world_of : Server → ℕ → World S live
  world_of s p = record {
    input = (s.sessions p).input;
    output = (s.sessions p).output;
    writes = (s.sessions p).writes;
    status = s.status;
    shunt = (s.sessions p).shunt;
    processes = s.lives;
  }

  abbrev pub session_of : World S live → Stage → Session
  session_of w stage = record {
    input = w.input;
    output = w.output;
    writes = w.writes;
    shunt = w.shunt;
    stage = stage;
  }

  -- The server after a process worked on what it sees, and went on to a stage.
  abbrev pub with_world : Server → ℕ → World S live → Stage → Server
  with_world s p w stage = record s {
    status = w.status;
    lives = w.processes;
    sessions = update s.sessions p (session_of w stage);
  }

  -- The process ends.
  abbrev pub leave : ℕ → Server → Server
  leave p s = record s { lives = update s.lives p ended }

  -- What a process does with the result of a handler: an exception, None and an unknown state end it,
  -- and so does the end state. (A loop that is cut off, which is no outcome of Python, ends it too.)
  abbrev pub enter_stage : Stage → ℕ → Server → Server
  enter_stage over p s = leave p s
  enter_stage unknown p s = leave p s
  enter_stage _ p s = s

  abbrev pub follow : Outcome Next → Server → ℕ → World S live → Server
  follow (returned none) s p w = leave p (with_world s p w over)
  follow (returned (some (name, cargo))) s p w =
      let stage = stage_of (upper name) cargo in enter_stage stage p (with_world s p w stage)
  follow (raised e) s p w = leave p (with_world s p w over)
  follow stalled s p w = leave p (with_world s p w over)

  abbrev pub act : Exec (World S live) Next → ℕ → Server → Server
  act m p s = let (r, w) = m (world_of s p) in follow r s p w

  -- The handler of a stage.
  abbrev pub enter : Stage → ℕ → Server → Server
  enter (listen cargo) p = act (Listen.listen S live false p cargo) p
  enter (setup cargo) p = act (Setup.setup S live false cargo) p
  enter (run cargo) p = act (Run.run S live false cargo) p
  enter (marshall cargo) p = act (Finish.marshall S live cargo) p
  enter (error cargo) p = act (Finish.error S live cargo) p
  enter (abort cargo) p = act (Finish.abort S live p cargo) p
  enter over p = leave p
  enter unknown p = leave p

  -- A turn of a process; one that has ended does nothing.
  unfoldable pub turn : ℕ → Server → Server
  unfolding stage_of upper
  turn p s = if is_running (s.lives p) then enter (s.sessions p).stage p s else s

module _ {S : Shunt} (m : Wrapper S) (debug : Bool) where
  -- __init__
  unfoldable pub construct : Exec (World S live) (Unit {0})
  construct = do on_shunt m.import_module; (if debug then on_shunt m.enable_debug else pure tt)

  -- The greeting, the constructor, and the start of the machine.
  abbrev pub opened : Outcome (Unit {0}) → Server S → ℕ → World S live → Server S
  opened (returned u) s p w = with_world S s p w (listen one)
  opened (raised e) s p w = leave S p (with_world S s p w over)
  opened stalled s p w = leave S p (with_world S s p w over)

  -- A connection is accepted: the server forks a process, which has its own copy of everything but
  -- the status, greets, and makes its client. The connection has lines that will arrive, and takes so
  -- many writes.
  unfoldable pub accept : List Bytes → ℕ → Server S → Server S
  unfolding construct
  accept lines writes s =
      let p = s.fresh in
      let begun : Server S = record s { lives = update s.lives p runs; fresh = suc p } in
      let w : World S live = record {
        input = lines;
        output = [];
        writes = writes;
        status = s.status;
        shunt = m.unloaded;
        processes = begun.lives;
      } in
      let (r, w') = (greet S live p >> construct) w in opened r begun p w'

  -- waitpid
  abbrev pub reap : ℕ → Server S → Server S
  reap p s = elim (s.lives p) [
    | absent ↦ s
    | runs ↦ s
    | ended ↦ record s { lives = update s.lives p absent }
  ]

  abbrev pub happen : Event → Server S → Server S
  happen (accepts lines writes) s = accept lines writes s
  happen (goes_on p) s = turn S p s
  happen (waited_for p) s = reap p s

  unfoldable pub serve : List Event → Server S → Server S
  unfolding accept turn
  serve [] s = s
  serve (e ∷ es) s = serve es (happen e s)
