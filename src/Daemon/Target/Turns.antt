-- ===== src/Daemon/Target/Turns.antt =====
-- The turns of a parent in SHUNT.start() and of its child.
pub mod Child
use ipbench.Prelude.{
  ℕ, suc, ◌≡◌, ◌≢◌, refl, true, false, some, List, [], ◌∷◌, ◌++◌, ◌==◌, arith, ◌⊎◌, inl, inr,
}
use ipbench.Python.Text.{Text, Bytes, codes, strip, text_eq}
use ipbench.Python.Number.{decimal}
use ipbench.Python.Codec.{decode, encode}
use ipbench.Python.Outcome.{returned}
use ipbench.Daemon.TestStatus.{TestStatus, not_running}
use ipbench.Daemon.Status.{str_status}
use ipbench.Daemon.Shunt.{Shunt}
use ipbench.Daemon.World.{kill, readline, reply, on_shunt, on_status}
use ipbench.Daemon.Commands.{match_any, match_word}
use ipbench.Daemon.Common.{one, error_cargo, go_on, parse_common_opts}
use ipbench.Daemon.Common.Line.{parse_common_opts_line}
use ipbench.Daemon.Listen.{listen}
use ipbench.Daemon.Setup.{setup}
use ipbench.Daemon.Finish.{marshall, error}
use ipbench.Daemon.Target.{begin, parent_run, child_run}
use ipbench.Daemon.Processes.{update}
use ipbench.Daemon.Target.System.{
  Life, absent, runs, told, interrupted, both, ended, live, Place, at, forking, starting, child_of,
  System, turn,
}

pub Life-cases :
    (l : Life)
    → (l ≡ absent) ⊎ ((l ≡ runs) ⊎ ((l ≡ told) ⊎ ((l ≡ interrupted) ⊎ ((l ≡ both) ⊎ (l ≡ ended)))))
Life-cases absent = inl refl
Life-cases runs = inr (inl refl)
Life-cases told = inr (inr (inl refl))
Life-cases interrupted = inr (inr (inr (inl refl)))
Life-cases both = inr (inr (inr (inr (inl refl))))
Life-cases ended = inr (inr (inr (inr (inr refl))))

module _ {S : Shunt} where
  abbrev pub system :
      List Bytes → Bytes → ℕ → TestStatus → (ℕ → Life) → (ℕ → S.State) → (ℕ → Place) → ℕ → System S
  system lines out n st lives shunts places fresh = record {
    input = lines;
    output = out;
    writes = n;
    status = st;
    lives = lives;
    shunts = shunts;
    places = places;
    fresh = fresh;
  }

  module _ (lines : List Bytes) (out : Bytes) (n : ℕ) (st : TestStatus) (lives : ℕ → Life)
      (shunts : ℕ → S.State) (places : ℕ → Place) (fresh : ℕ) where
    -- A handler that goes on with SETUP, and one that goes on with RUN.
    pub listens :
        (p m : ℕ) (rest : List Bytes) (out' : Bytes) (st' : TestStatus)
        → lives p ≡ runs
        → places p ≡ at (codes "LISTEN") one
        → listen S live true p one (record {
          input = lines;
          output = out;
          writes = n;
          status = st;
          shunt = shunts p;
          processes = lives;
        })
          ≡ (
            returned (go_on "SETUP"),
            record {
              input = rest;
              output = out';
              writes = m;
              status = st';
              shunt = shunts p;
              processes = lives;
            },
          )
        → turn S p (system lines out n st lives shunts places fresh)
          ≡ system rest out' m st' lives
              (update shunts p (shunts p))
              (update places p (at (codes "SETUP") one))
              fresh
    unfolding turn
    listens p m rest out' st' alive here done = rw (alive, here, done) refl

    pub sets_up :
        (p m : ℕ) (rest : List Bytes) (out' : Bytes) (s : S.State)
        → lives p ≡ runs
        → places p ≡ at (codes "SETUP") one
        → setup S live true one (record {
          input = lines;
          output = out;
          writes = n;
          status = st;
          shunt = shunts p;
          processes = lives;
        })
          ≡ (
            returned (go_on "RUN"),
            record {
              input = rest;
              output = out';
              writes = m;
              status = st;
              shunt = s;
              processes = lives;
            },
          )
        → turn S p (system lines out n st lives shunts places fresh)
          ≡ system rest out' m st lives
              (update shunts p s)
              (update places p (at (codes "RUN") one))
              fresh
    unfolding turn
    sets_up p m rest out' s alive here done = rw (alive, here, done) refl

    -- The loop of `run` reads START.
    pub reads_start :
        (p : ℕ)
        → lives p ≡ runs
        → places p ≡ at (codes "RUN") one
        → turn S p (system (codes "START\n" ∷ lines) out n st lives shunts places fresh)
          ≡ system lines out n st lives (update shunts p (shunts p)) (update places p forking) fresh
    unfolding turn begin parse_common_opts readline decode match_any match_word strip
    reads_start p alive here = rw (alive, here) refl

    -- os.fork
    pub forks_child :
        (p : ℕ)
        → lives p ≡ runs
        → places p ≡ forking
        → turn S p (system lines out n st lives shunts places fresh)
          ≡ system lines out n st
              (update lives fresh runs)
              (update shunts fresh (shunts p))
              (update (update places p (starting fresh)) fresh (child_of p))
              (suc fresh)
    unfolding turn
    forks_child p alive here = rw (alive, here) refl

    -- SHUNT.start() goes on, as nothing told the plugin to stop.
    pub parent_waits :
        (p c : ℕ) (s : S.State)
        → lives p ≡ runs
        → places p ≡ starting c
        → S.start (shunts p) ≡ (returned tt, s)
        → turn S p (system lines out n st lives shunts places fresh)
          ≡ system lines out n st lives shunts places fresh
    unfolding turn
    parent_waits p c s alive here started = rw (alive, here, started) refl

    -- A SIGINT changes nothing while SHUNT.start() goes on.
    pub parent_deaf :
        (p c : ℕ) (s : S.State)
        → lives p ≡ interrupted
        → places p ≡ starting c
        → S.start (shunts p) ≡ (returned tt, s)
        → turn S p (system lines out n st lives shunts places fresh)
          ≡ system lines out n st lives shunts places fresh
    unfolding turn
    parent_deaf p c s alive here started = rw (alive, here, started) refl

    -- SHUNT.start() ends, as SIGUSR1 told the plugin to stop.
    pub parent_started :
        (p c : ℕ) (s : S.State)
        → lives p ≡ told
        → places p ≡ starting c
        → S.start (shunts p) ≡ (returned tt, s)
        → turn S p (system lines out n st lives shunts places fresh)
          ≡ system lines out n st lives
              (update shunts p s)
              (update places p (at (codes "MARSHALL") one))
              fresh
    unfolding turn parent_run on_shunt
    parent_started p c s alive here started = rw (alive, here, started) refl

    -- A process writes a result, and ends.
    pub marshalls :
        (p m : ℕ) (s : S.State) (result : Bytes) (st' : TestStatus)
        → (lives p ≡ runs) ⊎ (lives p ≡ told)
        → places p ≡ at (codes "MARSHALL") one
        → marshall S live one (record {
          input = lines;
          output = out;
          writes = n;
          status = st;
          shunt = shunts p;
          processes = lives;
        })
          ≡ (
            returned (go_on "RESET"),
            record {
              input = lines;
              output = result;
              writes = m;
              status = st';
              shunt = s;
              processes = lives;
            },
          )
        → turn S p (system lines out n st lives shunts places fresh)
          ≡ system lines result 0 st' (update lives p ended) (update shunts p s) places fresh
    unfolding turn
    marshalls p m s result st' (inl alive) here done = rw (alive, here, done) refl
    marshalls p m s result st' (inr alive) here done = rw (alive, here, done) refl

    -- A process says good-bye, and ends.
    pub farewells :
        (p m : ℕ) (st' : TestStatus)
        → lives p ≡ runs
        → places p ≡ at (codes "ERROR") (error_cargo 222 (codes "Come back soon!"))
        → n ≡ suc m
        → not_running st ≡ (returned tt, st')
        → turn S p (system lines out n st lives shunts places fresh)
          ≡ system lines
              (out ++ codes "222 CLOSING CONTROL CONNECTION (Come back soon!)\n")
              0
              st'
              (update lives p ended)
              (update shunts p (shunts p))
              places
              fresh
    unfolding turn error reply str_status on_status decimal encode
    farewells p m st' alive here more cleared = rw (alive, here, more, cleared) refl

-- A process that has ended has no more turns.
pub rests : {S : Shunt} (p : ℕ) (w : System S) → w.lives p ≡ ended → turn S p w ≡ w
unfolding turn
rests p w over = rw over refl
