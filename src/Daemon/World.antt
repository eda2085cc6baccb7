-- ===== src/Daemon/World.antt =====
-- What the process that serves a connection of ipbench2/src/ipbenchd.py works on: the socket's two
-- files, the shared status, the plugin wrapper and the process table.
pub mod Quiet
pub mod Keeps
use ipbench.Prelude.{ℤ, ℕ, zero, suc, Bool, Option, none, some, List, [], ◌∷◌, ◌++◌}
use ipbench.Python.Text.{Text, Bytes}
use ipbench.Python.Codec.{encode, decode}
use ipbench.Python.Outcome.{returned, raised, broken_pipe, unicode_error, or_raise}
use ipbench.Python.Exec.{Exec, lift, ◌>>=◌}
use ipbench.Daemon.TestStatus.{TestStatus}
use ipbench.Daemon.Status.{str_status}
use ipbench.Daemon.Shunt.{Shunt}

-- The signals that the daemon sends.
pub data Signal : Type 0 where
  sigint sigkill sigusr1 : Signal

-- The processes of the system. `none` is a ProcessLookupError.
pub record Os : Type 1 where
  pub Table : Type 0
  pub kill : ℤ → Signal → Table → Option Table

module _ (S : Shunt) (O : Os) where
  pub record World : Type 0 where
    -- the lines that `rfile.readline` still returns before the end of file
    pub input : List Bytes
    pub output : Bytes
    -- how many more writes the socket takes before one raises
    pub writes : ℕ
    pub status : TestStatus
    pub shunt : S.State
    pub processes : O.Table

module _ {S : Shunt} {O : Os} where
  -- self.wfile.write
  abbrev write_when : ℕ → Bytes → Exec (World S O) (Unit {0})
  write_when zero bs w = (raised broken_pipe, w)
  write_when (suc n) bs w = (returned tt, record w { output = w.output ++ bs; writes = n })

  unfoldable pub write : Bytes → Exec (World S O) (Unit {0})
  write bs w = write_when w.writes bs w

  -- send
  unfoldable pub send : Text → Exec (World S O) (Unit {0})
  unfolding write
  send msg = write (encode msg)

  -- self.send(str_status(code, …))
  unfoldable pub reply : ℕ → List Text → Exec (World S O) (Unit {0})
  unfolding send
  reply code msg = do line ← lift (str_status code msg); send line

  -- readline: at the end of file it returns the empty text
  abbrev read_when : List Bytes → Exec (World S O) Text
  read_when [] w = (returned [], w)
  read_when (line ∷ rest) w = (or_raise unicode_error (decode line), record w { input = rest })

  unfoldable pub readline : Exec (World S O) Text
  readline w = read_when w.input w

  -- A method of `TEST_RUNNING`.
  unfoldable pub on_status : {A : Type 0} → Exec TestStatus A → Exec (World S O) A
  on_status m w = let (r, st) = m w.status in (r, record w { status = st })

  -- A call of `SHUNT`.
  unfoldable pub on_shunt : {A : Type 0} → Exec S.State A → Exec (World S O) A
  on_shunt m w = let (r, st) = m w.shunt in (r, record w { shunt = st })

  -- os.kill: the result says whether there was such a process.
  abbrev kill_when : Option O.Table → Exec (World S O) Bool
  kill_when none w = (returned Bool.false, w)
  kill_when (some t) w = (returned Bool.true, record w { processes = t })

  unfoldable pub kill : ℤ → Signal → Exec (World S O) Bool
  kill pid sig w = kill_when (O.kill pid sig w.processes) w
