-- ===== src/Daemon/World/Quiet.antt =====
-- The parts of the handlers that leave the status and the process table as they were, whatever comes
-- of them.
use ipbench.Prelude.{ℕ, zero, suc, ◌≡◌, List, [], ◌∷◌}
use ipbench.Python.Text.{Text, Bytes}
use ipbench.Python.Exec.{Exec, lift, ◌>>◌}
use ipbench.Python.Exec.Stays.{Stays, Stays-lift, Stays-bind}
use ipbench.Daemon.TestStatus.{is_running, running_pid}
use ipbench.Daemon.TestStatus.RoundTrip.{Holds}
use ipbench.Daemon.TestStatus.History.{is_running_lem, running_pid_lem}
use ipbench.Daemon.Status.{str_status}
use ipbench.Daemon.Shunt.{Shunt}
use ipbench.Daemon.World.{
  Os, World, write_when, read_when, write, send, reply, readline, on_status, on_shunt,
}

module _ {S : Shunt} {O : Os} where
  -- The status holds `k`, and the processes are `t`.
  pub record Quiet (k : ℕ) (t : O.Table) (w : World S O) : Type 0 where
    pub held : Holds k w.status
    pub processes : w.processes ≡ t

module _ {S : Shunt} {O : Os} (k : ℕ) (t : O.Table) where
  abbrev pub Q : World S O → Type 0
  Q = Quiet k t

  write_when-Quiet : (n : ℕ) (bs : Bytes) (w : World S O) → Q w → Q (write_when n bs w).1
  write_when-Quiet zero bs w q = q
  write_when-Quiet (suc n) bs w q = record { held = q.held; processes = q.processes }

  pub write-Quiet : (bs : Bytes) → Stays Q (write bs)
  unfolding write
  write-Quiet bs = record { from = λ w q. write_when-Quiet w.writes bs w q }

  pub send-Quiet : (msg : Text) → Stays Q (send msg)
  unfolding send
  send-Quiet msg = write-Quiet _

  pub reply-Quiet : (code : ℕ) (msg : List Text) → Stays Q (reply code msg)
  unfolding reply
  reply-Quiet code msg =
      Stays-bind (lift (str_status code msg)) _ (Stays-lift _) (λ line. send-Quiet line)

  read_when-Quiet : (lines : List Bytes) (w : World S O) → Q w → Q (read_when lines w).1
  read_when-Quiet [] w q = q
  read_when-Quiet (line ∷ rest) w q = record { held = q.held; processes = q.processes }

  pub readline-Quiet : Stays Q readline
  unfolding readline
  readline-Quiet = record { from = λ w q. read_when-Quiet w.input w q }

  pub on_shunt-Quiet : {A : Type 0} (m : Exec S.State A) → Stays Q (on_shunt m)
  unfolding on_shunt
  on_shunt-Quiet m = record { from = λ w q. record { held = q.held; processes = q.processes } }

  pub asks-Quiet : Stays Q (on_status is_running)
  unfolding on_status
  asks-Quiet = record {
    from = λ w q. record {
      held = rw (is_running_lem k w.status q.held) (q.held);
      processes = q.processes;
    };
  }

  pub names-Quiet : Stays Q (on_status running_pid)
  unfolding on_status
  names-Quiet = record {
    from = λ w q. record {
      held = rw (running_pid_lem k w.status q.held) (q.held);
      processes = q.processes;
    };
  }

  pub then-Quiet :
      {A B : Type 0} (m : Exec (World S O) A) (n : Exec (World S O) B)
      → Stays Q m
      → Stays Q n
      → Stays Q (m >> n)
  then-Quiet m n hm hn = Stays-bind m _ hm (λ _. hn)
