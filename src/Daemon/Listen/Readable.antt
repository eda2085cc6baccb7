-- ===== src/Daemon/Listen/Readable.antt =====
-- The state LISTEN of ipbench2/src/ipbenchd.py with whatever peer: the status stays readable, and no
-- process starts or ends.
use ipbench.Prelude.{
  ℕ, zero, suc, ◌<◌, ◌^◌, Bool, true, false, Option, none, some, [], ◌∷◌, sym, subst,
}
use ipbench.Python.Text.{Text, codes, text_eq}
use ipbench.Python.Exec.{Exec}
use ipbench.Python.Exec.Stays.{Stays, Stays-lift, Stays-if, Stays-bind}
use ipbench.Daemon.TestStatus.{is_running, running}
use ipbench.Daemon.TestStatus.History.{running_lem}
use ipbench.Daemon.Shunt.{Shunt}
use ipbench.Daemon.World.{Os, World, reply, on_status}
use ipbench.Daemon.World.Quiet.{Quiet, reply-Quiet, asks-Quiet}
use ipbench.Daemon.Commands.{match_not_spaces}
use ipbench.Daemon.Common.{Cargo, Next, refuse, by_line, on_line, parse_common_opts}
use ipbench.Daemon.Common.Quiet.{parse_common_opts-Quiet}
use ipbench.Daemon.Listen.{hello_when, hello, listen_line, listen_loop, listen}

module _ {S : Shunt} {O : Os} where
  -- The status holds some id, and the processes are `t`.
  abbrev pub Readable : O.Table → World S O → Type 0
  Readable t w = (id : ℕ) × Quiet id t w

module _ {S : Shunt} {O : Os} (target : Bool) (p : ℕ) (small : p < 10 ^ 19) (t : O.Table) where
  abbrev Keeps : {A : Type 0} → Exec (World S O) A → Type 0
  Keeps m = Stays (Readable {S = S} {O = O} t) m

  -- What leaves each id keeps some id.
  each_id :
      {A : Type 0} (m : Exec (World S O) A)
      → ((id : ℕ) → Stays (Quiet {S = S} {O = O} id t) m)
      → Keeps m
  each_id m h = record { from = λ w (id, q). (id, (h id).from w q) }

  marks : Keeps (on_status (running p))
  unfolding on_status
  marks = record {
    from = λ w (id, q).
        let (st, marked, held) = running_lem p id w.status q.held small in
        subst (λ r. Readable t (record w { status = r.1 })) (sym marked)
          (p, record { held = held; processes = q.processes });
  }

  hello_when-Keeps : (busy : Bool) → Keeps (hello_when S O target p busy)
  unfolding hello_when
  hello_when-Keeps true = Stays-lift _
  hello_when-Keeps false =
      Stays-bind (reply 200 (codes "Ready to go" ∷ [])) _ (each_id _ (λ id. reply-Quiet id t 200 _))
        (λ _. Stays-bind (on_status (running p)) _ marks (λ _. Stays-lift _))

  hello-Keeps : Keeps (hello S O target p)
  unfolding hello
  hello-Keeps =
      Stays-bind (on_status is_running) _ (each_id _ (λ id. asks-Quiet id t)) hello_when-Keeps

  refuse-Keeps : (again : Exec (World S O) Next) → Keeps again → Keeps (refuse S O again)
  refuse-Keeps again h =
      Stays-bind (reply 500 []) _ (each_id _ (λ id. reply-Quiet id t 500 [])) (λ _. h)

  listen_line-Keeps :
      (again : Exec (World S O) Next) (cmd : Option Text)
      → Keeps again
      → Keeps (listen_line S O target p again cmd)
  unfolding listen_line
  listen_line-Keeps again none h = refuse-Keeps again h
  listen_line-Keeps again (some cmd) h =
      Stays-if (text_eq cmd (codes "HELLO")) _ _ hello-Keeps (refuse-Keeps again h)

  on_line-Keeps :
      (f : Text → Exec (World S O) Next)
      → ((line : Text) → Keeps (f line))
      → Keeps (on_line S O target f)
  on_line-Keeps f h =
      Stays-bind (parse_common_opts S O target) (by_line S O target f)
        (each_id _ (λ id. parse_common_opts-Quiet id t target))
        (λ line.
          Stays-if (text_eq line (codes "ABORT")) _ _ (Stays-lift _)
            (Stays-if (text_eq line (codes "QUIT")) _ _ (Stays-lift _) (h line)))

  listen_loop-Keeps : (rounds : ℕ) → Keeps (listen_loop S O target p rounds)
  unfolding listen_loop
  listen_loop-Keeps zero = Stays-lift _
  listen_loop-Keeps (suc rounds) =
      on_line-Keeps _
        (λ line. listen_line-Keeps _ (match_not_spaces line) (listen_loop-Keeps rounds))

  pub listen-Readable : (cargo : Cargo) → Keeps (listen S O target p cargo)
  unfolding listen
  listen-Readable cargo = record { from = λ w q. (listen_loop-Keeps (suc w.writes)).from w q }
