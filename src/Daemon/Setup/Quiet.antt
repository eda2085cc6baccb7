-- ===== src/Daemon/Setup/Quiet.antt =====
-- The state SETUP leaves the status and the process table as they were.
use ipbench.Prelude.{ℕ, zero, suc, Option, none, some, []}
use ipbench.Python.Text.{Text, codes, text_eq}
use ipbench.Python.Outcome.{or_raise, unbound_local}
use ipbench.Python.Exec.{Exec, lift}
use ipbench.Python.Exec.Stays.{Stays-lift, Stays-if, Stays-bind}
use ipbench.Daemon.Shunt.{Shunt}
use ipbench.Daemon.World.{Os, World, on_shunt, reply}
use ipbench.Daemon.World.Quiet.{on_shunt-Quiet, reply-Quiet, then-Quiet}
use ipbench.Daemon.Commands.{match_load, match_setup, SetupArgs, setup_args}
use ipbench.Daemon.Common.{Cargo, Next}
use ipbench.Daemon.Common.Quiet.{Stay, try_plugin-Quiet, refuse-Quiet, on_line-Quiet}
use ipbench.Daemon.Setup.{
  false, call_setup, finish_setup, configure_line, configure_loop, configure, load_line, setup_loop,
  setup,
}

module _ {S : Shunt} {O : Os} (k : ℕ) (t : O.Table) where
  call_setup-Quiet : (a : SetupArgs) → Stay {S = S} {O = O} k t (call_setup S O false a)
  unfolding call_setup
  call_setup-Quiet a =
      Stays-bind (lift (or_raise unbound_local a.test_target)) _ (Stays-lift _) (λ host.
        Stays-bind (lift (or_raise unbound_local a.test_port)) _ (Stays-lift _) (λ port.
          Stays-bind (lift (or_raise unbound_local a.test_args)) _ (Stays-lift _)
            (λ args. on_shunt-Quiet k t (S.setup_client host port args))))

  finish_setup-Quiet :
      (cmd : Text) (a : SetupArgs) → Stay {S = S} {O = O} k t (finish_setup S O false cmd a)
  unfolding finish_setup
  finish_setup-Quiet cmd a =
      let accepted = then-Quiet k t (reply 200 []) _ (reply-Quiet k t 200 []) (Stays-lift _) in
      Stays-if (text_eq cmd (codes "SETUP")) _ _
        (try_plugin-Quiet k t (call_setup S O false a) _ (call_setup-Quiet a) (λ _. accepted))
        accepted

  configure_line-Quiet :
      (again : Exec (World S O) Next) (found : Option (Text × Text))
      → Stay k t again
      → Stay {S = S} {O = O} k t (configure_line S O false again found)
  unfolding configure_line
  configure_line-Quiet again none h = refuse-Quiet k t again h
  configure_line-Quiet again (some (cmd, arglist)) h =
      Stays-bind (lift (setup_args arglist)) _ (Stays-lift _) (λ a. finish_setup-Quiet cmd a)

  configure_loop-Quiet : (rounds : ℕ) → Stay {S = S} {O = O} k t (configure_loop S O false rounds)
  unfolding configure_loop
  configure_loop-Quiet zero = Stays-lift _
  configure_loop-Quiet (suc rounds) = then-Quiet k t (reply 200 []) _ (reply-Quiet k t 200 []) (
      on_line-Quiet k t false _
        (λ line. configure_line-Quiet _ (match_setup line) (configure_loop-Quiet rounds)))

  load_line-Quiet :
      (again : Exec (World S O) Next) (found : Option (Text × Text))
      → Stay k t again
      → Stay {S = S} {O = O} k t (load_line S O false again found)
  unfolding load_line configure
  load_line-Quiet again none h = refuse-Quiet k t again h
  load_line-Quiet again (some (cmd, arg)) h =
      Stays-if (text_eq cmd (codes "LOAD")) _ _
        (try_plugin-Quiet k t (on_shunt (S.load_plugin arg)) _
          (on_shunt-Quiet k t (S.load_plugin arg))
          (λ _. record { from = λ w q. (configure_loop-Quiet (suc w.writes)).from w q }))
        (refuse-Quiet k t again h)

  setup_loop-Quiet : (rounds : ℕ) → Stay {S = S} {O = O} k t (setup_loop S O false rounds)
  unfolding setup_loop
  setup_loop-Quiet zero = Stays-lift _
  setup_loop-Quiet (suc rounds) =
      on_line-Quiet k t false _
        (λ line. load_line-Quiet _ (match_load line) (setup_loop-Quiet rounds))

  pub setup-Quiet : (cargo : Cargo) → Stay {S = S} {O = O} k t (setup S O false cargo)
  unfolding setup
  setup-Quiet cargo = record { from = λ w q. (setup_loop-Quiet (suc w.writes)).from w q }
