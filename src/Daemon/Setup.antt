-- ===== src/Daemon/Setup.antt =====
-- The state SETUP: the method `setup` of `IpbenchClient` in ipbench2/src/ipbenchd.py.
pub mod Quiet
pub mod Sound
use ipbench.Prelude.{ℕ, zero, suc, Bool, true, false, Option, none, some, [], if◌then◌else◌}
use ipbench.Python.Text.{Text, codes, text_eq}
use ipbench.Python.Outcome.{stalled, unbound_local, or_raise}
use ipbench.Python.Exec.{Exec, pure, lift, ◌>>=◌, ◌>>◌}
use ipbench.Daemon.Shunt.{Shunt}
use ipbench.Daemon.World.{Os, World, reply, on_shunt}
use ipbench.Daemon.Commands.{match_load, match_setup, SetupArgs, setup_args}
use ipbench.Daemon.Common.{Cargo, Next, go_on, on_line, refuse, try_plugin}

module _ (S : Shunt) (O : Os) where
  -- SHUNT.setup: a variable that was not assigned is an UnboundLocalError.
  unfoldable pub call_setup : Bool → SetupArgs → Exec (World S O) (Unit {0})
  call_setup true a = do
    args ← lift (or_raise unbound_local a.test_args)
    on_shunt (S.setup_target args)
  call_setup false a = do
    host ← lift (or_raise unbound_local a.test_target)
    port ← lift (or_raise unbound_local a.test_port)
    args ← lift (or_raise unbound_local a.test_args)
    on_shunt (S.setup_client host port args)

module _ (S : Shunt) (O : Os) (target : Bool) where
  abbrev W : Type 0
  W = World S O

  -- After the arguments: only SETUP calls the plugin, any command goes on to RUN.
  finish_setup : Text → SetupArgs → Exec W Next
  finish_setup cmd a =
      let accepted : Exec W Next = reply 200 [] >> pure (go_on "RUN") in
      if text_eq cmd (codes "SETUP")
      then try_plugin S O (call_setup S O target a) (λ _. accepted)
      else accepted

  configure_line : Exec W Next → Option (Text × Text) → Exec W Next
  configure_line again none = refuse S O again
  configure_line again (some (cmd, arglist)) = do a ← lift (setup_args arglist); finish_setup cmd a

  -- The inner loop, behind a plugin that was loaded.
  configure_loop : ℕ → Exec W Next
  configure_loop zero = lift stalled
  configure_loop (suc rounds) =
      let again = configure_loop rounds in
      reply 200 [] >> on_line S O target (λ line_in. configure_line again (match_setup line_in))

  configure : Exec W Next
  configure w = configure_loop (suc w.writes) w

  load_line : Exec W Next → Option (Text × Text) → Exec W Next
  load_line again none = refuse S O again
  load_line again (some (cmd, arg)) =
      if text_eq cmd (codes "LOAD")
      then try_plugin S O (on_shunt (S.load_plugin arg)) (λ _. configure)
      else refuse S O again

  setup_loop : ℕ → Exec W Next
  setup_loop zero = lift stalled
  setup_loop (suc rounds) =
      let again = setup_loop rounds in
      on_line S O target (λ line_in. load_line again (match_load line_in))

  unfoldable pub setup : Cargo → Exec W Next
  unfolding setup_loop load_line configure configure_loop configure_line finish_setup call_setup
  setup val w = setup_loop (suc w.writes) w
