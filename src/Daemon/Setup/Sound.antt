-- ===== src/Daemon/Setup/Sound.antt =====
-- The state SETUP keeps the invariant of the daemon's states, and ends.
use ipbench.Prelude.{
  ℕ, zero, suc, ◌<◌, ◌≡◌, refl, Bool, true, false, Option, none, some, List, [], ◌∷◌, inr, arith, ℤ,
}
use ipbench.Python.Text.{split_pair, Text, codes, text_eq, upper}
use ipbench.Python.Outcome.{and_then_ended, stalled, or_raise, unbound_local}
use ipbench.Python.Number.{int}
use ipbench.Python.Exec.{Exec, pure, lift, ◌>>=◌}
use ipbench.Python.Exec.Ensures.{Ensures, Ensures-pure, Ensures-if, Ensures-lift}
use ipbench.Daemon.TestStatus.RoundTrip.{Holds}
use ipbench.Daemon.Shunt.{Shunt}
use ipbench.Daemon.World.{Os, World, reply, on_shunt}
use ipbench.Daemon.World.Keeps.{Has, reply-Ensures}
use ipbench.Daemon.Common.{Cargo, Next, go_on}
use ipbench.Daemon.Common.Keeps.{
  Untouched, after_write, refuse-Ensures, on_line-Ensures, try_plugin-Ensures,
}
use ipbench.Daemon.Invariant.{Inv, HandsOn, Answers}
use ipbench.Daemon.Commands.{
  unassigned, SetupArgs, assign_port, assign, assign_parts, assign_all, setup_args, match_load,
  match_setup,
}
use ipbench.Daemon.Setup.{
  call_setup, finish_setup, configure_line, configure_loop, configure, load_line, setup_loop, setup,
}

assign_port_ended : (o : Option ℤ) (a : SetupArgs) → assign_port o a ≡ stalled → ⊥
assign_port_ended none a e = cc
assign_port_ended (some p) a e = cc

assign_ended : (subcmd val : Text) (a : SetupArgs) → assign subcmd val a ≡ stalled → ⊥
unfolding assign
assign_ended subcmd val a e = ground (arith, assign_port_ended (int val) a)

assign_parts_ended : (parts : List Text) (a : SetupArgs) → assign_parts parts a ≡ stalled → ⊥
unfolding assign_parts
assign_parts_ended (subcmd ∷ val ∷ []) a e = assign_ended subcmd val a e
assign_parts_ended _ a e = cc

assign_all_ended : (parts : List Text) (a : SetupArgs) → assign_all parts a ≡ stalled → ⊥
unfolding assign_all
assign_all_ended [] a e = cc
assign_all_ended (arg ∷ rest) a e =
    and_then_ended (assign_parts (split_pair b':' arg) a) (assign_all rest)
      (assign_parts_ended (split_pair b':' arg) a) (assign_all_ended rest) e

setup_args_ended : (arglist : Text) → setup_args arglist ≡ stalled → ⊥
unfolding setup_args
setup_args_ended arglist e = assign_all_ended (split_pair b'|' arglist) unassigned e

module _ {S : Shunt} {O : Os} {A B : Type 0} where
  bound-Untouched :
      (o : Option A) (f : A → Exec (World S O) B)
      → ((a : A) → Untouched (f a))
      → Untouched (lift (or_raise unbound_local o) >>= f)
  bound-Untouched none f h = record { status = λ w. refl; writes = λ w. refl; ended = λ w e. cc }
  bound-Untouched (some a) f h = h a

module _ {S : Shunt} {O : Os} (answers : Answers S) where
  load_plugin-Untouched : (name : Text) → Untouched {S = S} {O = O} (on_shunt (S.load_plugin name))
  unfolding on_shunt
  load_plugin-Untouched name = record {
    status = λ w. refl;
    writes = λ w. refl;
    ended = λ w. answers.load_plugin name w.shunt;
  }

  call_setup-Untouched :
      (target : Bool) (a : SetupArgs) → Untouched {S = S} {O = O} (call_setup S O target a)
  unfolding call_setup on_shunt
  call_setup-Untouched true a = bound-Untouched a.test_args _ (λ args. record {
    status = λ w. refl;
    writes = λ w. refl;
    ended = λ w. answers.setup_target args w.shunt;
  })
  call_setup-Untouched false a = bound-Untouched a.test_target _ (λ host.
      bound-Untouched a.test_port _ (λ port. bound-Untouched a.test_args _ (λ args. record {
        status = λ w. refl;
        writes = λ w. refl;
        ended = λ w. answers.setup_client host port args w.shunt;
      })))

module _ (S : Shunt) (O : Os) (answers : Answers S) (target : Bool) (pid q : ℕ)
    (none_ran : q ≡ 0) where
  finish_setup-Ensures :
      (k : ℕ) (cmd : Text) (a : SetupArgs)
      → Ensures {S = World S O}
          (Has (Holds pid) k)
          (finish_setup S O target cmd a)
          (HandsOn q pid 4)
  unfolding finish_setup upper
  finish_setup-Ensures k cmd a =
      let accepted =
        after_write (Holds pid) k {R = HandsOn q pid 4} (reply 200 []) (pure (go_on "RUN"))
          (reply-Ensures (Holds pid) k 200 [])
          (Ensures-pure _ (λ w p. ((none_ran, p.0), omega arith))) in
      Ensures-if (text_eq cmd (codes "SETUP")) _ _
        (λ _.
          try_plugin-Ensures (Holds pid) k (call_setup S O target a) _
            (call_setup-Untouched answers target a) (λ _. accepted)
            (λ detail w p. ((pid, p.0), omega arith)))
        (λ _. accepted)

  configure_line-Ensures :
      (k : ℕ) (again : Exec (World S O) Next) (m : Option (Text × Text))
      → ((j : ℕ) → j < k → Ensures {S = World S O} (Has (Holds pid) j) again (HandsOn q pid 4))
      → Ensures (Has (Holds pid) k) (configure_line S O target again m) (HandsOn q pid 4)
  unfolding configure_line
  configure_line-Ensures k again none ih = refuse-Ensures (Holds pid) k again ih
  configure_line-Ensures k again (some (cmd, arglist)) ih =
      Ensures-lift (setup_args arglist) _ (setup_args_ended arglist)
        (λ a e. finish_setup-Ensures k cmd a)

  configure_loop-Ensures :
      (rounds k : ℕ)
      → k < rounds
      → Ensures {S = World S O}
          (Has (Holds pid) k)
          (configure_loop S O target rounds)
          (HandsOn q pid 4)
  unfolding configure_loop upper
  configure_loop-Ensures zero k h = absurd (omega arith)
  configure_loop-Ensures (suc rounds) k h =
      after_write (Holds pid) k _ _ (reply-Ensures (Holds pid) k 200 []) (
        on_line-Ensures S O target pid k _ (λ w p. (inr (none_ran, p.0), omega arith))
          (λ w p. ((pid, p.0), omega arith))
          (λ line.
            configure_line-Ensures k (configure_loop S O target rounds) (match_setup line)
              (λ j lt. configure_loop-Ensures rounds j (omega arith))))

  configure-Ensures :
      (k : ℕ) → Ensures {S = World S O} (Has (Holds pid) k) (configure S O target) (HandsOn q pid 4)
  unfolding configure
  configure-Ensures k = record {
    from = λ w h.
        (configure_loop-Ensures (suc w.writes) w.writes (omega arith)).from w (h.0, omega arith);
  }

  load_line-Ensures :
      (k : ℕ) (again : Exec (World S O) Next) (m : Option (Text × Text))
      → ((j : ℕ) → j < k → Ensures {S = World S O} (Has (Holds pid) j) again (HandsOn q pid 4))
      → Ensures (Has (Holds pid) k) (load_line S O target again m) (HandsOn q pid 4)
  unfolding load_line upper
  load_line-Ensures k again none ih = refuse-Ensures (Holds pid) k again ih
  load_line-Ensures k again (some (cmd, arg)) ih =
      Ensures-if (text_eq cmd (codes "LOAD")) _ _
        (λ _.
          try_plugin-Ensures (Holds pid) k (on_shunt (S.load_plugin arg)) _
            (load_plugin-Untouched answers arg) (λ _. configure-Ensures k)
            (λ detail w p. ((pid, p.0), omega arith)))
        (λ _. refuse-Ensures (Holds pid) k again ih)

  setup_loop-Ensures :
      (rounds k : ℕ)
      → k < rounds
      → Ensures {S = World S O} (Has (Holds pid) k) (setup_loop S O target rounds) (HandsOn q pid 4)
  unfolding setup_loop upper
  setup_loop-Ensures zero k h = absurd (omega arith)
  setup_loop-Ensures (suc rounds) k h =
      on_line-Ensures S O target pid k _ (λ w p. (inr (none_ran, p.0), omega arith))
        (λ w p. ((pid, p.0), omega arith))
        (λ line.
          load_line-Ensures k (setup_loop S O target rounds) (match_load line)
            (λ j lt. setup_loop-Ensures rounds j (omega arith)))

pub setup-Sound :
    (S : Shunt) (O : Os) (answers : Answers S) (target : Bool) (pid q : ℕ) (cargo : Cargo)
    → Ensures {S = World S O}
        (Inv q pid (codes "SETUP") cargo)
        (setup S O target cargo)
        (HandsOn q pid 4)
unfolding setup
setup-Sound S O answers target pid q cargo = record {
  from = λ w h.
      (setup_loop-Ensures S O answers target pid q h.0 (suc w.writes) w.writes (omega arith)).from w
        (h.1, omega arith);
}
