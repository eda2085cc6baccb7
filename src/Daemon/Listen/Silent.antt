-- ===== src/Daemon/Listen/Silent.antt =====
-- LISTEN on a connection that sends nothing: the replies go on until the socket takes none.
use ipbench.Prelude.{ℕ, zero, suc, ◌≡◌, refl, Bool, []}
use ipbench.Python.Text.{Bytes, strip}
use ipbench.Python.Number.{decimal}
use ipbench.Python.Codec.{encode}
use ipbench.Python.Outcome.{Outcome, returned, raised, stalled}
use ipbench.Daemon.Status.{str_status}
use ipbench.Daemon.Shunt.{Shunt}
use ipbench.Daemon.World.{Os, World, reply, readline}
use ipbench.Daemon.Commands.{match_any, match_not_spaces}
use ipbench.Daemon.Common.{Cargo, Next, parse_common_opts}
use ipbench.Daemon.Listen.{listen_line, listen_loop, listen}

-- No value is returned.
abbrev pub Fails : Outcome Next → Type 0
Fails (returned a) = ⊥
Fails (raised e) = Unit
Fails stalled = Unit

module _ {S : Shunt} {O : Os} where
  -- Nothing comes of the state, and the status and the processes are as they were.
  pub record Silent (w : World S O) (r : Outcome Next) (w' : World S O) : Type 0 where
    pub fails : Fails r
    pub status : w'.status ≡ w.status
    pub processes : w'.processes ≡ w.processes

  module _ (target : Bool) (pid : ℕ) where
    listen_loop-Silent :
        (rounds writes : ℕ) (w : World S O) (out : Bytes)
        → let r =
            listen_loop S O target pid rounds
              (record w { input = []; output = out; writes = writes }) in
          Silent w r.0 r.1
    unfolding listen_loop listen_line parse_common_opts reply str_status readline match_any
        match_not_spaces strip decimal encode
    listen_loop-Silent zero writes w out = record { fails = tt; status = refl; processes = refl }
    listen_loop-Silent (suc rounds) zero w out = record {
      fails = tt;
      status = refl;
      processes = refl;
    }
    listen_loop-Silent (suc rounds) (suc n) w out = listen_loop-Silent rounds n w _

    pub listen-Silent :
        (c : Cargo) (w : World S O)
        → let r = listen S O target pid c (record w { input = [] }) in Silent w r.0 r.1
    unfolding listen
    listen-Silent c w = listen_loop-Silent (suc w.writes) w.writes w w.output
