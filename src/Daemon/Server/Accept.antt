-- ===== src/Daemon/Server/Accept.antt =====
-- A new connection keeps what holds of the server.
use ipbench.Prelude.{◌∙◌, ℕ, zero, suc, ◌≡◌, ◌≢◌, refl, sym, subst, Bool, List, ◌++◌, arith}
use ipbench.Python.Text.{Bytes, codes}
use ipbench.Python.Codec.{encode}
use ipbench.Python.Number.{decimal}
use ipbench.Python.Outcome.{Outcome, returned, raised, stalled}
use ipbench.Python.Exec.{Exec, ◌>>◌, pure}
use ipbench.Python.Exec.Stays.{Stays, Stays-lift, Stays-if, Stays-bind}
use ipbench.Daemon.Status.{str_status}
use ipbench.Daemon.Shunt.{Shunt}
use ipbench.Daemon.World.{World, reply, on_shunt}
use ipbench.Daemon.World.Quiet.{Quiet}
use ipbench.Daemon.Common.{one}
use ipbench.Daemon.Handle.{greet}
use ipbench.Daemon.Processes.{Life, runs, live, update, update_other}
use ipbench.Daemon.Server.{
  listen, over, leave, with_world, Server, Wrapper, construct, opened, accept,
}
use ipbench.Daemon.Server.Invariant.{Opens, Running, Inv}
use ipbench.Daemon.Server.Follow.{Others, stays_in, leaves_from}

module _ {S : Shunt} (k : ℕ) (t : ℕ → Life) (lines : List Bytes) where
  -- The status, the process table and the lines of the connection are as they were.
  pub record Waits (w : World S live) : Type 0 where
    pub quiet : Quiet k t w
    pub input : w.input ≡ lines

  on_shunt-Waits : {A : Type 0} (m : Exec S.State A) → Stays Waits (on_shunt {O = live} m)
  unfolding on_shunt
  on_shunt-Waits m = record {
    from = λ w q. record {
      quiet = record { held = q.quiet.held; processes = q.quiet.processes };
      input = q.input;
    };
  }

  construct-Waits : (m : Wrapper S) (debug : Bool) → Stays Waits (construct m debug)
  unfolding construct
  construct-Waits m debug =
      Stays-bind (on_shunt m.import_module) _ (on_shunt-Waits m.import_module) (λ _.
        Stays-if debug (on_shunt m.enable_debug) (pure tt) (on_shunt-Waits m.enable_debug)
          (Stays-lift (returned tt)))

  -- The greeting returns, also where the socket takes none.
  greet_lem :
      (p writes : ℕ) (w : World S live)
      → (out : Bytes) × (left : ℕ) × (greet S live p (record w { writes = writes })
          ≡ (returned tt, record w { output = out; writes = left }))
  unfolding greet reply str_status decimal encode
  greet_lem p zero w = (w.output, 0, refl)
  greet_lem p (suc n) w = (w.output ++ codes "100 IPBENCH V1.0\n", n, refl)

  greet-Waits : (p : ℕ) → Stays Waits (greet S live p)
  greet-Waits p = record {
    from = λ w q.
        let (out, left, e) = greet_lem p w.writes w in
        subst (λ (r : Outcome (Unit {0}) × World S live). Waits r.1) (sym e)
          (record {
            quiet = record { held = q.quiet.held; processes = q.quiet.processes };
            input = q.input;
          });
  }

  pub open-Waits :
      (m : Wrapper S) (debug : Bool) (p : ℕ) → Stays Waits (greet S live p >> construct m debug)
  open-Waits m debug p =
      Stays-bind (greet S live p) _ (greet-Waits p) (λ _. construct-Waits m debug)

module _ {S : Shunt} (m : Wrapper S) (debug : Bool) (n k : ℕ) (s : Server S) (lines : List Bytes)
    (before : Inv n k s) where
  -- The server with the new process, before the process does anything.
  abbrev begun : Server S
  begun = record s { lives = update s.lives s.fresh runs; fresh = suc s.fresh }

  others_before : (j : ℕ) → j ≢ s.fresh → begun.lives j ≡ runs → Running k begun j
  others_before j ne alive =
      let e = update_other s.lives s.fresh j runs (λ x. ne (sym x)) in
      let h = before.processes j (sym e ∙ alive) in
      let below = h.below in
      record { positive = h.positive; below = omega (arith, below); ready = h.ready; owns = h.owns }

  opened-Inv :
      (r : Outcome (Unit {0})) (w : World S live)
      → Opens lines
      → Waits k begun.lives lines w
      → Inv (suc n) k (opened m debug r begun s.fresh w)
  opened-Inv r w first q =
      let started = before.started in
      let room = before.room in
      let fewer : (j : ℕ) → j ≢ s.fresh → w.processes j ≡ runs → begun.lives j ≡ runs =
        λ j ne e. subst (λ (t : ℕ → Life). t j ≡ runs) q.quiet.processes e in
      let others : Others k begun s.fresh w.processes =
        λ j ne e own. (others_before j ne (fewer j ne e)).owns own in
      let leaves : Inv (suc n) k (leave S s.fresh (with_world S begun s.fresh w over)) =
        leaves_from (suc n) k k begun s.fresh w started (omega arith) (omega (arith, room))
          others_before before.known q.quiet.held fewer others in
      elim r as (λ r. Inv (suc n) k (opened m debug r begun s.fresh w)) [
        | returned u ↦
            stays_in (suc n) k k begun s.fresh w started (omega arith) (omega (arith, room))
              others_before before.known q.quiet.held fewer others (listen one)
              (subst Opens (sym q.input) first) (λ alive own. absurd cc)
        | raised e ↦ leaves
        | stalled ↦ leaves
      ]

  -- A connection that begins with HELLO or ABORT.
  pub accept-Inv : (writes : ℕ) → Opens lines → Inv (suc n) k (accept m debug lines writes s)
  unfolding accept
  accept-Inv writes first = opened-Inv _ _ first (
      (open-Waits k begun.lives lines m debug s.fresh).from _
        (record { quiet = record { held = before.held; processes = refl }; input = refl }))
