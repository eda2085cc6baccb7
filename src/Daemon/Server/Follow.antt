-- ===== src/Daemon/Server/Follow.antt =====
-- What a handler's result, and what it left, have to meet for the server to stay in order.
use ipbench.Prelude.{
  ℕ, ◌<◌, ◌≤◌, ◌≡◌, ◌≢◌, sym, subst, inl, inr, true, ◌==◌, Bool-cases, ==_iff, none, some, arith,
}
use ipbench.Python.Text.{upper}
use ipbench.Python.Outcome.{Outcome, returned, raised, stalled}
use ipbench.Daemon.TestStatus.RoundTrip.{Holds}
use ipbench.Daemon.Shunt.{Shunt}
use ipbench.Daemon.World.{World}
use ipbench.Daemon.Common.{Next}
use ipbench.Daemon.Processes.{runs, Life, live, update_same, update_other}
use ipbench.Daemon.Server.{
  Stage, listen, setup, run, marshall, error, abort, over, unknown, stage_of, Session, Server,
  with_world, session_of, leave, follow, enter_stage,
}
use ipbench.Daemon.Server.Invariant.{owning, Ready, Running, Inv, ended-ne-runs, over-ne-unknown}

module _ {S : Shunt} where
  -- What a result has to meet with which the process goes on.
  abbrev pub Goes : ℕ → ℕ → Outcome Next → World S live → Type 0
  Goes id p (returned none) w = Unit
  Goes id p (returned (some (name, cargo))) w =
      Ready (stage_of (upper name) cargo) w.input
      × (w.processes p ≡ runs → owning (stage_of (upper name) cargo) ≡ true → id ≡ p)
  Goes id p (raised e) w = Unit
  Goes id p stalled w = Unit

  -- The other processes of a table that have the test are the one whose id the status holds.
  abbrev pub Others : ℕ → Server S → ℕ → (ℕ → Life) → Type 0
  Others id s p t = (j : ℕ) → j ≢ p → t j ≡ runs → owning (s.sessions j).stage ≡ true → id ≡ j

  -- What a handler's result and what it left have to meet.
  pub record Follows (id : ℕ) (s : Server S) (p : ℕ) (r : Outcome Next) (w : World S live)
      : Type 0 where
    pub held : Holds id w.status
    pub fewer : (j : ℕ) → w.processes j ≡ runs → s.lives j ≡ runs
    pub others : Others id s p w.processes
    pub mine : Goes id p r w

  module _ (n id k : ℕ) (s : Server S) (p : ℕ) (w : World S live) (positive : 0 < p)
      (below : p < s.fresh) (room : s.fresh ≤ n)
      (before : (j : ℕ) → j ≢ p → s.lives j ≡ runs → Running k s j)
      (known : (j : ℕ) → (s.sessions j).stage ≢ unknown) where
    -- The stages, after the process went to one that is known.
    with_world-known :
        (stage : Stage)
        → stage ≢ unknown
        → (j : ℕ) → ((with_world S s p w stage).sessions j).stage ≢ unknown
    with_world-known stage fine j e = elim (Bool-cases (p == j)) [
      | inl same ↦ fine (rw same at e)
      | inr differ ↦ known j (rw differ at e)
    ]

    -- The other processes.
    other_runs :
        (stage : Stage) (j : ℕ)
        → j ≢ p
        → s.lives j ≡ runs
        → (owning (s.sessions j).stage ≡ true → id ≡ j)
        → Running id (with_world S s p w stage) j
    other_runs stage j ne alive own =
        let e = update_other s.sessions p j (session_of S w stage) (λ x. ne (sym x)) in
        let h = before j ne alive in
        record {
          positive = h.positive;
          below = h.below;
          ready = subst (λ (x : Session S). Ready x.stage x.input) (sym e) h.ready;
          owns = subst (λ (x : Session S). owning x.stage ≡ true → id ≡ j) (sym e) own;
        }

    -- The process itself.
    self_runs :
        (stage : Stage)
        → Ready stage w.input
        → (owning stage ≡ true → id ≡ p)
        → Running id (with_world S s p w stage) p
    self_runs stage ready own =
        let e = update_same s.sessions p (session_of S w stage) in
        record {
          positive = positive;
          below = below;
          ready = subst (λ (x : Session S). Ready x.stage x.input) (sym e) ready;
          owns = subst (λ (x : Session S). owning x.stage ≡ true → id ≡ p) (sym e) own;
        }

    module _ (held : Holds id w.status)
        (fewer : (j : ℕ) → j ≢ p → w.processes j ≡ runs → s.lives j ≡ runs)
        (others : Others id s p w.processes) where
      -- The process goes on with a stage.
      pub stays_in :
          (stage : Stage)
          → Ready stage w.input
          → (w.processes p ≡ runs → owning stage ≡ true → id ≡ p)
          → Inv n id (with_world S s p w stage)
      stays_in stage ready own = record {
        held = held;
        started = omega arith;
        room = room;
        processes = λ j alive. elim (Bool-cases (j == p)) [
          | inl same ↦
              let e = (==_iff j p).0 same in
              subst (λ x. Running id (with_world S s p w stage) x) (sym e)
                (self_runs stage ready (own (subst (λ x. w.processes x ≡ runs) e alive)))
          | inr differ ↦
              let ne : j ≢ p = ground arith in
              other_runs stage j ne (fewer j ne alive) (others j ne alive)
        ];
        known = with_world-known stage (λ e. subst (λ st. Ready st w.input) e ready);
      }

      -- The process ends.
      pub leaves_from : Inv n id (leave S p (with_world S s p w over))
      leaves_from = record {
        held = held;
        started = omega arith;
        room = room;
        processes = λ j alive. elim (Bool-cases (p == j)) [
          | inl same ↦ absurd (ended-ne-runs (rw same at alive))
          | inr differ ↦
              let ne : j ≢ p = ground arith in
              let alive' : w.processes j ≡ runs = rw differ at alive in
              let h = other_runs over j ne (fewer j ne alive') (others j ne alive') in
              record { positive = h.positive; below = h.below; ready = h.ready; owns = h.owns }
        ];
        known = with_world-known over (λ e. over-ne-unknown e);
      }

      enter_stage-Inv :
          (stage : Stage)
          → Ready stage w.input
          → (w.processes p ≡ runs → owning stage ≡ true → id ≡ p)
          → Inv n id (enter_stage S stage p (with_world S s p w stage))
      enter_stage-Inv over ready own = leaves_from
      enter_stage-Inv unknown ready own = absurd ready
      enter_stage-Inv (listen c) ready own = stays_in (listen c) ready own
      enter_stage-Inv (setup c) ready own = stays_in (setup c) ready own
      enter_stage-Inv (run c) ready own = stays_in (run c) ready own
      enter_stage-Inv (marshall c) ready own = stays_in (marshall c) ready own
      enter_stage-Inv (error c) ready own = stays_in (error c) ready own
      enter_stage-Inv (abort c) ready own = stays_in (abort c) ready own

      goes-Inv : (r : Outcome Next) → Goes id p r w → Inv n id (follow S r s p w)
      goes-Inv (returned none) g = leaves_from
      goes-Inv (returned (some (name, cargo))) g =
          enter_stage-Inv (stage_of (upper name) cargo) g.0 g.1
      goes-Inv (raised e) g = leaves_from
      goes-Inv stalled g = leaves_from

    -- A turn keeps the invariant, for the id that it leaves.
    pub follow-Inv : (r : Outcome Next) → Follows id s p r w → Inv n id (follow S r s p w)
    follow-Inv r f = goes-Inv f.held (λ j ne. f.fewer j) f.others r f.mine
