-- ===== src/Daemon/Server/Aborts.antt =====
-- What ABORT does to the process that the status holds.
use ipbench.Prelude.{
  lt→ltb, ◌∙◌, ℕ, zero, suc, ◌<◌, ◌≡◌, ◌≢◌, refl, ◌⊎◌, inl, inr, true, false, ◌==◌, pos, is,
  Bool-cases, subst, sym, none, some, Option, ap, arith,
}
use ipbench.Python.Outcome.{Outcome, returned, raised, keyboard_interrupt}
use ipbench.Python.Exec.Stays.{Leads}
use ipbench.Daemon.TestStatus.{TestStatus, is_running, not_running}
use ipbench.Daemon.TestStatus.RoundTrip.{Holds}
use ipbench.Daemon.TestStatus.History.{is_running_lem, running_pid_lem, not_running_lem}
use ipbench.Daemon.Shunt.{Shunt}
use ipbench.Daemon.World.{Signal, sigint, sigkill, World, kill, on_status}
use ipbench.Daemon.World.Quiet.{Quiet}
use ipbench.Daemon.Common.{Cargo, Next, go_on}
use ipbench.Daemon.Finish.{abort}
use ipbench.Daemon.Processes.{
  Life, absent, runs, ended, update, live, signalled, Life-cases, update_same,
}
use ipbench.Daemon.Server.Effects.{Ends, reset-Ends}
use ipbench.Daemon.Server.Invariant.{ended-ne-runs}

pub absent-ne-runs : absent ≢ runs
absent-ne-runs e = cc

ended_fewer : (k : ℕ) (t : ℕ → Life) (j : ℕ) → update t k ended j ≡ runs → t j ≡ runs
ended_fewer k t j e = elim (Bool-cases (k == j)) [
  | inl same ↦ let e' : ended ≡ runs = rw same at e in cc
  | inr differ ↦ rw differ at e
]

ended_dead : (k : ℕ) (t : ℕ → Life) → update t k ended k ≢ runs
ended_dead k t e = let e' : ended ≡ runs = rw (update_same t k ended) at e in cc

module _ (k : ℕ) (t : ℕ → Life) (sig : Signal) where
  abbrev signal_at : Life → Option (ℕ → Life)
  signal_at l = elim l [ absent ↦ none | runs ↦ some (signalled sig k t) | ended ↦ some t ]

  signal_absent : t k ≡ absent → live.kill (pos k) sig t ≡ none
  signal_absent e = ap (signal_at) e

  signal_ended : t k ≡ ended → live.kill (pos k) sig t ≡ some t
  signal_ended e = ap (signal_at) e

  signal_runs : t k ≡ runs → live.kill (pos k) sig t ≡ some (signalled sig k t)
  signal_runs e = ap (signal_at) e

module _ {S : Shunt} where
  -- The process leaves; the status holds the same id or none; no process starts; and the process of
  -- the id does not run.
  pub record Aborted (k : ℕ) (t : ℕ → Life) (r : Outcome Next) (w : World S live) : Type 0 where
    pub ends : Ends r
    pub id : ℕ
    pub kept : (id ≡ k) ⊎ (id ≡ 0)
    pub held : Holds id w.status
    pub fewer : (j : ℕ) → w.processes j ≡ runs → t j ≡ runs
    pub dead : 0 < k → w.processes k ≢ runs

  module _ (p : ℕ) (c : Cargo) (w : World S live) where
    abort_idle : Holds 0 w.status → abort S live p c w ≡ (returned (go_on "RESET"), w)
    unfolding abort on_status
    abort_idle h = rw (is_running_lem 0 w.status h) refl

    module _ (k : ℕ) (h : Holds (suc k) w.status) where
      busy : is_running w.status ≡ (returned true, w.status)
      busy = rw (← lt→ltb 0 (suc k) (omega arith)) (is_running_lem (suc k) w.status h)

      abort_absent :
          (st : TestStatus)
          → w.processes (suc k) ≡ absent
          → not_running w.status ≡ (returned tt, st)
          → abort S live p c w ≡ (returned none, record w { status = st })
      unfolding abort on_status kill
      abort_absent st gone cleared =
          rw
            (
              busy,
              running_pid_lem (suc k) w.status h,
              signal_absent (suc k) w.processes sigint gone,
              cleared,
            )
            refl

      abort_self_ended :
          w.processes (suc k) ≡ ended
          → is (pos (suc k)) p ≡ true
          → abort S live p c w ≡ (raised keyboard_interrupt, w)
      unfolding abort on_status kill
      abort_self_ended gone self =
          rw
            (
              busy,
              running_pid_lem (suc k) w.status h,
              signal_ended (suc k) w.processes sigint gone,
              self,
            )
            refl

      abort_ended :
          w.processes (suc k) ≡ ended
          → is (pos (suc k)) p ≡ false
          → abort S live p c w ≡ (returned (go_on "RESET"), w)
      unfolding abort on_status kill
      abort_ended gone other =
          rw
            (
              busy,
              running_pid_lem (suc k) w.status h,
              signal_ended (suc k) w.processes sigint gone,
              other,
              signal_ended (suc k) w.processes sigkill gone,
            )
            refl

      abort_self :
          w.processes (suc k) ≡ runs
          → is (pos (suc k)) p ≡ true
          → abort S live p c w
            ≡ (raised keyboard_interrupt, record w { processes = update w.processes (suc k) ended })
      unfolding abort on_status kill
      abort_self alive self =
          rw
            (
              busy,
              running_pid_lem (suc k) w.status h,
              signal_runs (suc k) w.processes sigint alive,
              self,
            )
            refl

      abort_runs :
          w.processes (suc k) ≡ runs
          → is (pos (suc k)) p ≡ false
          → abort S live p c w
            ≡ (returned (go_on "RESET"), record w { processes = update w.processes (suc k) ended })
      unfolding abort on_status kill
      abort_runs alive other =
          let after = update w.processes (suc k) ended in
          rw
            (
              busy,
              running_pid_lem (suc k) w.status h,
              signal_runs (suc k) w.processes sigint alive,
              other,
              signal_ended (suc k) after sigkill (update_same w.processes (suc k) ended),
            )
            refl

  abort_lem :
      (p k : ℕ) (c : Cargo) (w : World S live)
      → Holds k w.status
      → Aborted k w.processes (abort S live p c w).0 (abort S live p c w).1
  abort_lem p zero c w h =
      subst (λ r. Aborted 0 w.processes r.0 r.1) (sym (abort_idle p c w h))
        (record {
          ends = reset-Ends;
          id = 0;
          kept = inl refl;
          held = h;
          fewer = λ j e. e;
          dead = λ lt. absurd (omega arith);
        })
  abort_lem p (suc k) c w h =
      let t = w.processes in
      let P : Outcome Next × World S live → Type 0 = λ r. Aborted (suc k) t r.0 r.1 in
      elim (Life-cases (t (suc k))) [
        | inl gone ↦
            let (st, cleared, h') = not_running_lem (suc k) w.status h in
            subst P (sym (abort_absent p c w k h st gone cleared)) (record {
              ends = tt;
              id = 0;
              kept = inr refl;
              held = h';
              fewer = λ j e. e;
              dead = λ lt e. absurd (absent-ne-runs (sym gone ∙ e));
            })
        | inr (inl alive) ↦ elim (Bool-cases (is (pos (suc k)) p)) [
          | inl self ↦ subst P (sym (abort_self p c w k h alive self)) (record {
            ends = tt;
            id = suc k;
            kept = inl refl;
            held = h;
            fewer = ended_fewer (suc k) t;
            dead = λ lt. ended_dead (suc k) t;
          })
          | inr other ↦ subst P (sym (abort_runs p c w k h alive other)) (record {
            ends = reset-Ends;
            id = suc k;
            kept = inl refl;
            held = h;
            fewer = ended_fewer (suc k) t;
            dead = λ lt. ended_dead (suc k) t;
          })
        ]
        | inr (inr gone) ↦ elim (Bool-cases (is (pos (suc k)) p)) [
          | inl self ↦ subst P (sym (abort_self_ended p c w k h gone self)) (record {
            ends = tt;
            id = suc k;
            kept = inl refl;
            held = h;
            fewer = λ j e. e;
            dead = λ lt e. absurd (ended-ne-runs (sym gone ∙ e));
          })
          | inr other ↦ subst P (sym (abort_ended p c w k h gone other)) (record {
            ends = reset-Ends;
            id = suc k;
            kept = inl refl;
            held = h;
            fewer = λ j e. e;
            dead = λ lt e. absurd (ended-ne-runs (sym gone ∙ e));
          })
        ]
      ]

  -- Whatever the status holds, ABORT ends its process or finds it gone, and the session ends.
  pub abort-Aborted :
      (p k : ℕ) (t : ℕ → Life) (c : Cargo) → Leads (Quiet k t) (abort S live p c) (Aborted k t)
  abort-Aborted p k t c = record {
    from = λ w q.
        subst (λ u. Aborted k u (abort S live p c w).0 (abort S live p c w).1) (q.processes)
          (abort_lem p k c w q.held);
  }
