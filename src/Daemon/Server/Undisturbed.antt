-- ===== src/Daemon/Server/Undisturbed.antt =====
-- What the other processes of a server do to the one that has the test.
use ipbench.Prelude.{
  ap, ℕ, suc, ◌+◌, ◌≤◌, ◌^◌, ◌≡◌, ◌≢◌, refl, sym, subst, ◌∙◌, inl, inr, Bool, List, length, All,
  arith,
}
use ipbench.Python.Text.{Bytes}
use ipbench.Daemon.TestStatus.RoundTrip.{Holds}
use ipbench.Daemon.Shunt.{Shunt}
use ipbench.Daemon.Common.{Cargo}
use ipbench.Daemon.Invariant.{Answers}
use ipbench.Daemon.Processes.{absent, runs, update, Life-cases, update_other}
use ipbench.Daemon.Server.{
  abort, Server, Wrapper, Event, accepts, goes_on, waited_for, accept, reap, happen, serve,
}
use ipbench.Daemon.Server.Invariant.{ended-ne-runs, Inv}
use ipbench.Daemon.Server.Accept.{open-Waits}
use ipbench.Daemon.Server.Exclusion.{Begins, HasTest, Idle, reached-Inv}
use ipbench.Daemon.Server.Bystander.{Undisturbed, opened-Keeps, turn-Keeps}

module _ {S : Shunt} where
  -- The event is no turn of `p`, and no turn in which another process aborts.
  abbrev pub Spares : Server S → ℕ → Event → Type 0
  Spares s p (accepts lines writes) = Unit
  Spares s p (goes_on q) = (q ≢ p) × ((c : Cargo) → (s.sessions q).stage ≢ abort c)
  Spares s p (waited_for q) = Unit

module _ {S : Shunt} (m : Wrapper S) (debug : Bool) (s : Server S) (p : ℕ) (has : HasTest s p) where
  accept-Keeps :
      (n : ℕ) (lines : List Bytes) (writes : ℕ)
      → Inv n p s
      → Undisturbed s p (accept m debug lines writes s)
  unfolding accept
  accept-Keeps n lines writes before =
      let below = (before.processes p has.0).below in
      let ne : s.fresh ≢ p = λ e. absurd (omega (arith, below, e)) in
      let begun : Server S = record s {
        lives = update s.lives s.fresh runs;
        fresh = suc s.fresh;
      } in
      let has' : HasTest begun p = (update_other s.lives s.fresh p runs ne ∙ has.0, has.1) in
      opened-Keeps begun p s.fresh ne has' m debug _ _
        ((open-Waits p begun.lives lines m debug s.fresh).from _
          (record { quiet = record { held = before.held; processes = refl }; input = refl })).quiet

  reap-Keeps : (q : ℕ) → Holds p s.status → Undisturbed s p (reap m debug q s)
  reap-Keeps q held = elim (Life-cases (s.lives q)) [
    | inl e ↦ rw (e, reap) (refl, has.0, held)
    | inr (inl e) ↦ rw (e, reap) (refl, has.0, held)
    | inr (inr e) ↦
        let ne : q ≢ p = λ same. ended-ne-runs (sym e ∙ ap s.lives same ∙ has.0) in
        rw (e, reap) (refl, update_other s.lives q p absent ne ∙ has.0, held)
  ]

  pub happen-Keeps :
      (n : ℕ) (e : Event)
      → Inv n p s
      → n ≤ 10 ^ 19
      → Spares s p e
      → Undisturbed s p (happen m debug e s)
  happen-Keeps n (accepts lines writes) before room spares = accept-Keeps n lines writes before
  happen-Keeps n (goes_on q) before room (ne, tame) = turn-Keeps s p q ne has n before room tame
  happen-Keeps n (waited_for q) before room spares = reap-Keeps q before.held

-- A server that starts with no process and with no id in its status, whose plugins' calls return or
-- raise, and to which only controllers, whose first line is HELLO or ABORT, and peers that send
-- nothing have connected: where a running process is about to set up, run or end a test or to
-- report an error of it, a connection that arrives, whatever it sends, a turn of another process
-- that is not about to abort, and a wait for a process leave its session as it was and leave it
-- running, and the status then holds its id. The events so far are so few that each id has at most
-- 19 digits.
pub undisturbed :
    {S : Shunt} (m : Wrapper S) (debug : Bool) (start : Server S) (es : List Event) (p : ℕ)
    (e : Event)
    → Answers S
    → Idle start
    → start.fresh + length es ≤ 10 ^ 19
    → All Begins es
    → HasTest (serve m debug es start) p
    → Spares (serve m debug es start) p e
    → let s = serve m debug es start in
      let after = happen m debug e s in
      (after.sessions p ≡ s.sessions p) × (after.lives p ≡ runs) × Holds p after.status
undisturbed m debug start es p e answers idle room first has spares =
    let s = serve m debug es start in
    let (n, id, limit, before) =
      reached-Inv m debug start es 0 answers idle (omega (arith, room)) first in
    let mine = (before.processes p has.0).owns has.1 in
    happen-Keeps m debug s p has n e (subst (λ j. Inv n j s) mine before) (omega (arith, limit))
      spares
