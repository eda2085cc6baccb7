-- ===== src/Daemon/Server/Exclusion.antt =====
-- The sessions of a server that have the test: one at a time.
use ipbench.Prelude.{
  ℕ, suc, ◌+◌, ◌<◌, ◌≤◌, ◌^◌, ◌≡◌, ◌≢◌, sym, subst, ◌∙◌, inl, inr, Bool, true, List, [], ◌∷◌,
  length, All, arith,
}
use ipbench.Daemon.TestStatus.RoundTrip.{Holds}
use ipbench.Daemon.Shunt.{Shunt}
use ipbench.Daemon.Invariant.{Answers}
use ipbench.Daemon.Processes.{absent, runs, Life-cases}
use ipbench.Daemon.Server.{
  over, Server, Wrapper, Event, accepts, goes_on, waited_for, happen, reap, serve,
}
use ipbench.Daemon.Server.Invariant.{over-ne-unknown, owning, Opens, Inv, stops-Inv}
use ipbench.Daemon.Server.Aborts.{absent-ne-runs}
use ipbench.Daemon.Server.Turn.{turn-Inv}
use ipbench.Daemon.Server.Accept.{accept-Inv}

-- A new connection begins as a controller's, or sends nothing.
abbrev pub Begins : Event → Type 0
Begins (accepts lines writes) = Opens lines
Begins (goes_on p) = Unit
Begins (waited_for p) = Unit

module _ {S : Shunt} where
  -- A process is about to set up, run or end the test, or to report an error of it.
  abbrev pub HasTest : Server S → ℕ → Type 0
  HasTest s p = (s.lives p ≡ runs) × (owning (s.sessions p).stage ≡ true)

  -- Before any connection: no process runs, and the status holds no id.
  pub record Idle (s : Server S) : Type 0 where
    pub held : Holds 0 s.status
    pub lives : (p : ℕ) → s.lives p ≢ runs
    pub started : 0 < s.fresh
    pub unused : (p : ℕ) → (s.sessions p).stage ≡ over

  later : (n id : ℕ) (s : Server S) → Inv n id s → Inv (suc n) id s
  later n id s i =
      let room = i.room in
      record {
        held = i.held;
        started = i.started;
        room = omega (arith, room);
        processes = i.processes;
        known = i.known;
      }

  module _ (m : Wrapper S) (debug : Bool) where
    reap-Inv : (n id p : ℕ) (s : Server S) → Inv n id s → Inv n id (reap m debug p s)
    reap-Inv n id p s before = elim (Life-cases (s.lives p)) [
      | inl e ↦ rw (e, reap) before
      | inr (inl e) ↦ rw (e, reap) before
      | inr (inr e) ↦ rw (e, reap) (stops-Inv n id p s absent absent-ne-runs before)
    ]

    module _ (answers : Answers S) where
      pub happen-Inv :
          (n id : ℕ) (e : Event) (s : Server S)
          → n ≤ 10 ^ 19
          → Begins e
          → Inv n id s
          → (id' : ℕ) × Inv (suc n) id' (happen m debug e s)
      happen-Inv n id (accepts lines writes) s room first before =
          (id, accept-Inv m debug n id s lines before writes first)
      happen-Inv n id (goes_on p) s room first before =
          let (id', after) = turn-Inv n id s p answers room before in (id', later n id' _ after)
      happen-Inv n id (waited_for p) s room first before =
          (id, later n id _ (reap-Inv n id p s before))

      serve-Inv :
          (es : List Event) (k n id : ℕ) (s : Server S)
          → n + (length es + k) ≤ 10 ^ 19
          → All Begins es
          → Inv n id s
          → (n' id' : ℕ) × (n' + k ≤ 10 ^ 19) × Inv n' id' (serve m debug es s)
      unfolding serve
      serve-Inv [] k n id s room first before = (n, id, omega (arith, room), before)
      serve-Inv (e ∷ es) k n id s room (first, rest) before =
          let (id', after) = happen-Inv n id e s (omega (arith, room)) first before in
          serve-Inv es k (suc n) id' _ (omega (arith, room)) rest after

pub reached-Inv :
    {S : Shunt} (m : Wrapper S) (debug : Bool) (start : Server S) (es : List Event) (k : ℕ)
    → Answers S
    → Idle start
    → start.fresh + (length es + k) ≤ 10 ^ 19
    → All Begins es
    → (n id : ℕ) × (n + k ≤ 10 ^ 19) × Inv n id (serve m debug es start)
reached-Inv m debug start es k answers idle room first =
    serve-Inv m debug answers es k start.fresh 0 start room first (record {
      held = idle.held;
      started = idle.started;
      room = omega arith;
      processes = λ j alive. absurd (idle.lives j alive);
      known = λ j e. absurd (over-ne-unknown (sym (idle.unused j) ∙ e));
    })

-- A server that starts with no process and with no id in its status, whose plugins' calls return or
-- raise, and to which only controllers, whose first line is HELLO or ABORT, and peers that send
-- nothing connect: whatever connections arrive, and in whatever order the processes of its
-- connections go on, one handler at a time, and are waited for, at most one running process is
-- about to set up, run or end a test or to report an error of it, and the status holds its id. The
-- events are so few that each id has at most 19 digits.
pub mutual_exclusion :
    {S : Shunt} (m : Wrapper S) (debug : Bool) (start : Server S) (es : List Event) (p q : ℕ)
    → Answers S
    → Idle start
    → start.fresh + length es ≤ 10 ^ 19
    → All Begins es
    → HasTest (serve m debug es start) p
    → HasTest (serve m debug es start) q
    → (p ≡ q) × Holds p (serve m debug es start).status
mutual_exclusion m debug start es p q answers idle room first hp hq =
    let (n, id, _, after) =
      reached-Inv m debug start es 0 answers idle (omega (arith, room)) first in
    let mine = (after.processes p hp.0).owns hp.1 in
    let other = (after.processes q hq.0).owns hq.1 in
    (sym mine ∙ other, subst (λ j. Holds j (serve m debug es start).status) mine after.held)
