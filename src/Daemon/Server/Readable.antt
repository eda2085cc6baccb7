-- ===== src/Daemon/Server/Readable.antt =====
-- A server of ipbench2/src/ipbenchd.py with whatever peers.
use ipbench.Prelude.{
  ◌∙◌, ℕ, suc, ◌+◌, ◌≤◌, ◌^◌, ◌≡◌, ◌≢◌, refl, sym, subst, inl, inr, Bool, ◌==◌, Bool-cases, ==_iff,
  List, [], ◌∷◌, length, arith,
}
use ipbench.Python.Text.{Bytes}
use ipbench.Python.Outcome.{Outcome, returned, raised, stalled}
use ipbench.Daemon.TestStatus.RoundTrip.{Holds}
use ipbench.Daemon.Shunt.{Shunt}
use ipbench.Daemon.World.{World}
use ipbench.Daemon.Common.{one}
use ipbench.Daemon.Invariant.{Answers}
use ipbench.Daemon.Processes.{Life, absent, runs, update, live, Life-cases}
use ipbench.Daemon.Server.{
  listen, unknown, Server, Wrapper, Event, accepts, goes_on, waited_for, opened, accept, reap,
  happen, serve,
}
use ipbench.Daemon.Server.Invariant.{over-ne-unknown}
use ipbench.Daemon.Server.Aborts.{absent-ne-runs}
use ipbench.Daemon.Server.Accept.{Waits, open-Waits}
use ipbench.Daemon.Server.Exclusion.{Idle}
use ipbench.Daemon.Server.Sane.{Sane, stops-Sane, with_world-Sane, leaves-Sane, turn-Sane}

listen-ne-unknown : listen one ≢ unknown
listen-ne-unknown e = cc

module _ {S : Shunt} (m : Wrapper S) (debug : Bool) where
  module _ (n : ℕ) (s : Server S) (h : Sane n s) (lines : List Bytes) where
    -- The server with the new process, before the process does anything.
    abbrev begun : Server S
    begun = record s { lives = update s.lives s.fresh runs; fresh = suc s.fresh }

    begun-Sane : Sane (suc n) begun
    begun-Sane =
        let room = h.room in
        record {
          id = h.id;
          held = h.held;
          room = omega (arith, room);
          below = λ j alive. elim (Bool-cases (s.fresh == j)) [
            | inl same ↦ let e = (==_iff s.fresh j).0 same in omega (arith, e)
            | inr differ ↦ let below = h.below j (rw differ at alive) in omega (arith, below)
          ];
          known = h.known;
        }

    opened-Sane :
        (r : Outcome (Unit {0})) (w : World S live)
        → Waits h.id begun.lives lines w
        → Sane (suc n) (opened m debug r begun s.fresh w)
    opened-Sane r w q =
        let fewer : (j : ℕ) → w.processes j ≡ runs → begun.lives j ≡ runs =
          λ j e. subst (λ (t : ℕ → Life). t j ≡ runs) q.quiet.processes e in
        let leaves = leaves-Sane (suc n) s.fresh begun begun-Sane w h.id q.quiet.held fewer in
        elim r as (λ r. Sane (suc n) (opened m debug r begun s.fresh w)) [
          | returned u ↦
              with_world-Sane (suc n) s.fresh begun begun-Sane w h.id q.quiet.held fewer
                (listen one) listen-ne-unknown
          | raised e ↦ leaves
          | stalled ↦ leaves
        ]

    accept-Sane : (writes : ℕ) → Sane (suc n) (accept m debug lines writes s)
    unfolding accept
    accept-Sane writes = opened-Sane _ _ (
        (open-Waits h.id begun.lives lines m debug s.fresh).from _
          (record { quiet = record { held = h.held; processes = refl }; input = refl }))

  later : (n : ℕ) (s : Server S) → Sane n s → Sane (suc n) s
  later n s h =
      let room = h.room in
      record {
        id = h.id;
        held = h.held;
        room = omega (arith, room);
        below = h.below;
        known = h.known;
      }

  reap-Sane : (n p : ℕ) (s : Server S) → Sane n s → Sane n (reap m debug p s)
  reap-Sane n p s h = elim (Life-cases (s.lives p)) [
    | inl e ↦ rw (e, reap) h
    | inr (inl e) ↦ rw (e, reap) h
    | inr (inr e) ↦ rw (e, reap) (stops-Sane n p s absent absent-ne-runs h)
  ]

  module _ (answers : Answers S) where
    happen-Sane :
        (n : ℕ) (e : Event) (s : Server S)
        → n ≤ 10 ^ 19
        → Sane n s
        → Sane (suc n) (happen m debug e s)
    happen-Sane n (accepts lines writes) s room h = accept-Sane n s h lines writes
    happen-Sane n (goes_on p) s room h = later n _ (turn-Sane n p s answers room h)
    happen-Sane n (waited_for p) s room h = later n _ (reap-Sane n p s h)

    serve-Sane :
        (es : List Event) (n : ℕ) (s : Server S)
        → n + length es ≤ 10 ^ 19
        → Sane n s
        → Sane (n + length es) (serve m debug es s)
    unfolding serve
    serve-Sane [] n s room h = subst (λ k. Sane k s) (omega arith) h
    serve-Sane (e ∷ es) n s room h =
        subst (λ k. Sane k (serve m debug es (happen m debug e s))) (omega arith)
          (serve-Sane es (suc n) _ (omega (arith, room))
            (happen-Sane n e s (omega (arith, room)) h))

-- A server that starts with no process and with no id in its status, and whose plugins' calls return or
-- raise: whatever connections arrive, whatever they send, and in whatever order the processes of its
-- connections go on, one handler at a time, and are waited for, the status holds no id or one that
-- can be read, in its 20 bytes, and no handler has ever led a process to a name that is no key of
-- its machine's handlers. The events are so few that each id has at most 19 digits.
pub known_stages :
    {S : Shunt} (m : Wrapper S) (debug : Bool) (start : Server S) (es : List Event) (p : ℕ)
    → Answers S
    → Idle start
    → start.fresh + length es ≤ 10 ^ 19
    → (id : ℕ) × Holds id (serve m debug es start).status
      × (((serve m debug es start).sessions p).stage ≢ unknown)
known_stages m debug start es p answers idle room =
    let h = serve-Sane m debug answers es start.fresh start room (record {
      id = 0;
      held = idle.held;
      room = omega arith;
      below = λ j alive. absurd (idle.lives j alive);
      known = λ j e. over-ne-unknown (sym (idle.unused j) ∙ e);
    }) in
    (h.id, h.held, h.known p)
