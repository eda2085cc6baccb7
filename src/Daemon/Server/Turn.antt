-- ===== src/Daemon/Server/Turn.antt =====
-- A turn of a process keeps what holds of the server.
use ipbench.Prelude.{
  ℕ, ◌<◌, ◌≤◌, ◌^◌, ◌≡◌, refl, sym, subst, inl, inr, true, false, ◌==◌, Bool-cases, ◌∙◌, arith,
}
use ipbench.Python.Outcome.{Outcome}
use ipbench.Python.Exec.Ensures.{Meets}
use ipbench.Daemon.Shunt.{Shunt}
use ipbench.Daemon.World.{World}
use ipbench.Daemon.World.Quiet.{Quiet}
use ipbench.Daemon.Common.{Cargo, one, error_cargo, Next}
use ipbench.Daemon.Invariant.{Mine, HandsOn, Answers}
use ipbench.Daemon.TestStatus.RoundTrip.{Holds}
use ipbench.Daemon.Processes.{Life-cases, Life, runs, ended, live}
use ipbench.Daemon.Listen
use ipbench.Daemon.Setup.{setup}
use ipbench.Daemon.Setup.Sound.{setup-Sound}
use ipbench.Daemon.Setup.Quiet.{setup-Quiet}
use ipbench.Daemon.Run.{run}
use ipbench.Daemon.Run.Sound.{run-Sound}
use ipbench.Daemon.Run.Quiet.{run-Quiet}
use ipbench.Daemon.Finish.{marshall, error, abort}
use ipbench.Daemon.Finish.Sound.{marshall-Sound}
use ipbench.Daemon.Server.{turn, follow, enter, Stage, over, unknown, Server, world_of}
use ipbench.Daemon.Server.Invariant.{stops-Inv, ended-ne-runs, owning, Ready, Inv}
use ipbench.Daemon.Server.Follow.{follow-Inv, Goes, Others, Follows}
use ipbench.Daemon.Server.Effects.{
  Leaving, Delivered, marshall-Delivered, error-refused, error-clears,
}
use ipbench.Daemon.Server.Aborts.{Aborted, abort-Aborted}
use ipbench.Daemon.Server.Stages.{Ends-Goes, Meets-Goes}
use ipbench.Daemon.Server.Opening.{Opened, listen-Opened}

module _ {S : Shunt} (n k : ℕ) (s : Server S) (p : ℕ) (before : Inv n k s)
    (alive : s.lives p ≡ runs) where
  -- What the process sees before its turn.
  sees : Quiet k s.lives (world_of S s p)
  sees = record { held = before.held; processes = refl }

  same-Others : Others k s p s.lives
  same-Others j ne e own = (before.processes j e).owns own

  -- The process has the test, so that no other has.
  mine-Others : k ≡ p → (id : ℕ) → Others id s p s.lives
  mine-Others mine id j ne e own = absurd (ne (sym ((before.processes j e).owns own) ∙ mine))

  -- No process has the test.
  idle-Others : k ≡ 0 → (id : ℕ) → Others id s p s.lives
  idle-Others idle id j ne e own =
      let h = before.processes j e in
      let same = h.owns own in
      let positive = h.positive in absurd (omega (arith, same, positive, idle))

  -- The process table stays as it was.
  Quiet-Follows :
      (id : ℕ) (r : Outcome Next) (w : World S live)
      → Quiet id s.lives w
      → Others id s p s.lives
      → Goes id p r w
      → Follows id s p r w
  Quiet-Follows id r w q others goes = record {
    held = q.held;
    fewer = λ j e. subst (λ (t : ℕ → Life). t j ≡ runs) q.processes e;
    others = subst (λ t. Others id s p t) (sym q.processes) others;
    mine = goes;
  }

  Leaving-Follows :
      (id : ℕ) (r : Outcome Next) (w : World S live)
      → Leaving id s.lives r w
      → Others id s p s.lives
      → Follows id s p r w
  Leaving-Follows id r w l others = Quiet-Follows id r w l.1 others (Ends-Goes id p r w l.0)

  abbrev Kept : Outcome Next × World S live → Type 0
  Kept r = (id : ℕ) × Follows id s p r.0 r.1

  -- What the server is after the handler.
  goes_on : (r : Outcome Next × World S live) → Kept r → (id : ℕ) × Inv n id (follow S r.0 s p r.1)
  goes_on (r, w) (id, f) =
      let h = before.processes p alive in
      (
        id,
        follow-Inv n id k s p w h.positive h.below before.room (λ j ne e. before.processes j e)
            before.known r f,
      )

  owns_at : (stage : Stage) → (s.sessions p).stage ≡ stage → owning stage ≡ true → k ≡ p
  owns_at stage e own = (before.processes p alive).owns (subst (λ st. owning st ≡ true) (sym e) own)

  listen-Kept : (r : Outcome Next × World S live) → Opened k p s.lives r.0 r.1 → Kept r
  listen-Kept (r, w) o = (
    o.id,
    Quiet-Follows o.id r w o.quiet
        (elim o.kept [
          | inl same ↦ subst (λ id. Others id s p s.lives) (sym same) same-Others
          | inr (idle, new) ↦ idle-Others idle o.id
        ])
        o.goes,
  )

  -- A handler of the session that has the test.
  test-Kept :
      (j : ℕ) (r : Outcome Next × World S live)
      → k ≡ p
      → j < 5
      → Quiet k s.lives r.1
      → Meets (HandsOn 0 p j) r.0 r.1
      → Kept r
  test-Kept j (r, w) mine low q meets = (
    k,
    Quiet-Follows k r w q same-Others
        (subst (λ id. Goes id p r w) (sym mine) (Meets-Goes p j r w low meets)),
  )

  marshall-Kept :
      (r : Outcome Next × World S live)
      → k ≡ p
      → Delivered k s.lives r.0 r.1
      → Meets (HandsOn 0 p 2) r.0 r.1
      → Kept r
  marshall-Kept r mine (inl q) meets = test-Kept 2 r mine (omega arith) q meets
  marshall-Kept (r, w) mine (inr l) meets = (0, Leaving-Follows 0 r w l (mine-Others mine 0))

  abort-Kept : (r : Outcome Next × World S live) → Aborted k s.lives r.0 r.1 → Kept r
  abort-Kept (r, w) a = (
    a.id,
    record {
      held = a.held;
      fewer = a.fewer;
      others = λ j ne e own.
          let h = before.processes j (a.fewer j e) in
          let same = h.owns own in
          let positive : 0 < k = subst (λ x. 0 < x) (sym same) h.positive in
          absurd (a.dead positive (subst (λ x. w.processes x ≡ runs) (sym same) e));
      mine = Ends-Goes a.id p r w a.ends;
    },
  )

  error-Kept :
      (cargo : Cargo)
      → (owning (Stage.error cargo) ≡ true → k ≡ p)
      → Kept (error S live cargo (world_of S s p))
  unfolding error
  error-Kept one own =
      let (r, w) = error S live one (world_of S s p) in (k, Quiet-Follows k r w sees same-Others tt)
  error-Kept (error_cargo code msg) own = elim (Bool-cases (code == 421)) [
    | inl refused ↦
        let (r, w) = error S live (error_cargo code msg) (world_of S s p) in
        (
          k,
          Leaving-Follows k r w ((error-refused k s.lives code msg refused).from _ sees)
              same-Others,
        )
    | inr other ↦
        let (r, w) = error S live (error_cargo code msg) (world_of S s p) in
        (
          0,
          Leaving-Follows 0 r w ((error-clears k s.lives code msg other).from _ sees)
              (mine-Others (own (rw other refl)) 0),
        )
  ]

  has_test : k ≡ p → Mine 0 p (world_of S s p)
  has_test mine = (refl, subst (λ id. Holds id s.status) mine before.held)

  -- The handler of the stage that the process is in.
  enter-Inv :
      Answers S
      → n ≤ 10 ^ 19
      → (stage : Stage) → (s.sessions p).stage ≡ stage
      → (id : ℕ) × Inv n id (enter S stage p s)
  enter-Inv answers room (Stage.listen c) e =
      let h = before.processes p alive in
      let below = h.below in
      let opening = subst (λ (st : Stage). Ready st (s.sessions p).input) e h.ready in
      goes_on (Listen.listen S live false p c (world_of S s p)) (
        listen-Kept _ (
          listen-Opened k p s.lives c (omega (arith, below, room, before.room)) (world_of S s p)
            sees opening))
  enter-Inv answers room (Stage.setup c) e =
      let w = world_of S s p in
      let mine = owns_at (Stage.setup c) e refl in
      goes_on (setup S live false c w) (
        test-Kept 4 _ mine (omega arith) ((setup-Quiet k s.lives c).from w sees)
          ((setup-Sound S live answers false p 0 c).from w (has_test mine)))
  enter-Inv answers room (Stage.run c) e =
      let w = world_of S s p in
      let mine = owns_at (Stage.run c) e refl in
      goes_on (run S live false c w) (
        test-Kept 3 _ mine (omega arith) ((run-Quiet k s.lives c).from w sees)
          ((run-Sound S live answers false p 0 c).from w (has_test mine)))
  enter-Inv answers room (Stage.marshall c) e =
      let w = world_of S s p in
      let mine = owns_at (Stage.marshall c) e refl in
      goes_on (marshall S live c w) (
        marshall-Kept _ mine ((marshall-Delivered k s.lives c).from w sees)
          ((marshall-Sound S live answers p 0 c).from w (has_test mine)))
  enter-Inv answers room (Stage.error c) e =
      goes_on (error S live c (world_of S s p)) (error-Kept c (owns_at (Stage.error c) e))
  enter-Inv answers room (Stage.abort c) e =
      goes_on (abort S live p c (world_of S s p))
        (abort-Kept _ ((abort-Aborted p k s.lives c).from (world_of S s p) sees))
  enter-Inv answers room over e = (k, stops-Inv n k p s ended ended-ne-runs before)
  enter-Inv answers room unknown e = (k, stops-Inv n k p s ended ended-ne-runs before)

module _ {S : Shunt} where
  -- A turn, of whatever process, keeps what holds of the server, with the id that the status then
  -- holds.
  pub turn-Inv :
      (n k : ℕ) (s : Server S) (p : ℕ)
      → Answers S
      → n ≤ 10 ^ 19
      → Inv n k s
      → (id : ℕ) × Inv n id (turn S p s)
  unfolding turn
  turn-Inv n k s p answers room before = elim (Life-cases (s.lives p)) [
    | inl gone ↦ rw gone (k, before)
    | inr (inl alive) ↦
        rw alive (enter-Inv n k s p before alive answers room (s.sessions p).stage refl)
    | inr (inr dead) ↦ rw dead (k, before)
  ]
