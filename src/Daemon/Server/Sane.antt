-- ===== src/Daemon/Server/Sane.antt =====
-- A turn of a process of ipbench2/src/ipbenchd.py with whatever peer: the shared status stays readable,
-- and no process is led to a state that its machine does not know.
use ipbench.Prelude.{
  ◌∙◌, ℕ, ◌<◌, ◌≤◌, ◌^◌, ◌≡◌, ◌≢◌, refl, sym, subst, inl, inr, false, ◌==◌, Bool-cases, none, some,
  [], arith,
}
use ipbench.Python.Text.{upper}
use ipbench.Python.Outcome.{Outcome, returned, raised, stalled}
use ipbench.Python.Exec.Ensures.{Meets}
use ipbench.Daemon.TestStatus.RoundTrip.{Holds}
use ipbench.Daemon.Shunt.{Shunt}
use ipbench.Daemon.World.{World}
use ipbench.Daemon.World.Quiet.{Quiet}
use ipbench.Daemon.Common.{Cargo, one, error_cargo, Next}
use ipbench.Daemon.Invariant.{HandsOn, Answers}
use ipbench.Daemon.Listen
use ipbench.Daemon.Listen.Sound.{listen-Sound}
use ipbench.Daemon.Listen.Readable.{listen-Readable}
use ipbench.Daemon.Setup.{setup}
use ipbench.Daemon.Setup.Sound.{setup-Sound}
use ipbench.Daemon.Setup.Quiet.{setup-Quiet}
use ipbench.Daemon.Run.{run}
use ipbench.Daemon.Run.Sound.{run-Sound}
use ipbench.Daemon.Run.Quiet.{run-Quiet}
use ipbench.Daemon.Finish.{marshall, error, abort}
use ipbench.Daemon.Finish.Sound.{marshall-Sound}
use ipbench.Daemon.Processes.{Life, runs, ended, update, live, Life-cases}
use ipbench.Daemon.Server.{
  Stage, over, unknown, stage_of, Server, with_world, world_of, leave, follow, enter_stage, enter,
  turn,
}
use ipbench.Daemon.Server.Invariant.{over-ne-unknown, ended-ne-runs, Ready}
use ipbench.Daemon.Server.Stages.{Ready-stage_of}
use ipbench.Daemon.Server.Effects.{Ends, Delivered, marshall-Delivered, error-refused, error-clears}
use ipbench.Daemon.Server.Aborts.{abort-Aborted}

-- A result leads to no unknown state.
abbrev Known : Outcome Next → Type 0
Known (returned none) = Unit
Known (returned (some (name, cargo))) = stage_of (upper name) cargo ≢ unknown
Known (raised e) = Unit
Known stalled = Unit

Ends-Known : (r : Outcome Next) → Ends r → Known r
Ends-Known (returned none) e = tt
Ends-Known (returned (some (name, cargo))) e = λ e'. over-ne-unknown (sym e ∙ e')
Ends-Known (raised x) e = tt
Ends-Known stalled e = tt

module _ {S : Shunt} where
  Meets-Known :
      (q pid n : ℕ) (r : Outcome Next) (w : World S live)
      → n ≤ 5
      → Meets (HandsOn q pid n) r w
      → Known r
  Meets-Known q pid n (returned none) w low e = tt
  Meets-Known q pid n (returned (some (name, cargo))) w low e = λ e'.
      subst (λ st. Ready st []) e' (Ready-stage_of (upper name) cargo [] (omega (arith, low, e.1)))
  Meets-Known q pid n (raised x) w low e = tt
  Meets-Known q pid n stalled w low e = tt

  -- The status holds an id, the processes that run have ids below `n`, and no stage is unknown.
  pub record Sane (n : ℕ) (s : Server S) : Type 0 where
    pub id : ℕ
    pub held : Holds id s.status
    pub room : s.fresh ≤ n
    pub below : (p : ℕ) → s.lives p ≡ runs → p < s.fresh
    pub known : (p : ℕ) → (s.sessions p).stage ≢ unknown

  pub stops-Sane :
      (n p : ℕ) (s : Server S) (l : Life)
      → l ≢ runs
      → Sane n s
      → Sane n (record s { lives = update s.lives p l })
  stops-Sane n p s l stopped h = record {
    id = h.id;
    held = h.held;
    room = h.room;
    below = λ j alive. elim (Bool-cases (p == j)) [
      | inl same ↦ absurd (stopped (rw same at alive))
      | inr differ ↦ h.below j (rw differ at alive)
    ];
    known = h.known;
  }

  module _ (n p : ℕ) (s : Server S) (h : Sane n s) (w : World S live) (id : ℕ)
      (held : Holds id w.status) (fewer : (j : ℕ) → w.processes j ≡ runs → s.lives j ≡ runs) where
    pub with_world-Sane : (stage : Stage) → stage ≢ unknown → Sane n (with_world S s p w stage)
    with_world-Sane stage fine = record {
      id = id;
      held = held;
      room = h.room;
      below = λ j alive. h.below j (fewer j alive);
      known = λ j e. elim (Bool-cases (p == j)) [
        | inl same ↦ fine (rw same at e)
        | inr differ ↦ h.known j (rw differ at e)
      ];
    }

    pub leaves-Sane : Sane n (leave S p (with_world S s p w over))
    leaves-Sane =
        stops-Sane n p (with_world S s p w over) ended ended-ne-runs
          (with_world-Sane over over-ne-unknown)

    enter_stage-Sane :
        (stage : Stage)
        → stage ≢ unknown
        → Sane n (enter_stage S stage p (with_world S s p w stage))
    enter_stage-Sane over fine = leaves-Sane
    enter_stage-Sane unknown fine = absurd (fine refl)
    enter_stage-Sane (Stage.listen c) fine = with_world-Sane (Stage.listen c) fine
    enter_stage-Sane (Stage.setup c) fine = with_world-Sane (Stage.setup c) fine
    enter_stage-Sane (Stage.run c) fine = with_world-Sane (Stage.run c) fine
    enter_stage-Sane (Stage.marshall c) fine = with_world-Sane (Stage.marshall c) fine
    enter_stage-Sane (Stage.error c) fine = with_world-Sane (Stage.error c) fine
    enter_stage-Sane (Stage.abort c) fine = with_world-Sane (Stage.abort c) fine

    follow-Sane : (r : Outcome Next) → Known r → Sane n (follow S r s p w)
    follow-Sane (returned none) k = leaves-Sane
    follow-Sane (returned (some (name, cargo))) k = enter_stage-Sane (stage_of (upper name) cargo) k
    follow-Sane (raised e) k = leaves-Sane
    follow-Sane stalled k = leaves-Sane

  module _ (n p : ℕ) (s : Server S) (h : Sane n s) where
    quietly :
        (id : ℕ) (r : Outcome Next × World S live)
        → Quiet id s.lives r.1
        → Known r.0
        → Sane n (follow S r.0 s p r.1)
    quietly id (r, w) q k =
        follow-Sane n p s h w id q.held (λ j e. subst (λ (t : ℕ → Life). t j ≡ runs) q.processes e)
          r k

    sees : Quiet h.id s.lives (world_of S s p)
    sees = record { held = h.held; processes = refl }

    delivered :
        (r : Outcome Next × World S live)
        → Delivered h.id s.lives r.0 r.1
        → Known r.0
        → Sane n (follow S r.0 s p r.1)
    delivered r (inl q) k = quietly h.id r q k
    delivered r (inr l) k = quietly 0 r l.1 k

    error-Sane : (cargo : Cargo) → Sane n (enter S (Stage.error cargo) p s)
    unfolding error
    error-Sane one = quietly h.id (error S live one (world_of S s p)) sees tt
    error-Sane (error_cargo code msg) =
        let r = error S live (error_cargo code msg) (world_of S s p) in
        elim (Bool-cases (code == 421)) [
          | inl refused ↦
              let l = (error-refused h.id s.lives code msg refused).from _ sees in
              quietly h.id r l.1 (Ends-Known r.0 l.0)
          | inr other ↦
              let l = (error-clears h.id s.lives code msg other).from _ sees in
              quietly 0 r l.1 (Ends-Known r.0 l.0)
        ]

    module _ (answers : Answers S) (small : p < 10 ^ 19) where
      enter-Sane : (stage : Stage) → Sane n (enter S stage p s)
      enter-Sane (Stage.listen c) =
          let w = world_of S s p in
          let (id, q) = (listen-Readable false p small s.lives c).from w (h.id, sees) in
          let r = Listen.listen S live false p c w in
          quietly id r q (
            Meets-Known h.id p 5 r.0 r.1 (omega arith)
              ((listen-Sound S live false p h.id small c).from w h.held))
      enter-Sane (Stage.setup c) =
          let w = world_of S s p in
          let r = setup S live false c w in
          quietly h.id r ((setup-Quiet h.id s.lives c).from w sees) (
            Meets-Known 0 h.id 4 r.0 r.1 (omega arith)
              ((setup-Sound S live answers false h.id 0 c).from w (refl, h.held)))
      enter-Sane (Stage.run c) =
          let w = world_of S s p in
          let r = run S live false c w in
          quietly h.id r ((run-Quiet h.id s.lives c).from w sees) (
            Meets-Known 0 h.id 3 r.0 r.1 (omega arith)
              ((run-Sound S live answers false h.id 0 c).from w (refl, h.held)))
      enter-Sane (Stage.marshall c) =
          let w = world_of S s p in
          let r = marshall S live c w in
          delivered r ((marshall-Delivered h.id s.lives c).from w sees) (
            Meets-Known 0 h.id 2 r.0 r.1 (omega arith)
              ((marshall-Sound S live answers h.id 0 c).from w (refl, h.held)))
      enter-Sane (Stage.error c) = error-Sane c
      enter-Sane (Stage.abort c) =
          let w = world_of S s p in
          let r = abort S live p c w in
          let a = (abort-Aborted p h.id s.lives c).from w sees in
          follow-Sane n p s h r.1 a.id a.held a.fewer r.0 (Ends-Known r.0 a.ends)
      enter-Sane over = stops-Sane n p s ended ended-ne-runs h
      enter-Sane unknown = stops-Sane n p s ended ended-ne-runs h

  pub turn-Sane :
      (n p : ℕ) (s : Server S) → Answers S → n ≤ 10 ^ 19 → Sane n s → Sane n (turn S p s)
  unfolding turn
  turn-Sane n p s answers room h = elim (Life-cases (s.lives p)) [
    | inl gone ↦ rw gone h
    | inr (inl alive) ↦
        let below = h.below p alive in
        let fresh = h.room in
        rw alive
          (enter-Sane n p s h answers (omega (arith, below, fresh, room)) (s.sessions p).stage)
    | inr (inr dead) ↦ rw dead h
  ]
