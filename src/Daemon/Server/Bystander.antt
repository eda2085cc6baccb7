-- ===== src/Daemon/Server/Bystander.antt =====
-- What a process of a server that has not the test does to the one that has it.
use ipbench.Prelude.{
  ℕ, ◌<◌, ◌≤◌, ◌^◌, ◌≡◌, ◌≢◌, refl, sym, subst, ◌∙◌, inl, inr, Bool, true, false, none, some, arith,
  Bool-cases, ◌==◌,
}
use ipbench.Python.Text.{upper}
use ipbench.Python.Outcome.{Outcome, returned, raised, stalled, type_error}
use ipbench.Daemon.TestStatus.RoundTrip.{Holds}
use ipbench.Daemon.Shunt.{Shunt}
use ipbench.Daemon.World.{World}
use ipbench.Daemon.World.Quiet.{Quiet}
use ipbench.Daemon.Common.{Cargo, one, error_cargo, Next}
use ipbench.Daemon.Finish.{error}
use ipbench.Daemon.Listen
use ipbench.Daemon.Processes.{Life, runs, ended, live, Life-cases, update_other}
use ipbench.Daemon.Server.{
  Stage, listen, setup, run, marshall, abort, over, unknown, stage_of, Server, Wrapper, world_of,
  session_of, with_world, opened, leave, enter_stage, follow, enter, turn,
}
use ipbench.Daemon.Server.Invariant.{owning, Inv, Ready}
use ipbench.Daemon.Server.Effects.{error-refused}
use ipbench.Daemon.Server.Opening.{listen-Opened}
use ipbench.Daemon.Server.Exclusion.{HasTest}

module _ {S : Shunt} where
  -- The process `p` is as it was, and the status holds its id.
  abbrev pub Undisturbed : Server S → ℕ → Server S → Type 0
  Undisturbed s p s' = (s'.sessions p ≡ s.sessions p) × (s'.lives p ≡ runs) × Holds p s'.status

module _ {S : Shunt} (s : Server S) (p q : ℕ) (ne : q ≢ p) (has : HasTest s p) where
  abbrev Keeps : Server S → Type 0
  Keeps = Undisturbed s p

  module _ (w : World S live) (quiet : Quiet p s.lives w) where
    with_world-Keeps : (stage : Stage) → Keeps (with_world S s q w stage)
    with_world-Keeps stage = (
      update_other s.sessions q p (session_of S w stage) ne,
      subst (λ (t : ℕ → Life). t p ≡ runs) (sym quiet.processes) has.0,
      quiet.held,
    )

    leave-Keeps : (stage : Stage) → Keeps (leave S q (with_world S s q w stage))
    leave-Keeps stage =
        let h = with_world-Keeps stage in (h.0, update_other w.processes q p ended ne ∙ h.1, h.2)

    enter_stage-Keeps : (stage : Stage) → Keeps (enter_stage S stage q (with_world S s q w stage))
    enter_stage-Keeps over = leave-Keeps over
    enter_stage-Keeps unknown = leave-Keeps unknown
    enter_stage-Keeps (listen c) = with_world-Keeps (listen c)
    enter_stage-Keeps (setup c) = with_world-Keeps (setup c)
    enter_stage-Keeps (run c) = with_world-Keeps (run c)
    enter_stage-Keeps (marshall c) = with_world-Keeps (marshall c)
    enter_stage-Keeps (Stage.error c) = with_world-Keeps (Stage.error c)
    enter_stage-Keeps (abort c) = with_world-Keeps (abort c)

    follow-Keeps : (r : Outcome Next) → Keeps (follow S r s q w)
    follow-Keeps (returned none) = leave-Keeps over
    follow-Keeps (returned (some (name, cargo))) = enter_stage-Keeps (stage_of (upper name) cargo)
    follow-Keeps (raised e) = leave-Keeps over
    follow-Keeps stalled = leave-Keeps over

  module _ (n : ℕ) (before : Inv n p s) (alive : s.lives q ≡ runs) where
    sees : Quiet p s.lives (world_of S s q)
    sees = record { held = before.held; processes = refl }

    not_owning : (stage : Stage) → (s.sessions q).stage ≡ stage → owning stage ≡ true → ⊥
    not_owning stage e own =
        ne (sym ((before.processes q alive).owns (subst (λ st. owning st ≡ true) (sym e) own)))

    listen-Keeps :
        (c : Cargo) → q < 10 ^ 19 → (s.sessions q).stage ≡ listen c → Keeps (enter S (listen c) q s)
    listen-Keeps c small e =
        let w = world_of S s q in
        let opening =
          subst (λ (st : Stage). Ready st (s.sessions q).input) e
            (before.processes q alive).ready in
        let o = listen-Opened p q s.lives c small w sees opening in
        let positive = (before.processes p has.0).positive in
        let (r, w') = Listen.listen S live false q c w in
        elim o.kept [
          | inl same ↦ follow-Keeps w' (subst (λ id. Quiet id s.lives w') same o.quiet) r
          | inr (idle, new) ↦ absurd (omega (arith, positive, idle))
        ]

    error-Keeps :
        (cargo : Cargo)
        → (s.sessions q).stage ≡ Stage.error cargo
        → Keeps (enter S (Stage.error cargo) q s)
    unfolding error
    error-Keeps one e = follow-Keeps (world_of S s q) sees (raised type_error)
    error-Keeps (error_cargo code msg) e = elim (Bool-cases (code == 421)) [
      | inl refused ↦
          let (r, w) = error S live (error_cargo code msg) (world_of S s q) in
          follow-Keeps w ((error-refused p s.lives code msg refused).from (world_of S s q) sees).1 r
      | inr other ↦ absurd (not_owning (Stage.error (error_cargo code msg)) e (rw other refl))
    ]

    enter-Keeps :
        (stage : Stage)
        → q < 10 ^ 19
        → (s.sessions q).stage ≡ stage
        → ((c : Cargo) → stage ≢ abort c)
        → Keeps (enter S stage q s)
    enter-Keeps (listen c) small e tame = listen-Keeps c small e
    enter-Keeps (setup c) small e tame = absurd (not_owning (setup c) e refl)
    enter-Keeps (run c) small e tame = absurd (not_owning (run c) e refl)
    enter-Keeps (marshall c) small e tame = absurd (not_owning (marshall c) e refl)
    enter-Keeps (Stage.error c) small e tame = error-Keeps c e
    enter-Keeps (abort c) small e tame = absurd (tame c refl)
    enter-Keeps over small e tame = (refl, update_other s.lives q p ended ne ∙ has.0, before.held)
    enter-Keeps unknown small e tame =
        (refl, update_other s.lives q p ended ne ∙ has.0, before.held)

  pub opened-Keeps :
      (m : Wrapper S) (debug : Bool) (r : Outcome (Unit {0})) (w : World S live)
      → Quiet p s.lives w
      → Keeps (opened m debug r s q w)
  opened-Keeps m debug (returned u) w quiet = with_world-Keeps w quiet (listen one)
  opened-Keeps m debug (raised e) w quiet = leave-Keeps w quiet over
  opened-Keeps m debug stalled w quiet = leave-Keeps w quiet over

  pub turn-Keeps :
      (n : ℕ)
      → Inv n p s
      → n ≤ 10 ^ 19
      → ((c : Cargo) → (s.sessions q).stage ≢ abort c)
      → Keeps (turn S q s)
  unfolding turn
  turn-Keeps n before room tame = elim (Life-cases (s.lives q)) [
    | inl gone ↦ rw gone (refl, has.0, before.held)
    | inr (inl alive) ↦
        let below = (before.processes q alive).below in
        let limit = before.room in
        rw alive (
          enter-Keeps n before alive (s.sessions q).stage (omega (arith, below, limit, room)) refl
            tame)
    | inr (inr dead) ↦ rw dead (refl, has.0, before.held)
  ]
