-- ===== src/Daemon/Server/Stages.antt =====
-- The stage that a handler's result leads to.
use ipbench.Prelude.{
  ℕ, ◌<◌, ◌≡◌, refl, sym, subst, inl, inr, Bool, true, false, Bool-cases, none, some, List, arith,
  if◌then◌else◌,
}
use ipbench.Python.Text.{Text, Bytes, codes, text_eq, upper}
use ipbench.Python.Text.Search.{eq_of_text_eq}
use ipbench.Python.Outcome.{Outcome, returned, raised, stalled}
use ipbench.Python.Exec.Ensures.{Meets}
use ipbench.Daemon.Shunt.{Shunt}
use ipbench.Daemon.World.{World}
use ipbench.Daemon.Common.{Cargo, Next}
use ipbench.Daemon.Invariant.{HandsOn, rank}
use ipbench.Daemon.Processes.{runs, live}
use ipbench.Daemon.Server.{Stage, over, unknown, stage_of}
use ipbench.Daemon.Server.Invariant.{owning, Ready}
use ipbench.Daemon.Server.Follow.{Goes}
use ipbench.Daemon.Server.Effects.{Ends}

-- Of the tests that `stage_of` and `rank` make of a name, but for LISTEN: the stage is one that the
-- machine knows, if the rank is a known state's.
Ready-other :
    (reset setup run marshall error abort : Bool) (cargo : Cargo) (lines : List Bytes)
    → (if reset
        then 0
        else if error
        then 1
        else if abort
        then 1
        else if marshall
        then 2
        else if run
        then 3
        else if setup
        then 4
        else 5)
      < 5
    → Ready
        (if reset
          then over
          else if setup
          then Stage.setup cargo
          else if run
          then Stage.run cargo
          else if marshall
          then Stage.marshall cargo
          else if error
          then Stage.error cargo
          else if abort
          then Stage.abort cargo
          else unknown)
        lines
Ready-other true b c d e f cargo lines low = tt
Ready-other false true c d e f cargo lines low = tt
Ready-other false false true d e f cargo lines low = tt
Ready-other false false false true e f cargo lines low = tt
Ready-other false false false false true f cargo lines low = tt
Ready-other false false false false false true cargo lines low = tt
Ready-other false false false false false false cargo lines low = omega (arith, low)

-- A state of a lower rank than LISTEN is another.
pub Ready-stage_of :
    (name : Text) (cargo : Cargo) (lines : List Bytes)
    → rank name < 5
    → Ready (stage_of name cargo) lines
unfolding stage_of
Ready-stage_of name cargo lines low = elim (Bool-cases (text_eq name (codes "LISTEN"))) [
  | inl same ↦
      let h : rank (codes "LISTEN") < 5 =
        subst (λ x. rank x < 5) (eq_of_text_eq name (codes "LISTEN") same) low in
      absurd (omega (arith, h))
  | inr other ↦ rw other (
      Ready-other (text_eq name (codes "RESET")) (text_eq name (codes "SETUP"))
        (text_eq name (codes "RUN")) (text_eq name (codes "MARSHALL"))
        (text_eq name (codes "ERROR")) (text_eq name (codes "ABORT")) cargo lines low)
]

module _ {S : Shunt} where
  pub Ends-Goes : (id p : ℕ) (r : Outcome Next) (w : World S live) → Ends r → Goes id p r w
  Ends-Goes id p (returned none) w e = tt
  Ends-Goes id p (returned (some (name, cargo))) w e =
      subst (λ st. Ready st w.input × (w.processes p ≡ runs → owning st ≡ true → id ≡ p)) (sym e)
        (tt, λ alive own. absurd cc)
  Ends-Goes id p (raised x) w e = tt
  Ends-Goes id p stalled w e = tt

  -- The session keeps the test.
  pub Meets-Goes :
      (p n : ℕ) (r : Outcome Next) (w : World S live)
      → n < 5
      → Meets (HandsOn 0 p n) r w
      → Goes p p r w
  Meets-Goes p n (returned none) w low e = tt
  Meets-Goes p n (returned (some (name, cargo))) w low e =
      (Ready-stage_of (upper name) cargo w.input (omega (arith, low, e.1)), λ alive own. refl)
  Meets-Goes p n (raised x) w low e = tt
  Meets-Goes p n stalled w low e = absurd e
