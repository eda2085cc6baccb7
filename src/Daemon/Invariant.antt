-- ===== src/Daemon/Invariant.antt =====
-- What holds of the shared status when each state of the daemon is entered, in a session that began
-- when the status held the id `q` and that process `pid` serves. Nothing is claimed of a session
-- that another process interferes with while it runs.
use ipbench.Prelude.{ℕ, ◌≡◌, ◌⊎◌, Bool, ◌==◌, if◌then◌else◌, List, [], ◌∷◌}
use ipbench.Python.Text.{Text, codes, text_eq}
use ipbench.Python.Outcome.{stalled}
use ipbench.Daemon.TestStatus.RoundTrip.{Holds}
use ipbench.Daemon.Shunt.{Shunt}
use ipbench.Daemon.World.{Os, World}
use ipbench.Daemon.Common.{Cargo, one, error_cargo, Next}
use ipbench.Daemon.Machine.Rule

module _ {S : Shunt} {O : Os} (q pid : ℕ) where
  -- No test ran before, and the session's process is marked as the running test.
  abbrev pub Mine : World S O → Type 0
  Mine w = (q ≡ 0) × Holds pid w.status

  -- After the session: the id that was there before, or none.
  abbrev pub Final : World S O → Type 0
  Final w = Holds q w.status ⊎ Holds 0 w.status

  abbrev pub ErrorInv : Cargo → World S O → Type 0
  ErrorInv one w = Unit
  ErrorInv (error_cargo code msg) w =
      if code == 421 then Holds q w.status else ((p : ℕ) × Holds p w.status)

  abbrev pub Inv : Text → Cargo → World S O → Type 0
  Inv name cargo w =
      if text_eq name (codes "RESET")
      then Final w
      else if text_eq name (codes "ERROR")
      then ErrorInv cargo w
      else if text_eq name (codes "ABORT")
      then Holds q w.status ⊎ Mine w
      else if text_eq name (codes "LISTEN")
      then Holds q w.status
      else Mine w

-- A bound on the handlers that are still to be called.
abbrev pub rank : Text → ℕ
rank name =
    if text_eq name (codes "RESET")
    then 0
    else if text_eq name (codes "ERROR")
    then 1
    else if text_eq name (codes "ABORT")
    then 1
    else if text_eq name (codes "MARSHALL")
    then 2
    else if text_eq name (codes "RUN")
    then 3
    else if text_eq name (codes "SETUP")
    then 4
    else 5

module _ {S : Shunt} {O : Os} (q pid n : ℕ) where
  -- What a handler of rank `n` returns.
  abbrev pub HandsOn : Next → World S O → Type 0
  HandsOn = Rule.Proceeds (Inv {S = S} {O = O} q pid) rank n

-- A plugin's calls return or raise.
pub record Answers (S : Shunt) : Type 0 where
  pub load_plugin : (name : Text) (s : S.State) → (S.load_plugin name s).0 ≡ stalled → ⊥
  pub setup_client :
      (host : Text) (port : ipbench.Prelude.ℤ) (args : Text) (s : S.State)
      → (S.setup_client host port args s).0 ≡ stalled
      → ⊥
  pub setup_target : (args : Text) (s : S.State) → (S.setup_target args s).0 ≡ stalled → ⊥
  pub start : (s : S.State) → (S.start s).0 ≡ stalled → ⊥
  pub marshall : (s : S.State) → (S.marshall s).0 ≡ stalled → ⊥
