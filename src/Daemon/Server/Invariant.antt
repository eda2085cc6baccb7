-- ===== src/Daemon/Server/Invariant.antt =====
-- What holds of the server between two turns.
use ipbench.Prelude.{
  [], ℕ, ◌<◌, ◌≤◌, ◌≡◌, ◌≢◌, ◌⊎◌, inl, inr, Bool, true, false, ◌==◌, not, Bool-cases, List, ◌∷◌,
}
use ipbench.Python.Text.{Bytes, codes}
use ipbench.Daemon.TestStatus.RoundTrip.{Holds}
use ipbench.Daemon.Shunt.{Shunt}
use ipbench.Daemon.Common.{one, error_cargo}
use ipbench.Daemon.Processes.{runs, Life, ended, update}
use ipbench.Daemon.Server.{Stage, listen, setup, run, marshall, error, abort, over, unknown, Server}

-- The session has the test: its handler may only run while the status holds the process.
abbrev pub owning : Stage → Bool
owning (listen c) = false
owning (setup c) = true
owning (run c) = true
owning (marshall c) = true
owning (error one) = false
owning (error (error_cargo code msg)) = not (code == 421)
owning (abort c) = false
owning over = false
owning unknown = false

-- The connection of a controller, whose first line is HELLO, or ABORT with the option --reset; or one
-- that sends nothing.
abbrev pub Opens : List Bytes → Type 0
Opens lines =
    (lines ≡ [])
    ⊎ ((rest : List Bytes) × ((lines ≡ codes "HELLO\n" ∷ rest) ⊎ (lines ≡ codes "ABORT\n" ∷ rest)))

-- A state that the machine knows, and LISTEN only before the first line.
abbrev pub Ready : Stage → List Bytes → Type 0
Ready (listen c) lines = Opens lines
Ready (setup c) lines = Unit
Ready (run c) lines = Unit
Ready (marshall c) lines = Unit
Ready (error c) lines = Unit
Ready (abort c) lines = Unit
Ready over lines = Unit
Ready unknown lines = ⊥

pub over-ne-unknown : over ≢ unknown
over-ne-unknown e = cc

pub ended-ne-runs : ended ≢ runs
ended-ne-runs e = cc

module _ {S : Shunt} where
  -- What holds of a process that runs, where the status holds `id`.
  pub record Running (id : ℕ) (s : Server S) (p : ℕ) : Type 0 where
    pub positive : 0 < p
    pub below : p < s.fresh
    pub ready : Ready (s.sessions p).stage (s.sessions p).input
    pub owns : owning (s.sessions p).stage ≡ true → id ≡ p

  -- The ids that were given are below `n`.
  pub record Inv (n id : ℕ) (s : Server S) : Type 0 where
    pub held : Holds id s.status
    pub started : 0 < s.fresh
    pub room : s.fresh ≤ n
    pub processes : (p : ℕ) → s.lives p ≡ runs → Running id s p
    pub known : (p : ℕ) → (s.sessions p).stage ≢ unknown

  -- A process that no longer runs.
  pub stops-Inv :
      (n id p : ℕ) (s : Server S) (l : Life)
      → l ≢ runs
      → Inv n id s
      → Inv n id (record s { lives = update s.lives p l })
  stops-Inv n id p s l stopped before = record {
    held = before.held;
    started = before.started;
    room = before.room;
    processes = λ j alive. elim (Bool-cases (p == j)) [
      | inl same ↦ absurd (stopped (rw same at alive))
      | inr differ ↦
          let h = before.processes j (rw differ at alive) in
          record { positive = h.positive; below = h.below; ready = h.ready; owns = h.owns }
    ];
    known = before.known;
  }
