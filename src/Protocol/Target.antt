-- ===== src/Protocol/Target.antt =====
-- How the test of a target ends, whatever the order in which the parent `p`, in SHUNT.start(), and
-- its child `c` go on.
pub mod Orders
pub mod Test
pub mod Session
pub mod Exchange
pub mod Faults
use ipbench.Prelude.{ℕ, suc, ℤ, ◌≡◌, ◌≢◌, refl, sym, ◌∙◌, List, [], ◌∷◌, ◌++◌, is, length, ◌⊎◌}
use ipbench.Python.Text.{Text, Bytes, codes}
use ipbench.Python.Outcome.{returned}
use ipbench.Daemon.TestStatus.{TestStatus, not_running}
use ipbench.Daemon.Shunt.{Shunt}
use ipbench.Daemon.Common.{one}
use ipbench.Daemon.Processes.{update, update_same, update_other}
use ipbench.Daemon.Target.System.{
  Life, runs, told, ended, live, Place, at, starting, child_of, System, turn, Event, goes_on,
  schedule,
}
use ipbench.Daemon.Target.Turns.{system, parent_started, marshalls}
use ipbench.Protocol.Results.{result_text, append-result_text}
use ipbench.Protocol.Session.Steps.{marshall_result}

-- The parent is in SHUNT.start(), and the child reads the next line.
pub record IsTesting (p c : ℕ) (lives : ℕ → Life) (places : ℕ → Place) : Type 0 where
  pub parent_runs : lives p ≡ runs
  pub child_runs : lives c ≡ runs
  pub waits : places p ≡ starting c
  pub reads : places c ≡ child_of p

module _ {S : Shunt} (lines : List Bytes) (out : Bytes) (n : ℕ) (st st' : TestStatus)
    (lives : ℕ → Life) (shunts : ℕ → S.State) (places : ℕ → Place) (fresh : ℕ) where
  -- A process before MARSHALL sends its result and ends, and the connection takes no more writes.
  pub result_turn :
      (p : ℕ) (s : S.State) (v : ℤ) (content : Bytes)
      → (lives p ≡ runs) ⊎ (lives p ≡ told)
      → places p ≡ at (codes "MARSHALL") one
      → S.marshall (shunts p) ≡ (returned (v, content), s)
      → not_running st ≡ (returned tt, st')
      → turn S p (system lines out (suc (suc (suc n))) st lives shunts places fresh)
        ≡ system lines
            (out ++ result_text (is v 0) content)
            0
            st'
            (update lives p ended)
            (update shunts p s)
            places
            fresh
  result_turn p s v content alive here done cleared =
      marshalls lines out (suc (suc (suc n))) st lives shunts places fresh p n s
        (out ++ result_text (is v 0) content) st' alive here
        (rw (← append-result_text out (is v 0) content)
          (marshall_result lines out n st st' (shunts p) s lives v content done cleared))
