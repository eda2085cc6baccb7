-- ===== src/Daemon/Target.antt =====
-- The method `run` of `IpbenchTarget` in ipbench2/src/ipbenchd.py: what the process does before it
-- forks, what the parent does, and what the child does with the next line.
pub mod System
pub mod Turns
use ipbench.Prelude.{ℕ, zero, suc, pos, Bool, true, false, Option, none, some, [], if◌then◌else◌}
use ipbench.Python.Text.{Text, codes, text_eq}
use ipbench.Python.Outcome.{stalled, process_lookup}
use ipbench.Python.Exec.{Exec, pure, raise, lift, ◌>>=◌, ◌>>◌}
use ipbench.Daemon.Shunt.{Shunt}
use ipbench.Daemon.World.{Os, World, Signal, sigint, sigkill, sigusr1, reply, on_shunt, kill}
use ipbench.Daemon.Commands.{match_word}
use ipbench.Daemon.Common.{Cargo, Next, go_on, farewell, fail_with, parse_common_opts, after_plugin}
use ipbench.Python.Outcome.{Outcome, returned, raised, runtime_error}
use ipbench.Python.Text.{strip}

-- What the loop of `run` comes to before a fork.
pub data Begun : Type 0 where
  forks : Begun
  hands : Next → Begun

-- What the child does after its line: it exits, it returns a state as `run` does, or it goes on
-- with the loop of `run`.
pub data ChildEnd : Type 0 where
  exits : ChildEnd
  returns : Next → ChildEnd
  loops : ChildEnd

module _ (S : Shunt) (O : Os) where
  abbrev W : Type 0
  W = World S O

  -- os.kill, where a process that is not there is a ProcessLookupError
  abbrev pub expect_process : {A : Type 0} → Bool → A → Exec W A
  expect_process true a = pure a
  expect_process false a = raise process_lookup

  begin_word : Exec W Begun → Option Text → Exec W Begun
  begin_word again none = reply 500 [] >> again
  begin_word again (some cmd) =
      if text_eq cmd (codes "START") then pure forks else (reply 500 [] >> again)

  begin_line : Exec W Begun → Text → Exec W Begun
  begin_line again line_in =
      if text_eq line_in (codes "ABORT")
      then pure (hands (go_on "ABORT"))
      else if text_eq line_in (codes "QUIT")
      then pure (hands farewell)
      else begin_word again (match_word line_in)

  begin_loop : ℕ → Exec W Begun
  begin_loop zero = lift stalled
  begin_loop (suc rounds) =
      let again = begin_loop rounds in
      (do line_in ← parse_common_opts S O true; begin_line again line_in)

  -- The loop up to START.
  unfoldable pub begin : Exec W Begun
  unfolding begin_loop begin_line begin_word
  begin w = begin_loop (suc w.writes) w

  -- The parent: SHUNT.start(), and on its error the end of the child.
  parent_end : ℕ → Outcome (Unit {0}) → Exec W Next
  parent_end child (returned u) = pure (go_on "MARSHALL")
  parent_end child (raised (runtime_error detail)) = do
    found ← kill (pos child) sigkill
    expect_process found (fail_with 451 (strip detail))
  parent_end child (raised e) = raise e
  parent_end child stalled = lift stalled

  unfoldable pub parent_run : ℕ → Exec W Next
  unfolding parent_end
  parent_run child w = let (r, w') = on_shunt S.start w in parent_end child r w'

  child_word : ℕ → Option Text → Exec W ChildEnd
  child_word ppid none = do reply 500 []; pure loops
  child_word ppid (some cmd) =
      if text_eq cmd (codes "STOP")
      then (do found ← kill (pos ppid) sigusr1; expect_process found exits)
      else pure (returns (go_on "MARSHALL"))

  child_line : ℕ → Text → Exec W ChildEnd
  child_line ppid line_in =
      if text_eq line_in (codes "ABORT")
      then (do found ← kill (pos ppid) sigint; expect_process found exits)
      else if text_eq line_in (codes "QUIT")
      then pure (returns farewell)
      else child_word ppid (match_word line_in)

  -- The child of the process `ppid`.
  unfoldable pub child_run : ℕ → Exec W ChildEnd
  unfolding child_line child_word
  child_run ppid = do line_in ← parse_common_opts S O true; child_line ppid line_in
