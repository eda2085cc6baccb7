-- ===== src/Daemon/Handle/Takeover.antt =====
-- A second connection while a test runs: QUIT and ABORT before HELLO.
use mathlib.Core.Option
use ipbench.Prelude.{
  Option-cases, inl, inr, ℕ, suc, ◌<◌, ◌≡◌, ◌≢◌, refl, false, none, some, List, [], ◌∷◌, pos, is,
  arith, lt→ltb,
}
use ipbench.Python.Text.{Text, Bytes, codes, strip}
use ipbench.Python.Codec.{encode, decode}
use ipbench.Python.Number.{decimal}
use ipbench.Python.Outcome.{returned, raised, exit_ok}
use ipbench.Daemon.Machine
use ipbench.Daemon.TestStatus.{TestStatus}
use ipbench.Daemon.TestStatus.RoundTrip.{Holds}
use ipbench.Daemon.TestStatus.History.{is_running_lem, running_pid_lem, not_running_lem}
use ipbench.Daemon.Status.{str_status}
use ipbench.Daemon.Shunt.{Shunt}
use ipbench.Daemon.World.{Os, World, reply, readline, on_status, kill, sigint, sigkill}
use ipbench.Daemon.Commands.{match_any, match_not_spaces}
use ipbench.Daemon.Common.{parse_common_opts}
use ipbench.Daemon.Listen.{listen}
use ipbench.Daemon.Finish.{error, abort}
use ipbench.Daemon.Handle.{handle}

module _ (S : Shunt) (O : Os) (pid q : ℕ) (st : TestStatus) (h : Holds q st) where
  -- A connection whose peer sends one line first.
  abbrev pub connection : Text → List Bytes → ℕ → S.State → O.Table → World S O
  connection line rest n s t = record {
    input = line ∷ rest;
    output = [];
    writes = suc (suc n);
    status = st;
    shunt = s;
    processes = t;
  }

  -- A connection that sends QUIT before HELLO, over a socket that takes two writes, returns and
  -- leaves the status without an id, whatever id it held.
  pub quit_clears :
      (rest : List Bytes) (n : ℕ) (s : S.State) (t : O.Table)
      → let r = handle S O pid (connection (codes "QUIT\n") rest n s t) in
        (r.0 ≡ returned tt) × Holds 0 r.1.status
  unfolding handle Machine.run Machine.loop Machine.next listen error parse_common_opts reply
      str_status readline decode match_any match_not_spaces strip on_status decimal encode
  quit_clears rest n s t = let (st', e, h') = not_running_lem q st h in (rw e refl, rw e h')

  -- A connection that sends HELLO while the status holds an id, over a socket that takes two writes,
  -- is answered with the greeting and 421 and returns; the status still holds that id, and the
  -- processes stay as they are.
  pub hello_refused :
      0 < q
      → (rest : List Bytes) (n : ℕ) (s : S.State) (t : O.Table)
      → let r = handle S O pid (connection (codes "HELLO\n") rest n s t) in
        (r.0 ≡ returned tt)
        × (r.1.output ≡ codes "100 IPBENCH V1.0\n421 SERVICE NOT AVAILABLE (Already Running)\n")
        × Holds q r.1.status
        × (r.1.processes ≡ t)
  unfolding handle Machine.run Machine.loop Machine.next listen error parse_common_opts reply
      str_status readline decode match_any match_not_spaces strip on_status decimal encode
  hello_refused busy rest n s t =
      let e = is_running_lem q st h in
      let f = lt→ltb 0 q busy in (rw (e, f) refl, rw (e, f) refl, rw (e, f) h, rw (e, f) refl)

  -- A connection that sends ABORT while the status holds the id of another process, to which SIGINT
  -- can be sent, sends it SIGINT and then SIGKILL (which may find no process any more), returns, and
  -- leaves the status holding that id.
  pub abort_kills :
      0 < q
      → q ≢ pid
      → (rest : List Bytes) (n : ℕ) (s : S.State) (t t' : O.Table)
      → O.kill (pos q) sigint t ≡ some t'
      → let r = handle S O pid (connection (codes "ABORT\n") rest n s t) in
        (r.0 ≡ returned tt)
        × Holds q r.1.status
        × (r.1.processes ≡ Option.get_or (O.kill (pos q) sigkill t') t')
  unfolding handle Machine.run Machine.loop Machine.next listen abort parse_common_opts reply
      str_status readline decode match_any match_not_spaces strip on_status decimal encode kill
  abort_kills busy other rest n s t t' found =
      let e = is_running_lem q st h in
      let f = lt→ltb 0 q busy in
      let g = running_pid_lem q st h in
      let d : is (pos q) pid ≡ false = ground arith in
      elim (Option-cases (O.kill (pos q) sigkill t')) [
        | inl gone ↦ (
          rw (e, f, g, found, d, gone) refl,
          rw (e, f, g, found, d, gone) h,
          rw (e, f, g, found, d, gone) refl,
        )
        | inr (t'', there) ↦ (
          rw (e, f, g, found, d, there) refl,
          rw (e, f, g, found, d, there) h,
          rw (e, f, g, found, d, there) refl,
        )
      ]

  -- A connection that sends ABORT while the status holds an id that no process has leaves the status
  -- without an id and the processes as they are, and ends with sys.exit(0).
  pub abort_clears :
      0 < q
      → (rest : List Bytes) (n : ℕ) (s : S.State) (t : O.Table) → O.kill (pos q) sigint t ≡ none
      → let r = handle S O pid (connection (codes "ABORT\n") rest n s t) in
        (r.0 ≡ raised exit_ok) × Holds 0 r.1.status × (r.1.processes ≡ t)
  unfolding handle Machine.run Machine.loop Machine.next listen abort parse_common_opts reply
      str_status readline decode match_any match_not_spaces strip on_status decimal encode kill
  abort_clears busy rest n s t gone =
      let e = is_running_lem q st h in
      let f = lt→ltb 0 q busy in
      let g = running_pid_lem q st h in
      let (st', d, h') = not_running_lem q st h in
      (rw (e, f, g, gone, d) refl, rw (e, f, g, gone, d) h', rw (e, f, g, gone, d) refl)
