-- ===== src/Daemon/Listen.antt =====
-- The state LISTEN: the method `listen` of `IpbenchClient` in ipbench2/src/ipbenchd.py.
pub mod Sound
pub mod Overlap
pub mod Silent
pub mod Readable
use ipbench.Prelude.{ℕ, zero, suc, Bool, true, false, Option, none, some, [], ◌∷◌, if◌then◌else◌}
use ipbench.Python.Text.{Text, codes, text_eq}
use ipbench.Python.Outcome.{stalled}
use ipbench.Python.Exec.{Exec, pure, lift, ◌>>=◌, ◌>>◌}
use ipbench.Daemon.TestStatus.{is_running, running}
use ipbench.Daemon.Shunt.{Shunt}
use ipbench.Daemon.World.{Os, World, reply, on_status}
use ipbench.Daemon.Commands.{match_not_spaces}
use ipbench.Daemon.Common.{Cargo, Next, go_on, fail_with, on_line, refuse}

module _ (S : Shunt) (O : Os) (target : Bool) (pid : ℕ) where
  abbrev W : Type 0
  W = World S O

  pub hello_when : Bool → Exec W Next
  hello_when true = pure (fail_with 421 (codes "Already Running"))
  hello_when false = do
    reply 200 (codes "Ready to go" ∷ [])
    on_status (running pid)
    pure (go_on "SETUP")

  pub hello : Exec W Next
  hello = do busy ← on_status is_running; hello_when busy

  listen_line : Exec W Next → Option Text → Exec W Next
  listen_line again none = refuse S O again
  listen_line again (some cmd) = if text_eq cmd (codes "HELLO") then hello else refuse S O again

  -- Each round that goes on has sent a reply, so there are no more rounds than writes.
  listen_loop : ℕ → Exec W Next
  listen_loop zero = lift stalled
  listen_loop (suc rounds) =
      let again = listen_loop rounds in
      on_line S O target (λ line_in. listen_line again (match_not_spaces line_in))

  unfoldable pub listen : Cargo → Exec W Next
  unfolding listen_loop listen_line hello hello_when
  listen cargo w = listen_loop (suc w.writes) w
