-- ===== src/Daemon/Listen/Sound.antt =====
-- The state LISTEN keeps the invariant of the daemon's states, and ends.
use ipbench.Prelude.{
  ℕ, zero, suc, ◌<◌, ◌^◌, ◌≡◌, Bool, true, false, ltb, Option, none, some, [], ◌∷◌, inl, arith,
}
use ipbench.Python.Text.{Text, codes, text_eq, upper}
use ipbench.Python.Exec.{Exec}
use ipbench.Python.Exec.Ensures.{Ensures, Ensures-pure, Ensures-if, Ensures-bind}
use ipbench.Daemon.TestStatus.{is_running, running}
use ipbench.Daemon.TestStatus.RoundTrip.{Holds}
use ipbench.Daemon.Shunt.{Shunt}
use ipbench.Daemon.World.{Os, World, on_status}
use ipbench.Daemon.World.Keeps.{
  Has, reply-Ensures, on_status-Ensures, is_running-Ensures, running-Ensures,
}
use ipbench.Daemon.Commands.{match_not_spaces}
use ipbench.Daemon.Common.{Cargo, Next}
use ipbench.Daemon.Common.Keeps.{after_write, refuse-Ensures, on_line-Ensures}
use ipbench.Daemon.Invariant.{Inv, HandsOn}
use ipbench.Daemon.Listen.{hello_when, hello, listen_line, listen_loop, listen}

module _ (S : Shunt) (O : Os) (target : Bool) (pid q : ℕ) (small : pid < 10 ^ 19) where
  hello_when-Ensures :
      (k : ℕ) (busy : Bool)
      → busy ≡ ltb 0 q
      → Ensures {S = World S O} (Has (Holds q) k) (hello_when S O target pid busy) (HandsOn q pid 5)
  unfolding hello_when upper
  hello_when-Ensures k true e = Ensures-pure _ (λ w h. (h.0, omega arith))
  hello_when-Ensures k false e =
      after_write (Holds q) k _ _ (reply-Ensures (Holds q) k 200 (codes "Ready to go" ∷ [])) (
        Ensures-bind (on_status (running pid)) _
          (on_status-Ensures (Holds q) k (running pid) (running-Ensures pid q small))
          (λ _. Ensures-pure _ (λ w h. ((ground arith, h.0), omega arith))))

  hello-Ensures :
      (k : ℕ) → Ensures {S = World S O} (Has (Holds q) k) (hello S O target pid) (HandsOn q pid 5)
  unfolding hello
  hello-Ensures k =
      Ensures-bind (on_status is_running) _
        (on_status-Ensures (Holds q) k is_running (is_running-Ensures q))
        (λ busy. record { from = λ w h. (hello_when-Ensures k busy h.0.1).from w (h.0.0, h.1) })

  listen_line-Ensures :
      (k : ℕ) (again : Exec (World S O) Next) (cmd : Option Text)
      → ((j : ℕ) → j < k → Ensures {S = World S O} (Has (Holds q) j) again (HandsOn q pid 5))
      → Ensures (Has (Holds q) k) (listen_line S O target pid again cmd) (HandsOn q pid 5)
  unfolding listen_line
  listen_line-Ensures k again none ih = refuse-Ensures (Holds q) k again ih
  listen_line-Ensures k again (some cmd) ih =
      Ensures-if (text_eq cmd (codes "HELLO")) _ _ (λ _. hello-Ensures k)
        (λ _. refuse-Ensures (Holds q) k again ih)

  listen_loop-Ensures :
      (rounds k : ℕ)
      → k < rounds
      → Ensures {S = World S O}
          (Has (Holds q) k)
          (listen_loop S O target pid rounds)
          (HandsOn q pid 5)
  unfolding listen_loop upper
  listen_loop-Ensures zero k h = absurd (omega arith)
  listen_loop-Ensures (suc rounds) k h =
      on_line-Ensures S O target q k _ (λ w p. (inl p.0, omega arith))
        (λ w p. ((q, p.0), omega arith))
        (λ line.
          listen_line-Ensures k (listen_loop S O target pid rounds) (match_not_spaces line)
            (λ j lt. listen_loop-Ensures rounds j (omega arith)))

  pub listen-Sound :
      (cargo : Cargo)
      → Ensures {S = World S O}
          (Inv q pid (codes "LISTEN") cargo)
          (listen S O target pid cargo)
          (HandsOn q pid 5)
  unfolding listen
  listen-Sound cargo = record {
    from =
        λ w h. (listen_loop-Ensures (suc w.writes) w.writes (omega arith)).from w (h, omega arith);
  }
