-- ===== src/Daemon/Handle/Total.antt =====
-- A session of the daemon always ends, and what it leaves in the shared status.
use ipbench.Prelude.{some, ℕ, ◌<◌, ◌^◌, ◌≡◌, ◌≢◌, refl, sym, subst, false, ◌⊎◌, arith, [], All}
use ipbench.Python.Text.{codes}
use ipbench.Python.Text.Search.{eq_of_text_eq}
use ipbench.Python.Outcome.{Outcome, returned, raised, stalled, exit_ok}
use ipbench.Python.Exec.Ensures.{
  Ensures-raise, Ensures-if, Ensures_after, Ensures, ended_of_Meets, post_of_Meets, Meets,
  Ensures-bind, Ensures-pure,
}
use ipbench.Daemon.Machine
use ipbench.Daemon.Machine.{insert, contains}
use ipbench.Daemon.Machine.Rule.{Sound, Ended, run_lem}
use ipbench.Daemon.TestStatus.RoundTrip.{Holds}
use ipbench.Daemon.Shunt.{Shunt}
use ipbench.Daemon.World.{Os, World, reply}
use ipbench.Daemon.World.Keeps.{Spent, status-reply, reply-Ensures}
use ipbench.Daemon.Common.{one}
use ipbench.Daemon.Invariant.{Inv, rank, Answers, Final}
use ipbench.Daemon.Listen.Sound.{listen-Sound}
use ipbench.Daemon.Setup.Sound.{setup-Sound}
use ipbench.Daemon.Run.Sound.{run-Sound}
use ipbench.Daemon.Finish.Sound.{marshall-Sound, error-Sound, abort-Sound}
use ipbench.Daemon.Handle.{
  client_machine, is_exception, greet_end, greet, session_end, session, handle,
}

pub starts :
    (S : Shunt) (O : Os) (pid : ℕ) → (client_machine S O pid).start_state ≡ some (codes "LISTEN")
unfolding client_machine
starts S O pid = refl

module _ (S : Shunt) (O : Os) (answers : Answers S) (pid q : ℕ) (small : pid < 10 ^ 19) where
  pub handlers-Sound :
      All (Sound (Inv {S = S} {O = O} q pid) rank) (client_machine S O pid).handlers
  unfolding client_machine
  handlers-Sound = (
    listen-Sound S O false pid q small,
    (
      setup-Sound S O answers false pid q,
      (
        run-Sound S O answers false pid q,
        (
          marshall-Sound S O answers pid q,
          (
            error-Sound S O pid q,
            (abort-Sound S O pid q, ((λ cargo. record { from = λ w h. tt }), tt)),
          ),
        ),
      ),
    ),
  )

  Ended-in_reset :
      (w : World S O) → Ended (Inv q pid) rank (client_machine S O pid) tt w → Final q pid w
  unfolding client_machine
  Ended-in_reset w (name, cargo, ends, h) =
      let e : codes "RESET" ≡ name = eq_of_text_eq (codes "RESET") name (ground (arith, ends)) in
      subst (λ n. Inv q pid n cargo w) (sym e) h

  session_end-Meets :
      (r : Outcome (Unit {0})) (w : World S O)
      → Meets (λ _. Final q pid) r w
      → Meets (λ _. Final q pid) (session_end S O pid r w).0 (session_end S O pid r w).1
  unfolding session_end
  session_end-Meets (returned u) w h = h
  session_end-Meets (raised e) w h =
      (Ensures-if {P = λ w. Unit {0}} {Q = λ _. Final q pid} (is_exception e) _ _
          (λ _. Ensures-raise exit_ok) (λ _. Ensures-raise e)).from
        w tt
  session_end-Meets stalled w h = h

  session-Ensures :
      Ensures {S = World S O} (λ w. Holds q w.status) (session S O pid) (λ _. Final q pid)
  unfolding session
  session-Ensures = record {
    from = λ w h.
        let m = client_machine S O pid in
        let done : Ensures {S = World S O} (Inv q pid (codes "LISTEN") one) (Machine.run 6 m one)
            (λ _. Final q pid) =
          Ensures_after _
            (run_lem (Inv q pid) rank m 6 (codes "LISTEN") one (starts S O pid) handlers-Sound
              (omega arith))
            (λ _ w e. Ended-in_reset w e) in
        session_end-Meets (Machine.run 6 m one w).0 (Machine.run 6 m one w).1 (done.from w h);
  }

  greet_end-Meets :
      (r : Outcome (Unit {0})) (w : World S O)
      → (r ≡ stalled → ⊥)
      → Holds q w.status
      → Meets (λ _ w. Holds q w.status) (greet_end S O pid r w).0 (greet_end S O pid r w).1
  unfolding greet_end
  greet_end-Meets (returned u) w ended h = h
  greet_end-Meets (raised e) w ended h =
      (Ensures-if {P = λ w. Holds q w.status} {Q = λ _ w. Holds q w.status} (is_exception e) _ _
          (λ _. Ensures-pure tt (λ w h. h)) (λ _. Ensures-raise e)).from
        w h
  greet_end-Meets stalled w ended h = ended refl

  greet-Ensures :
      Ensures {S = World S O} (λ w. Holds q w.status) (greet S O pid) (λ _ w. Holds q w.status)
  unfolding greet
  greet-Ensures = record {
    from = λ w h.
        let replied = (reply-Ensures (Holds q) w.writes 100 []).from w (h, omega arith) in
        greet_end-Meets (reply 100 [] w).0 (reply 100 [] w).1
          (ended_of_Meets (λ _. Spent (Holds q) w.writes) (reply 100 [] w).0 (reply 100 [] w).1
            replied)
          (subst (Holds q) (sym (status-reply w 100 [])) h);
  }

  -- A session that begins with a valid status is never cut off; if it returns, the status holds the
  -- id that it held before, or none.
  pub handle-Ensures :
      Ensures {S = World S O} (λ w. Holds q w.status) (handle S O pid) (λ _. Final q pid)
  unfolding handle
  handle-Ensures = Ensures-bind (greet S O pid) _ greet-Ensures (λ _. session-Ensures)

  -- With a plugin whose calls return or raise, and in a process whose id has at most 19 digits, a
  -- session that begins when the status holds `q` is never cut off by the bounds of the model,
  -- whatever the peer sends and however many writes the socket takes; and if it ends without an
  -- exception, the status holds `q`, as before, or no id.
  pub handle_status :
      (w : World S O)
      → Holds q w.status
      → ((handle S O pid w).0 ≢ stalled)
        × ((handle S O pid w).0 ≡ returned tt
            → Holds q (handle S O pid w).1.status ⊎ Holds 0 (handle S O pid w).1.status)
  handle_status w h =
      let r = handle-Ensures.from w h in
      (
        ended_of_Meets (λ _. Final q pid) (handle S O pid w).0 (handle S O pid w).1 r,
        post_of_Meets (λ _. Final q pid) (handle S O pid w).0 (handle S O pid w).1 tt r,
      )
