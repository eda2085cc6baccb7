-- ===== src/Daemon/Finish/Sound.antt =====
-- The states MARSHALL, ERROR and ABORT keep the invariant of the daemon's states, and end.
use ipbench.Prelude.{
  ◌∙◌, ℕ, ◌≡◌, refl, Bool, true, false, ltb, [], ◌∷◌, inl, inr, arith, ◌==◌, ℤ, pos, is, Bool-cases,
  ==_iff, subst, sym, ◌⊎◌,
}
use ipbench.Python.Text.{Text, Bytes, codes, upper}
use ipbench.Python.Exec.Ensures.{
  Ensures, Ensures-pure, Ensures-raise, Ensures-if, Ensures-bind, Ensures_after,
}
use mathlib.Core.Bool.{false≢true}
use ipbench.Daemon.TestStatus.{TestStatus, is_running, not_running, running_pid}
use ipbench.Daemon.TestStatus.RoundTrip.{Holds}
use ipbench.Daemon.Shunt.{Shunt}
use ipbench.Daemon.World.{Os, World, kill, on_status, on_shunt, sigint, sigkill}
use ipbench.Daemon.World.Keeps.{
  Has, reply-Ensures, send-Ensures, write-Ensures, kill-Ensures, on_status-Ensures,
  is_running-Ensures, running_pid-Ensures, not_running-Ensures,
}
use ipbench.Daemon.Common.{Cargo, one, error_cargo}
use ipbench.Daemon.Common.Keeps.{after_write, try_plugin-Ensures}
use ipbench.Daemon.Invariant.{Inv, HandsOn, Answers}
use ipbench.Daemon.Finish.{
  deliver, marshall, release, error, kill_again, interrupted, abort_when, abort,
}

module _ (S : Shunt) (O : Os) (pid q : ℕ) (none_ran : q ≡ 0) where
  deliver-Ensures :
      (k : ℕ) (r : ℤ × Bytes)
      → Ensures {S = World S O} (Has (Holds pid) k) (deliver S O r) (HandsOn q pid 2)
  unfolding deliver upper
  deliver-Ensures k (valid, content) =
      after_write (Holds pid) k _ _
        (Ensures-if (is valid 0) _ _ (λ _. reply-Ensures (Holds pid) k 220 _)
          (λ _. reply-Ensures (Holds pid) k 221 _))
        (after_write (Holds pid) k _ _ (send-Ensures (Holds pid) k _) (
          after_write (Holds pid) k _ _ (write-Ensures (Holds pid) k content) (
            Ensures-bind (on_status not_running) _
              (on_status-Ensures (Holds pid) k not_running (not_running-Ensures pid))
              (λ _. Ensures-pure _ (λ w p. (inr p.0, omega arith))))))

  marshall_entered :
      Answers S
      → (k : ℕ) (cargo : Cargo)
      → Ensures {S = World S O} (Has (Holds pid) k) (marshall S O cargo) (HandsOn q pid 2)
  unfolding marshall upper on_shunt
  marshall_entered answers k cargo =
      try_plugin-Ensures (Holds pid) k (on_shunt S.marshall) _
        (record { status = λ w. refl; writes = λ w. refl; ended = λ w. answers.marshall w.shunt })
        (deliver-Ensures k) (λ detail w p. ((pid, p.0), omega arith))

pub marshall-Sound :
    (S : Shunt) (O : Os) (answers : Answers S) (pid q : ℕ) (cargo : Cargo)
    → Ensures {S = World S O}
        (Inv q pid (codes "MARSHALL") cargo)
        (marshall S O cargo)
        (HandsOn q pid 2)
marshall-Sound S O answers pid q cargo = record {
  from = λ w h. (marshall_entered S O pid q h.0 answers w.writes cargo).from w (h.1, omega arith);
}

-- The status holds the id that was there before the session, or none.
abbrev Settled : ℕ → TestStatus → Type 0
Settled q st = Holds q st ⊎ Holds 0 st

module _ (S : Shunt) (O : Os) (pid q : ℕ) where
  release-Ensures :
      (k code p : ℕ)
      → (code ≡ 421 → p ≡ q)
      → Ensures {S = World S O} (Has (Holds p) k) (release S O code) (λ _. Has (Settled q) k)
  release-Ensures k code p same =
      Ensures-if (code == 421) _ _
        (λ e.
          Ensures-pure _
            (λ w h. (inl (subst (λ n. Holds n w.status) (same ((==_iff code 421).0 e)) h.0), h.1)))
        (λ _.
          Ensures_after _ (on_status-Ensures (Holds p) k not_running (not_running-Ensures p))
            (λ _ w h. (inr h.0, h.1)))

  error_entered :
      (k code p : ℕ) (msg : Text)
      → (code ≡ 421 → p ≡ q)
      → Ensures {S = World S O}
          (Has (Holds p) k)
          (error S O (error_cargo code msg))
          (HandsOn q pid 1)
  unfolding error upper
  error_entered k code p msg same =
      Ensures-bind (release S O code) _ (release-Ensures k code p same) (λ _.
        after_write (Settled q) k _ _ (reply-Ensures (Settled q) k code (msg ∷ []))
          (Ensures-pure _ (λ w h. (h.0, omega arith))))

  pub error-Sound :
      (cargo : Cargo)
      → Ensures {S = World S O}
          (Inv q pid (codes "ERROR") cargo)
          (error S O cargo)
          (HandsOn q pid 1)
  unfolding error
  error-Sound one = Ensures-raise _
  error-Sound (error_cargo code msg) = elim (Bool-cases (code == 421)) [
    | inl busy ↦ record {
      from =
          λ w h. (error_entered w.writes code q msg (λ _. refl)).from w (rw busy at h, omega arith);
    }
    | inr other ↦ record {
      from = λ w h.
          let held : (p : ℕ) × Holds p w.status = rw other at h in
          (error_entered w.writes code held.0 msg
              (λ e. absurd (false≢true (sym other ∙ (==_iff code 421).1 e)))).from
            w (held.1, omega arith);
    }
  ]

  kill_again-Ensures :
      (k : ℕ) (p : ℤ)
      → Ensures {S = World S O} (Has (Holds q) k) (kill_again S O pid p) (HandsOn q pid 1)
  unfolding kill_again upper
  kill_again-Ensures k p =
      Ensures-bind (kill p sigkill) _ (kill-Ensures (Holds q) k p sigkill)
        (λ _. Ensures-pure _ (λ w h. (inl h.0, omega arith)))

  interrupted-Ensures :
      (k p : ℕ) (found : Bool)
      → (p ≡ q) ⊎ ((q ≡ 0) × (p ≡ pid))
      → Ensures {S = World S O}
          (Has (Holds p) k)
          (interrupted S O pid (pos p) found)
          (HandsOn q pid 1)
  unfolding interrupted
  interrupted-Ensures k p false origin =
      Ensures-bind (on_status not_running) _
        (on_status-Ensures (Holds p) k not_running (not_running-Ensures p))
        (λ _. Ensures-pure _ (λ w h. tt))
  interrupted-Ensures k p true origin =
      Ensures-if (is (pos p) pid) _ _ (λ _. Ensures-raise _)
        (λ other. record {
          from = λ w h.
              let e : p ≡ q = ground arith in
              (kill_again-Ensures k (pos p)).from w (subst (λ n. Holds n w.status) e h.0, h.1);
        })

  abort_when-Ensures :
      (k p : ℕ) (busy : Bool)
      → busy ≡ ltb 0 p
      → (p ≡ q) ⊎ ((q ≡ 0) × (p ≡ pid))
      → Ensures {S = World S O} (Has (Holds p) k) (abort_when S O pid busy) (HandsOn q pid 1)
  unfolding abort_when upper
  abort_when-Ensures k p false idle origin = record {
    from = λ w h. (inr (subst (λ n. Holds n w.status) (ground arith) h.0), omega arith);
  }
  abort_when-Ensures k p true busy origin =
      Ensures-bind (on_status running_pid) _
        (on_status-Ensures (Holds p) k running_pid (running_pid-Ensures p))
        (λ a. record {
          from = λ w h. rw h.0.1 (
              (Ensures-bind (kill (pos p) sigint) _ (kill-Ensures (Holds p) k (pos p) sigint)
                  (λ found. interrupted-Ensures k p found origin)).from
                w (h.0.0, h.1));
        })

  abort_entered :
      (k p : ℕ) (cargo : Cargo)
      → (p ≡ q) ⊎ ((q ≡ 0) × (p ≡ pid))
      → Ensures {S = World S O} (Has (Holds p) k) (abort S O pid cargo) (HandsOn q pid 1)
  unfolding abort
  abort_entered k p cargo origin =
      Ensures-bind (on_status is_running) _
        (on_status-Ensures (Holds p) k is_running (is_running-Ensures p))
        (λ busy. record {
          from = λ w h. (abort_when-Ensures k p busy h.0.1 origin).from w (h.0.0, h.1);
        })

  pub abort-Sound :
      (cargo : Cargo)
      → Ensures {S = World S O}
          (Inv q pid (codes "ABORT") cargo)
          (abort S O pid cargo)
          (HandsOn q pid 1)
  abort-Sound cargo = record {
    from = λ w h. elim h [
      | inl before ↦ (abort_entered w.writes q cargo (inl refl)).from w (before, omega arith)
      | inr mine ↦
          (abort_entered w.writes pid cargo (inr (mine.0, refl))).from w (mine.1, omega arith)
    ];
  }
