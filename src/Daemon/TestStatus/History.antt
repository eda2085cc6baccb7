-- ===== src/Daemon/TestStatus/History.antt =====
-- Any sequence of `running` and `not_running` calls on the shared mapping.
use ipbench.Prelude.{
  ℕ, ◌^◌, ◌<◌, ◌≡◌, refl, subst, Bool, List, [], ◌∷◌, arith, ltb, pos, ℤ, All, length, replicate,
}
use ipbench.Python.Outcome.{returned}
use ipbench.Python.Exec.{Exec, pure, ◌>>=◌, ◌>>◌}
use ipbench.Daemon.TestStatus.{TestStatus, init, running, not_running, is_running, running_pid}
use ipbench.Daemon.TestStatus.RoundTrip.{
  image, held, Holds, Holds-held, write_pid-held, clear_pid-held, read_pid_of_Holds, init-held,
}

pub data Update : Type 0 where
  run : ℕ → Update
  clear : Update

abbrev pub perform : Update → Exec TestStatus (Unit {0})
perform (run p) = running p
perform clear = not_running

unfoldable pub perform_all : List Update → Exec TestStatus (Unit {0})
perform_all [] = pure tt
perform_all (u ∷ us) = do perform u; perform_all us

-- The id that the last of the calls leaves.
abbrev pub latest : ℕ → List Update → ℕ
latest p [] = p
latest p (run q ∷ us) = latest q us
latest p (clear ∷ us) = latest 0 us

-- The id of a call has at most 19 digits.
abbrev pub Fits : Update → Type 0
Fits (run p) = p < 10 ^ 19
Fits clear = Unit

-- The calls, and then the two questions that the daemon asks.
unfoldable pub ask_after : List Update → Exec TestStatus (Bool × ℤ)
ask_after us = do perform_all us; b ← is_running; p ← running_pid; pure (b, p)

pub running_lem :
    (p q : ℕ) (st : TestStatus)
    → Holds q st
    → p < 10 ^ 19
    → (st' : TestStatus) × (running p st ≡ (returned tt, st')) × Holds p st'
unfolding running
running_lem p q st h small =
    let size : length (image q h.rest).mem ≡ 20 = subst (λ s. length s.mem ≡ 20) h.shape h.size in
    (
      held p (image q h.rest).mem,
      rw h.shape (write_pid-held p _ small size),
      Holds-held p _ small size,
    )

pub not_running_lem :
    (q : ℕ) (st : TestStatus)
    → Holds q st
    → (st' : TestStatus) × (not_running st ≡ (returned tt, st')) × Holds 0 st'
unfolding not_running
not_running_lem q st h =
    let size : length (image q h.rest).mem ≡ 20 = subst (λ s. length s.mem ≡ 20) h.shape h.size in
    (held 0 (image q h.rest).mem, rw h.shape (clear_pid-held _), Holds-held 0 _ (omega arith) size)

pub is_running_lem :
    (p : ℕ) (st : TestStatus) → Holds p st → is_running st ≡ (returned (ltb 0 p), st)
unfolding is_running
is_running_lem p st h = rw (read_pid_of_Holds p st h, is_running)

pub running_pid_lem :
    (p : ℕ) (st : TestStatus) → Holds p st → running_pid st ≡ (returned (pos p), st)
unfolding running_pid
running_pid_lem p st h = read_pid_of_Holds p st h

perform_all_lem :
    (us : List Update) (p : ℕ) (st : TestStatus)
    → Holds p st
    → All Fits us
    → (st' : TestStatus) × (perform_all us st ≡ (returned tt, st')) × Holds (latest p us) st'
unfolding perform_all
perform_all_lem [] p st h fit = (st, refl, h)
perform_all_lem (run q ∷ us) p st h (small, fit) =
    let (st₁, e, h₁) = running_lem q p st h small in
    let (st₂, f, h₂) = perform_all_lem us q st₁ h₁ fit in (st₂, rw e f, h₂)
perform_all_lem (clear ∷ us) p st h (_, fit) =
    let (st₁, e, h₁) = not_running_lem p st h in
    let (st₂, f, h₂) = perform_all_lem us 0 st₁ h₁ fit in (st₂, rw e f, h₂)

-- After any calls, from the mapping that `__init__` leaves, `is_running` and `running_pid` answer by
-- the last call alone: the id that was written last, or none once it was cleared.
pub ask_after_lem :
    (us : List Update)
    → All Fits us
    → (ask_after us init.1).0 ≡ returned (ltb 0 (latest 0 us), pos (latest 0 us))
unfolding ask_after
ask_after_lem us fit =
    let (st, e, h) =
      perform_all_lem us 0 (held 0 (replicate 20 0)) (Holds-held 0 _ (omega arith) refl) fit in
    rw (init-held, e, is_running_lem _ st h, running_pid_lem _ st h)
