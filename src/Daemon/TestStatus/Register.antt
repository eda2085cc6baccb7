-- ===== src/Daemon/TestStatus/Register.antt =====
-- What the shared mapping of ipbench2/src/ipbenchd.py promises: a register that holds one number.
use ipbench.Prelude.{
  inr, ◌∙◌, ap, ltb→lt, inl, Bool-cases, ℕ, ◌+◌, ◌^◌, ◌≤◌, ◌≡◌, refl, subst, Bool, false, List, [],
  ◌∷◌, ◌++◌, arith, ltb, leb, pos, ℤ, length, length-append, if◌then◌else◌,
}
use ipbench.Python.Number.{decimal}
use ipbench.Python.Number.RoundTrip.{decimal-length}
use ipbench.Python.Outcome.{Outcome, returned, raised, value_error}
use ipbench.Python.Exec.{Exec, pure, ◌>>=◌, ◌>>◌}
use ipbench.Daemon.TestStatus.{TestStatus, write_pid, running, not_running, is_running, running_pid}
use ipbench.Daemon.TestStatus.RoundTrip.{Holds, image, encode-decimal}
use ipbench.Daemon.TestStatus.History.{
  running_lem, not_running_lem, is_running_lem, running_pid_lem,
}

pub data Call : Type 0 where
  marks : ℕ → Call
  clears asks names : Call

pub data Answer : Type 0 where
  done : Answer
  says : Bool → Answer
  id_is : ℤ → Answer

-- A call of the class.
unfoldable pub respond : Call → Exec TestStatus Answer
respond (marks p) = do running p; pure done
respond clears = do not_running; pure done
respond asks = do b ← is_running; pure (says b)
respond names = do p ← running_pid; pure (id_is p)

-- The same call of a register: a number of more than 19 digits is refused.
abbrev pub register : Call → ℕ → Outcome Answer × ℕ
register (marks p) q = if ltb p (10 ^ 19) then (returned done, p) else (raised value_error, q)
register clears q = (returned done, 0)
register asks q = (returned (says (ltb 0 q)), q)
register names q = (returned (id_is (pos q)), q)

-- The answers to calls one behind the other; an exception of one does not keep others from calling.
abbrev pub trace :
    {S : Type 0} → (Call → S → Outcome Answer × S) → List Call → S → List (Outcome Answer) × S
trace f [] s = ([], s)
trace f (c ∷ cs) s = let (r, s') = f c s in let (rs, s'') = trace f cs s' in (r ∷ rs, s'')

-- An id of 20 digits or more does not fit.
pub running_refused :
    (p q : ℕ) (st : TestStatus) → Holds q st → 10 ^ 19 ≤ p → running p st ≡ (raised value_error, st)
unfolding running write_pid
running_refused p q st h large =
    let size : length (image q h.rest).mem ≡ 20 = subst (λ s. length s.mem ≡ 20) h.shape h.size in
    let e : leb (0 + length (decimal p ++ b'\n' ∷ [])) (length (image q h.rest).mem) ≡ false =
      ground (arith, length-append (decimal p) (b'\n' ∷ []), decimal-length p 19 large) in
    rw (h.shape, encode-decimal p, e) refl

respond-marks :
    (p q : ℕ) (st : TestStatus)
    → Holds q st
    → ((respond (marks p) st).0 ≡ (register (marks p) q).0)
      × Holds (register (marks p) q).1 (respond (marks p) st).1
unfolding respond
respond-marks p q st h = elim (Bool-cases (ltb p (10 ^ 19))) [
  | inl small ↦
      let (st', e, h') = running_lem p q st h (ltb→lt p (10 ^ 19) small) in rw (small, e) (refl, h')
  | inr large ↦ let e = running_refused p q st h (ground arith) in rw (large, e) (refl, h)
]

-- A call of the class answers as the register does, and leaves the mapping with the register's
-- number.
respond_lem :
    (c : Call) (q : ℕ) (st : TestStatus)
    → Holds q st
    → ((respond c st).0 ≡ (register c q).0) × Holds (register c q).1 (respond c st).1
unfolding respond
respond_lem (marks p) q st h = respond-marks p q st h
respond_lem clears q st h = let (st', e, h') = not_running_lem q st h in rw e (refl, h')
respond_lem asks q st h = rw (is_running_lem q st h) (refl, h)
respond_lem names q st h = rw (running_pid_lem q st h) (refl, h)

-- Calls of `running`, `not_running`, `is_running` and `running_pid`, any number of them and in any
-- order, answer on a mapping that holds an id exactly as on a register with that number, refusals
-- of ids that do not fit included, and leave the mapping, still of 20 bytes, with the number of the
-- register.
pub trace-respond :
    (calls : List Call) (q : ℕ) (st : TestStatus)
    → Holds q st
    → ((trace respond calls st).0 ≡ (trace register calls q).0)
      × Holds (trace register calls q).1 (trace respond calls st).1
trace-respond [] q st h = (refl, h)
trace-respond (c ∷ cs) q st h =
    let (e, h') = respond_lem c q st h in
    let (es, h'') = trace-respond cs (register c q).1 (respond c st).1 h' in
    (
      ap (λ r. r ∷ (trace respond cs (respond c st).1).0) e
          ∙ ap (λ (rs : List (Outcome Answer)). (register c q).0 ∷ rs) es,
      h'',
    )
