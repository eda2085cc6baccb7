-- ===== src/Daemon/World/Keeps.antt =====
-- What the parts of the handlers do to the shared status and to the writes that are left.
use ipbench.Prelude.{
  ℕ, zero, suc, ◌≤◌, ◌<◌, ◌^◌, ◌≡◌, refl, ℤ, pos, ltb, Option, none, some, List, [], ◌∷◌,
  Option-cases, inl, inr,
}
use ipbench.Python.Text.{Text, Bytes}
use ipbench.Python.Codec.{decode}
use ipbench.Python.Outcome.{Outcome, stalled, unicode_error}
use ipbench.Python.Exec.{resume, Exec}
use ipbench.Python.Exec.Ensures.{
  Ensures, Meets, Ensures-lift, Meets-ended, Meets-or_raise, Meets-mono,
}
use ipbench.Daemon.Status.{str_status, name_of, err_codes}
use ipbench.Daemon.TestStatus.{TestStatus, is_running, running_pid, running, not_running}
use ipbench.Daemon.TestStatus.RoundTrip.{Holds}
use ipbench.Daemon.TestStatus.History.{
  is_running_lem, running_pid_lem, running_lem, not_running_lem,
}
use ipbench.Daemon.Shunt.{Shunt}
use ipbench.Daemon.World.{
  raised, returned, Os, World, Signal, write_when, read_when, kill_when, write, send, reply,
  readline, on_status, on_shunt, kill,
}

-- The four questions to the status, from a mapping that holds an id.
pub is_running-Ensures : (q : ℕ) → Ensures (Holds q) is_running (λ b st. Holds q st × (b ≡ ltb 0 q))
is_running-Ensures q = record { from = λ st h. rw (is_running_lem q st h) (h, refl) }

pub running_pid-Ensures : (q : ℕ) → Ensures (Holds q) running_pid (λ p st. Holds q st × (p ≡ pos q))
running_pid-Ensures q = record { from = λ st h. rw (running_pid_lem q st h) (h, refl) }

pub running-Ensures : (p q : ℕ) → p < 10 ^ 19 → Ensures (Holds q) (running p) (λ _. Holds p)
running-Ensures p q small = record {
  from = λ st h. let (st', e, h') = running_lem p q st h small in rw e h';
}

pub not_running-Ensures : (q : ℕ) → Ensures (Holds q) not_running (λ _. Holds 0)
not_running-Ensures q = record {
  from = λ st h. let (st', e, h') = not_running_lem q st h in rw e h';
}

str_status_ended : (code : ℕ) (msg : List Text) → str_status code msg ≡ stalled → ⊥
unfolding str_status
str_status_ended code msg = elim (Option-cases (name_of code err_codes)) [
  | inl unknown ↦ rw (unknown, str_status) (λ e. cc)
  | inr (name, known) ↦ rw (known, str_status) (λ e. cc)
]

module _ {S : Shunt} {O : Os} where
  -- The status meets `X`, and at most `k` writes are left.
  abbrev pub Has : (TestStatus → Type 0) → ℕ → World S O → Type 0
  Has X k w = X w.status × (w.writes ≤ k)

  -- A write was made: fewer than `k` are left.
  abbrev pub Spent : (TestStatus → Type 0) → ℕ → World S O → Type 0
  Spent X k w = X w.status × (w.writes < k)

module _ {S : Shunt} {O : Os} (X : TestStatus → Type 0) (k : ℕ) where
  write_when-Meets :
      (n : ℕ) (bs : Bytes) (w : World S O)
      → X w.status
      → n ≤ k
      → Meets (λ _. Spent X k) (write_when n bs w).0 (write_when n bs w).1
  write_when-Meets zero bs w hx le = tt
  write_when-Meets (suc n) bs w hx le = (hx, le)

  read_when-Meets :
      (lines : List Bytes) (w : World S O)
      → Has X k w
      → Meets (λ _. Has X k) (read_when lines w).0 (read_when lines w).1
  read_when-Meets [] w h = h
  read_when-Meets (line ∷ rest) w h =
      Meets-or_raise (λ _. Has X k) unicode_error (decode line) _ (λ _. h)

  kill_when-Meets :
      (t : Option O.Table) (w : World S O)
      → Has X k w
      → Meets (λ _. Has X k) (kill_when t w).0 (kill_when t w).1
  kill_when-Meets none w h = h
  kill_when-Meets (some t) w h = h

  pub write-Ensures : (bs : Bytes) → Ensures {S = World S O} (Has X k) (write bs) (λ _. Spent X k)
  unfolding write
  write-Ensures bs = record { from = λ w h. write_when-Meets w.writes bs w h.0 h.1 }

  pub send-Ensures : (msg : Text) → Ensures {S = World S O} (Has X k) (send msg) (λ _. Spent X k)
  unfolding send
  send-Ensures msg = write-Ensures _

  pub reply-Ensures :
      (code : ℕ) (msg : List Text)
      → Ensures {S = World S O} (Has X k) (reply code msg) (λ _. Spent X k)
  unfolding reply
  reply-Ensures code msg =
      Ensures-lift (str_status code msg) _ (str_status_ended code msg) (λ line e. send-Ensures line)

  pub readline-Ensures : Ensures {S = World S O} (Has X k) readline (λ _. Has X k)
  unfolding readline
  readline-Ensures = record { from = λ w h. read_when-Meets w.input w h }

  pub kill-Ensures :
      (p : ℤ) (sig : Signal) → Ensures {S = World S O} (Has X k) (kill p sig) (λ _. Has X k)
  unfolding kill
  kill-Ensures p sig = record { from = λ w h. kill_when-Meets (O.kill p sig w.processes) w h }

  pub on_shunt-Ensures :
      {A : Type 0} (m : Exec S.State A)
      → ((s : S.State) → (m s).0 ≡ stalled → ⊥)
      → Ensures {S = World S O} (Has X k) (on_shunt m) (λ _. Has X k)
  unfolding on_shunt
  on_shunt-Ensures m ends = record {
    from = λ w h. Meets-ended (λ _. Has X k) (m w.shunt).0 _ (ends w.shunt) (λ a e. h);
  }

  pub on_status-Ensures :
      {A : Type 0} {Y : A → TestStatus → Type 0} (m : Exec TestStatus A)
      → Ensures X m Y
      → Ensures {S = World S O} (Has X k) (on_status m) (λ a. Has (Y a) k)
  unfolding on_status
  on_status-Ensures {Y} m hm = record {
    from = λ w h.
        Meets-mono Y (λ a. Has (Y a) k) (m w.status).0 (m w.status).1 _ (hm.from w.status h.0)
          (λ a y. (y, h.1));
  }

module _ {S : Shunt} {O : Os} (w : World S O) where
  status-write_when : (n : ℕ) (bs : Bytes) → (write_when n bs w).1.status ≡ w.status
  status-write_when zero bs = refl
  status-write_when (suc n) bs = refl

  -- Output leaves the status alone, also where it raises.
  status-send : (msg : Text) → (send msg w).1.status ≡ w.status
  unfolding send write
  status-send msg = status-write_when w.writes _

  status-resume : (r : Outcome Text) → (resume r (λ line. send line) w).1.status ≡ w.status
  status-resume (returned line) = status-send line
  status-resume (raised e) = refl
  status-resume stalled = refl

  pub status-reply : (code : ℕ) (msg : List Text) → (reply code msg w).1.status ≡ w.status
  unfolding reply
  status-reply code msg = status-resume (str_status code msg)
