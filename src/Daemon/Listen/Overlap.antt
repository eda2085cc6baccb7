-- ===== src/Daemon/Listen/Overlap.antt =====
-- HELLO of two sessions, whose processes share the status: what `listen` asks and what it writes are
-- two calls, between which the other session may go on.
use ipbench.Prelude.{
  subst, sym, ◌∙◌, ap, ℕ, suc, ◌<◌, ◌^◌, ◌≡◌, refl, true, false, ◌++◌, Bool, lt→ltb,
}
use ipbench.Python.Text.{codes}
use ipbench.Python.Number.{decimal}
use ipbench.Python.Codec.{encode}
use ipbench.Python.Outcome.{Outcome, returned}
use ipbench.Python.Exec.{resume}
use ipbench.Daemon.TestStatus.{TestStatus, is_running, running}
use ipbench.Daemon.TestStatus.RoundTrip.{Holds}
use ipbench.Daemon.TestStatus.History.{is_running_lem, running_lem}
use ipbench.Daemon.Status.{str_status}
use ipbench.Daemon.Shunt.{Shunt}
use ipbench.Daemon.World.{Os, World, reply, on_status}
use ipbench.Daemon.Common.{Next, go_on, fail_with}
use ipbench.Daemon.Listen.{hello, hello_when}

-- What two sessions come to, and the status.
abbrev pub Answers : Type 0
Answers = Outcome Next × Outcome Next × TestStatus

module _ {S : Shunt} {O : Os} where
  -- A session's world with the status as the other session left it.
  abbrev pub sharing : World S O → World S O → World S O
  sharing other w = record w { status = other.status }

  -- Both sessions ask before either answers; then the first answers, and then the second.
  abbrev pub overlapping : ℕ → ℕ → World S O → World S O → Answers
  overlapping p q v w =
      let (a, v₁) = on_status is_running v in
      let (b, w₁) = on_status is_running (sharing v₁ w) in
      let (x, v₂) = resume a (hello_when S O true p) (sharing w₁ v₁) in
      let (y, w₂) = resume b (hello_when S O true q) (sharing v₂ w₁) in (x, y, w₂.status)

  -- One session after the other.
  abbrev pub one_by_one : ℕ → ℕ → World S O → World S O → Answers
  one_by_one p q v w =
      let (x, v₁) = hello S O true p v in
      let (y, w₁) = hello S O true q (sharing v₁ w) in (x, y, w₁.status)

  -- The world after a session's answer.
  abbrev answered : ℕ → TestStatus → World S O → World S O
  answered m st v = record v {
    output = v.output ++ codes "200 OK (Ready to go)\n";
    writes = m;
    status = st;
  }

  asks :
      (v : World S O) (b : Bool)
      → is_running v.status ≡ (returned b, v.status)
      → on_status is_running v ≡ (returned b, v)
  unfolding on_status
  asks v b e = ap (λ r. (r.0, record v { status = r.1 })) e

  answers :
      (p m : ℕ) (v : World S O) (st : TestStatus)
      → v.writes ≡ suc m
      → running p v.status ≡ (returned tt, st)
      → hello_when S O true p false v ≡ (returned (go_on "SETUP"), answered m st v)
  unfolding hello_when reply str_status on_status decimal encode
  answers p m v st more marked = rw (more, marked) refl

  hello_idle :
      (p m : ℕ) (v : World S O) (st : TestStatus)
      → v.writes ≡ suc m
      → Holds 0 v.status
      → running p v.status ≡ (returned tt, st)
      → hello S O true p v ≡ (returned (go_on "SETUP"), answered m st v)
  unfolding hello
  hello_idle p m v st more h marked =
      ap (λ (r : Outcome Bool × World S O). resume r.0 (hello_when S O true p) r.1)
        (asks v false (is_running_lem 0 v.status h))
      ∙ answers p m v st more marked

  hello_busy :
      (p q : ℕ) (v : World S O)
      → 0 < p
      → Holds p v.status
      → hello S O true q v ≡ (returned (fail_with 421 (codes "Already Running")), v)
  unfolding hello hello_when
  hello_busy p q v positive h =
      ap (λ (r : Outcome Bool × World S O). resume r.0 (hello_when S O true q) r.1)
        (asks v true (rw (← lt→ltb 0 p positive) (is_running_lem p v.status h)))

  -- Of two sessions that send HELLO to a daemon that runs no test, over sockets that take a write
  -- more: where the second asks after the first has answered, the first goes on to SETUP and the
  -- second is refused with 421, and the status holds the first's id; where both ask before either
  -- answers, both go on to SETUP, and the status holds the second's id alone. The ids are positive
  -- and have at most 19 digits.
  pub hello_lem :
      (p q m n : ℕ) (v w : World S O)
      → 0 < p
      → p < 10 ^ 19
      → q < 10 ^ 19
      → v.writes ≡ suc m
      → w.writes ≡ suc n
      → Holds 0 v.status
      → let after = one_by_one p q v w in
        let between = overlapping p q v w in
        ((after.0 ≡ returned (go_on "SETUP"))
          × (after.1 ≡ returned (fail_with 421 (codes "Already Running")))
          × Holds p after.2)
        × ((between.0 ≡ returned (go_on "SETUP"))
            × (between.1 ≡ returned (go_on "SETUP"))
            × Holds q between.2)
  hello_lem p q m n v w positive small small' more more' h =
      let (st, marked, h₁) = running_lem p 0 v.status h small in
      let (st', marked', h₂) = running_lem q p st h₁ small' in
      let idle = is_running_lem 0 v.status h in
      let v₂ = answered m st v in
      let first = hello_idle p m v st more h marked in
      let second = hello_busy p q (sharing v₂ w) positive h₁ in
      let asked = asks v false idle in
      let asked' = asks (sharing v w) false idle in
      let answer = answers p m v st more marked in
      let answer' = answers q n (sharing v₂ w) st' more' marked' in
      let after : one_by_one p q v w
          ≡ (returned (go_on "SETUP"), returned (fail_with 421 (codes "Already Running")), st) =
        rw (first, second) refl in
      let between : overlapping p q v w
          ≡ (returned (go_on "SETUP"), returned (go_on "SETUP"), st') =
        rw (asked, asked', answer, answer') refl in
      (
        (
          ap (λ (r : Answers). r.0) after,
          ap (λ (r : Answers). r.1) after,
          subst (λ (r : Answers). Holds p r.2) (sym after) h₁,
        ),
        (
          ap (λ (r : Answers). r.0) between,
          ap (λ (r : Answers). r.1) between,
          subst (λ (r : Answers). Holds q r.2) (sym between) h₂,
        ),
      )
