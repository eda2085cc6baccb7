-- ===== src/Protocol/Target/Orders.antt =====
-- STOP in ipbench2/src/ipbenchd.py: the parent in SHUNT.start() and its child, which go on in any order.
use ipbench.Prelude.{
  ℕ, zero, suc, ◌+◌, ◌≤◌, ◌≡◌, ◌≢◌, refl, sym, subst, ◌∙◌, ap, List, [], ◌∷◌, ◌++◌, is, ℤ, arith,
  inr,
}
use ipbench.Python.Text.{Bytes, codes}
use ipbench.Python.Outcome.{returned}
use ipbench.Daemon.TestStatus.RoundTrip.{Holds}
use ipbench.Daemon.TestStatus.History.{not_running_lem}
use ipbench.Daemon.Shunt.{Shunt}
use ipbench.Daemon.Common.{one}
use ipbench.Daemon.Target.System.{
  runs, told, ended, at, starting, child_of, System, turn, Event, goes_on, schedule,
}
use ipbench.Daemon.Processes.{update, update_same, update_other}
use ipbench.Daemon.Target.Turns.{parent_waits, parent_started, rests}
use ipbench.Daemon.Target.Turns.Child.{child_stops}
use ipbench.Protocol.Results.{result_text}
use ipbench.Protocol.Target.{result_turn}

-- Which of the two goes on.
pub data Side : Type 0 where
  parent child : Side

abbrev pub turns_of : ℕ → ℕ → List Side → List Event
turns_of p c [] = []
turns_of p c (parent ∷ sides) = goes_on p ∷ turns_of p c sides
turns_of p c (child ∷ sides) = goes_on c ∷ turns_of p c sides

abbrev pub parents : List Side → ℕ
parents [] = 0
parents (parent ∷ sides) = suc (parents sides)
parents (child ∷ sides) = parents sides

-- The turns of the parent behind the first one of the child.
abbrev pub parents_after : List Side → ℕ
parents_after [] = 0
parents_after (parent ∷ sides) = parents_after sides
parents_after (child ∷ sides) = parents sides

module _ {S : Shunt} (p c : ℕ) (apart : p ≢ c) (rest : List Bytes) (out : Bytes) (n q : ℕ)
    (s s₁ s₂ : S.State) (v : ℤ) (content : Bytes) (started : S.start s ≡ (returned tt, s₁))
    (done : S.marshall s₁ ≡ (returned (v, content), s₂)) where
  pub record Unsent (w : System S) : Type 0 where
    pub alive : w.lives p ≡ told
    pub output : w.output ≡ out
    pub writes : w.writes ≡ suc (suc (suc n))
    pub status : Holds q w.status

  pub record Sent (w : System S) : Type 0 where
    pub over : w.lives p ≡ ended
    pub output : w.output ≡ out ++ result_text (is v 0) content
    pub status : Holds 0 w.status

  -- What holds after so many turns of the parent.
  abbrev pub Serves : ℕ → System S → Type 0
  Serves zero w = Unsent w × (w.places p ≡ starting c) × (w.shunts p ≡ s)
  Serves (suc zero) w = Unsent w × (w.places p ≡ at (codes "MARSHALL") one) × (w.shunts p ≡ s₁)
  Serves (suc (suc k)) w = Sent w

  -- The child has read STOP, and has ended.
  abbrev pub Over : System S → Type 0
  Over w = (w.lives c ≡ ended) × (w.input ≡ rest)

  -- What the child sees is as it was.
  abbrev Beside : System S → System S → Type 0
  Beside w w' = (w'.lives c ≡ w.lives c) × (w'.input ≡ w.input)

  -- A turn of the parent.
  parent_turn :
      (i : ℕ) (w : System S) → Serves i w → Serves (suc i) (turn S p w) × Beside w (turn S p w)
  parent_turn zero w (u, here, state) =
      let e =
        parent_started {S = S} w.input w.output w.writes w.status w.lives w.shunts w.places w.fresh
          p c s₁ u.alive here (ap (λ x. S.start x) state ∙ started) in
      subst (λ w'. Serves 1 w' × Beside w w') (sym e)
        (
          (
            record { alive = u.alive; output = u.output; writes = u.writes; status = u.status },
            update_same w.places p _,
            update_same w.shunts p s₁,
          ),
          (refl, refl),
        )
  parent_turn (suc zero) w (u, here, state) =
      let (st, cleared, h) = not_running_lem q w.status u.status in
      let e =
        ap (λ m. turn S p (record w { writes = m })) u.writes
        ∙ result_turn {S = S} w.input w.output n w.status st w.lives w.shunts w.places w.fresh p s₂
            v content (inr u.alive) here (ap (λ x. S.marshall x) state ∙ done) cleared in
      subst (λ w'. Serves 2 w' × Beside w w') (sym e)
        (
          record {
            over = update_same w.lives p ended;
            output = ap (λ (o : Bytes). o ++ result_text (is v 0) content) u.output;
            status = h;
          },
          (update_other w.lives p c _ apart, refl),
        )
  parent_turn (suc (suc k)) w sent =
      subst (λ w'. Serves (suc (suc (suc k))) w' × Beside w w') (sym (rests p w sent.over))
        (sent, (refl, refl))

  Over-Beside : (w w' : System S) → Beside w w' → Over w → Over w'
  Over-Beside w w' (l, i) (over, read) = (l ∙ over, i ∙ read)

  -- After any turns behind STOP.
  after_turns :
      (sides : List Side) (i : ℕ) (w : System S)
      → Serves i w
      → Over w
      → Serves (parents sides + i) (schedule S (turns_of p c sides) w)
        × Over (schedule S (turns_of p c sides) w)
  unfolding schedule
  after_turns [] i w hp hc = (subst (λ k. Serves k w) (omega arith) hp, hc)
  after_turns (parent ∷ sides) i w hp hc =
      let (hp', b) = parent_turn i w hp in
      let (r, r') = after_turns sides (suc i) (turn S p w) hp' (Over-Beside w (turn S p w) b hc) in
      (subst (λ k. Serves k (schedule S (turns_of p c sides) (turn S p w))) (omega arith) r, r')
  after_turns (child ∷ sides) i w hp hc =
      subst
        (λ x.
          Serves (parents sides + i) (schedule S (turns_of p c sides) x)
          × Over (schedule S (turns_of p c sides) x))
        (sym (rests c w hc.0)) (after_turns sides i w hp hc)

  Serves-over : (i : ℕ) (w : System S) → 2 ≤ i → Serves i w → Sent w
  Serves-over zero w h u = absurd (omega arith)
  Serves-over (suc zero) w h u = absurd (omega arith)
  Serves-over (suc (suc k)) w h u = u

  -- The parent is in SHUNT.start(), and its child is before STOP.
  pub record Testing (w : System S) : Type 0 where
    pub parent_runs : w.lives p ≡ runs
    pub child_runs : w.lives c ≡ runs
    pub waits : w.places p ≡ starting c
    pub reads : w.places c ≡ child_of p
    pub state : w.shunts p ≡ s
    pub lines : w.input ≡ codes "STOP\n" ∷ rest
    pub output : w.output ≡ out
    pub writes : w.writes ≡ suc (suc (suc n))
    pub status : Holds q w.status

  -- STOP tells the parent's plugin to stop.
  told_by : (w : System S) → Testing w → Serves 0 (turn S c w) × Over (turn S c w)
  told_by w t =
      let lives = update w.lives p told in
      let other : c ≢ p = λ x. apart (sym x) in
      let e =
        ap (λ lines. turn S c (record w { input = lines })) t.lines
        ∙ child_stops {S = S} rest w.output w.writes w.status w.lives w.shunts w.places w.fresh p c
            t.child_runs t.parent_runs t.reads in
      subst (λ w'. Serves 0 w' × Over w') (sym e)
        (
          (
            record {
              alive = update_other lives c p ended other ∙ update_same w.lives p told;
              output = t.output;
              writes = t.writes;
              status = t.status;
            },
            t.waits,
            update_other w.shunts c p _ other ∙ t.state,
          ),
          (update_same lives c ended, refl),
        )

  -- While the parent is in SHUNT.start() and its child is before STOP, the two may go on in any order:
  -- once the child had a turn and then the parent two, and however many they have, the test has one
  -- result, which was written once behind what was written before, the child has read STOP and
  -- nothing else, both processes have ended, and the status holds no id. The plugin's calls succeed,
  -- the socket takes at least three writes, and the status holds an id.
  pub stop_once :
      (sides : List Side) (w : System S)
      → 2 ≤ parents_after sides
      → Testing w
      → let w' = schedule S (turns_of p c sides) w in
        (w'.output ≡ out ++ result_text (is v 0) content)
        × (w'.input ≡ rest)
        × (w'.lives p ≡ ended)
        × (w'.lives c ≡ ended)
        × Holds 0 w'.status
  unfolding schedule
  stop_once [] w two t = absurd (omega arith)
  stop_once (parent ∷ sides) w two t =
      subst
        (λ (x : System S).
          let w' = schedule S (turns_of p c sides) x in
          (w'.output ≡ out ++ result_text (is v 0) content)
          × (w'.input ≡ rest)
          × (w'.lives p ≡ ended)
          × (w'.lives c ≡ ended)
          × Holds 0 w'.status)
        (sym (
          parent_waits {S = S} w.input w.output w.writes w.status w.lives w.shunts w.places w.fresh
            p c s₁ t.parent_runs t.waits (ap (λ x. S.start x) t.state ∙ started)))
        (stop_once sides w two t)
  stop_once (child ∷ sides) w two t =
      let (hp, hc) = told_by w t in
      let (hp', (over, read)) = after_turns sides 0 (turn S c w) hp hc in
      let sent = Serves-over (parents sides + 0) _ (omega arith) hp' in
      (sent.output, read, sent.over, over, sent.status)
