-- ===== src/Daemon/Server/Between.antt =====
-- A process that has the test, between its turns and in them.
use ipbench.Prelude.{
  ap, ℕ, suc, ◌+◌, ◌≤◌, ◌^◌, ◌≡◌, sym, subst, ◌∙◌, Bool, true, List, [], ◌∷◌, length, All, arith,
}
use ipbench.Python.Exec.{Exec}
use ipbench.Python.Outcome.{Outcome}
use ipbench.Daemon.Shunt.{Shunt}
use ipbench.Daemon.World.{World}
use ipbench.Daemon.Common.{Next}
use ipbench.Daemon.Invariant.{Answers}
use ipbench.Daemon.Processes.{Life, runs, live, update_same}
use ipbench.Daemon.Server.Turn.{turn-Inv}
use ipbench.Daemon.Server.{
  Stage, Session, Server, Wrapper, Event, act, enter, follow, with_world, session_of, turn, happen,
  serve,
}
use ipbench.Daemon.Server.Invariant.{owning, Inv}
use ipbench.Daemon.Server.Exclusion.{Begins, HasTest, happen-Inv}
use ipbench.Daemon.Server.Undisturbed.{Spares, happen-Keeps}

module _ {S : Shunt} where
  -- The process runs, and its session is `σ`.
  pub record Stands (p : ℕ) (σ : Session S) (s : Server S) : Type 0 where
    pub session : s.sessions p ≡ σ
    pub alive : s.lives p ≡ runs

  Stands-HasTest :
      (p : ℕ) (σ : Session S) (s : Server S) → owning σ.stage ≡ true → Stands p σ s → HasTest s p
  Stands-HasTest p σ s own h =
      (h.alive, subst (λ (x : Session S). owning x.stage ≡ true) (sym h.session) own)

  -- What the process sees.
  abbrev pub seen : Session S → Server S → World S live
  seen σ s = record {
    input = σ.input;
    output = σ.output;
    writes = σ.writes;
    status = s.status;
    shunt = σ.shunt;
    processes = s.lives;
  }

  act-seen :
      (p : ℕ) (σ : Session S) (s : Server S) (m : Exec (World S live) Next) (r : Outcome Next)
      (w : World S live)
      → Stands p σ s
      → m (seen σ s) ≡ (r, w)
      → act S m p s ≡ follow S r s p w
  act-seen p σ s m r w h e =
      ap (λ (x : Outcome Next × World S live). follow S x.0 s p x.1)
        (ap (λ (x : Session S). m (seen x s)) h.session ∙ e)

  -- A turn at a stage whose handler is `m`.
  pub turn-seen :
      (p : ℕ) (σ : Session S) (s : Server S) (m : Exec (World S live) Next) (r : Outcome Next)
      (w : World S live)
      → Stands p σ s
      → enter S σ.stage p s ≡ act S m p s
      → m (seen σ s) ≡ (r, w)
      → turn S p s ≡ follow S r s p w
  unfolding turn
  turn-seen p σ s m r w h handler e =
      rw h.alive
        (ap (λ (x : Session S). enter S x.stage p s) h.session ∙ handler ∙ act-seen p σ s m r w h e)

  module _ (m : Wrapper S) (debug : Bool) where
    -- No event of a list is a turn of `p` or a turn in which another process aborts.
    abbrev pub AllSpare : Server S → ℕ → List Event → Type 0
    AllSpare s p [] = Unit
    AllSpare s p (e ∷ es) = Spares s p e × AllSpare (happen m debug e s) p es

    -- Events in which the process has no turn leave it where it is.
    serve-Stands :
        (p : ℕ) (σ : Session S)
        → Answers S
        → owning σ.stage ≡ true
        → (es : List Event) (k n : ℕ) (s : Server S) → n + (length es + k) ≤ 10 ^ 19
        → All Begins es
        → AllSpare s p es
        → Inv n p s
        → Stands p σ s
        → (n' : ℕ) × (n' + k ≤ 10 ^ 19)
          × Inv n' p (serve m debug es s)
          × Stands p σ (serve m debug es s)
    unfolding serve
    serve-Stands p σ answers own [] k n s room first spare before h =
        (n, omega (arith, room), before, h)
    serve-Stands p σ answers own (e ∷ es) k n s room (first, rest) (spares, others) before h =
        let has = Stands-HasTest p σ s own h in
        let kept = happen-Keeps m debug s p has n e before (omega (arith, room)) spares in
        let h' : Stands p σ (happen m debug e s) = record {
          session = kept.0 ∙ h.session;
          alive = kept.1;
        } in
        let (id, after) = happen-Inv m debug answers n p e s (omega (arith, room)) first before in
        let same = (after.processes p kept.1).owns (Stands-HasTest p σ _ own h').1 in
        serve-Stands p σ answers own es k (suc n) (happen m debug e s) (omega (arith, room)) rest
          others (subst (λ j. Inv (suc n) j (happen m debug e s)) same after) h'

  -- The process has the test and stands at `σ`, and there are `k` ids left to give.
  pub record Phase (p k : ℕ) (σ : Session S) (s : Server S) : Type 0 where
    pub bound : ℕ
    pub room : bound + k ≤ 10 ^ 19
    pub inv : Inv bound p s
    pub stands : Stands p σ s

  -- A turn that leads on to a stage of the test.
  pub turn-Phase :
      (p k n id : ℕ) (σ : Session S) (s : Server S) (stage : Stage) (m : Exec (World S live) Next)
      (r : Outcome Next) (w : World S live)
      → Answers S
      → n + k ≤ 10 ^ 19
      → Inv n id s
      → Stands p σ s
      → enter S σ.stage p s ≡ act S m p s
      → m (seen σ s) ≡ (r, w)
      → follow S r s p w ≡ with_world S s p w stage
      → w.processes ≡ s.lives
      → owning stage ≡ true
      → Phase p k (session_of S w stage) (turn S p s)
  turn-Phase p k n id σ s stage m r w answers room before h handler e goes same own =
      let σ' = session_of S w stage in
      let step = turn-seen p σ s m r w h handler e ∙ goes in
      let h' : Stands p σ' (turn S p s) =
        subst (λ x. Stands p σ' x) (sym step)
          (record {
            session = update_same s.sessions p σ';
            alive = subst (λ (t : ℕ → Life). t p ≡ runs) (sym same) h.alive;
          }) in
      let (id', after) = turn-Inv n id s p answers (omega (arith, room)) before in
      let mine = (after.processes p h'.alive).owns (Stands-HasTest p σ' _ own h').1 in
      record {
        bound = n;
        room = room;
        inv = subst (λ j. Inv n j (turn S p s)) mine after;
        stands = h';
      }

  -- Events in which the process has no turn.
  pub serve-Phase :
      (m : Wrapper S) (debug : Bool) (p k : ℕ) (σ : Session S) (es : List Event) (s : Server S)
      → Answers S
      → owning σ.stage ≡ true
      → All Begins es
      → AllSpare m debug s p es
      → Phase p (length es + k) σ s
      → Phase p k σ (serve m debug es s)
  serve-Phase m debug p k σ es s answers own first spare h =
      let (n, room, inv, stands) =
        serve-Stands m debug p σ answers own es k h.bound s h.room first spare h.inv h.stands in
      record { bound = n; room = room; inv = inv; stands = stands }
