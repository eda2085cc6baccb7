-- ===== src/Protocol/Session/Turns.antt =====
-- The turns of a process of a server in the test of a controller.
use ipbench.Prelude.{
  ap, ℕ, suc, ◌+◌, ◌≤◌, ◌<◌, ◌^◌, ◌≡◌, ◌≢◌, refl, sym, subst, ◌∙◌, true, false, List, [], ◌∷◌, ◌++◌,
  All, arith, pos, ℤ, is,
}
use ipbench.Python.Text.{Text, Bytes, codes, is_word, upper}
use ipbench.Python.Outcome.{returned}
use ipbench.Daemon.TestStatus.RoundTrip.{Holds}
use ipbench.Daemon.TestStatus.History.{is_running_lem, running_lem, not_running_lem}
use ipbench.Daemon.Shunt.{Shunt}
use ipbench.Daemon.Common.{one, go_on}
use ipbench.Daemon.Invariant.{Answers}
use ipbench.Daemon.Listen
use ipbench.Daemon.Setup
use ipbench.Daemon.Run
use ipbench.Daemon.Finish
use ipbench.Daemon.Processes.{ended, live, update_same}
use ipbench.Daemon.Server.{Stage, stage_of, Session, Server, turn}
use ipbench.Daemon.Server.Invariant.{Inv}
use ipbench.Daemon.Server.Between.{Stands, Phase, turn-seen, turn-Phase}
use ipbench.Protocol.Lines.{
  load_text, setup_text, load_text-IsAscii, setup_text-IsAscii, strip-load_text, strip-setup_text,
  decode-encode_ascii,
}
use ipbench.Protocol.Results.{result_text, append-result_text}
use ipbench.Protocol.Session.{sent, IsPart, replies}
use ipbench.Protocol.Session.Steps.{world, listen_hello, run_start, marshall_result, setup_plugin}

-- The lines of the controller.
module _ (name target args : Text) (port : ℕ) (rest : List Bytes) where
  abbrev pub configuring : List Bytes
  configuring = sent (load_text name) ∷ sent (setup_text target port args) ∷ codes "START\n" ∷ rest

module _ (name target args : Text) (port n : ℕ) (rest : List Bytes) where
  module _ {S : Shunt} where
    -- The session at each of its handlers.
    abbrev pub greeted : S.State → Session S
    greeted s = record {
      input = codes "HELLO\n" ∷ configuring name target args port rest;
      output = codes "100 IPBENCH V1.0\n";
      writes = suc (suc (suc (suc (suc (suc n)))));
      shunt = s;
      stage = Stage.listen one;
    }

    abbrev pub accepted : S.State → Session S
    accepted s = record {
      input = configuring name target args port rest;
      output = codes "100 IPBENCH V1.0\n200 OK (Ready to go)\n";
      writes = suc (suc (suc (suc (suc n))));
      shunt = s;
      stage = Stage.setup one;
    }

    abbrev pub configured : S.State → Session S
    configured s = record {
      input = codes "START\n" ∷ rest;
      output = replies;
      writes = suc (suc (suc n));
      shunt = s;
      stage = Stage.run one;
    }

    abbrev pub started : S.State → Session S
    started s = record {
      input = rest;
      output = replies;
      writes = suc (suc (suc n));
      shunt = s;
      stage = Stage.marshall one;
    }

    module _ (answers : Answers S) (p k : ℕ) (sv : Server S) where
      pub hello_turn :
          (s : S.State) (b id : ℕ)
          → b + k ≤ 10 ^ 19
          → Inv b id sv
          → Holds 0 sv.status
          → Stands p (greeted s) sv
          → Phase p k (accepted s) (turn S p sv)
      unfolding stage_of upper
      hello_turn s b id room before idle h =
          let below : p < sv.fresh = (before.processes p h.alive).below in
          let limit = before.room in
          let (st, marked, _) =
            running_lem p 0 sv.status idle (omega (arith, below, limit, room)) in
          let w =
            world {S = S} {O = live} (configuring name target args port rest)
              (codes "100 IPBENCH V1.0\n200 OK (Ready to go)\n") (suc (suc (suc (suc (suc n))))) st
              s sv.lives in
          turn-Phase p k b id (greeted s) sv (Stage.setup one) (Listen.listen S live false p one)
            (returned (go_on "SETUP")) w answers room before h refl
            (listen_hello {S = S} {O = live} (configuring name target args port rest)
              (codes "100 IPBENCH V1.0\n") (suc (suc (suc (suc (suc n))))) sv.status st s s sv.lives
              false p (is_running_lem 0 sv.status idle) marked)
            refl refl refl

      pub setup_turn :
          (s s₁ s₂ : S.State)
          → All (λ c. is_word c ≡ true) name
          → name ≢ []
          → IsPart target
          → IsPart args
          → S.load_plugin name s ≡ (returned tt, s₁)
          → S.setup_client target (pos port) args s₁ ≡ (returned tt, s₂)
          → Phase p k (accepted s) sv
          → Phase p k (configured s₂) (turn S p sv)
      unfolding stage_of upper
      setup_turn s s₁ s₂ w ne ht ha loaded set h =
          let load_line = load_text name ++ b'\n' ∷ [] in
          let setup_line = setup_text target port args ++ b'\n' ∷ [] in
          turn-Phase p k h.bound p (accepted s) sv (Stage.run one) (Setup.setup S live false one)
            (returned (go_on "RUN"))
            (world (codes "START\n" ∷ rest) replies (suc (suc (suc n))) sv.status s₂ sv.lives)
            answers h.room h.inv h.stands refl
            (setup_plugin {S = S} {O = live} (codes "START\n" ∷ rest)
              (codes "100 IPBENCH V1.0\n200 OK (Ready to go)\n") (suc (suc (suc n))) sv.status
              sv.status s s₂ sv.lives name target args port (sent (load_text name))
              (sent (setup_text target port args)) load_line setup_line s₁
              (decode-encode_ascii load_line (load_text-IsAscii name w)) (strip-load_text name w ne)
              (decode-encode_ascii setup_line
                (setup_text-IsAscii target port args ht.ascii ha.ascii))
              (strip-setup_text target port args) w ne ht.no_colon ht.no_bar ht.no_newline
              ha.no_colon ha.no_bar ha.no_newline loaded set)
            refl refl refl

      pub start_turn :
          (s₂ s₃ : S.State)
          → S.start s₂ ≡ (returned tt, s₃)
          → Phase p k (configured s₂) sv
          → Phase p k (started s₃) (turn S p sv)
      unfolding stage_of upper
      start_turn s₂ s₃ begun h =
          turn-Phase p k h.bound p (configured s₂) sv (Stage.marshall one)
            (Run.run S live false one) (returned (go_on "MARSHALL"))
            (world rest replies (suc (suc (suc n))) sv.status s₃ sv.lives) answers h.room h.inv
            h.stands refl
            (run_start {S = S} {O = live} rest replies (suc (suc (suc n))) sv.status sv.status s₂ s₃
              sv.lives begun)
            refl refl refl

      pub result_turn :
          (s₃ s₄ : S.State) (v : ℤ) (content : Bytes)
          → S.marshall s₃ ≡ (returned (v, content), s₄)
          → Phase p k (started s₃) sv
          → let f = turn S p sv in
            (f.lives p ≡ ended)
            × ((f.sessions p).output ≡ replies ++ result_text (is v 0) content)
            × ((f.sessions p).shunt ≡ s₄)
            × Holds 0 f.status
      unfolding stage_of upper
      result_turn s₃ s₄ v content done h =
          let (st, cleared, free) = not_running_lem p sv.status h.inv.held in
          let e =
            marshall_result {S = S} {O = live} rest replies n sv.status st s₃ s₄ sv.lives v content
              done cleared in
          let step = turn-seen p (started s₃) sv (Finish.marshall S live one) _ _ h.stands refl e in
          subst
            (λ (f : Server S).
              (f.lives p ≡ ended)
              × ((f.sessions p).output ≡ replies ++ result_text (is v 0) content)
              × ((f.sessions p).shunt ≡ s₄)
              × Holds 0 f.status)
            (sym step)
            (
              update_same sv.lives p ended,
              ap (λ (x : Session S). x.output) (update_same sv.sessions p _)
                  ∙ append-result_text replies (is v 0) content,
              ap (λ (x : Session S). x.shunt) (update_same sv.sessions p _),
              free,
            )
