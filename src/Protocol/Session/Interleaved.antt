-- ===== src/Protocol/Session/Interleaved.antt =====
-- A whole test in a server with other connections, whose processes go on between the turns of the
-- one that serves the controller.
use ipbench.Prelude.{
  ℕ, ◌+◌, ◌≤◌, ◌^◌, ◌≡◌, ◌≢◌, refl, Bool, true, List, [], ◌++◌, length, All, arith, pos, ℤ, is,
}
use ipbench.Python.Text.{Text, Bytes, is_word}
use ipbench.Python.Outcome.{returned}
use ipbench.Daemon.TestStatus.RoundTrip.{Holds}
use ipbench.Daemon.Shunt.{Shunt}
use ipbench.Daemon.Invariant.{Answers}
use ipbench.Daemon.Processes.{ended}
use ipbench.Daemon.Server.{Server, Wrapper, Event, turn, serve}
use ipbench.Daemon.Server.Exclusion.{Begins, Idle, reached-Inv}
use ipbench.Daemon.Server.Between.{Stands, AllSpare, serve-Phase}
use ipbench.Protocol.Results.{result_text}
use ipbench.Protocol.Session.{IsPart, replies}
use ipbench.Protocol.Session.Turns.{
  greeted, accepted, configured, started, hello_turn, setup_turn, start_turn, result_turn,
}

-- A turn of `p`, and then events.
module _ {S : Shunt} where
  abbrev pub round : Wrapper S → Bool → ℕ → List Event → Server S → Server S
  round m debug p es s = serve m debug es (turn S p s)

module _ (name target args : Text) (port n : ℕ) (rest : List Bytes) where
  module _ {S : Shunt} where
    -- In a server that starts with no process and with no id in its status, and with a plugin whose
    -- calls return or raise: a process that was greeted, while no test is held, and that a
    -- controller sends HELLO, LOAD, SETUP and START over a socket that takes six writes more,
    -- serves the whole test in four turns, whatever connections arrive, whatever other processes do
    -- but abort, and whatever processes are waited for between these turns: if the plugin's four
    -- calls succeed, the process has written the greeting, three times 200 and the plugin's result,
    -- and has ended, and the status holds no id. All connections begin with HELLO or ABORT, or send
    -- nothing; the name is a word, and the target and the arguments are ASCII without colons, bars
    -- and line feeds; the events are so few that each id has at most 19 digits.
    pub interleaved_test :
        (m : Wrapper S) (debug : Bool) (start : Server S) (es es₁ es₂ es₃ : List Event) (p : ℕ)
        (s s₁ s₂ s₃ s₄ : S.State) (v : ℤ) (content : Bytes)
        → Answers S
        → Idle start
        → start.fresh + (length es + (length es₁ + (length es₂ + length es₃))) ≤ 10 ^ 19
        → All Begins es
        → All Begins es₁
        → All Begins es₂
        → All Begins es₃
        → Holds 0 (serve m debug es start).status
        → Stands p (greeted name target args port n rest s) (serve m debug es start)
        → AllSpare m debug (turn S p (serve m debug es start)) p es₁
        → AllSpare m debug (turn S p (round m debug p es₁ (serve m debug es start))) p es₂
        → AllSpare m debug
            (turn S p (round m debug p es₂ (round m debug p es₁ (serve m debug es start))))
            p
            es₃
        → All (λ c. is_word c ≡ true) name
        → name ≢ []
        → IsPart target
        → IsPart args
        → S.load_plugin name s ≡ (returned tt, s₁)
        → S.setup_client target (pos port) args s₁ ≡ (returned tt, s₂)
        → S.start s₂ ≡ (returned tt, s₃)
        → S.marshall s₃ ≡ (returned (v, content), s₄)
        → let f = turn S p (
            round m debug p es₃
              (round m debug p es₂ (round m debug p es₁ (serve m debug es start)))) in
          (f.lives p ≡ ended)
          × ((f.sessions p).output ≡ replies ++ result_text (is v 0) content)
          × ((f.sessions p).shunt ≡ s₄)
          × Holds 0 f.status
    interleaved_test m debug start es es₁ es₂ es₃ p s s₁ s₂ s₃ s₄ v content answers idle room b b₁
          b₂ b₃ free stands sp₁ sp₂ sp₃ w ne ht ha loaded set begun done =
        let k₃ = length es₃ + 0 in
        let k₂ = length es₂ + k₃ in
        let k₁ = length es₁ + k₂ in
        let sv = serve m debug es start in
        let (n₀, id, room₀, inv) =
          reached-Inv m debug start es k₁ answers idle (omega (arith, room)) b in
        let h₁ =
          serve-Phase m debug p k₂ (accepted name target args port n rest s) es₁ (turn S p sv)
            answers refl b₁ sp₁
            (hello_turn name target args port n rest answers p k₁ sv s n₀ id room₀ inv free
              stands) in
        let sv₁ = round m debug p es₁ sv in
        let h₂ =
          serve-Phase m debug p k₃ (configured name target args port n rest s₂) es₂ (turn S p sv₁)
            answers refl b₂ sp₂
            (setup_turn name target args port n rest answers p k₂ sv₁ s s₁ s₂ w ne ht ha loaded set
              h₁) in
        let sv₂ = round m debug p es₂ sv₁ in
        let h₃ =
          serve-Phase m debug p 0 (started name target args port n rest s₃) es₃ (turn S p sv₂)
            answers refl b₃ sp₃
            (start_turn name target args port n rest answers p k₃ sv₂ s₂ s₃ begun h₂) in
        result_turn name target args port n rest answers p 0 (round m debug p es₃ sv₂) s₃ s₄ v
          content done h₃
