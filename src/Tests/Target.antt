-- ===== src/Tests/Target.antt =====
-- A target whose process 1 serves the connection; its next child is process 2.
use ipbench.Prelude.{
  All, ◌++◌, pos, ◌≡◌, ◌==◌, refl, arith, true, [], ◌∷◌, replicate, if◌then◌else◌,
}
use ipbench.Python.Text.{is_word, codes, Bytes}
use ipbench.Python.Number.{decimal}
use ipbench.Prelude.{List}
use ipbench.Daemon.Common.{one}
use ipbench.Daemon.TestStatus.RoundTrip.{Holds, held, Holds-held}
use ipbench.Daemon.Target.System.{
  absent, runs, interrupted, ended, at, starting, child_of, System, goes_on, schedule,
}
use ipbench.Daemon.Target.Turns.{system}
use ipbench.Protocol.Results.{result_text}
use ipbench.Protocol.Target.{IsTesting}
use ipbench.Protocol.Target.Orders.{parent, child, turns_of}
use ipbench.Protocol.Target.Test.{target_test}
use ipbench.Protocol.Target.Faults.{abort_target, quit_target}
use ipbench.Protocol.Lines.{load_text, target_text}
use ipbench.Protocol.Session.{sent}
use ipbench.Protocol.Target.Session.{target_session}
use ipbench.Tests.Session.{args-IsPart}
use ipbench.Tests.Daemon.{plugin}

-- Process 1 is before RUN.
abbrev waiting : List Bytes → System plugin
waiting lines =
    system lines (codes "200 OK\n") 6 (held 1 (replicate 20 0))
      (λ p. if p == 1 then runs else absent) (λ p. tt) (λ p. at (codes "RUN") one) 2

-- Process 1 tests, and its child is process 2.
abbrev testing : List Bytes → System plugin
testing lines =
    system lines (codes "200 OK\n") 6 (held 1 (replicate 20 0)) (λ p. runs) (λ p. tt)
      (λ p. if p == 1 then starting 2 else child_of 1) 3

testing-IsTesting :
    (lines : List Bytes) → IsTesting 1 2 (testing lines).lives (testing lines).places
testing-IsTesting lines = record {
  parent_runs = refl;
  child_runs = refl;
  waits = refl;
  reads = refl;
}

one_Holds : Holds 1 (held 1 (replicate 20 0))
one_Holds = Holds-held 1 (replicate 20 0) (omega arith) refl

abbrev stopping : List Bytes
stopping = codes "START\n" ∷ codes "STOP\n" ∷ codes "HELLO\n" ∷ []

target_test_example :
    let w' =
      schedule plugin
        (goes_on 1 ∷ goes_on 1 ∷ turns_of 1 2 (parent ∷ child ∷ parent ∷ parent ∷ []))
        (waiting stopping) in
    (w'.output ≡ codes "200 OK\n220 VALID DATA (Data to follow)\nContent-length: 2\nab")
    × (w'.input ≡ codes "HELLO\n" ∷ [])
    × (w'.lives 1 ≡ ended)
    × (w'.lives 2 ≡ ended)
    × Holds 0 w'.status
unfolding decimal
target_test_example =
    target_test {S = plugin} 1 3 1 (parent ∷ child ∷ parent ∷ parent ∷ []) (codes "HELLO\n" ∷ [])
      (waiting stopping) tt tt (pos 0) (codes "ab") (λ e. omega (arith, e)) (omega arith) refl refl
      refl refl one_Holds refl refl

abort_target_example :
    let w' =
      schedule plugin
        (goes_on 2 ∷ turns_of 1 2 (parent ∷ child ∷ parent ∷ []))
        (testing (codes "ABORT\n" ∷ [])) in
    (w'.output ≡ codes "200 OK\n")
    × (w'.lives 2 ≡ ended)
    × (w'.lives 1 ≡ interrupted)
    × (w'.places 1 ≡ starting 2)
    × Holds 1 w'.status
abort_target_example =
    abort_target {S = plugin} 1 2 1 (parent ∷ child ∷ parent ∷ []) []
      (testing (codes "ABORT\n" ∷ [])) tt (λ e. omega (arith, e))
      (testing-IsTesting (codes "ABORT\n" ∷ [])) refl one_Holds refl

quit_target_example :
    let w' = schedule plugin (goes_on 2 ∷ goes_on 2 ∷ []) (testing (codes "QUIT\n" ∷ [])) in
    (w'.output ≡ codes "200 OK\n222 CLOSING CONTROL CONNECTION (Come back soon!)\n")
    × Holds 0 w'.status
    × (w'.lives 2 ≡ ended)
    × (w'.lives 1 ≡ runs)
    × (w'.places 1 ≡ starting 2)
quit_target_example =
    quit_target {S = plugin} 1 2 5 1 [] (testing (codes "QUIT\n" ∷ [])) (λ e. omega (arith, e))
      (testing-IsTesting (codes "QUIT\n" ∷ [])) refl refl one_Holds

-- Process 1 is before LISTEN.
abbrev pub serving : List Bytes → System plugin
serving lines =
    system lines (codes "100 IPBENCH V1.0\n") 6 (held 0 (replicate 20 0))
      (λ p. if p == 1 then runs else absent) (λ p. tt) (λ p. at (codes "LISTEN") one) 2

pub zero_Holds : Holds 0 (held 0 (replicate 20 0))
zero_Holds = Holds-held 0 (replicate 20 0) (omega arith) refl

pub latency_word : All (λ c. is_word c ≡ true) (codes "latency")
unfolding is_word
latency_word = (refl, (refl, (refl, (refl, (refl, (refl, (refl, tt)))))))

abbrev target_commands : List Bytes
target_commands =
    codes "HELLO\n"
    ∷ sent (load_text (codes "latency"))
    ∷ sent (target_text (codes "size=64"))
    ∷ codes "START\n"
    ∷ codes "STOP\n"
    ∷ codes "QUIT\n"
    ∷ []

target_session_example :
    let w' =
      schedule plugin
        (goes_on 1
          ∷ goes_on 1
          ∷ goes_on 1
          ∷ goes_on 1
          ∷ turns_of 1 2 (parent ∷ child ∷ parent ∷ parent ∷ child ∷ []))
        (serving target_commands) in
    (w'.output
      ≡ (codes "100 IPBENCH V1.0\n" ++ codes "200 OK (Ready to go)\n200 OK\n200 OK\n")
        ++ result_text true (codes "ab"))
    × (w'.input ≡ codes "QUIT\n" ∷ [])
    × (w'.lives 1 ≡ ended)
    × (w'.lives 2 ≡ ended)
    × Holds 0 w'.status
target_session_example =
    target_session {S = plugin} 1 0 (parent ∷ child ∷ parent ∷ parent ∷ child ∷ [])
      (codes "latency") (codes "size=64") (codes "QUIT\n" ∷ []) (serving target_commands) tt tt tt
      tt (pos 0) (codes "ab") (omega arith) (λ e. omega (arith, e)) (omega arith) refl refl refl
      refl zero_Holds latency_word (λ e. cc) args-IsPart refl refl refl refl
