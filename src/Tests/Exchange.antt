-- ===== src/Tests/Exchange.antt =====
-- A whole test between the controller and the daemon, whose result arrives in three pieces.
use ipbench.Prelude.{All, sym, ◌≡◌, refl, arith, true, some, List, [], ◌∷◌, pos, replicate}
use ipbench.Python.Text.{Bytes, codes, is_word}
use ipbench.Python.Number.{decimal}
use ipbench.Python.Outcome.{returned}
use ipbench.Python.Exec.{pure}
use ipbench.Daemon.TestStatus.RoundTrip.{Holds, held, Holds-held}
use ipbench.Daemon.Handle.{handle}
use ipbench.Controller.Unmarshall.Pieces.{joined}
use ipbench.Protocol.Exchange.{reply_pieces, lines_of, client_for, converse, converse-handle}
use ipbench.Protocol.Session.{handle_test}
use ipbench.Protocol.Session.Steps.{world}
use ipbench.Tests.Daemon.{plugin, one_process}
use ipbench.Tests.Session.{target-IsPart, args-IsPart, peer}

abbrev pub three_pieces : List Bytes
three_pieces =
    codes "220 VALID DATA (Data to follow)\nCont" ∷ codes "ent-length: 2\na" ∷ codes "b" ∷ []

idle_Holds : Holds 0 (held 0 (replicate 20 0))
idle_Holds = Holds-held 0 (replicate 20 0) (omega arith) refl

name_word : All (λ c. is_word c ≡ true) (codes "latency")
unfolding is_word
name_word = (refl, (refl, (refl, (refl, (refl, (refl, (refl, tt)))))))

abbrev lines : List Bytes
lines = lines_of (codes "latency") (codes "10.0.0.2") 7 (codes "size=64")

-- The pieces are what the session writes.
pieces_written :
    joined (reply_pieces three_pieces)
    ≡ (handle plugin one_process 42 (world lines [] 9 (held 0 (replicate 20 0)) tt true)).1.output
unfolding decimal
pieces_written =
    sym
      (handle_test plugin one_process 42 (omega arith) (codes "latency") (codes "10.0.0.2")
        (codes "size=64") 7 [] 2 (held 0 (replicate 20 0)) tt tt tt tt tt true (pos 0) (codes "ab")
        idle_Holds name_word (λ e. cc) target-IsPart args-IsPart refl refl refl refl).1

converse-handle_example :
    converse
      (some (reply_pieces three_pieces))
      (client_for (codes "h") (codes "latency") (codes "10.0.0.2") 7 (codes "size=64"))
      2
      (λ content valid. pure tt)
      peer
    ≡ (returned tt, record peer { incoming = []; sent = joined lines })
unfolding decimal
converse-handle_example =
    converse-handle plugin one_process 42 (omega arith) (codes "h") (codes "latency")
      (codes "10.0.0.2") (codes "size=64") 7 2 (held 0 (replicate 20 0)) tt tt tt tt tt true (pos 0)
      (codes "ab") (codes "220 VALID DATA (Data to follow)\nCont") (codes "ent-length: 2\na")
      (codes "Cont") (codes "a") (codes "b" ∷ []) 2 peer (λ content valid. pure tt) idle_Holds
      name_word (λ e. cc) target-IsPart args-IsPart refl refl refl refl pieces_written refl refl
      (omega arith) (omega arith) (omega arith, tt) (omega arith)
