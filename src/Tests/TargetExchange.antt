-- ===== src/Tests/TargetExchange.antt =====
-- A whole test between the controller and a target, whose result arrives in three pieces.
use ipbench.Prelude.{sym, ◌≡◌, refl, arith, some, List, [], ◌∷◌, pos}
use ipbench.Python.Text.{Bytes, codes}
use ipbench.Python.Number.{decimal}
use ipbench.Python.Outcome.{returned}
use ipbench.Python.Exec.{pure}
use ipbench.Daemon.Target.System.{goes_on, schedule}
use ipbench.Controller.Unmarshall.Pieces.{joined}
use ipbench.Protocol.Exchange.{reply_pieces}
use ipbench.Protocol.Target.Orders.{Side, parent, child, turns_of}
use ipbench.Protocol.Target.Session.{target_session}
use ipbench.Protocol.Target.Exchange.{target_lines, target_for, converse, converse-schedule}
use ipbench.Tests.Daemon.{plugin}
use ipbench.Tests.Session.{args-IsPart, peer}
use ipbench.Tests.Exchange.{three_pieces}
use ipbench.Tests.Target.{serving, zero_Holds, latency_word}

abbrev lines : List Bytes
lines = target_lines (codes "latency") (codes "size=64")

abbrev sides : List Side
sides = child ∷ parent ∷ parent ∷ []

-- The pieces are what the two processes write.
pieces_sent :
    joined (reply_pieces three_pieces)
    ≡ (schedule plugin
        (goes_on 1 ∷ goes_on 1 ∷ goes_on 1 ∷ goes_on 1 ∷ turns_of 1 2 sides)
        (serving lines)).output
unfolding decimal
pieces_sent =
    sym
      (target_session {S = plugin} 1 0 sides (codes "latency") (codes "size=64") [] (serving lines)
        tt tt tt tt (pos 0) (codes "ab") (omega arith) (λ e. omega (arith, e)) (omega arith) refl
        refl refl refl zero_Holds latency_word (λ e. cc) args-IsPart refl refl refl refl).0

converse-schedule_example :
    converse
      (some (reply_pieces three_pieces))
      (target_for (codes "h") (codes "latency") (codes "size=64"))
      (codes "size=64")
      2
      (λ content valid. pure tt)
      peer
    ≡ (returned tt, record peer { incoming = []; sent = joined lines })
unfolding decimal
converse-schedule_example =
    converse-schedule {S = plugin} 1 0 sides (codes "h") (codes "latency") (codes "size=64")
      (serving lines) tt tt tt tt (pos 0) (codes "ab")
      (codes "220 VALID DATA (Data to follow)\nCont") (codes "ent-length: 2\na") (codes "Cont")
      (codes "a") (codes "b" ∷ []) 2 peer (λ content valid. pure tt) (omega arith)
      (λ e. omega (arith, e)) (omega arith) refl refl refl refl refl zero_Holds latency_word
      (λ e. cc) args-IsPart refl refl refl refl pieces_sent refl refl (omega arith) (omega arith)
      (omega arith, tt) (omega arith)
