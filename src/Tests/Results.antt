-- ===== src/Tests/Results.antt =====
-- The replies and the results of the daemon, read by the controller.
use ipbench.Prelude.{sym, Bool, pos, ◌≡◌, refl, arith, true, [], ◌∷◌, replicate, List}
use ipbench.Python.Text.{Bytes, codes, strip, span, is_space}
use ipbench.Python.Number.{decimal}
use ipbench.Python.Outcome.{returned}
use ipbench.Python.Exec.{Exec}
use ipbench.Daemon.TestStatus.RoundTrip.{Holds, held, Holds-held}
use ipbench.Daemon.Status.{str_status}
use ipbench.Daemon.Finish.{deliver}
use ipbench.Controller.Socket.{Peer}
use ipbench.Controller.ReturnCode.{parse_return_code}
use ipbench.Controller.Unmarshall.{unmarshall, read_rest}
use ipbench.Controller.Unmarshall.Pieces.{with_incoming, read_rest_lem}
use ipbench.Protocol.Replies.{parse_return_code-str_status}
use ipbench.Protocol.Results.{ready, output-deliver, unmarshall-deliver}
use ipbench.Tests.Daemon.{plugin, one_process, connect}

parse_return_code-str_status_example :
    parse_return_code (codes "451 LOCAL PROCESSING ERROR (no plugin (x) there)\n")
    ≡ returned (record {
      code = pos 451;
      str = codes "LOCAL PROCESSING ERROR";
      msg = codes "no plugin (x";
    })
unfolding str_status decimal strip span is_space
parse_return_code-str_status_example =
    parse_return_code-str_status 451 (codes "no plugin (x) there" ∷ []) refl refl

-- A controller that keeps what the test module is given.
abbrev peer : Peer (List Bytes)
peer = record { incoming = []; sent = []; tests = [] }

abbrev keep : Bytes → Bool → Exec (Peer (List Bytes)) (Unit {0})
keep content valid p = (returned tt, record p { tests = content ∷ p.tests })

abbrev pieces : List Bytes
pieces = codes "cd" ∷ codes "e" ∷ []

status_Holds : Holds 42 (held 42 (replicate 20 0))
status_Holds = Holds-held 42 (replicate 20 0) (omega arith) refl

output-deliver_example :
    (deliver plugin one_process (pos 3, codes "ab") (ready 2 (connect 42 []))).1.output
    ≡ codes "221 INVALID DATA (Data to follow)\nContent-length: 2\nab"
unfolding decimal
output-deliver_example = output-deliver 42 (pos 3) (codes "ab") 2 (connect 42 []) status_Holds

unmarshall-deliver_example :
    unmarshall 3 keep (
      with_incoming peer
        (codes "220 VALID DATA (Data to follow)\nConte" ∷ codes "nt-length: 5\nab" ∷ pieces))
    ≡ keep (codes "abcde") true (with_incoming peer [])
unfolding decimal
unmarshall-deliver_example =
    unmarshall-deliver 42 (pos 0) (codes "abcde") 2 (connect 42 [])
      (codes "220 VALID DATA (Data to follow)\nConte") (codes "nt-length: 5\nab") (codes "Conte")
      (codes "ab") pieces 3 peer keep status_Holds
      (sym (output-deliver 42 (pos 0) (codes "abcde") 2 (connect 42 []) status_Holds)) refl refl
      (omega arith) (omega arith) (omega arith, (omega arith, tt)) (omega arith)

read_rest_lem_example :
    read_rest 3 (pos 5) (codes "ab") (with_incoming peer pieces)
    ≡ (returned (codes "abcde"), with_incoming peer [])
read_rest_lem_example =
    read_rest_lem pieces 3 5 (codes "ab") peer (omega arith, (omega arith, tt)) refl (omega arith)
