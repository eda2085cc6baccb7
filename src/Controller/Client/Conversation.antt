-- ===== src/Controller/Client/Conversation.antt =====
-- What `connect` and `setup` make of the replies of a daemon.
use ipbench.Prelude.{ℕ, ◌≡◌, ◌≤◌, refl, ℤ, false, some, List, [], ◌∷◌, ◌++◌, pos, is, length}
use ipbench.Python.Text.{Text, Bytes, codes}
use ipbench.Python.Number.{show}
use ipbench.Python.Codec.{encode, decode}
use ipbench.Python.Outcome.{returned, raised, ipbench_error}
use ipbench.Controller.Socket.{Peer, send_command}
use ipbench.Controller.ReturnCode.{Status, parse_return_code}
use ipbench.Controller.Unmarshall.Pieces.{with_incoming, recv_whole}
use ipbench.Controller.Client.{
  TestClient, Dial, receive_return_code, connect, setup, setup_arguments,
}

-- A piece that is one reply.
pub record Reads (piece : Bytes) (status : Status) : Type 0 where
  pub short : length piece ≤ 1024
  pub text : Text
  pub decoded : decode piece ≡ some text
  pub parsed : parse_return_code text ≡ returned status

-- A piece that is a reply with a code.
abbrev pub Replies : Bytes → ℕ → Type 0
Replies piece code = (status : Status) × Reads piece status × (status.code ≡ pos code)

module _ {T : Type 0} where
  -- A reply in a piece of its own.
  pub receive_lem :
      (piece : Bytes) (status : Status) (rest : List Bytes) (p : Peer T)
      → Reads piece status
      → receive_return_code (with_incoming p (piece ∷ rest))
        ≡ (returned status, with_incoming p rest)
  unfolding receive_return_code
  receive_lem piece status rest p r =
      rw (recv_whole 1024 piece rest p r.short, r.decoded, r.parsed) refl

  -- What the peer has after a command was sent.
  abbrev pub after_command : Text → Peer T → Peer T
  after_command cmd p = record p { sent = p.sent ++ encode (cmd ++ b'\n' ∷ []) }

  -- Without --reset, and over a connection that can be opened and on which the three replies 100, 200
  -- and 200 arrive, one to a piece, `connect` sends HELLO and LOAD with the name of the test, and
  -- returns with what arrives later still to be read.
  pub connect_lem :
      (greeting hello load : Bytes) (rest : List Bytes) (again : Dial) (c : TestClient) (p : Peer T)
      → Replies greeting 100
      → Replies hello 200
      → Replies load 200
      → connect false (some (greeting ∷ hello ∷ load ∷ rest)) again c p ≡ (
        returned tt,
        with_incoming
            (after_command (codes "LOAD " ++ c.test_name) (after_command (codes "HELLO") p))
            rest,
      )
  unfolding connect send_command
  connect_lem greeting hello load rest again c p (s1, r1, e1) (s2, r2, e2) (s3, r3, e3) =
      rw
        (
          receive_lem greeting s1 (hello ∷ load ∷ rest) p r1,
          e1,
          receive_lem hello s2 (load ∷ rest) (after_command (codes "HELLO") p) r2,
          e2,
          receive_lem load s3 rest
              (after_command (codes "LOAD " ++ c.test_name) (after_command (codes "HELLO") p)) r3,
          e3,
        )
        refl

  -- If the second reply has another code than 200, such as 421 of a daemon that runs a test,
  -- `connect` raises an IpBenchError with that code and its name, and has sent only HELLO.
  pub connect_refused :
      (greeting hello : Bytes) (rest : List Bytes) (again : Dial) (c : TestClient) (p : Peer T)
      (status : Status)
      → Replies greeting 100
      → Reads hello status
      → is status.code 200 ≡ false
      → connect false (some (greeting ∷ hello ∷ rest)) again c p ≡ (
        raised (
            ipbench_error (
              codes "HELLO to "
              ++ (c.hostname
                  ++ (codes " failed ("
                      ++ (show status.code ++ (codes " " ++ (status.str ++ codes ")"))))))),
        with_incoming (after_command (codes "HELLO") p) rest,
      )
  unfolding connect send_command
  connect_refused greeting hello rest again c p status (s1, r1, e1) r2 other =
      rw
        (
          receive_lem greeting s1 (hello ∷ rest) p r1,
          e1,
          receive_lem hello status rest (after_command (codes "HELLO") p) r2,
          other,
        )
        refl

  -- Over a connection on which the reply 200 arrives in one piece, `setup` sends SETUP with the
  -- target, the port and the arguments, and returns with what arrives later still to be read.
  pub setup_lem :
      (target args : Text) (port : ℤ) (reply : Bytes) (rest : List Bytes) (c : TestClient)
      (p : Peer T)
      → c.test_target ≡ some target
      → c.test_port ≡ some port
      → c.test_args ≡ some args
      → Replies reply 200
      → setup c (with_incoming p (reply ∷ rest)) ≡ (
        returned tt,
        with_incoming (after_command (codes "SETUP " ++ setup_arguments target port args) p) rest,
      )
  unfolding setup send_command
  setup_lem target args port reply rest c p t n a (s, r, e) =
      let q = after_command (codes "SETUP " ++ setup_arguments target port args) p in
      rw (t, n, a, receive_lem reply s rest q r, e) refl
