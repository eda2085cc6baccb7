-- ===== src/Protocol/Target/Exchange.antt =====
-- A test of a target from both ends: the controller's calls for it, over the daemon's session.
use ipbench.Prelude.{
  ap, true, suc, ℕ, ◌<◌, ◌^◌, ◌≤◌, ◌≡◌, ◌≢◌, refl, ◌∙◌, Bool, false, some, none, List, [], ◌∷◌,
  ◌++◌, append_assoc, append-nil, All, length, ℤ, is,
}
use mathlib.Core.List.{append_cancel_left}
use ipbench.Python.Text.{Text, Bytes, codes, is_word}
use ipbench.Python.Number.{decimal}
use ipbench.Python.Codec.{encode}
use ipbench.Python.Outcome.{returned}
use ipbench.Python.Exec.{Exec, ◌>>◌}
use ipbench.Daemon.TestStatus.RoundTrip.{Holds}
use ipbench.Daemon.Shunt.{Shunt}
use ipbench.Daemon.Common.{one}
use ipbench.Daemon.Target.System.{runs, at, System, goes_on, schedule}
use ipbench.Controller.Socket.{Peer, send_command}
use ipbench.Controller.Client.{TestClient, Dial, connect, start}
use ipbench.Controller.Client.Conversation.{connect_lem, receive_lem}
use ipbench.Controller.Target
use ipbench.Controller.Unmarshall.{content_label, unmarshall}
use ipbench.Controller.Unmarshall.Pieces.{joined}
use ipbench.Protocol.Lines.{load_text, target_text}
use ipbench.Protocol.Results.{status_text, result_text, unmarshall-result_text}
use ipbench.Protocol.Session.{IsPart, sent}
use ipbench.Protocol.Exchange.{reply_pieces, Replies-greeting, Replies-ready, Replies-ok}
use ipbench.Protocol.Target.Orders.{Side, parents_after, turns_of}
use ipbench.Protocol.Target.Session.{set_up_replies, target_session}

-- The lines of the controller, as the daemon reads them.
abbrev pub target_lines : Text → Text → List Bytes
target_lines name args =
    codes "HELLO\n"
    ∷ sent (load_text name)
    ∷ sent (target_text args)
    ∷ codes "START\n"
    ∷ codes "STOP\n"
    ∷ []

sent_lines :
    (before a b c d e : Bytes)
    → ((((before ++ a) ++ b) ++ c) ++ d) ++ e ≡ before ++ joined (a ∷ b ∷ c ∷ d ∷ e ∷ [])
sent_lines before a b c d e = rw (append-nil e) (
    append_assoc (((before ++ a) ++ b) ++ c) d e
    ∙ append_assoc ((before ++ a) ++ b) c (d ++ e)
    ∙ append_assoc (before ++ a) b (c ++ (d ++ e))
    ∙ append_assoc before a (b ++ (c ++ (d ++ e))))

-- What `connect` reads of a target.
abbrev pub target_for : Text → Text → Text → TestClient
target_for host name args = record {
  hostname = host;
  test_target = none;
  test_port = none;
  test_name = name;
  test_args = some args;
}

module _ {T : Type 0} where
  -- The calls of `main` for a target, without --reset.
  abbrev pub converse :
      Dial
      → TestClient
      → Text
      → ℕ
      → (Bytes → Bool → Exec (Peer T) (Unit {0}))
      → Exec (Peer T) (Unit {0})
  converse first c args rounds test = do
    connect false first first c
    Target.setup args
    start
    Target.stop
    unmarshall rounds test

  setup_lem :
      (args : Text) (rest : List Bytes) (before : Bytes) (p : Peer T)
      → Target.setup args (record p { incoming = codes "200 OK\n" ∷ rest; sent = before })
        ≡ (returned tt, record p { incoming = rest; sent = before ++ sent (target_text args) })
  unfolding Target.setup send_command
  setup_lem args rest before p =
      let (s, r, e) = Replies-ok in
      let q : Peer T = record p { sent = before ++ sent (target_text args) } in
      rw (receive_lem (codes "200 OK\n") s rest q r, e) refl

  converse_lem :
      (host name args : Text) (v : Bool) (content first second r d : Bytes) (rest : List Bytes)
      (rounds : ℕ) (p : Peer T) (test : Bytes → Bool → Exec (Peer T) (Unit {0}))
      → first ++ (second ++ joined rest) ≡ result_text v content
      → first ≡ status_text v ++ b'\n' ∷ r
      → r ++ second ≡ content_label ++ (decimal (length content) ++ b'\n' ∷ d)
      → length first ≤ 128
      → length second ≤ 128
      → All (λ (piece : Bytes). 0 < length piece) rest
      → length rest < rounds
      → converse
          (some (reply_pieces (first ∷ second ∷ rest)))
          (target_for host name args)
          args
          rounds
          test
          p
        ≡ test content v
            (record p { incoming = []; sent = p.sent ++ joined (target_lines name args) })
  unfolding start send_command encode Target.stop
  converse_lem host name args v content first second r d rest rounds p test whole f g short short'
        full enough =
      let c = target_for host name args in
      let pieces = first ∷ second ∷ rest in
      let before = (p.sent ++ codes "HELLO\n") ++ sent (load_text name) in
      let q : Peer T = record p {
        incoming = pieces;
        sent = ((before ++ sent (target_text args)) ++ codes "START\n") ++ codes "STOP\n";
      } in
      rw
        (
          connect_lem (codes "100 IPBENCH V1.0\n") (codes "200 OK (Ready to go)\n")
              (codes "200 OK\n") (codes "200 OK\n" ∷ pieces) (some (reply_pieces pieces)) c p
              Replies-greeting Replies-ready Replies-ok,
          setup_lem args pieces before p,
          ← sent_lines p.sent (codes "HELLO\n") (sent (load_text name)) (sent (target_text args))
              (codes "START\n") (codes "STOP\n"),
        )
        (unmarshall-result_text v content first second r d rest rounds q test whole f g short short'
          full enough)

module _ {S : Shunt} {T : Type 0} where
  -- The controller's calls for a target, `connect`, `setup`, `start`, `stop` and `unmarshall`, against
  -- the session of a target daemon that runs no test: they send the lines that the processes of the
  -- session read, and if the bytes that these write, in whatever order the parent and its child go
  -- on until the child had a turn and behind it the parent two, arrive in pieces, they end with the call of the test module, with the content that the
  -- daemon's plugin returned, and as valid exactly where it returned 0. Each reply arrives as a piece
  -- of its own, and the result with its status line in a first piece of at most 128 bytes, the line
  -- with the length up to a second one of at most 128 bytes, and then pieces that are not empty, fewer
  -- than the rounds of the loop. The plugin's calls succeed, the daemon's socket takes at least six
  -- writes behind the greeting, the test's name is a word, and the arguments are ASCII without colons,
  -- bars and line feeds.
  pub converse-schedule :
      (p n : ℕ) (sides : List Side) (host name args : Text) (w : System S) (s₁ s₂ s₃ s₄ : S.State)
      (v : ℤ) (content first second r d : Bytes) (rest : List Bytes) (rounds : ℕ) (c : Peer T)
      (test : Bytes → Bool → Exec (Peer T) (Unit {0}))
      → p < 10 ^ 19
      → p ≢ w.fresh
      → 2 ≤ parents_after sides
      → w.lives p ≡ runs
      → w.places p ≡ at (codes "LISTEN") one
      → w.input ≡ target_lines name args
      → w.output ≡ codes "100 IPBENCH V1.0\n"
      → w.writes ≡ suc (suc (suc (suc (suc (suc n)))))
      → Holds 0 w.status
      → All (λ c. is_word c ≡ true) name
      → name ≢ []
      → IsPart args
      → S.load_plugin name (w.shunts p) ≡ (returned tt, s₁)
      → S.setup_target args s₁ ≡ (returned tt, s₂)
      → S.start s₂ ≡ (returned tt, s₃)
      → S.marshall s₃ ≡ (returned (v, content), s₄)
      → joined (reply_pieces (first ∷ second ∷ rest))
        ≡ (schedule S
            (goes_on p ∷ goes_on p ∷ goes_on p ∷ goes_on p ∷ turns_of p w.fresh sides)
            w).output
      → first ≡ status_text (is v 0) ++ b'\n' ∷ r
      → r ++ second ≡ content_label ++ (decimal (length content) ++ b'\n' ∷ d)
      → length first ≤ 128
      → length second ≤ 128
      → All (λ (piece : Bytes). 0 < length piece) rest
      → length rest < rounds
      → converse
          (some (reply_pieces (first ∷ second ∷ rest)))
          (target_for host name args)
          args
          rounds
          test
          c
        ≡ test content
            (is v 0)
            (record c { incoming = []; sent = c.sent ++ joined (target_lines name args) })
  converse-schedule p n sides host name args w s₁ s₂ s₃ s₄ v content first second r d rest rounds c
        test small apart two alive here lines greeted more h word ne part loaded configured started
        done arrive f g short short' full enough =
      let (written, read, over, over', cleared) =
        target_session p n sides name args [] w s₁ s₂ s₃ s₄ v content small apart two alive here
          lines more h word ne part loaded configured started done in
      let before = codes "100 IPBENCH V1.0\n" ++ set_up_replies in
      converse_lem host name args (is v 0) content first second r d rest rounds c test
        (append_cancel_left before (first ++ (second ++ joined rest)) (result_text (is v 0) content)
          (arrive
            ∙ written
            ∙ ap (λ (o : Bytes). (o ++ set_up_replies) ++ result_text (is v 0) content) greeted))
        f g short short' full enough
