-- ===== src/Protocol/Exchange.antt =====
-- A test from both ends: the controller's calls for one client, over the daemon's session.
use ipbench.Prelude.{
  ℕ, suc, ◌<◌, ◌^◌, ◌≤◌, ◌≡◌, ◌≢◌, refl, ◌∙◌, Bool, true, false, some, List, [], ◌∷◌, ◌++◌,
  append_assoc, append-nil, pos, ℤ, All, is, arith, length,
}
use mathlib.Core.List.{append_cancel_left}
use ipbench.Python.Text.{Text, Bytes, codes, is_word, is_space, find, strip}
use ipbench.Python.Number.{decimal, int}
use ipbench.Python.Codec.{encode, decode}
use ipbench.Python.Outcome.{returned}
use ipbench.Python.Exec.{Exec, ◌>>◌}
use ipbench.Daemon.TestStatus.{TestStatus}
use ipbench.Daemon.TestStatus.RoundTrip.{Holds}
use ipbench.Daemon.Shunt.{Shunt}
use ipbench.Daemon.World.{Os}
use ipbench.Daemon.Handle.{handle}
use ipbench.Controller.ReturnCode.{parse_return_code}
use ipbench.Controller.Socket.{Peer, send_command}
use ipbench.Controller.Client.{TestClient, Dial, connect, setup, start}
use ipbench.Controller.Client.Conversation.{Replies, connect_lem, setup_lem}
use ipbench.Controller.Unmarshall.{content_label, unmarshall}
use ipbench.Controller.Unmarshall.Pieces.{joined}
use ipbench.Protocol.Lines.{load_text, setup_text}
use ipbench.Protocol.Results.{status_text, result_text, unmarshall-result_text}
use ipbench.Protocol.Session.{sent, IsPart, replies, handle_test}
use ipbench.Protocol.Session.Steps.{world}

-- The replies before the result, as they arrive.
abbrev pub reply_pieces : List Bytes → List Bytes
reply_pieces rest =
    codes "100 IPBENCH V1.0\n"
    ∷ codes "200 OK (Ready to go)\n"
    ∷ codes "200 OK\n"
    ∷ codes "200 OK\n"
    ∷ rest

pub Replies-greeting : Replies (codes "100 IPBENCH V1.0\n") 100
unfolding parse_return_code int is_space find decode strip
Replies-greeting = (
  record { code = pos 100; str = codes "IPBENCH V1.0"; msg = [] },
  record { short = omega arith; text = codes "100 IPBENCH V1.0\n"; decoded = refl; parsed = refl },
  refl,
)

pub Replies-ready : Replies (codes "200 OK (Ready to go)\n") 200
unfolding parse_return_code int is_space find decode strip
Replies-ready = (
  record { code = pos 200; str = codes "OK"; msg = codes "Ready to go" },
  record {
    short = omega arith;
    text = codes "200 OK (Ready to go)\n";
    decoded = refl;
    parsed = refl;
  },
  refl,
)

pub Replies-ok : Replies (codes "200 OK\n") 200
unfolding parse_return_code int is_space find decode strip
Replies-ok = (
  record { code = pos 200; str = codes "OK"; msg = [] },
  record { short = omega arith; text = codes "200 OK\n"; decoded = refl; parsed = refl },
  refl,
)

-- The lines of the controller, as the daemon reads them.
abbrev pub lines_of : Text → Text → ℕ → Text → List Bytes
lines_of name target port args =
    codes "HELLO\n"
    ∷ sent (load_text name)
    ∷ sent (setup_text target port args)
    ∷ codes "START\n"
    ∷ []

-- The options that `main` gives to a client.
abbrev pub client_for : Text → Text → Text → ℕ → Text → TestClient
client_for host name target port args = record {
  hostname = host;
  test_target = some target;
  test_port = some (pos port);
  test_name = name;
  test_args = some args;
}

sent_lines :
    (before a b c d : Bytes)
    → (((before ++ a) ++ b) ++ c) ++ d ≡ before ++ joined (a ∷ b ∷ c ∷ d ∷ [])
sent_lines before a b c d = rw (append-nil d) (
    append_assoc ((before ++ a) ++ b) c d
    ∙ append_assoc (before ++ a) b (c ++ d)
    ∙ append_assoc before a (b ++ (c ++ d)))

module _ {T : Type 0} where
  -- The calls of `main` for a client, without --reset.
  abbrev pub converse :
      Dial → TestClient → ℕ → (Bytes → Bool → Exec (Peer T) (Unit {0})) → Exec (Peer T) (Unit {0})
  converse first c rounds test = do
    connect false first first c
    setup c
    start
    unmarshall rounds test

  converse_lem :
      (host name target args : Text) (port : ℕ) (v : Bool) (content first second r d : Bytes)
      (rest : List Bytes) (rounds : ℕ) (p : Peer T) (test : Bytes → Bool → Exec (Peer T) (Unit {0}))
      → first ++ (second ++ joined rest) ≡ result_text v content
      → first ≡ status_text v ++ b'\n' ∷ r
      → r ++ second ≡ content_label ++ (decimal (length content) ++ b'\n' ∷ d)
      → length first ≤ 128
      → length second ≤ 128
      → All (λ (piece : Bytes). 0 < length piece) rest
      → length rest < rounds
      → converse
          (some (reply_pieces (first ∷ second ∷ rest)))
          (client_for host name target port args)
          rounds
          test
          p
        ≡ test content v
            (record p { incoming = []; sent = p.sent ++ joined (lines_of name target port args) })
  unfolding start send_command encode
  converse_lem host name target args port v content first second r d rest rounds p test whole f g
        short short' full enough =
      let c = client_for host name target port args in
      let last = codes "200 OK\n" ∷ first ∷ second ∷ rest in
      let dial = some (reply_pieces (first ∷ second ∷ rest)) in
      let before = (p.sent ++ codes "HELLO\n") ++ sent (load_text name) in
      let q : Peer T = record p { incoming = last; sent = before } in
      let before' = before ++ sent (setup_text target port args) in
      let q' : Peer T = record p {
        incoming = first ∷ second ∷ rest;
        sent = before' ++ codes "START\n";
      } in
      rw
        (
          connect_lem (codes "100 IPBENCH V1.0\n") (codes "200 OK (Ready to go)\n")
              (codes "200 OK\n") last dial c p Replies-greeting Replies-ready Replies-ok,
          setup_lem target args (pos port) (codes "200 OK\n") (first ∷ second ∷ rest) c q refl refl
              refl Replies-ok,
          ← sent_lines p.sent (codes "HELLO\n") (sent (load_text name))
              (sent (setup_text target port args)) (codes "START\n"),
        )
        (unmarshall-result_text v content first second r d rest rounds q' test whole f g short
          short' full enough)

module _ (S : Shunt) (O : Os) (pid : ℕ) (small : pid < 10 ^ 19) {T : Type 0} where
  -- The controller's calls for a client, `connect`, `setup`, `start` and `unmarshall`, against the
  -- session of a daemon that runs no test: they send the lines that the session reads, and if the
  -- bytes that the session writes arrive in pieces, they end with the call of the test module, with
  -- the content that the daemon's plugin returned, and as valid exactly where it returned 0. Each
  -- reply arrives as a piece of its own, and the result with its status line in a first piece of at
  -- most 128 bytes, the line with the length up to a second one of at most 128 bytes, and then
  -- pieces that are not empty, fewer than the rounds of the loop. The plugin's calls succeed, the
  -- daemon's socket takes at least seven writes, the test's name is a word, and the target and the
  -- arguments are ASCII without colons, bars and line feeds.
  pub converse-handle :
      (host name target args : Text) (port n : ℕ) (st : TestStatus) (s s₁ s₂ s₃ s₄ : S.State)
      (t : O.Table) (v : ℤ) (content first second r d : Bytes) (rest : List Bytes) (rounds : ℕ)
      (p : Peer T) (test : Bytes → Bool → Exec (Peer T) (Unit {0}))
      → Holds 0 st
      → All (λ c. is_word c ≡ true) name
      → name ≢ []
      → IsPart target
      → IsPart args
      → S.load_plugin name s ≡ (returned tt, s₁)
      → S.setup_client target (pos port) args s₁ ≡ (returned tt, s₂)
      → S.start s₂ ≡ (returned tt, s₃)
      → S.marshall s₃ ≡ (returned (v, content), s₄)
      → joined (reply_pieces (first ∷ second ∷ rest))
        ≡ (handle S O pid (
            world
              (lines_of name target port args)
              []
              (suc (suc (suc (suc (suc (suc (suc n)))))))
              st
              s
              t)).1.output
      → first ≡ status_text (is v 0) ++ b'\n' ∷ r
      → r ++ second ≡ content_label ++ (decimal (length content) ++ b'\n' ∷ d)
      → length first ≤ 128
      → length second ≤ 128
      → All (λ (piece : Bytes). 0 < length piece) rest
      → length rest < rounds
      → converse
          (some (reply_pieces (first ∷ second ∷ rest)))
          (client_for host name target port args)
          rounds
          test
          p
        ≡ test content
            (is v 0)
            (record p { incoming = []; sent = p.sent ++ joined (lines_of name target port args) })
  converse-handle host name target args port n st s s₁ s₂ s₃ s₄ t v content first second r d rest
        rounds p test h w ne ht ha loaded configured started done arrive f g short short' full
        enough =
      let (e, written, cleared, state) =
        handle_test S O pid small name target args port [] n st s s₁ s₂ s₃ s₄ t v content h w ne ht
          ha loaded configured started done in
      converse_lem host name target args port (is v 0) content first second r d rest rounds p test
        (append_cancel_left replies (first ++ (second ++ joined rest))
          (result_text (is v 0) content) (arrive ∙ written))
        f g short short' full enough
