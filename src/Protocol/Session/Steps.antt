-- ===== src/Protocol/Session/Steps.antt =====
-- The handlers of the daemon in the conversation that the controller leads.
use ipbench.Prelude.{
  Bool, ℕ, suc, ◌≡◌, ◌≢◌, refl, true, false, some, List, [], ◌∷◌, ◌++◌, pos, ℤ, All, is, inl, inr,
  Bool-cases, length,
}
use ipbench.Python.Text.{Text, Bytes, codes, strip, is_word}
use ipbench.Python.Text.Search.{Lacks}
use ipbench.Python.Number.{decimal}
use ipbench.Python.Codec.{encode, decode}
use ipbench.Python.Outcome.{returned}
use ipbench.Daemon.TestStatus.{TestStatus, running, is_running, not_running}
use ipbench.Daemon.Status.{str_status}
use ipbench.Daemon.Shunt.{Shunt}
use ipbench.Daemon.World.{Os, World, write, send, reply, readline, on_status, on_shunt}
use ipbench.Daemon.Commands.{match_any, match_not_spaces, match_word}
use ipbench.Daemon.Common.{one, go_on, parse_common_opts}
use ipbench.Daemon.Common.Line.{parse_common_opts_line}
use ipbench.Daemon.Listen.{listen}
use ipbench.Daemon.Setup.{setup}
use ipbench.Daemon.Run.{run}
use ipbench.Daemon.Finish.{marshall, deliver}
use ipbench.Daemon.Handle.{greet}
use ipbench.Controller.Unmarshall.{content_label}
use ipbench.Protocol.Lines.{load_text, setup_text, match_load-load_text, match_setup-setup_text}
use ipbench.Protocol.SetupLine.{setup_args-setup_arguments}
use ipbench.Protocol.Results.{status_text, status_reply_lem, encode-status_text, encode-length_text}

pub match_any-load_text : (name : Text) → match_any (load_text name) ≡ codes "LOAD"
unfolding match_any
match_any-load_text name = refl

match_any-setup_text :
    (target : Text) (port : ℕ) (args : Text)
    → match_any (setup_text target port args) ≡ codes "SETUP"
unfolding match_any
match_any-setup_text target port args = refl

module _ {S : Shunt} {O : Os} where
  abbrev pub world : List Bytes → Bytes → ℕ → TestStatus → S.State → O.Table → World S O
  world lines out n st s t = record {
    input = lines;
    output = out;
    writes = n;
    status = st;
    shunt = s;
    processes = t;
  }

  module _ (lines : List Bytes) (out : Bytes) (n : ℕ) (st st' : TestStatus) (s s' : S.State)
      (t : O.Table) where
    pub greet-world :
        (pid : ℕ)
        → greet S O pid (world lines [] (suc n) st s t)
          ≡ (returned tt, world lines (codes "100 IPBENCH V1.0\n") n st s t)
    unfolding greet reply str_status decimal encode
    greet-world pid = refl

    pub listen_hello :
        (target : Bool) (pid : ℕ)
        → is_running st ≡ (returned false, st)
        → running pid st ≡ (returned tt, st')
        → listen S O target pid one (world (codes "HELLO\n" ∷ lines) out (suc n) st s t) ≡ (
          returned (go_on "SETUP"),
          world lines (out ++ codes "200 OK (Ready to go)\n") n st' s t,
        )
    unfolding listen parse_common_opts reply str_status readline decode match_any match_not_spaces
        strip on_status decimal encode
    listen_hello target pid idle marked = rw (idle, marked) refl

    pub run_start :
        S.start s ≡ (returned tt, s')
        → run S O false one (world (codes "START\n" ∷ lines) out n st s t)
          ≡ (returned (go_on "MARSHALL"), world lines out n st s' t)
    unfolding run parse_common_opts readline decode match_any match_word strip on_shunt
    run_start started = rw started refl

    pub marshall_result :
        (v : ℤ) (content : Bytes)
        → S.marshall s ≡ (returned (v, content), s')
        → not_running st ≡ (returned tt, st')
        → marshall S O one (world lines out (suc (suc (suc n))) st s t) ≡ (
          returned (go_on "RESET"),
          world lines
              (((out ++ (status_text (is v 0) ++ b'\n' ∷ []))
                  ++ (content_label ++ (decimal (length content) ++ b'\n' ∷ [])))
                ++ content)
              n
              st'
              s'
              t,
        )
    unfolding marshall deliver reply send write on_status on_shunt
    marshall_result v content done cleared =
        let d = encode-length_text (length content) in
        elim (Bool-cases (is v 0)) [
          | inl ok ↦ rw (done, ok, status_reply_lem true, encode-status_text true, d, cleared) refl
          | inr bad ↦
              rw (done, bad, status_reply_lem false, encode-status_text false, d, cleared) refl
        ]

    pub setup_plugin :
        (name target args : Text) (port : ℕ) (load_raw setup_raw : Bytes)
        (load_line setup_line : Text) (s₁ : S.State)
        → decode load_raw ≡ some load_line
        → strip load_line ≡ load_text name
        → decode setup_raw ≡ some setup_line
        → strip setup_line ≡ setup_text target port args
        → All (λ c. is_word c ≡ true) name
        → name ≢ []
        → Lacks b':' target
        → Lacks b'|' target
        → Lacks b'\n' target
        → Lacks b':' args
        → Lacks b'|' args
        → Lacks b'\n' args
        → S.load_plugin name s ≡ (returned tt, s₁)
        → S.setup_client target (pos port) args s₁ ≡ (returned tt, s')
        → setup S O false one (world (load_raw ∷ setup_raw ∷ lines) out (suc (suc n)) st s t) ≡ (
          returned (go_on "RUN"),
          world lines ((out ++ codes "200 OK\n") ++ codes "200 OK\n") n st s' t,
        )
    unfolding setup reply str_status on_shunt decimal encode
    setup_plugin name target args port load_raw setup_raw load_line setup_line s₁ d1 p1 d2 p2 w ne
          tc tb tn ac ab an loaded configured =
        let m1 = match_any-load_text name in
        let m2 = match_any-setup_text target port args in
        rw
          (
            parse_common_opts_line false load_raw load_line (load_text name) (setup_raw ∷ lines)
                (world [] out (suc (suc n)) st s t) d1 p1 (rw m1 refl) (rw m1 refl),
            match_load-load_text name w ne,
            loaded,
            parse_common_opts_line false setup_raw setup_line (setup_text target port args) lines
                (world [] (out ++ codes "200 OK\n") (suc n) st s₁ t) d2 p2 (rw m2 refl)
                (rw m2 refl),
            match_setup-setup_text target port args tn an,
            setup_args-setup_arguments target port args tc tb ac ab,
            configured,
          )
          refl
