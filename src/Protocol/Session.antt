-- ===== src/Protocol/Session.antt =====
-- A whole session: the controller's commands, and what the daemon makes of them.
pub mod Steps
pub mod Turns
pub mod Interleaved
use ipbench.Prelude.{
  suc, ◌+◌, ℕ, ◌≡◌, ◌≢◌, ◌<◌, ◌^◌, refl, ap, ◌∙◌, some, List, [], ◌∷◌, ◌++◌, append_assoc, pos, ℤ,
  All, is, true, false, arith, length,
}
use ipbench.Python.Text.{Text, Bytes, codes, is_word}
use ipbench.Python.Text.Search.{Lacks}
use ipbench.Python.Number.{decimal}
use ipbench.Python.Codec.{encode, decode}
use ipbench.Python.Codec.Ascii.{IsAscii}
use ipbench.Python.Outcome.{returned}
use ipbench.Daemon.Machine
use ipbench.Daemon.TestStatus.{TestStatus}
use ipbench.Daemon.TestStatus.RoundTrip.{Holds}
use ipbench.Daemon.TestStatus.History.{is_running_lem, running_lem, not_running_lem}
use ipbench.Daemon.Status.{str_status}
use ipbench.Daemon.Shunt.{Shunt}
use ipbench.Daemon.World.{Os, World, reply}
use ipbench.Daemon.Handle.{handle, session}
use ipbench.Controller.Unmarshall.{content_label}
use ipbench.Protocol.Lines.{
  load_text, setup_text, load_text-IsAscii, setup_text-IsAscii, strip-load_text, strip-setup_text,
  decode-encode_ascii,
}
use ipbench.Protocol.Results.{result_text, append-result_text}
use ipbench.Protocol.Session.Steps.{
  world, greet-world, listen_hello, run_start, marshall_result, setup_plugin,
}

-- The bytes that `send_command` sends for a command.
abbrev pub sent : Text → Bytes
sent cmd = encode (cmd ++ b'\n' ∷ [])

-- A text that can stand as a part of the arguments of SETUP.
pub record IsPart (s : Text) : Type 0 where
  pub ascii : IsAscii s
  pub no_colon : Lacks b':' s
  pub no_bar : Lacks b'|' s
  pub no_newline : Lacks b'\n' s

-- The replies before the result.
abbrev pub replies : Text
replies = codes "100 IPBENCH V1.0\n200 OK (Ready to go)\n200 OK\n200 OK\n"

module _ (S : Shunt) (O : Os) (pid : ℕ) (small : pid < 10 ^ 19) where
  -- To a daemon that runs no test, with a plugin whose calls succeed, and over a socket that takes
  -- seven writes more, the controller's commands HELLO, LOAD, SETUP and START are answered with the
  -- greeting, three times 200, and the result of the plugin; the plugin is loaded under the
  -- given name and set up with the given target, port and arguments; and afterwards the status
  -- holds no id. The name is a word, and the target and the arguments are ASCII without colons,
  -- bars and line feeds.
  pub handle_test :
      (name target args : Text) (port : ℕ) (rest : List Bytes) (n : ℕ) (st : TestStatus)
      (s s₁ s₂ s₃ s₄ : S.State) (t : O.Table) (v : ℤ) (content : Bytes)
      → Holds 0 st
      → All (λ c. is_word c ≡ true) name
      → name ≢ []
      → IsPart target
      → IsPart args
      → S.load_plugin name s ≡ (returned tt, s₁)
      → S.setup_client target (pos port) args s₁ ≡ (returned tt, s₂)
      → S.start s₂ ≡ (returned tt, s₃)
      → S.marshall s₃ ≡ (returned (v, content), s₄)
      → let lines =
          codes "HELLO\n"
          ∷ sent (load_text name)
          ∷ sent (setup_text target port args)
          ∷ codes "START\n"
          ∷ rest in
        let r =
          handle S O pid (world lines [] (suc (suc (suc (suc (suc (suc (suc n))))))) st s t) in
        (r.0 ≡ returned tt)
        × (r.1.output ≡ replies ++ result_text (is v 0) content)
        × Holds 0 r.1.status
        × (r.1.shunt ≡ s₄)
  unfolding handle session Machine.run Machine.loop Machine.next
  handle_test name target args port rest n st s s₁ s₂ s₃ s₄ t v content h w ne ht ha loaded
        configured started done =
      let (st₁, marked, h₁) = running_lem pid 0 st h small in
      let (st₂, cleared, h₂) = not_running_lem pid st₁ h₁ in
      let later = codes "START\n" ∷ rest in
      let load_line = load_text name ++ b'\n' ∷ [] in
      let setup_line = setup_text target port args ++ b'\n' ∷ [] in
      let e0 =
        greet-world {S = S} {O = O}
          (codes "HELLO\n" ∷ sent (load_text name) ∷ sent (setup_text target port args) ∷ later) []
          (suc (suc (suc (suc (suc (suc n)))))) st st s s t pid in
      let e1 =
        listen_hello {S = S} {O = O}
          (sent (load_text name) ∷ sent (setup_text target port args) ∷ later)
          (codes "100 IPBENCH V1.0\n") (suc (suc (suc (suc (suc n))))) st st₁ s s t false pid
          (is_running_lem 0 st h) marked in
      let e2 =
        setup_plugin {S = S} {O = O} later (codes "100 IPBENCH V1.0\n200 OK (Ready to go)\n")
          (suc (suc (suc n))) st₁ st₁ s s₂ t name target args port (sent (load_text name))
          (sent (setup_text target port args)) load_line setup_line s₁
          (decode-encode_ascii load_line (load_text-IsAscii name w)) (strip-load_text name w ne)
          (decode-encode_ascii setup_line (setup_text-IsAscii target port args ht.ascii ha.ascii))
          (strip-setup_text target port args) w ne ht.no_colon ht.no_bar ht.no_newline ha.no_colon
          ha.no_bar ha.no_newline loaded configured in
      let e3 = run_start {S = S} {O = O} rest replies (suc (suc (suc n))) st₁ st₁ s₂ s₃ t started in
      let e4 =
        marshall_result {S = S} {O = O} rest replies n st₁ st₂ s₃ s₄ t v content done cleared in
      (
        rw (e0, e1, e2, e3, e4) refl,
        rw (e0, e1, e2, e3, e4) (append-result_text replies (is v 0) content),
        rw (e0, e1, e2, e3, e4) h₂,
        rw (e0, e1, e2, e3, e4) refl,
      )
