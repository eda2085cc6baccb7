-- ===== src/Protocol/Target/Session.antt =====
-- A whole session of a target: the controller's commands, and what the daemon makes of them.
use ipbench.Prelude.{
  ℕ, suc, ◌<◌, ◌^◌, ◌≡◌, ◌≢◌, refl, ap, ◌∙◌, true, List, [], ◌∷◌, ◌++◌, append_assoc, All, ℤ, ◌≤◌,
  subst, sym, is,
}
use ipbench.Python.Text.{Text, Bytes, codes, is_word}
use ipbench.Python.Number.{decimal}
use ipbench.Python.Codec.{encode}
use ipbench.Python.Outcome.{returned}
use ipbench.Daemon.TestStatus.{TestStatus}
use ipbench.Daemon.TestStatus.RoundTrip.{Holds}
use ipbench.Daemon.TestStatus.History.{is_running_lem, running_lem}
use ipbench.Daemon.Status.{str_status}
use ipbench.Daemon.Shunt.{Shunt}
use ipbench.Daemon.World.{Os, reply, on_shunt}
use ipbench.Daemon.Commands.{match_any}
use ipbench.Daemon.Common.{one, go_on}
use ipbench.Daemon.Common.Line.{parse_common_opts_line}
use ipbench.Daemon.Setup.{setup}
use ipbench.Daemon.Target.System.{ended, goes_on, schedule, runs, live, at, System, turn}
use ipbench.Daemon.Processes.{update, update_same}
use ipbench.Daemon.Target.Turns.{system, listens, sets_up}
use ipbench.Protocol.Lines.{
  load_text, load_text-IsAscii, strip-load_text, match_load-load_text, target_text,
  target_text-IsAscii, strip-target_text, match_setup-target_text, decode-encode_ascii,
}
use ipbench.Protocol.SetupLine.{setup_args-target_arguments}
use ipbench.Protocol.Session.{IsPart, sent}
use ipbench.Protocol.Session.Steps.{world, listen_hello, match_any-load_text}
use ipbench.Protocol.Results.{result_text}
use ipbench.Protocol.Target.Orders.{Side, parents_after, turns_of}
use ipbench.Protocol.Target.Test.{target_test}

match_any-target_text : (args : Text) → match_any (target_text args) ≡ codes "SETUP"
unfolding match_any
match_any-target_text args = refl

-- The replies of LISTEN and SETUP.
abbrev pub set_up_replies : Text
set_up_replies = codes "200 OK (Ready to go)\n200 OK\n200 OK\n"

module _ {S : Shunt} {O : Os} where
  -- The state SETUP for the lines LOAD and SETUP.
  setup_target_plugin :
      (name args : Text) (lines : List Bytes) (out : Bytes) (n : ℕ) (st : TestStatus)
      (s s₁ s₂ : S.State) (t : O.Table)
      → All (λ c. is_word c ≡ true) name
      → name ≢ []
      → IsPart args
      → S.load_plugin name s ≡ (returned tt, s₁)
      → S.setup_target args s₁ ≡ (returned tt, s₂)
      → setup S O true one
          (world (sent (load_text name) ∷ sent (target_text args) ∷ lines) out (suc (suc n)) st s t)
        ≡ (
          returned (go_on "RUN"),
          world lines ((out ++ codes "200 OK\n") ++ codes "200 OK\n") n st s₂ t,
        )
  unfolding setup reply str_status on_shunt decimal encode
  setup_target_plugin name args lines out n st s s₁ s₂ t w ne h loaded configured =
      let m1 = match_any-load_text name in
      let m2 = match_any-target_text args in
      let load_line = load_text name ++ b'\n' ∷ [] in
      let setup_line = target_text args ++ b'\n' ∷ [] in
      rw
        (
          parse_common_opts_line true (sent (load_text name)) load_line (load_text name)
              (sent (target_text args) ∷ lines) (world {S = S} {O = O} [] out (suc (suc n)) st s t)
              (decode-encode_ascii load_line (load_text-IsAscii name w)) (strip-load_text name w ne)
              (rw m1 refl) (rw m1 refl),
          match_load-load_text name w ne,
          loaded,
          parse_common_opts_line true (sent (target_text args)) setup_line (target_text args) lines
              (world {S = S} {O = O} [] (out ++ codes "200 OK\n") (suc n) st s₁ t)
              (decode-encode_ascii setup_line (target_text-IsAscii args h.ascii))
              (strip-target_text args) (rw m2 refl) (rw m2 refl),
          match_setup-target_text args h.no_newline,
          setup_args-target_arguments args h.no_colon h.no_bar,
          configured,
        )
        refl

module _ {S : Shunt} where
  -- The turns of LISTEN and SETUP.
  set_up :
      (p n : ℕ) (name args : Text) (rest : List Bytes) (w : System S) (s₁ s₂ : S.State)
      → p < 10 ^ 19
      → w.lives p ≡ runs
      → w.places p ≡ at (codes "LISTEN") one
      → w.input ≡ codes "HELLO\n" ∷ sent (load_text name) ∷ sent (target_text args) ∷ rest
      → w.writes ≡ suc (suc (suc n))
      → Holds 0 w.status
      → All (λ c. is_word c ≡ true) name
      → name ≢ []
      → IsPart args
      → S.load_plugin name (w.shunts p) ≡ (returned tt, s₁)
      → S.setup_target args s₁ ≡ (returned tt, s₂)
      → (st : TestStatus) × Holds p st
        × (turn S p (turn S p w)
            ≡ system rest
                (w.output ++ set_up_replies)
                n
                st
                w.lives
                (update (update w.shunts p (w.shunts p)) p s₂)
                (update (update w.places p (at (codes "SETUP") one)) p (at (codes "RUN") one))
                w.fresh)
  set_up p n name args rest w s₁ s₂ small alive here lines more h word ne part loaded configured =
      let (st, marked, h') = running_lem p 0 w.status h small in
      let later = sent (load_text name) ∷ sent (target_text args) ∷ rest in
      let greeted = w.output ++ codes "200 OK (Ready to go)\n" in
      let shunts = update w.shunts p (w.shunts p) in
      let same = update_same w.shunts p (w.shunts p) in
      let places = update w.places p (at (codes "SETUP") one) in
      let e1 =
        listens {S = S} (codes "HELLO\n" ∷ later) w.output (suc (suc (suc n))) w.status w.lives
          w.shunts w.places w.fresh p (suc (suc n)) later greeted st alive here
          (listen_hello {S = S} {O = live} later w.output (suc (suc n)) w.status st (w.shunts p)
            (w.shunts p) w.lives true p (is_running_lem 0 w.status h) marked) in
      let e2 =
        sets_up {S = S} later greeted (suc (suc n)) st w.lives shunts places w.fresh p n rest
          ((greeted ++ codes "200 OK\n") ++ codes "200 OK\n") s₂ alive
          (update_same w.places p (at (codes "SETUP") one))
          (setup_target_plugin {S = S} {O = live} name args rest greeted n st (shunts p) s₁ s₂
            w.lives word ne part (ap (λ x. S.load_plugin name x) same ∙ loaded) configured) in
      let joined_replies : (greeted ++ codes "200 OK\n") ++ codes "200 OK\n"
          ≡ w.output ++ set_up_replies =
        append_assoc greeted (codes "200 OK\n") (codes "200 OK\n")
        ∙ append_assoc w.output (codes "200 OK (Ready to go)\n") (codes "200 OK\n200 OK\n") in
      (
        st,
        h',
        ap (λ x. turn S p (turn S p (record w { input = x }))) lines
            ∙ ap
                (λ m.
                  turn S p (turn S p (record w { input = codes "HELLO\n" ∷ later; writes = m })))
                more
            ∙ ap (λ x. turn S p x) e1
            ∙ e2
            ∙ ap
                (λ (o : Bytes).
                  system {S = S} rest o n st w.lives (update shunts p s₂)
                    (update places p (at (codes "RUN") one)) w.fresh)
                joined_replies,
      )

  -- A process of a target daemon that runs no test, before LISTEN, with a plugin whose calls succeed
  -- and over a socket that takes six writes more, answers HELLO, LOAD and SETUP with 200 each, its
  -- plugin loaded under the given name and set up with the given arguments; START makes it fork a
  -- child with the next id, and its SHUNT.start() goes on until SIGUSR1; and with STOP behind it, in
  -- whatever order the two go on, once the child had a turn and behind it the parent two, the result
  -- of the plugin follows the replies, once; what is sent behind STOP was not read, both processes
  -- have ended, and the status holds no id. The name is a word, and the arguments are ASCII without
  -- colons, bars and line feeds.
  pub target_session :
      (p n : ℕ) (sides : List Side) (name args : Text) (rest : List Bytes) (w : System S)
      (s₁ s₂ s₃ s₄ : S.State) (v : ℤ) (content : Bytes)
      → p < 10 ^ 19
      → p ≢ w.fresh
      → 2 ≤ parents_after sides
      → w.lives p ≡ runs
      → w.places p ≡ at (codes "LISTEN") one
      → w.input
        ≡ codes "HELLO\n"
          ∷ sent (load_text name)
          ∷ sent (target_text args)
          ∷ codes "START\n"
          ∷ codes "STOP\n"
          ∷ rest
      → w.writes ≡ suc (suc (suc (suc (suc (suc n)))))
      → Holds 0 w.status
      → All (λ c. is_word c ≡ true) name
      → name ≢ []
      → IsPart args
      → S.load_plugin name (w.shunts p) ≡ (returned tt, s₁)
      → S.setup_target args s₁ ≡ (returned tt, s₂)
      → S.start s₂ ≡ (returned tt, s₃)
      → S.marshall s₃ ≡ (returned (v, content), s₄)
      → let w' =
          schedule S (goes_on p ∷ goes_on p ∷ goes_on p ∷ goes_on p ∷ turns_of p w.fresh sides) w in
        (w'.output ≡ (w.output ++ set_up_replies) ++ result_text (is v 0) content)
        × (w'.input ≡ rest)
        × (w'.lives p ≡ ended)
        × (w'.lives w.fresh ≡ ended)
        × Holds 0 w'.status
  unfolding schedule
  target_session p n sides name args rest w s₁ s₂ s₃ s₄ v content small apart two alive here lines
        more h word ne part loaded configured started done =
      let (st, held, e) =
        set_up p (suc (suc (suc n))) name args (codes "START\n" ∷ codes "STOP\n" ∷ rest) w s₁ s₂
          small alive here lines more h word ne part loaded configured in
      let shunts = update w.shunts p (w.shunts p) in
      let places = update w.places p (at (codes "SETUP") one) in
      let set =
        system {S = S} (codes "START\n" ∷ codes "STOP\n" ∷ rest) (w.output ++ set_up_replies)
          (suc (suc (suc n))) st w.lives (update shunts p s₂)
          (update places p (at (codes "RUN") one)) w.fresh in
      subst
        (λ (x : System S).
          let w' = schedule S (goes_on p ∷ goes_on p ∷ turns_of p w.fresh sides) x in
          (w'.output ≡ (w.output ++ set_up_replies) ++ result_text (is v 0) content)
          × (w'.input ≡ rest)
          × (w'.lives p ≡ ended)
          × (w'.lives w.fresh ≡ ended)
          × Holds 0 w'.status)
        (sym e)
        (target_test p n p sides rest set s₃ s₄ v content apart two alive
          (update_same places p (at (codes "RUN") one)) refl refl held
          (ap (λ x. S.start x) (update_same shunts p s₂) ∙ started) done)
