-- ===== src/Controller/Config/Ready.antt =====
-- What `main` may rely on once the lists are gathered.
use mathlib.Core.Path.{fun_ext}
use ipbench.Prelude.{
  pos, subst, ap, ◌∙◌, ◌≡◌, ◌≢◌, refl, Option, none, some, List, [], ◌∷◌, ◌++◌, map,
}
use ipbench.Python.Text.{Text}
use ipbench.Python.Outcome.{Outcome, returned, or_raise, exit_failed}
use ipbench.Python.Exec.{Exec, gets, pure, lift, ◌>>=◌, ◌>>◌}
use ipbench.Python.Exec.Leaves.{Left, Leaves, Left-always, Leaves-bind, post_of_Left}
use ipbench.Controller.Options.{Options, Argument, parse_args}
use ipbench.Controller.Options.Latest.{all_named, parse_args-clients}
use ipbench.Controller.Options.Said.{
  last, or_default, port_given, test_port_given, test_given, test_args_given, test_target_given,
  port_said, test_port_said, test_args_said, test_target_said, test_said,
}
use ipbench.Controller.Config.{
  Xml, ClientSpec, TargetSpec, config_lists, gather, expect_test, expect_some, named_clients,
  named_target, client_of, target_of,
}

-- The test is known, and there is a client.
abbrev pub Ready : Text × List ClientSpec × List TargetSpec → Options → Type 0
Ready (t, clients, targets) o = (o.test ≡ some t) × (clients ≢ [])

-- Code that reads the options and changes none of them.
abbrev Keeps : {A : Type 0} → Options → Exec Options A → Type 0
Keeps {A} o m = Leaves {A = A} (λ s. s ≡ o) m (λ _ s. s ≡ o)

named_clients-Keeps : (o : Options) (hosts : List Text) → Keeps o (named_clients hosts)
named_clients-Keeps o [] = record { from = λ s p. p }
named_clients-Keeps o (h ∷ hs) = record { from = λ s p. after_expect s (s.test) p }
  where
    after_expect :
        (s : Options) (r : Option Text)
        → s ≡ o
        → Left
            (λ _ q. q ≡ o)
            ((expect_test r >> pure (map (client_of s) (h ∷ hs))) s).0
            ((expect_test r >> pure (map (client_of s) (h ∷ hs))) s).1
    after_expect s none p = tt
    after_expect s (some t) p = p

named_target-Keeps : (o : Options) (t : Option Text) → Keeps o (named_target t)
named_target-Keeps o none = record { from = λ s p. p }
named_target-Keeps o (some []) = record { from = λ s p. p }
named_target-Keeps o (some (c ∷ t)) = record { from = λ s p. after_host s s.target_test_hostname p }
  where
    after_host :
        (s : Options) (host : Option Text)
        → s ≡ o
        → Left
            (λ _ q. q ≡ o)
            ((lift (or_raise exit_failed host) >>= λ h. pure (target_of s (c ∷ t) h ∷ [])) s).0
            ((lift (or_raise exit_failed host) >>= λ h. pure (target_of s (c ∷ t) h ∷ [])) s).1
    after_host s none p = tt
    after_host s (some h) p = p

expect_test-Leaves :
    (o : Options) (r : Option Text)
    → Leaves (λ s. s ≡ o) (expect_test r) (λ t s. (s ≡ o) × (r ≡ some t))
expect_test-Leaves o none = record { from = λ s p. tt }
expect_test-Leaves o (some t) = record { from = λ s p. (p, refl) }

expect_some-Leaves :
    (P : Options → Type 0) (l : List ClientSpec) → Leaves P (expect_some l) (λ k s. P s × (k ≢ []))
expect_some-Leaves P [] = record { from = λ s p. tt }
expect_some-Leaves P (c ∷ l) = record { from = λ s p. (p, λ e. cc) }

gather-Leaves : (X : Xml) → Leaves (λ _. Unit {0}) (gather X) Ready
unfolding gather
gather-Leaves X =
    Leaves-bind {Q = λ _ _. Unit {0}} (config_lists X) _
      (record { from = λ s p. Left-always (λ _ _. Unit {0}) _ _ (λ _. tt) })
      (λ (clients, targets).
        Leaves-bind {Q = λ o s. s ≡ o} (gets (λ o. o)) _ (record { from = λ s p. refl })
          (λ o. Leaves-bind (named_clients o.clients) _ (named_clients-Keeps o o.clients) (λ more.
            Leaves-bind (named_target o.target_test) _ (named_target-Keeps o o.target_test)
              (λ extra. Leaves-bind (expect_test o.test) _ (expect_test-Leaves o o.test) (λ t.
                Leaves-bind (expect_some (clients ++ more)) _
                  (expect_some-Leaves _ (clients ++ more))
                  (λ all. record {
                    from = λ s (p, ne). (ap (λ (q : Options). q.test) p.0 ∙ p.1, ne);
                  }))))))

-- Whatever the command line and the configuration hold, `main` goes on only with a name for the test,
-- which is the one that the options hold in the end, and with at least one client.
pub gather-Ready :
    (X : Xml) (o o' : Options) (lists : Text × List ClientSpec × List TargetSpec)
    → gather X o ≡ (returned lists, o')
    → Ready lists o'
gather-Ready X o o' lists e =
    subst (λ s. Ready lists s)
      (ap (λ (r : Outcome (Text × List ClientSpec × List TargetSpec) × Options). r.1) e)
      (post_of_Left Ready _ _ lists ((gather-Leaves X).from o tt)
        (ap (λ (r : Outcome (Text × List ClientSpec × List TargetSpec) × Options). r.0) e))

-- A client of the command line `l`.
abbrev pub client_said : List Argument → Text → ClientSpec
client_said l host = record {
  hostname = host;
  port = or_default (pos 8036) (last port_given none l);
  test_port = or_default (pos 0) (last test_port_given none l);
  test_args = or_default [] (last test_args_given none l);
  test_target = last test_target_given none l;
}

client_of-client_said :
    (l : List Argument) (o : Options) (parsed : parse_args l ≡ returned o) (host : Text)
    → client_of o host ≡ client_said l host
client_of-client_said l o parsed host = λ i. record {
  hostname = host;
  port = port_said l o parsed i;
  test_port = test_port_said l o parsed i;
  test_args = test_args_said l o parsed i;
  test_target = test_target_said l o parsed i;
}

gather_options :
    (X : Xml) (o : Options) (test h : Text) (hs : List Text)
    → o.config ≡ none
    → o.target_test ≡ none
    → o.test ≡ some test
    → o.clients ≡ h ∷ hs
    → gather X o ≡ (returned (test, map (client_of o) (h ∷ hs), []), o)
unfolding gather config_lists
gather_options X o test h hs no_file no_target known named =
    rw (no_file, named, known, no_target) refl

-- If the command line can be parsed, and names a test and a client, but no configuration file and no
-- target, `main` goes on with the name behind the last --test, with no target, and with a client for
-- each --client, in order: its port is the number behind the last --port, or 8036, its test port that
-- behind the last --test-port, or 0, its test arguments those behind the last --test-args, or none,
-- and its test target the one behind the last --test-target, or None. The options stay as they are.
pub gather_command_line :
    (X : Xml) (l : List Argument) (o : Options) (test h : Text) (hs : List Text)
    → parse_args l ≡ returned o
    → o.config ≡ none
    → o.target_test ≡ none
    → last test_given none l ≡ some test
    → all_named l ≡ h ∷ hs
    → gather X o ≡ (returned (test, map (client_said l) (h ∷ hs), []), o)
gather_command_line X l o test h hs parsed no_file no_target known named =
    gather_options X o test h hs no_file no_target (test_said l o parsed ∙ known)
      (parse_args-clients l o parsed ∙ named)
    ∙ ap (λ c. (returned (test, map c (h ∷ hs), []), o))
        (fun_ext (client_of-client_said l o parsed))
