-- ===== src/Controller/Config/File.antt =====
-- The clients of a configuration file.
use ipbench.Prelude.{
  ap, pos, ltb, length, Bool-cases, arith, inl, inr, ◌∙◌, ℤ, ◌≡◌, refl, subst, false, Option, none,
  some, List, [], ◌∷◌,
}
use ipbench.Python.Text.{Text, codes}
use ipbench.Python.Outcome.{
  Outcome, returned, raised, stalled, raised-ne-returned, returned-injective,
}
use ipbench.Python.Exec.{modify, ◌>>◌, Exec, pure, lift, gets, collect, each, ◌>>=◌}
use ipbench.Python.Exec.Leaves.{
  Left, Leaves, Left-always, Left-weaken, Leaves-bind, Leaves-lift, post_of_Left,
}
use ipbench.Python.Exec.Items.{Pointwise, collect-Leaves, lift-Leaves}
use ipbench.Controller.Options.{Options}
use ipbench.Controller.Config.Fields.{
  NumberOr, NumberOr-int_attribute, IsClientOf, read_client-Leaves,
}
use ipbench.Controller.Config.{
  Xml, ClientSpec, TargetSpec, get_or, str_of, int_attribute, expect_test, at_most_one, first_test,
  read_client, read_test, read_target_test, read_config, joined,
}

module _ (X : Xml) (port : ℤ) where
  -- What the options hold of a <test>.
  abbrev Described : X.Element → Options → Type 0
  Described e s =
      (s.port ≡ port)
      × NumberOr (X.get (codes "port") e) (pos 0) s.test_port
      × (s.test_args ≡ get_or [] (X.get (codes "args") e))
      × (str_of s.test_target ≡ str_of (X.get (codes "target") e))

  abbrev AllDescribed : List X.Element → Options → Type 0
  AllDescribed [] s = Unit {0}
  AllDescribed (e ∷ []) s = Described e s
  AllDescribed (e ∷ f ∷ l) s = Unit {0}

  -- A round of the loop over <test>, behind its reads.
  abbrev describe : X.Element → Outcome ℤ → Exec Options (Unit {0})
  describe e p = do
    modify (λ o. record o {
      test = some (str_of (X.get (codes "name") e));
      test_args = get_or [] (X.get (codes "args") e);
    })
    n ← lift p
    modify (λ o. record o {
      test_port = n;
      test_target = some (str_of (X.get (codes "target") e));
      controller_args = some (str_of (X.get (codes "controller_args") e));
    })

  describe-Left :
      (e : X.Element) (s : Options) (p : Outcome ℤ)
      → s.port ≡ port
      → int_attribute X (codes "port") (pos 0) e ≡ p
      → Left (λ _ s. Described e s) (describe e p s).0 (describe e p s).1
  describe-Left e s (returned n) said h =
      (said, NumberOr-int_attribute X (codes "port") (pos 0) n e h, refl, refl)
  describe-Left e s (raised x) said h = tt
  describe-Left e s stalled said h = tt

  each-read_test :
      (tests : List X.Element)
      → Leaves (λ s. s.port ≡ port) (each (read_test X) tests) (λ _ s. AllDescribed tests s)
  unfolding each read_test
  each-read_test [] = record { from = λ s p. tt }
  each-read_test (e ∷ f ∷ l) = record { from = λ s p. Left-always (λ _ _. Unit {0}) _ _ (λ _. tt) }
  each-read_test (e ∷ []) =
      Leaves-bind {Q = λ _ s. Described e s} (read_test X e) _
        (record {
          from = λ s p. describe-Left e s (int_attribute X (codes "port") (pos 0) e) p refl;
        })
        (λ _. record { from = λ s p. p })

  at_most_one-Leaves :
      (P : Options → Type 0) (tests : List X.Element)
      → Leaves P (at_most_one X tests) (λ _ s. P s × (ltb 1 (length tests) ≡ false))
  at_most_one-Leaves P tests = elim (Bool-cases (ltb 1 (length tests))) [
    | inl more ↦ rw more (record { from = λ s p. tt })
    | inr one ↦ rw one (record { from = λ s p. (p, refl) })
  ]

  -- One <test>, which is the first.
  only_test :
      (tests : List X.Element) (e : X.Element) (s : Options)
      → ltb 1 (length tests) ≡ false
      → first_test X tests ≡ returned e
      → AllDescribed tests s
      → (tests ≡ e ∷ []) × Described e s
  only_test [] e s one first d = absurd (raised-ne-returned _ e first)
  only_test (f ∷ []) e s one first d =
      let same = returned-injective f e first in
      (ap (λ x. x ∷ []) same, subst (λ x. Described x s) same d)
  only_test (f ∷ g ∷ l) e s one first d = absurd (ground arith)

  -- The clients are those of the elements <client> of the one <test>.
  abbrev pub FromFile : X.Element → List ClientSpec → Type 0
  FromFile doc clients =
      (e : X.Element) × (found : List X.Element) × (test_port : ℤ) × (X.findall (codes "test") doc
        ≡ returned (e ∷ []))
      × NumberOr (X.get (codes "port") e) (pos 0) test_port
      × (X.findall (codes "./client") e ≡ returned found)
      × Pointwise
          (IsClientOf X port test_port (get_or [] (X.get (codes "args") e))
            (str_of (X.get (codes "target") e)))
          found clients

  expect_test-Leaves : (P : Options → Type 0) (r : Option Text) → Leaves P (expect_test r) (λ _. P)
  expect_test-Leaves P none = record { from = λ s p. tt }
  expect_test-Leaves P (some t) = record { from = λ s p. p }

  -- What is known once the tests were read.
  abbrev Known : X.Element → List X.Element → Options → Type 0
  Known doc tests s =
      AllDescribed tests s
      × (X.findall (codes "test") doc ≡ returned tests)
      × (ltb 1 (length tests) ≡ false)

  read_found :
      (doc e : X.Element) (tests found : List X.Element) (q : Options)
      → Known doc tests q
      → first_test X tests ≡ returned e
      → X.findall (codes "./client") e ≡ returned found
      → Leaves (λ s. s ≡ q) (collect (read_client X) found) (λ clients s. FromFile doc clients)
  read_found doc e tests found q (d, listed, one) first given =
      let (single, (said, test_port, args, target)) = only_test tests e q one first d in
      let R : X.Element → ClientSpec → Type 0 =
        λ x c. IsClientOf X q.port q.test_port q.test_args (str_of q.test_target) x c in
      record {
        from = λ s p.
            Left-weaken (λ bs s. (s ≡ q) × Pointwise R found bs) (λ clients s. FromFile doc clients)
              (collect (read_client X) found s).0 (collect (read_client X) found s).1
              ((collect-Leaves (λ s. s ≡ q) R (read_client X) (read_client-Leaves X q) found).from s
                p)
              (λ clients (same, all). (
                e,
                found,
                q.test_port,
                listed ∙ ap (λ l. returned l) single,
                test_port,
                given,
                subst
                    (λ a.
                      Pointwise
                        (IsClientOf X port q.test_port a (str_of (X.get (codes "target") e))) found
                        clients)
                    args
                    (subst
                      (λ t. Pointwise (IsClientOf X port q.test_port q.test_args t) found clients)
                      target
                      (subst
                        (λ n.
                          Pointwise (IsClientOf X n q.test_port q.test_args (str_of q.test_target))
                            found clients)
                        said all)),
              ));
      }

  -- The end of `read_config`: the targets have no say in the clients.
  abbrev targets_after :
      X.Element → List ClientSpec → Exec Options (List ClientSpec × List TargetSpec)
  targets_after doc clients = do
    target_tests ← lift (X.findall (codes "target_test") doc)
    targets ← collect (read_target_test X doc) target_tests
    pure (clients, joined targets)

  targets_after-Leaves :
      (doc : X.Element) (clients : List ClientSpec)
      → Leaves
          (λ s. FromFile doc clients)
          (targets_after doc clients)
          (λ (lists : List ClientSpec × List TargetSpec) s. FromFile doc lists.0)
  targets_after-Leaves doc clients =
      Leaves-bind {Q = λ _ s. FromFile doc clients} _ _
        (Leaves-lift (X.findall (codes "target_test") doc))
        (λ target_tests.
          Leaves-bind {Q = λ _ s. FromFile doc clients}
            (collect (read_target_test X doc) target_tests) _
            (record { from = λ s f. Left-always (λ _ _. FromFile doc clients) _ _ (λ _. f) })
            (λ targets. record { from = λ s f. f }))

  clients_then_targets :
      (doc e : X.Element) (tests : List X.Element) (q : Options)
      → Known doc tests q
      → first_test X tests ≡ returned e
      → Leaves
          (λ s. s ≡ q)
          (lift (X.findall (codes "./client") e) >>= λ found.
            collect (read_client X) found >>= λ clients. targets_after doc clients)
          (λ (lists : List ClientSpec × List TargetSpec) s. FromFile doc lists.0)
  clients_then_targets doc e tests q known first =
      Leaves-bind {Q = λ found s. (s ≡ q) × (X.findall (codes "./client") e ≡ returned found)} _ _
        (lift-Leaves (λ s. s ≡ q) (X.findall (codes "./client") e))
        (λ found. record {
          from = λ s (same, given).
              (Leaves-bind {Q = λ clients s. FromFile doc clients} {P = λ s. s ≡ q}
                  (collect (read_client X) found) _
                  (read_found doc e tests found q known first given)
                  (λ clients. targets_after-Leaves doc clients)).from
                s same;
        })

  read_config-Leaves :
      (doc : X.Element)
      → Leaves
          (λ s. s.port ≡ port)
          (read_config X doc)
          (λ (lists : List ClientSpec × List TargetSpec) s. FromFile doc lists.0)
  unfolding read_config
  read_config-Leaves doc =
      Leaves-bind {Q = λ tests s. (s.port ≡ port) × (X.findall (codes "test") doc ≡ returned tests)}
        _ _ (lift-Leaves (λ s. s.port ≡ port) (X.findall (codes "test") doc))
        (λ tests.
          Leaves-bind
            {Q = λ _ s.
              ((s.port ≡ port) × (X.findall (codes "test") doc ≡ returned tests))
              × (ltb 1 (length tests) ≡ false)}
            (at_most_one X tests) _
            (at_most_one-Leaves
              (λ s. (s.port ≡ port) × (X.findall (codes "test") doc ≡ returned tests)) tests)
            (λ _. record {
              from = λ s ((said, listed), one).
                  (Leaves-bind {Q = λ _ s. AllDescribed tests s} {P = λ s. s.port ≡ port}
                      (each (read_test X) tests) _ (each-read_test tests)
                      (λ _.
                        Leaves-bind {Q = λ o s. (s ≡ o) × AllDescribed tests o} (gets (λ o. o)) _
                          (record { from = λ s d. (refl, d) })
                          (λ q.
                            Leaves-bind {Q = λ _ s. (s ≡ q) × AllDescribed tests q} _ _
                              (expect_test-Leaves (λ s. (s ≡ q) × AllDescribed tests q) q.test)
                              (λ _.
                                Leaves-bind
                                  {Q = λ e s.
                                    ((s ≡ q) × AllDescribed tests q)
                                    × (first_test X tests ≡ returned e)}
                                  _ _
                                  (lift-Leaves (λ s. (s ≡ q) × AllDescribed tests q)
                                    (first_test X tests))
                                  (λ e. record {
                                    from = λ s ((same, d), first).
                                        (clients_then_targets doc e tests q (d, listed, one)
                                            first).from
                                          s same;
                                  }))))).from
                    s said;
            }))

-- If a configuration can be read, it has one <test>, and the clients are those of its elements
-- <client>, in order: each has the host name of its element; as test arguments and as test target
-- the attribute of its element or, without one, what <test> says, with no arguments and the text None
-- where <test> does not say it either; as test port the number of its attribute or, without one, that
-- of the attribute `port` of <test>, or 0; and as port the number of its attribute or, without one,
-- what the options said before.
pub read_config-clients :
    (X : Xml) (doc : X.Element) (o o' : Options) (clients : List ClientSpec)
    (targets : List TargetSpec)
    → read_config X doc o ≡ (returned (clients, targets), o')
    → FromFile X o.port doc clients
read_config-clients X doc o o' clients targets h =
    post_of_Left (λ (lists : List ClientSpec × List TargetSpec) s. FromFile X o.port doc lists.0) _
      _ (clients, targets) ((read_config-Leaves X o.port doc).from o refl)
      (ap (λ (r : Outcome (List ClientSpec × List TargetSpec) × Options). r.0) h)
