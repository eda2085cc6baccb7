-- ===== src/Controller/Main/Made.antt =====
-- A `try` block that ends without an exception has made an object for each client and each target.
use ipbench.Prelude.{
  subst, ℕ, suc, ◌+◌, ◌≡◌, refl, List, [], ◌∷◌, length, arith, is, Bool, true, false, if◌then◌else◌,
}
use ipbench.Python.Text.{Text}
use ipbench.Python.Outcome.{returned, or_raise, type_error}
use ipbench.Python.Exec.{Exec, pure, lift, modify, ◌>>◌}
use ipbench.Python.Exec.Leaves.{Leaves, Left-always, Leaves-bind, Leaves-lift, post_of_Left}
use ipbench.Controller.Client.{start}
use ipbench.Controller.Target
use ipbench.Controller.Unmarshall.{unmarshall}
use ipbench.Controller.Socket.{Peer}
use ipbench.Controller.Options.{Options}
use ipbench.Controller.Config.{ClientSpec, TargetSpec}
use ipbench.Controller.Bench.{Modules, Bench, on_client, on_target, on_tests}
use ipbench.Controller.Poll.{Round, serve, poll, select, expect_silence, remove}
use ipbench.Controller.Main.{
  call_client_unmarshall, call_target_unmarshall, each_from, places, setup_target, setup_client,
  start_target, start_client, unmarshall_client, stop_target, open_target, open_client,
  output_target, run_tests, port_of,
}

module _ {S A : Type 0} where
  -- The rule for a loop that counts.
  Leaves-each_from :
      (P : ℕ → S → Type 0) (f : ℕ → A → Exec S (Unit {0})) (i : ℕ) (l : List A)
      → ((j : ℕ) (a : A) → Leaves (P j) (f j a) (λ _. P (suc j)))
      → Leaves (P i) (each_from f i l) (λ _. P (i + length l))
  unfolding each_from
  Leaves-each_from P f i [] h = let e : i + 0 ≡ i = omega arith in record { from = λ s p. rw e p }
  Leaves-each_from P f i (a ∷ l) h =
      let e : i + suc (length l) ≡ suc i + length l = omega arith in
      rw e (Leaves-bind (f i a) _ (h i a) (λ _. Leaves-each_from P f (suc i) l h))

  Leaves-each :
      (P : ℕ → S → Type 0) (f : ℕ → A → Exec S (Unit {0})) (l : List A)
      → ((j : ℕ) (a : A) → Leaves (P j) (f j a) (λ _. P (suc j)))
      → Leaves (P 0) (each_from f 0 l) (λ _. P (length l))
  Leaves-each P f l h =
      let e : 0 + length l ≡ length l = omega arith in
      subst (λ n. Leaves (P 0) (each_from f 0 l) (λ _. P n)) e (Leaves-each_from P f 0 l h)

  -- The rule for a loop that keeps a property.
  Leaves-each_kept :
      (P : S → Type 0) (f : ℕ → A → Exec S (Unit {0})) (i : ℕ) (l : List A)
      → ((j : ℕ) (a : A) → Leaves P (f j a) (λ _. P))
      → Leaves P (each_from f i l) (λ _. P)
  Leaves-each_kept P f i l h = Leaves-each_from (λ _. P) f i l h

module _ {W : Type 0} (P : W → Type 0) (unmarshall : ℕ → Exec W (Unit {0}))
    (kept : (i : ℕ) → Leaves P (unmarshall i) (λ _. P)) where
  Leaves-serve : (cs waiting : List ℕ) → Leaves P (serve unmarshall cs waiting) (λ _. P)
  unfolding serve
  Leaves-serve [] waiting = Leaves-lift (returned waiting)
  Leaves-serve (c ∷ cs) waiting =
      Leaves-bind (unmarshall c) _ (kept c) (λ _. Leaves-serve cs (remove c waiting))

  Leaves-expect_silence : (l : List ℕ) → Leaves P (expect_silence l) (λ _. P)
  Leaves-expect_silence [] = record { from = λ s p. p }
  Leaves-expect_silence (c ∷ l) = record { from = λ s p. tt }

  Leaves-poll :
      (rounds : List Round) (targets waiting : List ℕ)
      → Leaves P (poll unmarshall rounds targets waiting) (λ _. P)
  unfolding poll
  Leaves-poll [] targets [] = record { from = λ s p. p }
  Leaves-poll [] targets (c ∷ l) = record { from = λ s p. tt }
  Leaves-poll (r ∷ rounds) targets [] = record { from = λ s p. p }
  Leaves-poll (r ∷ rounds) targets (c ∷ l) =
      Leaves-bind (serve unmarshall (select r.clients (c ∷ l)) (c ∷ l)) _
        (Leaves-serve (select r.clients (c ∷ l)) (c ∷ l))
        (λ waiting.
          Leaves-bind (expect_silence (select r.targets targets)) _
            (Leaves-expect_silence (select r.targets targets))
            (λ _. Leaves-poll rounds targets waiting))

module _ {M : Modules} where
  -- So many clients and so many targets have their objects.
  abbrev pub Made : ℕ → ℕ → Bench M → Type 0
  Made k n w = (w.clients_made ≡ k) × (w.targets_made ≡ n)

  module _ {A : Type 0} (k n : ℕ) where
    on_client-Leaves :
        (i : ℕ) (m : Exec (Peer M.State) A) → Leaves (Made k n) (on_client i m) (λ _. Made k n)
    unfolding on_client
    on_client-Leaves i m = record { from = λ w h. Left-always (λ _. Made k n) _ _ (λ _. h) }

    on_target-Leaves :
        (i : ℕ) (m : Exec (Peer M.State) A) → Leaves (Made k n) (on_target i m) (λ _. Made k n)
    unfolding on_target
    on_target-Leaves i m = record { from = λ w h. Left-always (λ _. Made k n) _ _ (λ _. h) }

    on_tests-Leaves : (m : Exec M.State A) → Leaves (Made k n) (on_tests m) (λ _. Made k n)
    unfolding on_tests
    on_tests-Leaves m = record { from = λ w h. Left-always (λ _. Made k n) _ _ (λ _. h) }

module _ (M : Modules) (o : Options) (test : Text) (rounds : ℕ) where
  setup_target-Leaves :
      (n : ℕ) (t : TargetSpec)
      → Leaves (Made {M = M} 0 n) (setup_target M o test rounds n t) (λ _. Made 0 (suc n))
  unfolding setup_target
  setup_target-Leaves n t = record {
    from = λ w h.
        (Leaves-bind (lift (or_raise type_error t.hostname)) _
            (Leaves-lift (or_raise type_error t.hostname))
            (λ host.
              Leaves-bind (on_tests (M.load_target t.test)) _
                (on_tests-Leaves 0 n (M.load_target t.test))
                (λ _.
                  Leaves-bind (on_tests (M.setup_target o.target_controller_args)) _
                    (on_tests-Leaves 0 n (M.setup_target o.target_controller_args))
                    (λ _.
                      Leaves-bind (modify (λ (v : Bench M). record v { targets_made = suc n })) _
                        (record { from = λ v g. (g.0, refl) })
                        (λ _.
                          on_target-Leaves 0 (suc n) n
                            (open_target M o test rounds (w.targets n) host t)))))).from
          w h;
  }

  port_of-Leaves :
      (k n : ℕ) (c : ClientSpec) (b : Bool)
      → Leaves
          (Made {M = M} k n)
          (if b then on_tests M.get_default_port else pure c.test_port)
          (λ _. Made k n)
  port_of-Leaves k n c true = on_tests-Leaves k n M.get_default_port
  port_of-Leaves k n c false = record { from = λ s p. p }

  setup_client-Leaves :
      (n k : ℕ) (c : ClientSpec)
      → Leaves (Made {M = M} k n) (setup_client M o test rounds k c) (λ _. Made (suc k) n)
  unfolding setup_client
  setup_client-Leaves n k c = record {
    from = λ w h.
        (Leaves-bind (port_of M o test rounds c) _ (port_of-Leaves k n c (is c.test_port 0)) (λ p.
            Leaves-bind (modify (λ (v : Bench M). record v { clients_made = suc k })) _
              (record { from = λ v g. (refl, g.1) })
              (λ _.
                on_client-Leaves (suc k) n k (open_client M o test rounds (w.clients k) p c)))).from
          w h;
  }

  module _ (k n : ℕ) where
    start_target-Leaves :
        (i : ℕ) (t : TargetSpec)
        → Leaves (Made {M = M} k n) (start_target M o test rounds i t) (λ _. Made k n)
    unfolding start_target
    start_target-Leaves i t = on_target-Leaves k n i start

    start_client-Leaves :
        (i : ℕ) (c : ClientSpec)
        → Leaves (Made {M = M} k n) (start_client M o test rounds i c) (λ _. Made k n)
    unfolding start_client
    start_client-Leaves i c = on_client-Leaves k n i start

    unmarshall_client-Leaves :
        (i : ℕ) → Leaves (Made {M = M} k n) (unmarshall_client M o test rounds i) (λ _. Made k n)
    unfolding unmarshall_client
    unmarshall_client-Leaves i =
        on_client-Leaves k n i (unmarshall rounds (call_client_unmarshall M i))

    stop_target-Leaves :
        (i : ℕ) (t : TargetSpec)
        → Leaves (Made {M = M} k n) (stop_target M o test rounds i t) (λ _. Made k n)
    unfolding stop_target
    stop_target-Leaves i t =
        on_target-Leaves k n i (Target.stop >> unmarshall rounds (call_target_unmarshall M))

  run_tests-Leaves :
      (answers : List Round) (clients : List ClientSpec) (targets : List TargetSpec)
      → Leaves
          (Made {M = M} 0 0)
          (run_tests M o test rounds answers clients targets)
          (λ _. Made (length clients) (length targets))
  unfolding run_tests
  run_tests-Leaves answers clients targets =
      let k = length clients in
      let n = length targets in
      Leaves-bind (each_from (setup_target M o test rounds) 0 targets) _
        (Leaves-each (λ j. Made 0 j) (setup_target M o test rounds) targets
          (λ j t. setup_target-Leaves j t))
        (λ _.
          Leaves-bind (each_from (setup_client M o test rounds) 0 clients) _
            (Leaves-each (λ j. Made j n) (setup_client M o test rounds) clients
              (λ j c. setup_client-Leaves n j c))
            (λ _.
              Leaves-bind (each_from (start_target M o test rounds) 0 targets) _
                (Leaves-each_kept (Made k n) (start_target M o test rounds) 0 targets
                  (λ j t. start_target-Leaves k n j t))
                (λ _.
                  Leaves-bind (each_from (start_client M o test rounds) 0 clients) _
                    (Leaves-each_kept (Made k n) (start_client M o test rounds) 0 clients
                      (λ j c. start_client-Leaves k n j c))
                    (λ _.
                      Leaves-bind
                        (poll (unmarshall_client M o test rounds) answers (places 0 targets)
                          (places 0 clients))
                        _
                        (Leaves-poll (Made k n) (unmarshall_client M o test rounds)
                          (unmarshall_client-Leaves k n) answers (places 0 targets)
                          (places 0 clients))
                        (λ _.
                          Leaves-bind (each_from (stop_target M o test rounds) 0 targets) _
                            (Leaves-each_kept (Made k n) (stop_target M o test rounds) 0 targets
                              (λ j t. stop_target-Leaves k n j t))
                            (λ _.
                              Leaves-bind (on_tests M.output_clients) _
                                (on_tests-Leaves k n M.output_clients)
                                (λ _.
                                  Leaves-each_kept (Made k n) (output_target M o test rounds) 0
                                    targets (λ j t. on_tests-Leaves k n M.output_target))))))))

  -- If the `try` block, begun before any object was made, ends without an exception, each client and
  -- each target has its object.
  pub run_tests-Made :
      (answers : List Round) (clients : List ClientSpec) (targets : List TargetSpec) (w : Bench M)
      → Made {M = M} 0 0 w
      → (run_tests M o test rounds answers clients targets w).0 ≡ returned tt
      → Made {M = M}
          (length clients)
          (length targets)
          (run_tests M o test rounds answers clients targets w).1
  run_tests-Made answers clients targets w h e =
      post_of_Left (λ _. Made {M = M} (length clients) (length targets)) _ _ tt
        ((run_tests-Leaves answers clients targets).from w h) e
