-- ===== src/Daemon/Server/Effects.antt =====
-- What the handlers that end a session do to the status and the process table, whatever comes of them.
use ipbench.Prelude.{ℕ, ◌≡◌, refl, ◌⊎◌, inl, inr, true, false, ◌==◌, none, some, [], ◌∷◌, ℤ, is}
use ipbench.Python.Text.{Text, Bytes, upper}
use ipbench.Python.Outcome.{Outcome, returned, raised, stalled}
use ipbench.Python.Exec.{Exec, pure, ◌>>◌}
use ipbench.Python.Exec.Stays.{Stays-if, Leads, Leads-bind}
use ipbench.Daemon.TestStatus.{not_running}
use ipbench.Daemon.TestStatus.History.{not_running_lem}
use ipbench.Daemon.Shunt.{Shunt}
use ipbench.Daemon.World.{Os, World, reply, on_status, on_shunt}
use ipbench.Daemon.World.Quiet.{Quiet, write-Quiet, send-Quiet, reply-Quiet, on_shunt-Quiet}
use ipbench.Daemon.Common.{Cargo, error_cargo, Next, go_on, after_plugin}
use ipbench.Daemon.Common.Quiet.{caught-Quiet}
use ipbench.Daemon.Finish.{deliver, marshall, error}
use ipbench.Daemon.Server.{over, stage_of}

-- The process leaves the machine.
abbrev pub Ends : Outcome Next → Type 0
Ends (returned none) = Unit
Ends (returned (some (name, cargo))) = stage_of (upper name) cargo ≡ over
Ends (raised e) = Unit
Ends stalled = Unit

pub reset-Ends : Ends (returned (go_on "RESET"))
unfolding stage_of upper
reset-Ends = refl

module _ {S : Shunt} {O : Os} where
  -- The process leaves, and the status holds `id`.
  abbrev pub Leaving : ℕ → O.Table → Outcome Next → World S O → Type 0
  Leaving id t r w = Ends r × Quiet id t w

  -- The session goes on with its test, or it leaves and the status is cleared.
  abbrev pub Delivered : ℕ → O.Table → Outcome Next → World S O → Type 0
  Delivered id t r w = Quiet id t w ⊎ Leaving 0 t r w

  clears :
      (k : ℕ) (t : O.Table) (m : Exec (World S O) Next)
      → Leads (Quiet 0 t) m (Leaving 0 t)
      → Leads (Quiet k t) (on_status not_running >> m) (Leaving 0 t)
  unfolding on_status
  clears k t m h = record {
    from = λ w q.
        let (st, cleared, held) = not_running_lem k w.status q.held in
        rw cleared
          (h.from (record w { status = st }) (record { held = held; processes = q.processes }));
  }

module _ {S : Shunt} {O : Os} (k : ℕ) (t : O.Table) where
  abbrev D : Outcome Next → World S O → Type 0
  D = Delivered {S = S} {O = O} k t

  deliver-Delivered : (r : ℤ × Bytes) → Leads (Quiet k t) (deliver S O r) D
  unfolding deliver
  deliver-Delivered (valid, content) =
      Leads-bind D (λ e w q. inl q) (λ w q. inl q) _ _
        (Stays-if (is valid 0) _ _ (reply-Quiet k t 220 _) (reply-Quiet k t 221 _))
        (λ _.
          Leads-bind D (λ e w q. inl q) (λ w q. inl q) _ _ (send-Quiet k t _)
            (λ _.
              Leads-bind D (λ e w q. inl q) (λ w q. inl q) _ _ (write-Quiet k t content)
                (λ _. record {
                  from = λ w q. inr (
                      (clears k t (pure (go_on "RESET"))
                          (record { from = λ w q. (reset-Ends, q) })).from
                        w q);
                })))

  plugin-Delivered :
      (r : Outcome (ℤ × Bytes)) → Leads (Quiet k t) (after_plugin S O r (deliver S O)) D
  plugin-Delivered (returned a) = deliver-Delivered a
  plugin-Delivered (raised e) = record { from = λ w q. inl ((caught-Quiet k t e).from w q) }
  plugin-Delivered stalled = record { from = λ w q. inl q }

  pub marshall-Delivered : (cargo : Cargo) → Leads (Quiet k t) (marshall S O cargo) D
  unfolding marshall on_shunt
  marshall-Delivered cargo = record {
    from = λ w q.
        (plugin-Delivered (on_shunt S.marshall w).0).from (on_shunt S.marshall w).1
          ((on_shunt-Quiet k t S.marshall).from w q);
  }

  -- The reply of ERROR, and the end.
  farewell_end :
      (id code : ℕ) (msg : Text)
      → Leads
          (Quiet id t)
          (reply code (msg ∷ []) >> pure (go_on "RESET"))
          (Leaving {S = S} {O = O} id t)
  farewell_end id code msg =
      Leads-bind (Leaving id t) (λ e w q. (tt, q)) (λ w q. (tt, q)) _ _
        (reply-Quiet id t code (msg ∷ [])) (λ _. record { from = λ w q. (reset-Ends, q) })

  -- ERROR with the code 421 leaves the status alone, and with any other it clears it.
  pub error-refused :
      (code : ℕ) (msg : Text)
      → (code == 421) ≡ true
      → Leads (Quiet k t) (error S O (error_cargo code msg)) (Leaving {S = S} {O = O} k t)
  unfolding error
  error-refused code msg refused = rw refused (farewell_end k code msg)

  pub error-clears :
      (code : ℕ) (msg : Text)
      → (code == 421) ≡ false
      → Leads (Quiet k t) (error S O (error_cargo code msg)) (Leaving {S = S} {O = O} 0 t)
  unfolding error
  error-clears code msg other = rw other (clears k t _ (farewell_end 0 code msg))
