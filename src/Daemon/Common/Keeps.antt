-- ===== src/Daemon/Common/Keeps.antt =====
-- What the shared parts of the handlers do to the status, and that their loops end.
use ipbench.Prelude.{ℕ, ◌≤◌, ◌<◌, ◌≡◌, refl, sym, subst, Bool, true, false, List, [], ◌∷◌, arith}
use ipbench.Python.Text.{Text, Bytes, codes, strip, text_eq}
use ipbench.Python.Outcome.{Outcome, returned, raised, stalled, Exn, runtime_error}
use ipbench.Python.Exec.{Exec, ◌>>◌}
use ipbench.Python.Exec.Ensures.{
  Ensures, Ensures-pure, Ensures-raise, Ensures-if, Ensures-bind, Ensures_before,
}
use ipbench.Daemon.TestStatus.{TestStatus, is_running, running_pid}
use ipbench.Daemon.TestStatus.RoundTrip.{Holds}
use ipbench.Daemon.Shunt.{Shunt}
use ipbench.Daemon.World.{Os, World, reply, readline, on_status}
use ipbench.Daemon.World.Keeps.{
  Has, Spent, reply-Ensures, send-Ensures, readline-Ensures, on_status-Ensures, is_running-Ensures,
  running_pid-Ensures,
}
use ipbench.Daemon.Commands.{match_any}
use ipbench.Daemon.Common.{
  Next, fail_with, farewell, go_on, caught, after_plugin, try_plugin, refuse, help, show_status,
  running_line, common_opts, parse_common_opts, on_line, by_line, common_line,
}

-- A call that may raise, and leaves the status and the socket alone whatever comes of it.
pub record Untouched {S : Shunt} {O : Os} {A : Type 0} (m : Exec (World S O) A) : Type 0 where
  pub status : (w : World S O) → (m w).1.status ≡ w.status
  pub writes : (w : World S O) → (m w).1.writes ≡ w.writes
  pub ended : (w : World S O) → (m w).0 ≡ stalled → ⊥

module _ {S : Shunt} {O : Os} (X : TestStatus → Type 0) (k : ℕ) where
  -- What follows a write that was made.
  pub after_write :
      {B : Type 0} {R : B → World S O → Type 0} (m : Exec (World S O) (Unit {0}))
      (n : Exec (World S O) B)
      → Ensures (Has X k) m (λ _. Spent X k)
      → Ensures (Has X k) n R
      → Ensures (Has X k) (m >> n) R
  after_write m n hm hn =
      Ensures-bind m _ hm (λ _. Ensures_before n (λ w h. (h.0, omega (arith, h.1))) hn)

  -- A refused line uses up a write.
  pub refuse-Ensures :
      {R : Next → World S O → Type 0} (again : Exec (World S O) Next)
      → ((j : ℕ) → j < k → Ensures (Has X j) again R)
      → Ensures (Has X k) (refuse S O again) R
  refuse-Ensures again h =
      Ensures-bind (reply 500 []) _ (reply-Ensures X k 500 [])
        (λ _. record { from = λ w p. (h w.writes p.1).from w (p.0, omega arith) })

  module _ {R : Next → World S O → Type 0} where
    caught-Ensures :
        (e : Exn)
        → ((detail : Text) (w : World S O) → Has X k w → R (fail_with 451 (strip detail)) w)
        → Ensures (Has X k) (caught S O e) R
    caught-Ensures (runtime_error detail) h = Ensures-pure _ (h detail)
    caught-Ensures _ h = Ensures-raise _

    after_plugin-Ensures :
        {A : Type 0} (r : Outcome A) (f : A → Exec (World S O) Next)
        → (r ≡ stalled → ⊥)
        → ((a : A) → Ensures (Has X k) (f a) R)
        → ((detail : Text) (w : World S O) → Has X k w → R (fail_with 451 (strip detail)) w)
        → Ensures (Has X k) (after_plugin S O r f) R
    after_plugin-Ensures (returned a) f ended hf h = hf a
    after_plugin-Ensures (raised e) f ended hf h = caught-Ensures e h
    after_plugin-Ensures stalled f ended hf h = absurd (ended refl)

    -- A plugin's call, with what follows it and with its error.
    pub try_plugin-Ensures :
        {A : Type 0} (m : Exec (World S O) A) (f : A → Exec (World S O) Next)
        → Untouched m
        → ((a : A) → Ensures (Has X k) (f a) R)
        → ((detail : Text) (w : World S O) → Has X k w → R (fail_with 451 (strip detail)) w)
        → Ensures (Has X k) (try_plugin S O m f) R
    try_plugin-Ensures m f u hf h = record {
      from = λ w p.
          (after_plugin-Ensures (m w).0 f (u.ended w) hf h).from (m w).1
            (subst X (sym (u.status w)) p.0, subst (λ n. n ≤ k) (sym (u.writes w)) p.1);
    }

module _ (S : Shunt) (O : Os) (target : Bool) (q k : ℕ) where
  running_line-Ensures :
      (busy : Bool)
      → Ensures {S = World S O}
          (Has (Holds q) k)
          (running_line S O target busy)
          (λ _. Spent (Holds q) k)
  unfolding running_line
  running_line-Ensures false = send-Ensures (Holds q) k _
  running_line-Ensures true =
      Ensures-bind (on_status running_pid) _
        (on_status-Ensures (Holds q) k running_pid (running_pid-Ensures q))
        (λ p. Ensures_before _ (λ w h. (h.0.0, h.1)) (send-Ensures (Holds q) k _))

  help-Ensures :
      Ensures {S = World S O} (Has (Holds q) k) (help S O target) (λ _. Spent (Holds q) k)
  unfolding help
  help-Ensures =
      after_write (Holds q) k _ _ (send-Ensures (Holds q) k _) (reply-Ensures (Holds q) k 200 [])

  show_status-Ensures :
      Ensures {S = World S O} (Has (Holds q) k) (show_status S O target) (λ _. Spent (Holds q) k)
  unfolding show_status
  show_status-Ensures = after_write (Holds q) k _ _ (send-Ensures (Holds q) k _) (
      Ensures-bind (on_status is_running) _
        (on_status-Ensures (Holds q) k is_running (is_running-Ensures q))
        (λ busy.
          Ensures_before _ (λ w h. (h.0.0, h.1))
            (after_write (Holds q) k _ _ (running_line-Ensures busy)
              (reply-Ensures (Holds q) k 200 []))))

  common_line-Ensures :
      (again : Exec (World S O) Text) (text : Text)
      → Ensures (Has (Holds q) k) again (λ _. Has (Holds q) k)
      → Ensures (Has (Holds q) k) (common_line S O target again text) (λ _. Has (Holds q) k)
  unfolding common_line
  common_line-Ensures again text ih =
      Ensures-if (text_eq (match_any text) (codes "HELP")) _ _
        (λ _. after_write (Holds q) k _ _ help-Ensures ih)
        (λ _.
          Ensures-if (text_eq (match_any text) (codes "STATUS")) _ _
            (λ _. after_write (Holds q) k _ _ show_status-Ensures ih)
            (λ _. Ensures-pure _ (λ w h. h)))

  common_opts-Ensures :
      (lines : List Bytes)
      → Ensures {S = World S O}
          (Has (Holds q) k)
          (common_opts S O target lines)
          (λ _. Has (Holds q) k)
  unfolding common_opts
  common_opts-Ensures [] =
      Ensures-bind readline _ (readline-Ensures (Holds q) k) (λ line. Ensures-pure _ (λ w h. h))
  common_opts-Ensures (line ∷ rest) =
      let ih = common_opts-Ensures rest in
      Ensures-bind readline _ (readline-Ensures (Holds q) k)
        (λ text. common_line-Ensures _ (strip text) ih)

  -- HELP and STATUS leave the status alone.
  pub parse_common_opts-Ensures :
      Ensures {S = World S O}
        (Has (Holds q) k)
        (parse_common_opts S O target)
        (λ _. Has (Holds q) k)
  unfolding parse_common_opts
  parse_common_opts-Ensures = record { from = λ w h. (common_opts-Ensures w.input).from w h }

  -- The head of a handler's loop.
  pub on_line-Ensures :
      {R : Next → World S O → Type 0} (f : Text → Exec (World S O) Next)
      → ((w : World S O) → Has (Holds q) k w → R (go_on "ABORT") w)
      → ((w : World S O) → Has (Holds q) k w → R farewell w)
      → ((line : Text) → Ensures (Has (Holds q) k) (f line) R)
      → Ensures (Has (Holds q) k) (on_line S O target f) R
  on_line-Ensures f aborts quits h =
      Ensures-bind (parse_common_opts S O target) (by_line S O target f) parse_common_opts-Ensures
        (λ line.
          Ensures-if (text_eq line (codes "ABORT")) _ _ (λ _. Ensures-pure _ aborts)
            (λ _.
              Ensures-if (text_eq line (codes "QUIT")) _ _ (λ _. Ensures-pure _ quits)
                (λ _. h line)))
