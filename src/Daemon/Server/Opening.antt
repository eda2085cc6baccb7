-- ===== src/Daemon/Server/Opening.antt =====
-- What LISTEN does with the first line of a controller, HELLO or ABORT, or without one.
use ipbench.Prelude.{
  [], ◌∙◌, ℕ, zero, suc, ◌≡◌, refl, true, false, List, ◌∷◌, ◌⊎◌, inl, inr, ◌<◌, ◌^◌, ◌++◌, subst,
  sym, lt→ltb, ap, arith,
}
use ipbench.Python.Text.{Text, Bytes, codes, upper, strip}
use ipbench.Daemon.World.Quiet.{Quiet}
use ipbench.Daemon.TestStatus.RoundTrip.{Holds}
use ipbench.Daemon.TestStatus.History.{is_running_lem, running_lem}
use ipbench.Daemon.Server.{stage_of}
use ipbench.Daemon.Server.Invariant.{Opens}
use ipbench.Daemon.Server.Follow.{Goes}
use ipbench.Python.Number.{decimal}
use ipbench.Python.Codec.{encode, decode}
use ipbench.Python.Outcome.{stalled, Outcome, returned, raised, broken_pipe}
use ipbench.Daemon.TestStatus.{TestStatus, is_running, running}
use ipbench.Daemon.Status.{str_status}
use ipbench.Daemon.Shunt.{Shunt}
use ipbench.Daemon.World.{World, reply, readline, on_status}
use ipbench.Daemon.Commands.{match_any, match_not_spaces}
use ipbench.Daemon.Common.{Cargo, Next, go_on, fail_with, parse_common_opts}
use ipbench.Daemon.Listen.{listen}
use ipbench.Daemon.Listen.Silent.{Fails, listen-Silent}
use ipbench.Daemon.Processes.{Life, live}

module _ {S : Shunt} (p : ℕ) (c : Cargo) (w : World S live) (rest : List Bytes) where
  abbrev sends : Text → ℕ → World S live
  sends line n = record w { input = line ∷ rest; writes = n }

  listen_busy :
      is_running w.status ≡ (returned true, w.status)
      → (n : ℕ)
      → listen S live false p c (sends (codes "HELLO\n") n) ≡ (
        returned (fail_with 421 (codes "Already Running")),
        record w { input = rest; writes = n },
      )
  unfolding listen parse_common_opts readline decode match_any match_not_spaces strip on_status
  listen_busy busy n = rw busy refl

  listen_silent :
      is_running w.status ≡ (returned false, w.status)
      → listen S live false p c (sends (codes "HELLO\n") 0)
        ≡ (raised broken_pipe, record w { input = rest; writes = 0 })
  unfolding listen parse_common_opts reply str_status readline decode match_any match_not_spaces
      strip on_status decimal encode
  listen_silent idle = rw idle refl

  listen_ready :
      (n : ℕ) (st : TestStatus)
      → is_running w.status ≡ (returned false, w.status)
      → running p w.status ≡ (returned tt, st)
      → listen S live false p c (sends (codes "HELLO\n") (suc n)) ≡ (
        returned (go_on "SETUP"),
        record w {
          input = rest;
          output = w.output ++ codes "200 OK (Ready to go)\n";
          writes = n;
          status = st;
        },
      )
  unfolding listen parse_common_opts reply str_status readline decode match_any match_not_spaces
      strip on_status decimal encode
  listen_ready n st idle marked = rw (idle, marked) refl

  listen_abort :
      (n : ℕ)
      → listen S live false p c (sends (codes "ABORT\n") n)
        ≡ (returned (go_on "ABORT"), record w { input = rest; writes = n })
  unfolding listen parse_common_opts readline decode match_any match_not_spaces strip
  listen_abort n = refl

zero_or_suc : (k : ℕ) → (k ≡ 0) ⊎ (0 < k)
zero_or_suc zero = inl refl
zero_or_suc (suc k) = inr (omega arith)

module _ {S : Shunt} where
  -- The status is as it was, or it held no id and now holds the process's; the process goes on with
  -- SETUP only in the latter case, and never with LISTEN.
  pub record Opened (k p : ℕ) (t : ℕ → Life) (r : Outcome Next) (w : World S live) : Type 0 where
    pub id : ℕ
    pub kept : (id ≡ k) ⊎ ((k ≡ 0) × (id ≡ p))
    pub quiet : Quiet id t w
    pub goes : Goes id p r w

  Fails-Goes : (k p : ℕ) (r : Outcome Next) (w : World S live) → Fails r → Goes k p r w
  Fails-Goes k p (returned a) w f = absurd f
  Fails-Goes k p (raised e) w f = tt
  Fails-Goes k p stalled w f = tt

  module _ (k p : ℕ) (t : ℕ → Life) (c : Cargo) (small : p < 10 ^ 19) where
    abbrev P : Outcome Next × World S live → Type 0
    P r = Opened k p t r.0 r.1

    opens_idle :
        (w : World S live) (rest : List Bytes) (n : ℕ)
        → Holds 0 w.status
        → w.processes ≡ t
        → k ≡ 0
        → P (listen S live false p c (sends p c w rest (codes "HELLO\n") n))
    unfolding stage_of upper
    opens_idle w rest zero h same idle =
        subst P (sym (listen_silent p c w rest (is_running_lem 0 w.status h))) (record {
          id = 0;
          kept = inl (sym idle);
          quiet = record { held = h; processes = same };
          goes = tt;
        })
    opens_idle w rest (suc n) h same idle =
        let (st, marked, h') = running_lem p 0 w.status h small in
        let e = listen_ready p c w rest n st (is_running_lem 0 w.status h) marked in
        subst P (sym e) (record {
          id = p;
          kept = inr (idle, refl);
          quiet = record { held = h'; processes = same };
          goes = (tt, λ alive own. refl);
        })

    opens_busy :
        (w : World S live) (rest : List Bytes) (n : ℕ)
        → 0 < k
        → Quiet k t w
        → P (listen S live false p c (sends p c w rest (codes "HELLO\n") n))
    unfolding stage_of upper
    opens_busy w rest n positive q =
        let busy : is_running w.status ≡ (returned true, w.status) =
          rw (← lt→ltb 0 k positive) (is_running_lem k w.status q.held) in
        subst P (sym (listen_busy p c w rest busy n)) (record {
          id = k;
          kept = inl refl;
          quiet = record { held = q.held; processes = q.processes };
          goes = (tt, λ alive own. absurd cc);
        })

    at_line :
        (w : World S live) (line : Text) (rest : List Bytes)
        → w.input ≡ line ∷ rest
        → P (listen S live false p c (sends p c w rest line w.writes))
        → P (listen S live false p c w)
    at_line w line rest e h =
        subst P (ap (λ l. listen S live false p c (record w { input = l })) (sym e)) h

    opens_abort :
        (w : World S live) (rest : List Bytes) (n : ℕ)
        → Quiet k t w
        → P (listen S live false p c (sends p c w rest (codes "ABORT\n") n))
    unfolding stage_of upper
    opens_abort w rest n q = subst P (sym (listen_abort p c w rest n)) (record {
      id = k;
      kept = inl refl;
      quiet = record { held = q.held; processes = q.processes };
      goes = (tt, λ alive own. absurd cc);
    })

    pub listen-Opened :
        (w : World S live) → Quiet k t w → Opens w.input → P (listen S live false p c w)
    listen-Opened w q (inl e) =
        let h = listen-Silent false p c w in
        let (r, w') = listen S live false p c (record w { input = [] }) in
        subst P (ap (λ l. listen S live false p c (record w { input = l })) (sym e)) (record {
          id = k;
          kept = inl refl;
          quiet = record {
            held = subst (λ st. Holds k st) (sym h.status) q.held;
            processes = h.processes ∙ q.processes;
          };
          goes = Fails-Goes k p r w' h.fails;
        })
    listen-Opened w q (inr (rest, inr e)) =
        at_line w (codes "ABORT\n") rest e (opens_abort w rest w.writes q)
    listen-Opened w q (inr (rest, inl e)) =
        at_line w (codes "HELLO\n") rest e (elim (zero_or_suc k) [
          | inl idle ↦
              opens_idle w rest w.writes (subst (λ x. Holds x w.status) idle q.held) q.processes
                idle
          | inr busy ↦ opens_busy w rest w.writes busy q
        ])
