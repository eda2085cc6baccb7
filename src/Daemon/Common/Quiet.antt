-- ===== src/Daemon/Common/Quiet.antt =====
-- The shared parts of the handlers leave the status and the process table as they were.
use ipbench.Prelude.{ℕ, Bool, true, false, List, [], ◌∷◌}
use ipbench.Python.Text.{Text, Bytes, codes, text_eq, strip}
use ipbench.Python.Outcome.{Outcome, returned, raised, stalled, Exn, runtime_error}
use ipbench.Python.Exec.{Exec}
use ipbench.Python.Exec.Stays.{Stays, Stays-lift, Stays-if, Stays-bind}
use ipbench.Daemon.TestStatus.{is_running, running_pid}
use ipbench.Daemon.Shunt.{Shunt}
use ipbench.Daemon.World.{Os, World, reply, readline, on_status}
use ipbench.Daemon.World.Quiet.{
  Quiet, send-Quiet, reply-Quiet, readline-Quiet, asks-Quiet, names-Quiet, then-Quiet,
}
use ipbench.Daemon.Commands.{match_any}
use ipbench.Daemon.Common.{
  Next, caught, after_plugin, try_plugin, refuse, help, show_status, running_line, common_line,
  common_opts, parse_common_opts, by_line, on_line,
}

module _ {S : Shunt} {O : Os} (k : ℕ) (t : O.Table) where
  abbrev pub Stay : {A : Type 0} → Exec (World S O) A → Type 0
  Stay m = Stays (Quiet {S = S} {O = O} k t) m

  pub caught-Quiet : (e : Exn) → Stay (caught S O e)
  caught-Quiet (runtime_error detail) = Stays-lift _
  caught-Quiet _ = Stays-lift _

  pub after_plugin-Quiet :
      {A : Type 0} (r : Outcome A) (f : A → Exec (World S O) Next)
      → ((a : A) → Stay (f a))
      → Stay (after_plugin S O r f)
  after_plugin-Quiet (returned a) f hf = hf a
  after_plugin-Quiet (raised e) f hf = caught-Quiet e
  after_plugin-Quiet stalled f hf = Stays-lift _

  pub try_plugin-Quiet :
      {A : Type 0} (m : Exec (World S O) A) (f : A → Exec (World S O) Next)
      → Stay m
      → ((a : A) → Stay (f a))
      → Stay (try_plugin S O m f)
  try_plugin-Quiet m f hm hf = record {
    from = λ w q. (after_plugin-Quiet (m w).0 f hf).from (m w).1 (hm.from w q);
  }

  pub refuse-Quiet : (again : Exec (World S O) Next) → Stay again → Stay (refuse S O again)
  refuse-Quiet again h = then-Quiet k t (reply 500 []) again (reply-Quiet k t 500 []) h

  module _ (target : Bool) where
    running_line-Quiet : (busy : Bool) → Stay (running_line S O target busy)
    unfolding running_line
    running_line-Quiet false = send-Quiet k t _
    running_line-Quiet true =
        Stays-bind (on_status running_pid) _ (names-Quiet k t) (λ p. send-Quiet k t _)

    help-Quiet : Stay (help S O target)
    unfolding help
    help-Quiet = then-Quiet k t _ _ (send-Quiet k t _) (reply-Quiet k t 200 [])

    show_status-Quiet : Stay (show_status S O target)
    unfolding show_status
    show_status-Quiet = then-Quiet k t _ _ (send-Quiet k t _) (
        Stays-bind (on_status is_running) _ (asks-Quiet k t)
          (λ busy. then-Quiet k t _ _ (running_line-Quiet busy) (reply-Quiet k t 200 [])))

    common_opts-Quiet : (lines : List Bytes) → Stay (common_opts S O target lines)
    unfolding common_opts common_line
    common_opts-Quiet [] = Stays-bind readline _ (readline-Quiet k t) (λ line. Stays-lift _)
    common_opts-Quiet (line ∷ rest) = Stays-bind readline _ (readline-Quiet k t) (λ text.
        Stays-if (text_eq (match_any (strip text)) (codes "HELP")) _ _
          (then-Quiet k t _ _ help-Quiet (common_opts-Quiet rest))
          (Stays-if (text_eq (match_any (strip text)) (codes "STATUS")) _ _
            (then-Quiet k t _ _ show_status-Quiet (common_opts-Quiet rest)) (Stays-lift _)))

    pub parse_common_opts-Quiet : Stay (parse_common_opts S O target)
    unfolding parse_common_opts
    parse_common_opts-Quiet = record { from = λ w q. (common_opts-Quiet w.input).from w q }

    pub on_line-Quiet :
        (f : Text → Exec (World S O) Next)
        → ((line : Text) → Stay (f line))
        → Stay (on_line S O target f)
    on_line-Quiet f h =
        Stays-bind (parse_common_opts S O target) (by_line S O target f) parse_common_opts-Quiet
          (λ line.
            Stays-if (text_eq line (codes "ABORT")) _ _ (Stays-lift _)
              (Stays-if (text_eq line (codes "QUIT")) _ _ (Stays-lift _) (h line)))
