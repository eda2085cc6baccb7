-- ===== src/Daemon/Target/Turns/Child.antt =====
-- The turns of a child: what it makes of the next line.
use ipbench.Prelude.{ℕ, ◌≡◌, refl, true, false, some, List, [], ◌∷◌}
use ipbench.Python.Text.{Text, Bytes, codes, strip, text_eq}
use ipbench.Python.Codec.{decode}
use ipbench.Daemon.TestStatus.{TestStatus}
use ipbench.Daemon.Shunt.{Shunt}
use ipbench.Daemon.World.{kill, readline}
use ipbench.Daemon.Commands.{match_any, match_word}
use ipbench.Daemon.Common.{one, error_cargo, parse_common_opts}
use ipbench.Daemon.Common.Line.{parse_common_opts_line}
use ipbench.Daemon.Target.{child_run}
use ipbench.Daemon.Processes.{update}
use ipbench.Daemon.Target.System.{
  Life, runs, told, interrupted, ended, live, Place, at, child_of, turn,
}
use ipbench.Daemon.Target.Turns.{system}

module _ {S : Shunt} where
  module _ (lines : List Bytes) (out : Bytes) (n : ℕ) (st : TestStatus) (lives : ℕ → Life)
      (shunts : ℕ → S.State) (places : ℕ → Place) (fresh : ℕ) where
    -- The child reads STOP while its parent runs: SIGUSR1 tells the parent's plugin to stop.
    pub child_stops :
        (p c : ℕ)
        → lives c ≡ runs
        → lives p ≡ runs
        → places c ≡ child_of p
        → turn S c (system (codes "STOP\n" ∷ lines) out n st lives shunts places fresh)
          ≡ system lines out n st
              (update (update lives p told) c ended)
              (update shunts c (shunts c))
              places
              fresh
    unfolding turn child_run parse_common_opts readline decode match_any match_word strip kill
    child_stops p c alive working here = rw (alive, here, working) refl

    -- The child reads ABORT while its parent runs.
    pub child_aborts :
        (p c : ℕ)
        → lives c ≡ runs
        → lives p ≡ runs
        → places c ≡ child_of p
        → turn S c (system (codes "ABORT\n" ∷ lines) out n st lives shunts places fresh)
          ≡ system lines out n st
              (update (update lives p interrupted) c ended)
              (update shunts c (shunts c))
              places
              fresh
    unfolding turn child_run parse_common_opts readline decode match_any match_word strip kill
    child_aborts p c alive working here = rw (alive, here, working) refl

    -- The child reads QUIT.
    pub child_quits :
        (p c : ℕ)
        → lives c ≡ runs
        → places c ≡ child_of p
        → turn S c (system (codes "QUIT\n" ∷ lines) out n st lives shunts places fresh)
          ≡ system lines out n st lives
              (update shunts c (shunts c))
              (update places c (at (codes "ERROR") (error_cargo 222 (codes "Come back soon!"))))
              fresh
    unfolding turn child_run parse_common_opts readline decode match_any match_word strip kill
    child_quits p c alive here = rw (alive, here) refl

    -- The child reads another command.
    pub child_marshalls :
        (p c : ℕ) (raw : Bytes) (line text cmd : Text)
        → lives c ≡ runs
        → places c ≡ child_of p
        → decode raw ≡ some line
        → strip line ≡ text
        → text_eq (match_any text) (codes "HELP") ≡ false
        → text_eq (match_any text) (codes "STATUS") ≡ false
        → text_eq text (codes "ABORT") ≡ false
        → text_eq text (codes "QUIT") ≡ false
        → match_word text ≡ some cmd
        → text_eq cmd (codes "STOP") ≡ false
        → turn S c (system (raw ∷ lines) out n st lives shunts places fresh)
          ≡ system lines out n st lives
              (update shunts c (shunts c))
              (update places c (at (codes "MARSHALL") one))
              fresh
    unfolding turn child_run
    child_marshalls p c raw line text cmd alive here read stripped h1 h2 h3 h4 word other =
        rw
          (
            alive,
            here,
            parse_common_opts_line {S = S} {O = live} true raw line text lines
                (record {
                  input = [];
                  output = out;
                  writes = n;
                  status = st;
                  shunt = shunts c;
                  processes = lives;
                })
                read stripped h1 h2,
            h3,
            h4,
            word,
            other,
          )
          refl
